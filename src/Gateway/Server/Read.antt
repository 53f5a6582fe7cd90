-- ===== src/Gateway/Server/Read.antt =====
-- internal/gateway/server.go: the reader within the bounds of the connection.
use codex_remote.Prelude.{
  ℕ, String, Bool, true, false, not, ◌||◌, refl, Option, none, some, arith, if◌then◌else◌, ltb,
  str_eq,
}
use codex_remote.Gateway.Server.{
  ServerConfig, frame_too_large, invalid_frame, hello_required, protocol_version_unsupported,
  server_hello, pong, Connection,
}
use codex_remote.Gateway.Server.Queue.{enqueue}
use codex_remote.Gateway.Server.Frames.{
  Inbound, client_hello, requested, pinged, ponged, close, other_payload, Raw, Next, hello,
  handle_frame, decoded, handle_raw, read_loop, is_version,
}
use codex_remote.Gateway.Server.Bounds.{
  Queues, Queues-self, Queues-trans, protocol_close-Queues, enqueue-Queues,
}

module _ {R V P : Type 0} (cfg : ServerConfig) where
  fields-Queues :
      (id run : String) (now : ℕ) (c : Connection R V P)
      → Queues cfg c (record c { client_id = id; client_run_id = run; last_valid = now })
  fields-Queues id run now c = record {
    written = refl;
    close_written = refl;
    cancelled = refl;
    writer = refl;
    send = omega arith;
    watches = omega arith;
  }

module _ {R V P Q : Type 0} (cfg : ServerConfig) where
  choice-Queues :
      (b : Bool) (c : Connection R V P) (x y : Next Q × Connection R V P)
      → Queues cfg c x.1
      → Queues cfg c y.1
      → Queues cfg c (if b then x else y).1
  choice-Queues true c x y h k = h
  choice-Queues false c x y h k = k

  hello-Queues : (f : Inbound Q) (c : Connection R V P) → Queues cfg c (hello cfg f c).1
  unfolding hello
  hello-Queues (client_hello id run version) c =
      let c' = record c { client_id = id; client_run_id = run } in
      choice-Queues (str_eq id "" || str_eq run "" || not (is_version version)) c _ _
        (protocol_close-Queues cfg protocol_version_unsupported c)
        (Queues-trans cfg c c' (enqueue cfg server_hello c').1
          (fields-Queues cfg id run c.last_valid c) (enqueue-Queues cfg server_hello c'))
  hello-Queues (requested q) c = protocol_close-Queues cfg hello_required c
  hello-Queues (pinged nonce sent) c = protocol_close-Queues cfg hello_required c
  hello-Queues (ponged ids) c = protocol_close-Queues cfg hello_required c
  hello-Queues close c = protocol_close-Queues cfg hello_required c
  hello-Queues other_payload c = protocol_close-Queues cfg hello_required c

  handle_frame-Queues :
      (now : ℕ) (f : Inbound Q) (c : Connection R V P) → Queues cfg c (handle_frame cfg now f c).1
  unfolding handle_frame
  handle_frame-Queues now (client_hello id run version) c =
      protocol_close-Queues cfg invalid_frame c
  handle_frame-Queues now (requested q) c = Queues-self cfg c
  handle_frame-Queues now (pinged nonce sent) c = enqueue-Queues cfg (pong nonce sent now) c
  handle_frame-Queues now (ponged ids) c = Queues-self cfg c
  handle_frame-Queues now close c = Queues-self cfg c
  handle_frame-Queues now other_payload c = protocol_close-Queues cfg invalid_frame c

  decoded-Queues :
      (now : ℕ) (hello_only : Bool) (f : Option (Inbound Q)) (c : Connection R V P)
      → Queues cfg c (decoded cfg now hello_only f c).1
  unfolding decoded
  decoded-Queues now hello_only none c = protocol_close-Queues cfg invalid_frame c
  decoded-Queues now hello_only (some f) c =
      let c' = record c { last_valid = now } in
      let same = fields-Queues cfg c.client_id c.client_run_id now c in
      choice-Queues hello_only c _ _
        (Queues-trans cfg c c' (hello cfg f c').1 same (hello-Queues f c'))
        (Queues-trans cfg c c' (handle_frame cfg now f c').1 same (handle_frame-Queues now f c'))

  pub read_loop-Queues :
      (now : ℕ) (raw : Raw Q) (c : Connection R V P) → Queues cfg c (read_loop cfg now raw c).1
  unfolding read_loop handle_raw
  read_loop-Queues now raw c =
      choice-Queues (ltb cfg.max_frame_bytes raw.size) c _ _
        (protocol_close-Queues cfg frame_too_large c)
        (choice-Queues (not raw.is_text) c _ _ (protocol_close-Queues cfg invalid_frame c)
          (decoded-Queues now (str_eq c.client_id "") raw.frame c))
