-- ===== src/Gateway/Server/Silence.antt =====
-- internal/gateway/server.go: once a client has unwatched a Codex, no event of that watch follows.
use codex_remote.Prelude.{
  ℕ, ◌≤◌, String, Bool, true, false, not, ◌||◌, All, ◌≡◌, ◌≢◌, refl, Option, none, some, List, [],
  ◌∷◌, lookup, remove, if_cases, eq_iff, arith, if◌then◌else◌, ltb, str_eq,
}
use codex_remote.Gateway.Server.{
  ServerConfig, frame_too_large, invalid_frame, hello_required, protocol_version_unsupported,
  server_hello, unwatched, answered, pong, Connection, Events,
}
use codex_remote.Gateway.Server.Queue.{clear_watches, take_outbound, write_outbound, hang_up, quit}
use codex_remote.Gateway.Server.Watches.{Step, unwatching, handle_unwatch}
use codex_remote.Gateway.Server.Frames.{
  Inbound, client_hello, requested, pinged, ponged, close, other_payload, Raw, Next, hello,
  handle_frame, decoded, handle_raw, read_loop, is_version,
}
use codex_remote.Gateway.Server.Order.{
  comes_from, events_at, Absent, Silent, Silent-watches, protocol_close-Silent, enqueue-Silent,
}
use codex_remote.Gateway.Server.Handed.{
  heartbeat-Silent, forward_event-Silent, forward_end-Silent, forward_slow-Silent,
  handle_watch-Silent, handle_unwatch-Silent,
}
use codex_remote.Gateway.Server.Store.{
  IsSpent, KeepsStore, handle_watch-Inv, handle_unwatch-Inv, clear_watches-Inv,
}
use codex_remote.Gateway.Server.Taken.{
  shut-Silent, take_at-Silent, write_at-Silent, hang_at-Silent, quit_at-Silent,
}
use codex_remote.Gateway.Server.Moves.{
  Move, reads, watches, unwatches, answers, forwards, ends, slows, ticks, takes, writes, hangs_up,
  quits, leaves, clears, happens, step, run,
}

module _ {R V P : Type 0} (cfg : ServerConfig) (w n : ℕ) where
  fields-Silent :
      (id run : String) (now : ℕ) (c : Connection R V P)
      → Silent w n c
      → Silent w n (record c { client_id = id; client_run_id = run; last_valid = now })
  unfolding events_at
  fields-Silent id run now c v = record { absent = v.absent; events = v.events }

module _ {R V P Q : Type 0} (cfg : ServerConfig) (w n : ℕ) where
  choice-Silent :
      (b : Bool) (x y : Next Q × Connection R V P)
      → Silent w n x.1
      → Silent w n y.1
      → Silent w n (if b then x else y).1
  choice-Silent true x y h k = h
  choice-Silent false x y h k = k

  hello-Silent :
      (f : Inbound Q) (c : Connection R V P) → Silent w n c → Silent w n (hello cfg f c).1
  unfolding hello comes_from
  hello-Silent (client_hello id run version) c v =
      choice-Silent (str_eq id "" || str_eq run "" || not (is_version version)) _ _
        (protocol_close-Silent cfg w n protocol_version_unsupported c v)
        (enqueue-Silent cfg w n server_hello (record c { client_id = id; client_run_id = run }) refl
          (fields-Silent cfg w n id run c.last_valid c v))
  hello-Silent (requested q) c v = protocol_close-Silent cfg w n hello_required c v
  hello-Silent (pinged nonce sent) c v = protocol_close-Silent cfg w n hello_required c v
  hello-Silent (ponged ids) c v = protocol_close-Silent cfg w n hello_required c v
  hello-Silent close c v = protocol_close-Silent cfg w n hello_required c v
  hello-Silent other_payload c v = protocol_close-Silent cfg w n hello_required c v

  handle_frame-Silent :
      (now : ℕ) (f : Inbound Q) (c : Connection R V P)
      → Silent w n c
      → Silent w n (handle_frame cfg now f c).1
  unfolding handle_frame comes_from
  handle_frame-Silent now (client_hello id run version) c v =
      protocol_close-Silent cfg w n invalid_frame c v
  handle_frame-Silent now (requested q) c v = v
  handle_frame-Silent now (pinged nonce sent) c v =
      enqueue-Silent cfg w n (pong nonce sent now) c refl v
  handle_frame-Silent now (ponged ids) c v = v
  handle_frame-Silent now close c v = v
  handle_frame-Silent now other_payload c v = protocol_close-Silent cfg w n invalid_frame c v

  decoded-Silent :
      (now : ℕ) (hello_only : Bool) (f : Option (Inbound Q)) (c : Connection R V P)
      → Silent w n c
      → Silent w n (decoded cfg now hello_only f c).1
  unfolding decoded
  decoded-Silent now hello_only none c v = protocol_close-Silent cfg w n invalid_frame c v
  decoded-Silent now hello_only (some f) c v =
      let c' = record c { last_valid = now } in
      let v' = fields-Silent cfg w n c.client_id c.client_run_id now c v in
      choice-Silent hello_only _ _ (hello-Silent f c' v') (handle_frame-Silent now f c' v')

  read_loop-Silent :
      (now : ℕ) (raw : Raw Q) (c : Connection R V P)
      → Silent w n c
      → Silent w n (read_loop cfg now raw c).1
  unfolding read_loop handle_raw
  read_loop-Silent now raw c v =
      choice-Silent (ltb cfg.max_frame_bytes raw.size) _ _
        (protocol_close-Silent cfg w n frame_too_large c v)
        (choice-Silent (not raw.is_text) _ _ (protocol_close-Silent cfg w n invalid_frame c v)
          (decoded-Silent now (str_eq c.client_id "") raw.frame c v))

module _ {R V P S : Type 0} (ev : Events S V P) (cfg : ServerConfig) (w n : ℕ) where
  unwatching-Absent :
      (id : String) (c : Connection R V P) (s : S)
      → Absent w (remove id c.watches)
      → (o : Option ℕ) → lookup id c.watches ≡ o
      → o ≡ some w
      → events_at w c ≤ n
      → Silent w n (unwatching ev cfg id o c s).0
  unfolding unwatching events_at
  unwatching-Absent id c s absent none h e low = ground (arith, e)
  unwatching-Absent id c s absent (some old) h e low = record { absent = absent; events = low }

module _ {Q R V P S : Type 0} (ev : Events S V P) (cfg : ServerConfig) (w n : ℕ) (Inv : S → Type 0)
    (spent : IsSpent ev w Inv) where
  step-Silent :
      (m : Move Q R V P S) (c : Connection R V P) (s : S)
      → Inv s
      → Silent w n c
      → Silent w n (step ev cfg m (c, s)).0
  unfolding step comes_from take_outbound write_outbound hang_up quit clear_watches
  step-Silent (reads now raw) c s i v = read_loop-Silent cfg w n now raw c v
  step-Silent (watches over request req) c s i v =
      handle_watch-Silent ev cfg w n Inv spent over request req c s i v
  step-Silent (unwatches over request id) c s i v =
      handle_unwatch-Silent ev cfg w n Inv spent over request id c s v
  step-Silent (answers r) c s i v = enqueue-Silent cfg w n (answered r) c refl v
  step-Silent (forwards id from e) c s i v = forward_event-Silent cfg w n id from e c v
  step-Silent (ends id from) c s i v = forward_end-Silent cfg w n id from c v
  step-Silent (slows id from) c s i v = forward_slow-Silent cfg w n id from c v
  step-Silent (ticks now nonce) c s i v = heartbeat-Silent cfg w n now nonce c v
  step-Silent (takes late) c s i v = take_at-Silent cfg w n c.writer late c v
  step-Silent (writes wire) c s i v = write_at-Silent cfg w n wire c.writer c refl v
  step-Silent hangs_up c s i v = hang_at-Silent cfg w n c.writer c v
  step-Silent quits c s i v = quit_at-Silent cfg w n c.writer c v
  step-Silent leaves c s i v = shut-Silent cfg w n c v
  step-Silent clears c s i v = Silent-watches cfg w n c [] tt v
  step-Silent (happens f) c s i v = v

  step-Inv :
      (m : Move Q R V P S) (c : Connection R V P) (s : S)
      → KeepsStore Inv m
      → Inv s
      → Inv (step ev cfg m (c, s)).1
  unfolding step
  step-Inv (reads now raw) c s k i = i
  step-Inv (watches over request req) c s k i =
      handle_watch-Inv ev cfg w Inv spent over request req c s i
  step-Inv (unwatches over request id) c s k i =
      handle_unwatch-Inv ev cfg w Inv spent over request id c s i
  step-Inv (answers r) c s k i = i
  step-Inv (forwards id from e) c s k i = i
  step-Inv (ends id from) c s k i = i
  step-Inv (slows id from) c s k i = i
  step-Inv (ticks now nonce) c s k i = i
  step-Inv (takes late) c s k i = i
  step-Inv (writes wire) c s k i = i
  step-Inv hangs_up c s k i = i
  step-Inv quits c s k i = i
  step-Inv leaves c s k i = i
  step-Inv clears c s k i = clear_watches-Inv ev cfg w Inv spent c s i
  step-Inv (happens f) c s k i = k s i

  run-Silent :
      (ms : List (Move Q R V P S)) (c : Connection R V P) (s : S)
      → All (KeepsStore Inv) ms
      → Inv s
      → Silent w n c
      → Silent w n (run ev cfg ms (c, s)).0
  unfolding run
  run-Silent [] c s k i v = v
  run-Silent (m ∷ ms) c s k i v =
      let r = step ev cfg m (c, s) in
      run-Silent ms r.0 r.1 k.1 (step-Inv m c s k.0 i) (step-Silent m c s i v)

module _ {Q R V P S : Type 0} (ev : Events S V P) (cfg : ServerConfig) where
  -- After UnwatchCodex in time for a Codex that the connection watches: whatever the goroutines of the
  -- connection do next, the old forwarder included, no further event of that watch is queued, taken
  -- by the writer or written. Assumed is that the watch is of no other Codex, and that from what the
  -- event store is then, whatever happens to it, it never hands the watch out again.
  pub run-handle_unwatch :
      (request id : String) (w : ℕ) (Inv : S → Type 0) (ms : List (Move Q R V P S))
      (c : Connection R V P) (s : S)
      → id ≢ ""
      → lookup id c.watches ≡ some w
      → Absent w (remove id c.watches)
      → IsSpent ev w Inv
      → Inv s
      → All (KeepsStore Inv) ms
      → events_at w (run ev cfg (unwatches false request id ∷ ms) (c, s)).0 ≤ events_at w c
  unfolding run step handle_unwatch comes_from
  run-handle_unwatch request id w Inv ms c s named here absent spent i kept =
      let n = events_at w c in
      let r = unwatching ev cfg id (lookup id c.watches) c s in
      let gone =
        unwatching-Absent ev cfg w n id c s absent (lookup id c.watches) refl here (omega arith) in
      let after = enqueue-Silent cfg w n (unwatched request id) r.0 refl gone in
      let u = handle_unwatch ev cfg false request id c s in
      let v : Silent w n u.0 =
        if_cases (λ (x : Step R V P S). Silent w n x.0) (str_eq id "")
          (λ blank. ground (arith, named, blank, eq_iff id "")) (λ given. after) in
      (run-Silent ev cfg w n Inv spent ms u.0 u.1 kept
        (handle_unwatch-Inv ev cfg w Inv spent false request id c s i) v).events
