-- ===== src/Gateway/Server/Frames.antt =====
-- internal/gateway/server.go: `handleRaw` and `handleRequest`. What a message decodes to is given.
use codex_remote.Prelude.{
  ℕ, String, Bool, false, not, ◌||◌, Option, none, some, List, [], ◌∷◌, if◌then◌else◌, ltb, str_eq,
  ◌==◌,
}
use codex_remote.Gateway.Server.{
  ServerConfig, CloseCode, frame_too_large, invalid_frame, hello_required,
  protocol_version_unsupported, server_hello, pong, Connection,
}
use codex_remote.Gateway.Server.Queue.{enqueue, protocol_close}

pub record Version : Type 0 where
  pub major : ℕ
  pub minor : ℕ
  pub patch : ℕ

-- The payloads of a frame that a client may or may not send; `Q` is a request.
pub data Inbound (Q : Type 0) : Type 0 where
  client_hello : String → String → Option Version → Inbound Q
  requested : Q → Inbound Q
  pinged : ℕ → ℕ → Inbound Q
  ponged : List String → Inbound Q
  close : Inbound Q
  other_payload : Inbound Q

-- A WebSocket message; `frame` is none if it is no ProtoJSON Frame or a Frame without a payload.
pub record Raw (Q : Type 0) : Type 0 where
  pub size : ℕ
  pub is_text : Bool
  pub frame : Option (Inbound Q)

-- What the reader does next, besides what the connection has become.
pub data Next (Q : Type 0) : Type 0 where
  stop : Next Q
  continue : Next Q
  -- `go c.handleRequest`
  starts : Q → Next Q
  -- `RenewForegroundCodexes`
  renews : List String → Next Q

unfoldable pub is_version : Option Version → Bool
is_version none = false
is_version (some v) = if v.major == 1 then (if v.minor == 2 then v.patch == 0 else false) else false

renewed : {Q : Type 0} → List String → Next Q
renewed [] = continue
renewed (id ∷ ids) = renews (id ∷ ids)

module _ {R V P Q : Type 0} (cfg : ServerConfig) where
  unfoldable pub refuse : CloseCode → Connection R V P → Next Q × Connection R V P
  unfolding protocol_close
  refuse code c = (stop, protocol_close code c)

  -- The first frame; `sendHello` answers it.
  unfoldable pub hello : Inbound Q → Connection R V P → Next Q × Connection R V P
  unfolding refuse is_version enqueue
  hello (client_hello id run version) c =
      if str_eq id "" || str_eq run "" || not (is_version version)
      then refuse protocol_version_unsupported c
      else (
        continue,
        (enqueue cfg server_hello (record c { client_id = id; client_run_id = run })).1,
      )
  hello (requested q) c = refuse hello_required c
  hello (pinged nonce sent) c = refuse hello_required c
  hello (ponged ids) c = refuse hello_required c
  hello close c = refuse hello_required c
  hello other_payload c = refuse hello_required c

  unfoldable pub handle_frame : ℕ → Inbound Q → Connection R V P → Next Q × Connection R V P
  unfolding refuse enqueue renewed
  handle_frame now (client_hello id run version) c = refuse invalid_frame c
  handle_frame now (requested q) c = (starts q, c)
  handle_frame now (pinged nonce sent) c = (continue, (enqueue cfg (pong nonce sent now) c).1)
  handle_frame now (ponged ids) c = (renewed ids, c)
  handle_frame now close c = (stop, c)
  handle_frame now other_payload c = refuse invalid_frame c

  unfoldable pub decoded :
      ℕ → Bool → Option (Inbound Q) → Connection R V P → Next Q × Connection R V P
  unfolding refuse hello handle_frame
  decoded now hello_only none c = refuse invalid_frame c
  decoded now hello_only (some f) c =
      let c' = record c { last_valid = now } in
      if hello_only then hello f c' else handle_frame now f c'

  unfoldable pub handle_raw : ℕ → Bool → Raw Q → Connection R V P → Next Q × Connection R V P
  unfolding refuse decoded
  handle_raw now hello_only raw c =
      if ltb cfg.max_frame_bytes raw.size
      then refuse frame_too_large c
      else (if not raw.is_text then refuse invalid_frame c else decoded now hello_only raw.frame c)

  -- One round of `readLoop`: the first frame is read as a hello until one was accepted.
  unfoldable pub read_loop : ℕ → Raw Q → Connection R V P → Next Q × Connection R V P
  unfolding handle_raw
  read_loop now raw c = handle_raw now (str_eq c.client_id "") raw c
