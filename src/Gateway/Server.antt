-- ===== src/Gateway/Server.antt =====
-- internal/gateway/server.go: the state of one connection. `R` is the content of a response of the
-- dispatcher; a watch is known by a number, where the code compares pointers. An operation under the
-- lock on `watches` is one step, and so is a frame that is queued; the writer takes, writes and hangs
-- up in steps of their own.
pub mod Queue
pub mod Watches
pub mod Frames
pub mod Moves
pub mod Bounds
pub mod Handled
pub mod Read
pub mod Writer
pub mod Running
pub mod Order
pub mod Taken
pub mod Store
pub mod Handed
pub mod Ledger
pub mod Silence
pub mod Closing
use codex_remote.Prelude.{
  ℕ, String, Bool, true, false, Option, none, some, List, [], ◌∷◌, Map, if◌then◌else◌, ◌==◌,
}
use codex_remote.Errors.{Result}
use codex_remote.Gateway.{ErrorCode}
use codex_remote.Activity.{Event}
use codex_remote.Activity.Watch.{Watch, Response}

-- Whole seconds and bytes are natural numbers; a value that is not positive is 0.
pub record ServerConfig : Type 0 where
  pub max_frame_bytes : ℕ
  pub send_queue_size : ℕ
  pub watch_queue_size : ℕ
  pub heartbeat_interval : ℕ
  pub connection_timeout : ℕ
  pub max_watches : ℕ
  pub host_run_id : String
  -- whether the server has an event store
  pub has_events : Bool

positive_or : ℕ → ℕ → ℕ
positive_or given n = if n == 0 then given else n

-- `NewServer`
unfoldable pub new_server : ServerConfig → ServerConfig
unfolding positive_or
new_server cfg = record {
  max_frame_bytes = positive_or 4194304 cfg.max_frame_bytes;
  send_queue_size = positive_or 256 cfg.send_queue_size;
  watch_queue_size = positive_or 128 cfg.watch_queue_size;
  heartbeat_interval = positive_or 15 cfg.heartbeat_interval;
  connection_timeout = positive_or 45 cfg.connection_timeout;
  max_watches = positive_or 64 cfg.max_watches;
  host_run_id = cfg.host_run_id;
  has_events = cfg.has_events;
}

pub data CloseCode : Type 0 where
  frame_too_large invalid_frame hello_required protocol_version_unsupported : CloseCode
  slow_consumer internal_protocol_error connection_timeout : CloseCode

-- The frames of a connection, with the watch that an event came from.
pub data Outbound (R V P : Type 0) : Type 0 where
  server_hello : Outbound R V P
  refusal : String → ErrorCode → Bool → Outbound R V P
  watched : String → Response V → Outbound R V P
  unwatched : String → String → Outbound R V P
  answered : R → Outbound R V P
  event : ℕ → Event P → Outbound R V P
  ping : ℕ → ℕ → Outbound R V P
  pong : ℕ → ℕ → ℕ → Outbound R V P

-- Where the goroutine of the writer is: at the two `select`s of its loop; about to write a frame, or the
-- Close of the control channel; in `writeFormalClose`; in the WebSocket's Close handshake, which
-- comes before `cancel`; or gone.
pub data WriterState (R V P : Type 0) : Type 0 where
  idle : WriterState R V P
  sending : Outbound R V P → WriterState R V P
  sending_close formal_close : CloseCode → WriterState R V P
  hanging_up returned : WriterState R V P

pub record Connection (R V P : Type 0) : Type 0 where
  pub client_id : String
  pub client_run_id : String
  pub last_valid : ℕ
  pub watches : Map ℕ
  pub send : List (Outbound R V P)
  -- the control channel, of capacity 1
  pub control : Option CloseCode
  pub close_once : Bool
  pub cancelled : Bool
  pub writer : WriterState R V P
  -- what was written on the WebSocket: the frames, the last one first, and the Close
  pub written : List (Outbound R V P)
  pub close_written : Option CloseCode

-- What the connection uses of the event store.
pub record Events (S V P : Type 0) : Type 0 where
  pub watch : String → Option ℕ → ℕ → S → Result (Watch V P) × S
  pub force_reset : String → ℕ → S → Result (Watch V P) × S
  pub cancel : String → ℕ → S → S
