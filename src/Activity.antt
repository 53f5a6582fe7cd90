-- ===== src/Activity.antt =====
-- internal/activity/store.go: the in-memory event streams of the Codexes. The CurrentView and the
-- body of an event are protobuf messages of the generated package: type parameters `V` and `P`.
pub mod Interface
pub mod Suffix
pub mod Load
pub mod Publish
pub mod Watch
pub mod Forget
pub mod Invariant
pub mod History
pub mod Delivery
use codex_remote.Prelude.{ℕ, String, Bool, Option, List, Map}

pub data Payload (P : Type 0) : Type 0 where
  codex_forgotten : Payload P
  body : P → Payload P

pub record Event (P : Type 0) : Type 0 where
  pub codex_id : String
  pub event_seq : ℕ
  pub occurred_at_unix_ms : ℕ
  pub caused_by_request_id : String
  pub payload : Payload P

pub record CurrentView (V : Type 0) : Type 0 where
  pub head_event_seq : ℕ
  pub content : V

-- A watcher with its two channels: `events` is the buffered channel, oldest first.
pub record Watcher (P : Type 0) : Type 0 where
  pub id : ℕ
  pub queue : ℕ
  pub events : List (Event P)
  pub events_closed : Bool
  pub slow_closed : Bool

pub record Stream (V P : Type 0) : Type 0 where
  pub head : ℕ
  pub events : List (Event P)
  pub view : Option (CurrentView V)
  pub replay_unsafe : Bool
  pub safe_replay_floor : Option ℕ
  pub needs_reload : Bool
  pub next_watcher : ℕ
  pub watchers : List (Watcher P)

-- The Store, with the database behind its `persist`. `departed` holds the watchers that left the
-- map `watchers` of their stream, with its Codex: their clients can still read what is buffered.
pub record World (V P D : Type 0) : Type 0 where
  pub capacity : ℕ
  pub codex : Map (Stream V P)
  pub audit_err : Option String
  pub departed : List (String × Watcher P)
  pub db : D
