-- ===== src/Persistence.antt =====
-- internal/persistence/store.go: the tables that the Host keeps in SQLite, one map for each table
-- that the modelled statements read or write. A statement may fail, and a commit may report an
-- error after or before it took effect: `faults` is the driver's answers to the coming
-- transactions, in order, and `runs` once they are used up.
pub mod Events
pub mod Dedup
use codex_remote.Prelude.{ℕ, String, Bool, List, [], ◌∷◌, Map}

pub data Fault : Type 0 where
  -- every statement runs
  runs : Fault
  -- some statement before the commit fails, and the transaction is rolled back
  fails : Fault
  -- the commit returns an error; the flag says whether it was applied
  commit_fails : Bool → Fault

-- The columns `current_view_json` and `last_activity_at_ms` of the table `codexes`, which the
-- event transaction writes.
pub record CodexRow : Type 0 where
  pub current_view_json : List ℕ
  pub last_activity_at_ms : ℕ

pub data Status : Type 0 where
  in_progress completed : Status

-- A row of the table `request_dedup`.
pub record DedupRow : Type 0 where
  pub operation : String
  pub fingerprint : List ℕ
  pub status : Status
  pub response_json : List ℕ

pub record Db : Type 0 where
  pub codexes : Map CodexRow
  pub event_heads : Map ℕ
  pub request_dedup : Map DedupRow
  pub faults : List Fault
  -- what time.Now().UnixMilli() answers
  pub now : ℕ

unfoldable pub next_fault : List Fault → Fault
next_fault [] = runs
next_fault (f ∷ fs) = f

unfoldable pub later_faults : List Fault → List Fault
later_faults [] = []
later_faults (f ∷ fs) = fs
