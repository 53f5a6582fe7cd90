-- ===== src/Codex.antt =====
-- internal/codex/manager.go: the state that the management lease of a Codex lives in. Fields that
-- the modelled operations copy unchanged are left out; a view in `by_id` has its Codex, so that a
-- missing key stands for both nil tests of the code. Times are Unix milliseconds.
pub mod Store
pub mod Lease
pub mod Budget
pub mod Pages
pub mod Items
pub mod Pending
pub mod Turn
use codex_remote.Prelude.{ℕ, String, Bool, Option, List, Map}
use codex_remote.Errors.{Error}

pub data CodexStatus : Type 0 where
  idle running waiting_for_approval waiting_for_user_input interrupting : CodexStatus
  -- any other value of the protocol's enum
  other_status : ℕ → CodexStatus

pub data ManagementState : Type 0 where
  unspecified managed expiring_soon unmanaged : ManagementState

pub data WarningCode : Type 0 where
  management_expiring_soon : WarningCode
  other_warning : ℕ → WarningCode

pub record Warning : Type 0 where
  pub warning_code : WarningCode
  pub managed_until_unix_ms : ℕ

pub record Codex : Type 0 where
  pub codex_id : String
  pub title : String
  pub status : CodexStatus
  pub active_turn_id : String
  pub management_state : ManagementState
  pub managed_until_unix_ms : ℕ
  pub last_activity_at_unix_ms : ℕ
  pub warnings : List Warning

-- The status of a turn is RUNNING or another one.
pub record TurnSnapshot : Type 0 where
  pub turn_id : String
  pub is_running : Bool
  pub started_at_unix_ms : ℕ

pub record View : Type 0 where
  pub codex : Codex
  pub active_turn : Option TurnSnapshot
  -- the ids of the pending requests
  pub pending_requests : List String
  pub generated_at_unix_ms : ℕ

-- The row of the table `codexes`.
pub record Row : Type 0 where
  pub view : View
  pub warning_deadline : ℕ
  pub manual_title_override : Bool

pub data Published : Type 0 where
  codex_updated : Codex → Published
  warning_raised : Warning → Published
  turn_updated : String → Published
  pending_request_updated : String → Published

-- How a call of the store or of the activity store ends: `unknown` is an error after which the
-- write may have been applied, which the flag says.
pub data Reply : Type 0 where
  done fails : Reply
  unknown : Bool → Reply

-- The Manager's maps, the rows and the events that are durable (the latest event first), the
-- coming replies of the two stores, and the clock.
pub record Manager : Type 0 where
  pub by_id : Map View
  pub warning_deadline : Map ℕ
  pub manual_title : Map Bool
  pub async_error : List Error
  pub rows : Map Row
  -- the keys of the table `resolved_pending`
  pub resolved_pending : List (String × String)
  pub events : List (String × Published)
  pub replies : List Reply
  pub now : ℕ

-- The durations of the Manager, and the functions of internal/codex/budget.go that cut an event
-- and a view down to the frame budget.
pub record Config : Type 0 where
  pub lease_duration : ℕ
  pub lease_warning_before : ℕ
  pub bound_canonical_event : Published → Published
  pub bound_current_view : View → View
