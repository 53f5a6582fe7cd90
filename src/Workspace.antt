-- ===== src/Workspace.antt =====
-- internal/workspace/service.go: the access state of a Codex's workspace. `Entry` is one
-- workspaceState object; a channel is a number, and the map `agentIDs` is the list of its keys.
pub mod Access
pub mod Files
pub mod Paths
pub mod Service
pub mod Reads
use codex_remote.Prelude.{ℕ, String, Bool, Option, List}

pub data MutationStatus : Type 0 where
  unspecified allowed busy : MutationStatus

pub record AccessState : Type 0 where
  pub generation : ℕ
  pub active_agent_count : ℕ
  pub mutation_status : MutationStatus
  pub quiescence_token : String
  pub observed_at_unix_ms : ℕ

pub record Entry : Type 0 where
  pub root : String
  pub display_root : String
  pub state : AccessState
  pub agent_ids : List String
  pub pending : Option ℕ
  pub removed : Bool

-- How the state sink answers. `outcome_unknown` is persistence.ErrEventCommitOutcomeUnknown.
pub data Emitted : Type 0 where
  delivered outcome_unknown sink_failed : Emitted

-- What an operation does to `agentIDs` when its state could not be published.
pub data Kind : Type 0 where
  started stopped : String → Kind
  mutated : Kind

-- An operation that has released its locks and waits for the state sink.
pub record Attempt : Type 0 where
  pub kind : Kind
  pub channel : ℕ
  pub attempted : AccessState
  pub previous : AccessState
