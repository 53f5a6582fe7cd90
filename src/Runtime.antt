-- ===== src/Runtime.antt =====
-- internal/runtime/manager.go: the state of the Manager of the app-server process. An adapter, a
-- process and an error are numbers.
pub mod Supervise
pub mod Rounds
use codex_remote.Prelude.{
  ℕ, ◌+◌, Bool, true, false, Option, none, some, List, [], ◌∷◌, ◌++◌, length, if◌then◌else◌, ltb,
  ◌==◌,
}

pub data Status : Type 0 where
  starting ready restarting stopped failed : Status

pub record State : Type 0 where
  pub status : Status
  pub restart_count : ℕ
  pub started_at : ℕ
  pub app_server : Option ℕ
  pub error : Option ℕ

pub record Config : Type 0 where
  pub max_restarts : ℕ
  pub has_socket_path : Bool

-- The buffered channels `states` and `wake` hold 32 states and one token.
pub record Manager : Type 0 where
  pub started : Bool
  pub state : State
  pub current : Option ℕ
  pub cmd : Option ℕ
  pub planned : Bool
  pub planned_watcher : Bool
  pub stopping : Bool
  pub wake : Bool
  pub states : List State

unfoldable pub plain_state : Status → ℕ → Option ℕ → State
plain_state status count error = record {
  status = status;
  restart_count = count;
  started_at = 0;
  app_server = none;
  error = error;
}

-- `New`
unfoldable pub new_manager : Manager
unfolding plain_state
new_manager = record {
  started = false;
  state = plain_state stopped 0 none;
  current = none;
  cmd = none;
  planned = false;
  planned_watcher = false;
  stopping = false;
  wake = false;
  states = [];
}

-- `New`, the default of MaxRestarts
unfoldable pub with_defaults : Config → Config
with_defaults cfg = record cfg {
  max_restarts = if cfg.max_restarts == 0 then 3 else cfg.max_restarts;
}

-- `publishState` drops a state that finds the channel full.
unfoldable pub publish_state : State → Manager → Manager
publish_state s m = if ltb (length m.states) 32 then record m { states = m.states ++ s ∷ [] } else m

unfoldable pub set_state : State → Manager → Manager
unfolding publish_state
set_state s m = publish_state s (record m { state = s })

unfoldable pub adapter_if : Status → Option ℕ → Option ℕ
adapter_if ready current = current
adapter_if starting current = none
adapter_if restarting current = none
adapter_if stopped current = none
adapter_if failed current = none

-- `Adapter`, with none for ErrNotReady
unfoldable pub adapter : Manager → Option ℕ
unfolding adapter_if
adapter m = adapter_if m.state.status m.current

pub data Restart : Type 0 where
  refused deferred requested : Restart

busy_with : Option ℕ → ℕ → Bool
busy_with none turns = false
busy_with (some ad) turns = ltb 0 turns

-- `RequestRestart`, with the number of active turns of the current adapter
unfoldable pub request_restart : ℕ → Manager → Restart × Manager
unfolding busy_with
request_restart turns m =
    if m.stopping
    then (refused, m)
    else if busy_with m.current turns
    then (deferred, record m { planned = true; planned_watcher = true })
    else (requested, record m { planned = true; wake = true })

-- The goroutine that `RequestRestart` starts, when the adapter has become idle
unfoldable pub becomes_idle : Manager → Manager
becomes_idle m = record m { wake = true }

-- `Close`, up to its wait
unfoldable pub close : Manager → Manager
close m = if m.started then record m { stopping = true } else m
