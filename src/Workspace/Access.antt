-- ===== src/Workspace/Access.antt =====
-- internal/workspace/service.go: `Register`, `RestoreAgent`, `AgentStarted`, `AgentStopped`, and the
-- state half of `WriteText` and `Upload`. An operation that calls the state sink is two steps, since
-- the call is made without the locks: up to the call, and from its answer.
pub mod Invariant
pub mod Attempts
pub mod Moves
pub mod Begins
pub mod Running
pub mod Failure
use codex_remote.Prelude.{
  ℕ, ◌+◌, String, Bool, true, false, not, ◌&&◌, ◌||◌, Option, none, some, List, [], ◌∷◌, length,
  if◌then◌else◌, ltb, ◌==◌, str_eq,
}
use codex_remote.Errors.{
  Error, Result, ok, err, invalid_argument, codex_not_found, workspace_busy, context_done,
}
use codex_remote.Workspace.{
  MutationStatus, unspecified, allowed, busy, AccessState, Entry, Emitted, delivered,
  outcome_unknown, sink_failed, Kind, started, stopped, mutated, Attempt,
}

unfoldable pub contains : String → List String → Bool
contains id [] = false
contains id (x ∷ xs) = str_eq x id || contains id xs

-- delete(agentIDs, id)
unfoldable pub delete : String → List String → List String
delete id [] = []
delete id (x ∷ xs) = let rest = delete id xs in if str_eq x id then rest else x ∷ rest

-- agentIDs[id] = struct{}{}
unfoldable pub add : String → List String → List String
unfolding contains
add id xs = if contains id xs then xs else id ∷ xs

unfoldable pub status_eq : MutationStatus → MutationStatus → Bool
status_eq unspecified unspecified = true
status_eq allowed allowed = true
status_eq busy busy = true
status_eq _ _ = false

-- proto.Equal
unfoldable pub same_state : AccessState → AccessState → Bool
unfolding status_eq
same_state a b =
    (a.generation == b.generation)
    && (a.active_agent_count == b.active_agent_count)
    && status_eq a.mutation_status b.mutation_status
    && str_eq a.quiescence_token b.quiescence_token
    && (a.observed_at_unix_ms == b.observed_at_unix_ms)

unfoldable pub idle_state : ℕ → String → ℕ → AccessState
idle_state generation token now = record {
  generation = generation;
  active_agent_count = 0;
  mutation_status = allowed;
  quiescence_token = token;
  observed_at_unix_ms = now;
}

unfoldable pub busy_state : ℕ → ℕ → ℕ → AccessState
busy_state generation count now = record {
  generation = generation;
  active_agent_count = count;
  mutation_status = busy;
  quiescence_token = "";
  observed_at_unix_ms = now;
}

-- The state that `Register` starts from: a persisted state with an active agent is made idle.
unfoldable pub registered_state : Option AccessState → String → ℕ → AccessState
unfolding idle_state status_eq
registered_state none token now = idle_state 1 token now
registered_state (some s) token now =
    if s.generation == 0
    then idle_state 1 token now
    else if not (s.active_agent_count == 0)
        || not (status_eq s.mutation_status allowed)
        || str_eq s.quiescence_token ""
    then idle_state (s.generation + 1) token now
    else s

unfoldable pub new_entry : String → String → AccessState → Entry
new_entry resolved display state = record {
  root = resolved;
  display_root = display;
  state = state;
  agent_ids = [];
  pending = none;
  removed = false;
}

-- `Register` on an object that is there: a newer generation in memory is kept.
unfoldable pub register_again : String → String → AccessState → Entry → Entry
register_again resolved display state e =
    let e' = record e { root = resolved; display_root = display; removed = false } in
    if ltb e.state.generation state.generation
    then record e' { state = state; agent_ids = [] }
    else e'

-- The part of `Unregister` that an operation in flight can see.
unfoldable pub unregister : Entry → Entry
unregister e = record e { removed = true }

unfoldable pub with_agent : String → ℕ → Entry → Entry
unfolding busy_state
with_agent id now e = record e {
  agent_ids = id ∷ e.agent_ids;
  state = busy_state (e.state.generation + 1) (length (id ∷ e.agent_ids)) now;
}

unfoldable pub agent_or_unknown : String → String
agent_or_unknown id = if str_eq id "" then "restore-unknown" else id

unfoldable pub restore_agent : String → ℕ → Entry → Result AccessState × Entry
unfolding with_agent contains agent_or_unknown
restore_agent id now e =
    if e.removed
    then (err codex_not_found, e)
    else if contains (agent_or_unknown id) e.agent_ids
    then (ok e.state, e)
    else (let e' = with_agent (agent_or_unknown id) now e in (ok e'.state, e'))

unfoldable pub stopped_state : List String → ℕ → String → ℕ → AccessState
unfolding idle_state busy_state
stopped_state [] generation token now = idle_state generation token now
stopped_state (x ∷ xs) generation token now = busy_state generation (length (x ∷ xs)) now

unfoldable pub without_agent : String → String → ℕ → Entry → Entry
unfolding stopped_state delete
without_agent id token now e = record e {
  agent_ids = delete id e.agent_ids;
  state = stopped_state (delete id e.agent_ids) (e.state.generation + 1) token now;
}

-- advanceMutationLocked
unfoldable pub advanced : String → ℕ → Entry → Entry
advanced token now e = record e {
  state = record e.state {
    generation = e.state.generation + 1;
    observed_at_unix_ms = now;
    quiescence_token = token;
  };
}

unfoldable pub validate_mutation_state : Entry → String → Bool
unfolding status_eq
validate_mutation_state e token =
    (e.state.active_agent_count == 0)
    && status_eq e.state.mutation_status allowed
    && not (str_eq token "")
    && str_eq token e.state.quiescence_token

-- How the first step of an operation ends.
pub data Begun : Type 0 where
  refused : Error → Begun
  -- it waits in `lockMutationCoordinator` until the pending operation has finished
  waits : Begun
  unchanged : Begun
  emits : Attempt → Begun

unfoldable pub unless_pending : Option ℕ → Entry → Begun × Entry → Begun × Entry
unless_pending none e go = go
unless_pending (some channel) e go = (waits, e)

-- `lockMutationCoordinator`, from which the operation goes on if no other one is pending.
unfoldable pub locked : Bool → Entry → Begun × Entry → Begun × Entry
unfolding unless_pending
locked cancelled e go =
    if cancelled
    then (refused context_done, e)
    else if e.removed
    then (refused codex_not_found, e)
    else unless_pending e.pending e go

-- The end of the first step: `changed` becomes pending on a new channel.
unfoldable pub begin : Kind → ℕ → Entry → Entry → Begun × Entry
begin kind channel e changed = (
  emits (record { kind = kind; channel = channel; attempted = changed.state; previous = e.state }),
  record changed { pending = some channel },
)

unfoldable pub agent_started : Bool → String → ℕ → ℕ → Entry → Begun × Entry
unfolding locked begin with_agent contains
agent_started cancelled id now channel e =
    if str_eq id ""
    then (refused invalid_argument, e)
    else locked cancelled e (
        if contains id e.agent_ids
        then (unchanged, e)
        else begin (started id) channel e (with_agent id now e))

unfoldable pub agent_stopped : Bool → String → String → ℕ → ℕ → Entry → Begun × Entry
unfolding locked begin without_agent contains
agent_stopped cancelled id token now channel e = locked cancelled e (
    if contains id e.agent_ids
    then begin (stopped id) channel e (without_agent id token now e)
    else (unchanged, e))

-- The state half of `WriteText` and `Upload`; `applied` says whether the target was replaced.
unfoldable pub mutation : Bool → String → Bool → String → ℕ → ℕ → Entry → Begun × Entry
unfolding locked begin advanced validate_mutation_state
mutation cancelled given applied token now channel e = locked cancelled e (
    if validate_mutation_state e given
    then (if applied then begin mutated channel e (advanced token now e) else (unchanged, e))
    else (refused workspace_busy, e))

unfoldable pub undo_agents : Kind → List String → List String
unfolding delete add
undo_agents (started id) ids = delete id ids
undo_agents (stopped id) ids = add id ids
undo_agents mutated ids = ids

-- `rollbackState`, and the same in `AgentStarted` and `AgentStopped`.
unfoldable pub roll_back : Attempt → Entry → Entry
unfolding same_state undo_agents
roll_back a e =
    if same_state e.state a.attempted
    then record e { state = a.previous; agent_ids = undo_agents a.kind e.agent_ids }
    else e

unfoldable pub is_channel : ℕ → Option ℕ → Bool
is_channel channel none = false
is_channel channel (some other) = other == channel

unfoldable pub finish_pending : ℕ → Entry → Entry
unfolding is_channel
finish_pending channel e = if is_channel channel e.pending then record e { pending = none } else e

-- The second step of an operation, from the answer of the state sink.
unfoldable pub finish : Emitted → Attempt → Entry → Entry
unfolding roll_back finish_pending
finish delivered a e = finish_pending a.channel e
finish outcome_unknown a e = finish_pending a.channel e
finish sink_failed a e = finish_pending a.channel (roll_back a e)
