-- ===== src/Tests/Workspace.antt =====
-- A workspace at concrete values: its histories, a disk without faults, paths and archives.
use codex_remote.Prelude.{
  ◌+◌, String, true, false, ◌≡◌, ◌≢◌, refl, none, some, List, [], ◌∷◌, lookup, arith, eq_iff,
}
use codex_remote.Workspace.{AccessState, Entry, delivered, sink_failed, Attempt, mutated, started}
use codex_remote.Workspace.Access.{
  agent_started, mutation, finish, emits, new_entry, idle_state, busy_state,
}
use codex_remote.Workspace.Access.Invariant.{IsAccess}
use codex_remote.Workspace.Access.Moves.{
  Move, starts, stops, mutates, finishes, restores, Running, run, IsRunning,
}
use codex_remote.Workspace.Access.Running.{run-IsRunning, mutation-emits}
use codex_remote.Workspace.Access.Failure.{agent_started-finish}
use codex_remote.Workspace.Service.{Again, register_workspace, register_workspace-generation}

abbrev token : String
token = "q1"

abbrev token2 : String
token2 = "q2"

abbrev token3 : String
token3 = "q3"

abbrev idle : AccessState
idle = idle_state 1 "q1" 10

abbrev fresh : Entry
fresh = new_entry "/root" "/root" idle

filled : token ≢ ""
filled e = ground (arith, e, eq_iff token "")

fresh-IsAccess : IsAccess fresh
unfolding new_entry idle_state
fresh-IsAccess = record { agrees = (refl, refl, filled); distinct = tt; counted = omega arith }

abbrev quiet : Running
quiet = record { entry = fresh; attempt = none }

quiet-IsRunning : IsRunning quiet
unfolding new_entry idle_state
quiet-IsRunning = record { access = fresh-IsAccess; pends = refl }

abbrev history : List Move
history =
    starts false "agent" 20 7
    ∷ finishes sink_failed
    ∷ mutates false "q1" true "q2" 30 8
    ∷ restores "other" 40
    ∷ finishes sink_failed
    ∷ stops false "other" "q3" 50 9
    ∷ finishes delivered
    ∷ []

q2_filled : token2 ≢ ""
q2_filled e = ground (arith, e, eq_iff token2 "")

q3_filled : token3 ≢ ""
q3_filled e = ground (arith, e, eq_iff token3 "")

run-IsRunning_example : IsRunning (run quiet history)
run-IsRunning_example =
    run-IsRunning quiet history (tt, (tt, (q2_filled, (tt, (tt, (q3_filled, (tt, tt)))))))
      quiet-IsRunning

abbrev written : Attempt
written = record { kind = mutated; channel = 8; attempted = idle_state 2 "q2" 30; previous = idle }

emits_written : (mutation false "q1" true "q2" 30 8 fresh).0 ≡ emits written
unfolding mutation new_entry idle_state
emits_written = refl

mutation-emits_example :
    (fresh.agent_ids ≡ [])
    × (token ≡ fresh.state.quiescence_token)
    × (token ≢ "")
    × (fresh.pending ≡ none)
    × (written.attempted.generation ≡ fresh.state.generation + 1)
    × (written.attempted.quiescence_token ≡ "q2")
mutation-emits_example =
    mutation-emits false "q1" true "q2" 30 8 fresh written fresh-IsAccess emits_written

abbrev begun_agent : Attempt
begun_agent = record {
  kind = started "agent";
  channel = 7;
  attempted = busy_state 2 1 20;
  previous = idle;
}

abbrev with_begun : Entry
with_begun = record fresh { state = busy_state 2 1 20; agent_ids = "agent" ∷ []; pending = some 7 }

begun : agent_started false "agent" 20 7 fresh ≡ (emits begun_agent, with_begun)
unfolding agent_started new_entry idle_state busy_state
begun = refl

agent_started-finish_example : finish sink_failed begun_agent with_begun ≡ fresh
agent_started-finish_example =
    agent_started-finish false "agent" 20 7 fresh with_begun begun_agent begun

abbrev states : List (String × Entry)
states = ("c1", fresh) ∷ []

registered_again : lookup "c1" states ≡ some fresh
unfolding lookup
registered_again = refl

register_workspace-generation_example :
    Again "c1"
      (busy_state 5 1 3)
      fresh
      (register_workspace "c1" "/new" "/new" (some (busy_state 5 1 3)) "q2" 60 states)
register_workspace-generation_example =
    register_workspace-generation "c1" "/new" "/new" (busy_state 5 1 3) "q2" 60 states fresh
      registered_again
