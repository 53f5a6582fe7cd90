-- ===== src/Workspace/Access/Moves.antt =====
-- internal/workspace/service.go: a history of the operations on one workspace. A move is one step of
-- an operation, made under the locks; other moves come between the two steps of an operation.
use codex_remote.Prelude.{ℕ, String, Bool, ◌≡◌, ◌≢◌, Option, none, some, List, [], ◌∷◌}
use codex_remote.Workspace.{AccessState, Entry, Emitted, Attempt}
use codex_remote.Workspace.Access.{
  registered_state, register_again, unregister, restore_agent, Begun, emits, agent_started,
  agent_stopped, mutation, finish,
}
use codex_remote.Workspace.Access.Invariant.{IsAccess, IsAttempt}

-- The steps, with the values of the clock, of `newToken` and of `make(chan struct{})` that they
-- read, and whether the context of the caller has ended.
pub data Move : Type 0 where
  registers : String → String → Option AccessState → String → ℕ → Move
  unregisters : Move
  restores : String → ℕ → Move
  starts : Bool → String → ℕ → ℕ → Move
  stops : Bool → String → String → ℕ → ℕ → Move
  mutates : Bool → String → Bool → String → ℕ → ℕ → Move
  finishes : Emitted → Move

-- The object, and the operation that waits for the state sink.
pub record Running : Type 0 where
  pub entry : Entry
  pub attempt : Option Attempt

unfoldable pub after_begin : Option Attempt → Begun × Entry → Running
after_begin old (emits a, e) = record { entry = e; attempt = some a }
after_begin old (_, e) = record { entry = e; attempt = old }

unfoldable pub after_finish : Emitted → Option Attempt → Entry → Running
after_finish x none e = record { entry = e; attempt = none }
after_finish x (some a) e = record { entry = finish x a e; attempt = none }

unfoldable pub step : Running → Move → Running
unfolding after_begin after_finish
step r (registers resolved display s token now) = record r {
  entry = register_again resolved display (registered_state s token now) r.entry;
}
step r unregisters = record r { entry = unregister r.entry }
step r (restores id now) = record r { entry = (restore_agent id now r.entry).1 }
step r (starts cancelled id now channel) =
    after_begin r.attempt (agent_started cancelled id now channel r.entry)
step r (stops cancelled id token now channel) =
    after_begin r.attempt (agent_stopped cancelled id token now channel r.entry)
step r (mutates cancelled given applied token now channel) =
    after_begin r.attempt (mutation cancelled given applied token now channel r.entry)
step r (finishes x) = after_finish x r.attempt r.entry

unfoldable pub run : Running → List Move → Running
run r [] = r
run r (m ∷ ms) = run (step r m) ms

-- `newToken` never returns the empty text.
abbrev pub HasToken : Move → Type 0
HasToken (registers resolved display s token now) = token ≢ ""
HasToken (stops cancelled id token now channel) = token ≢ ""
HasToken (mutates cancelled given applied token now channel) = token ≢ ""
HasToken unregisters = Unit
HasToken (restores id now) = Unit
HasToken (starts cancelled id now channel) = Unit
HasToken (finishes x) = Unit

abbrev pub Pends : Option Attempt → Entry → Type 0
Pends none e = e.pending ≡ none
Pends (some a) e = (e.pending ≡ some a.channel) × IsAttempt e a

pub record IsRunning (r : Running) : Type 0 where
  pub access : IsAccess r.entry
  pub pends : Pends r.attempt r.entry
