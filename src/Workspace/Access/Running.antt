-- ===== src/Workspace/Access/Running.antt =====
-- internal/workspace/service.go: every history of the operations on a workspace keeps its state right.
use codex_remote.Prelude.{
  ℕ, ◌+◌, ◌∙◌, String, Bool, true, ◌≡◌, ◌≢◌, refl, sym, ap, Option, none, some, List, [], ◌∷◌, All,
  if_cases, arith, if◌then◌else◌,
}
use codex_remote.Errors.{Result, workspace_busy}
use codex_remote.Workspace.{
  AccessState, Entry, Emitted, delivered, outcome_unknown, sink_failed, Kind, mutated, Attempt,
}
use codex_remote.Workspace.Access.{
  contains, registered_state, register_again, unregister, agent_or_unknown, with_agent,
  restore_agent, advanced, validate_mutation_state, Begun, refused, unchanged, emits,
  unless_pending, locked, begin, agent_started, agent_stopped, mutation, roll_back, is_channel,
  finish_pending, finish,
}
use codex_remote.Workspace.Access.Invariant.{
  IsAccess, with_agent-IsAccess, validate_mutation_state-idle, registered_state-Agrees,
  register_again-IsAccess, finish-IsAccess,
}
use codex_remote.Workspace.Access.Attempts.{
  attempt_of, with_agent-IsAttempt, register_again-IsAttempt,
}
use codex_remote.Workspace.Access.Moves.{
  Move, registers, unregisters, restores, starts, stops, mutates, finishes, Running, after_finish,
  step, run, HasToken, Pends, IsRunning,
}
use codex_remote.Workspace.Access.Begins.{
  agent_started-Begins, agent_stopped-Begins, mutation-Begins, after_begin-IsRunning,
}

register_again-pending :
    (resolved display : String) (s : AccessState) (e : Entry)
    → (register_again resolved display s e).pending ≡ e.pending
unfolding register_again
register_again-pending resolved display s e = ground arith

Pends-register_again :
    (resolved display : String) (s : AccessState) (o : Option Attempt) (e : Entry)
    → Pends o e
    → Pends o (register_again resolved display s e)
Pends-register_again resolved display s none e h = register_again-pending resolved display s e ∙ h
Pends-register_again resolved display s (some a) e h = (
  register_again-pending resolved display s e ∙ h.0,
  register_again-IsAttempt resolved display s e a h.1,
)

Pends-unregister : (o : Option Attempt) (e : Entry) → Pends o e → Pends o (unregister e)
unfolding unregister
Pends-unregister none e h = h
Pends-unregister (some a) e h = (
  h.0,
  record { not_ahead = h.1.not_ahead; started_once = h.1.started_once; undone = h.1.undone },
)

Pends-with_agent :
    (id : String) (now : ℕ) (o : Option Attempt) (e : Entry)
    → Pends o e
    → Pends o (with_agent id now e)
unfolding with_agent
Pends-with_agent id now none e h = h
Pends-with_agent id now (some a) e h = (h.0, with_agent-IsAttempt id now e a h.1)

restore_agent-IsRunning :
    (id : String) (now : ℕ) (r : Running)
    → IsRunning r
    → IsRunning (record r { entry = (restore_agent id now r.entry).1 })
unfolding restore_agent
restore_agent-IsRunning id now r v =
    if_cases (λ (x : Result AccessState × Entry). IsRunning (record r { entry = x.1 }))
      r.entry.removed (λ gone. v)
      (λ there.
        if_cases (λ (x : Result AccessState × Entry). IsRunning (record r { entry = x.1 }))
          (contains (agent_or_unknown id) r.entry.agent_ids) (λ known. v)
          (λ new. record {
            access = with_agent-IsAccess (agent_or_unknown id) now r.entry new v.access;
            pends = Pends-with_agent (agent_or_unknown id) now r.attempt r.entry v.pends;
          }))

finish_pending-none :
    (channel : ℕ) (e : Entry) → e.pending ≡ some channel → (finish_pending channel e).pending ≡ none
unfolding finish_pending is_channel
finish_pending-none channel e h = ground (arith, h)

roll_back-pending : (a : Attempt) (e : Entry) → (roll_back a e).pending ≡ e.pending
unfolding roll_back
roll_back-pending a e = ground arith

finish-none :
    (x : Emitted) (a : Attempt) (e : Entry)
    → e.pending ≡ some a.channel
    → (finish x a e).pending ≡ none
unfolding finish
finish-none delivered a e h = finish_pending-none a.channel e h
finish-none outcome_unknown a e h = finish_pending-none a.channel e h
finish-none sink_failed a e h =
    finish_pending-none a.channel (roll_back a e) (roll_back-pending a e ∙ h)

after_finish-IsRunning :
    (x : Emitted) (o : Option Attempt) (e : Entry)
    → IsAccess e
    → Pends o e
    → IsRunning (after_finish x o e)
unfolding after_finish
after_finish-IsRunning x none e v h = record { access = v; pends = h }
after_finish-IsRunning x (some a) e v h = record {
  access = finish-IsAccess x a e h.1 v;
  pends = finish-none x a e h.0;
}

step-IsRunning : (r : Running) (m : Move) → HasToken m → IsRunning r → IsRunning (step r m)
unfolding step unregister
step-IsRunning r (registers resolved display s token now) filled v =
    let start = registered_state-Agrees s token now filled in
    record {
      access =
          register_again-IsAccess resolved display (registered_state s token now) r.entry start.0
            start.1 v.access;
      pends =
          Pends-register_again resolved display (registered_state s token now) r.attempt r.entry
            v.pends;
    }
step-IsRunning r unregisters filled v = record {
  access = record {
    agrees = v.access.agrees;
    distinct = v.access.distinct;
    counted = v.access.counted;
  };
  pends = Pends-unregister r.attempt r.entry v.pends;
}
step-IsRunning r (restores id now) filled v = restore_agent-IsRunning id now r v
step-IsRunning r (starts cancelled id now channel) filled v =
    let b = agent_started cancelled id now channel r.entry in
    after_begin-IsRunning r b.0 b.1 v
      (agent_started-Begins cancelled id now channel r.entry v.access)
step-IsRunning r (stops cancelled id token now channel) filled v =
    let b = agent_stopped cancelled id token now channel r.entry in
    after_begin-IsRunning r b.0 b.1 v
      (agent_stopped-Begins cancelled id token now channel r.entry filled v.access)
step-IsRunning r (mutates cancelled given applied token now channel) filled v =
    let b = mutation cancelled given applied token now channel r.entry in
    after_begin-IsRunning r b.0 b.1 v
      (mutation-Begins cancelled given applied token now channel r.entry filled v.access)
step-IsRunning r (finishes x) filled v = after_finish-IsRunning x r.attempt r.entry v.access v.pends

-- After every history of registrations, removals, agent starts, stops and restores, writes and
-- uploads, and answers of the state sink, in any order that the locks admit, from a workspace in a
-- right state: the workspace is `allowed`, with a token, exactly if no agent is active, and else
-- `busy` with no token and the number of its agents; no agent is listed twice; the generation is
-- positive; and the workspace is pending exactly on the channel of the operation that waits for the
-- state sink. The tokens that the service makes are assumed not to be empty.
pub run-IsRunning :
    (r : Running) (ms : List Move) → All HasToken ms → IsRunning r → IsRunning (run r ms)
unfolding run
run-IsRunning r [] all v = v
run-IsRunning r (m ∷ ms) all v = run-IsRunning (step r m) ms all.1 (step-IsRunning r m all.0 v)

unless_pending-emits :
    (o : Option ℕ) (e : Entry) (go : Begun × Entry) (a : Attempt)
    → (unless_pending o e go).0 ≡ emits a
    → (o ≡ none) × (go.0 ≡ emits a)
unfolding unless_pending
unless_pending-emits none e go a h = (refl, h)
unless_pending-emits (some c) e go a h = ground (arith, h)

locked-emits :
    (cancelled : Bool) (e : Entry) (go : Begun × Entry) (a : Attempt)
    → (locked cancelled e go).0 ≡ emits a
    → (e.pending ≡ none) × (go.0 ≡ emits a)
unfolding locked
locked-emits cancelled e go a h = unless_pending-emits e.pending e go a (ground (arith, h))

admitted :
    (kind : Kind) (channel : ℕ) (e e' : Entry) (a : Attempt) (valid applied : Bool)
    → (if valid
        then (if applied then begin kind channel e e' else (unchanged, e))
        else (refused workspace_busy, e)).0
      ≡ emits a
    → (valid ≡ true) × (attempt_of kind channel e e' ≡ a)
unfolding begin
admitted kind channel e e' a valid applied h = ground (arith, h)

-- A write or upload that gets as far as replacing its target and publishing a state, in a workspace
-- in a right state: no agent is active, the token given is not empty and is the one that the
-- workspace holds, no other operation is pending, and the state published is one generation further,
-- with the token that was made for it.
pub mutation-emits :
    (cancelled : Bool) (given : String) (applied : Bool) (token : String) (now channel : ℕ)
    (e : Entry) (a : Attempt)
    → IsAccess e
    → (mutation cancelled given applied token now channel e).0 ≡ emits a
    → (e.agent_ids ≡ [])
      × (given ≡ e.state.quiescence_token)
      × (given ≢ "")
      × (e.pending ≡ none)
      × (a.attempted.generation ≡ e.state.generation + 1)
      × (a.attempted.quiescence_token ≡ token)
unfolding mutation advanced
mutation-emits cancelled given applied token now channel e a v h =
    let free = locked-emits cancelled e _ a h in
    let did =
      admitted mutated channel e (advanced token now e) a (validate_mutation_state e given) applied
        free.1 in
    let idle = validate_mutation_state-idle e given v did.0 in
    (
      idle.0,
      idle.1,
      idle.2,
      free.0,
      sym (ap (λ (x : Attempt). x.attempted.generation) did.1),
      sym (ap (λ (x : Attempt). x.attempted.quiescence_token) did.1),
    )
