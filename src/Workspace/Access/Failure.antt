-- ===== src/Workspace/Access/Failure.antt =====
-- internal/workspace/service.go: an operation whose state could not be published leaves no trace.
use codex_remote.Prelude.{
  ℕ, ◌∙◌, String, Bool, true, false, ◌≡◌, refl, sym, ap, Option, none, some, List, arith, eq_iff,
  str_eq, if◌then◌else◌,
}
use codex_remote.Errors.{invalid_argument, workspace_busy}
use codex_remote.Workspace.{
  AccessState, MutationStatus, unspecified, allowed, busy, Entry, sink_failed, Kind, started,
  mutated, Attempt,
}
use codex_remote.Workspace.Access.{
  contains, status_eq, same_state, with_agent, advanced, Begun, emits, refused, unless_pending,
  locked, begin, agent_started, mutation, validate_mutation_state, roll_back, is_channel,
  finish_pending, finish, undo_agents, unchanged,
}
use codex_remote.Workspace.Access.Attempts.{delete_head}

status_eq_self : (s : MutationStatus) → status_eq s s ≡ true
unfolding status_eq
status_eq_self unspecified = refl
status_eq_self allowed = refl
status_eq_self busy = refl

same_state_self : (s : AccessState) → same_state s s ≡ true
unfolding same_state
same_state_self s =
    ground (arith, status_eq_self s.mutation_status, eq_iff s.quiescence_token s.quiescence_token)

roll_back_now :
    (kind : Kind) (channel : ℕ) (e e' : Entry)
    → roll_back
        (record { kind = kind; channel = channel; attempted = e'.state; previous = e.state })
        (record e' { pending = some channel })
      ≡ record e' {
        pending = some channel;
        state = e.state;
        agent_ids = undo_agents kind e'.agent_ids;
      }
unfolding roll_back
roll_back_now kind channel e e' = ground (arith, same_state_self e'.state)

finish_pending_now :
    (channel : ℕ) (e : Entry)
    → finish_pending channel (record e { pending = some channel }) ≡ record e { pending = none }
unfolding finish_pending is_channel
finish_pending_now channel e = ground arith

finish-begin :
    (kind : Kind) (channel : ℕ) (e e' : Entry)
    → finish sink_failed
        (record { kind = kind; channel = channel; attempted = e'.state; previous = e.state })
        (record e' { pending = some channel })
      ≡ record e' { pending = none; state = e.state; agent_ids = undo_agents kind e'.agent_ids }
unfolding finish
finish-begin kind channel e e' =
    ap (finish_pending channel) (roll_back_now kind channel e e')
    ∙ finish_pending_now channel
        (record e' { state = e.state; agent_ids = undo_agents kind e'.agent_ids })

unless_pending-emits :
    (o : Option ℕ) (e e' : Entry) (go : Begun × Entry) (a : Attempt)
    → unless_pending o e go ≡ (emits a, e')
    → (o ≡ none) × (go ≡ (emits a, e'))
unfolding unless_pending
unless_pending-emits none e e' go a h = (refl, h)
unless_pending-emits (some c) e e' go a h = ground (arith, h)

locked-emits :
    (cancelled : Bool) (e e' : Entry) (go : Begun × Entry) (a : Attempt)
    → locked cancelled e go ≡ (emits a, e')
    → (e.pending ≡ none) × (go ≡ (emits a, e'))
unfolding locked
locked-emits cancelled e e' go a h = unless_pending-emits e.pending e e' go a (ground (arith, h))

emits_attempt :
    (kind : Kind) (channel : ℕ) (e c e' : Entry) (a : Attempt)
    → begin kind channel e c ≡ (emits a, e')
    → record { kind = kind; channel = channel; attempted = c.state; previous = e.state } ≡ a
unfolding begin
emits_attempt kind channel e c e' a h =
    let same = ap (λ (x : Begun × Entry). x.0) h in ground (arith, same)

finish-begin_given :
    (kind : Kind) (channel : ℕ) (e c e' : Entry) (a : Attempt)
    → begin kind channel e c ≡ (emits a, e')
    → finish sink_failed a e'
      ≡ record c { pending = none; state = e.state; agent_ids = undo_agents kind c.agent_ids }
unfolding begin
finish-begin_given kind channel e c e' a h =
    ap (λ (x : Attempt). finish sink_failed x e') (sym (emits_attempt kind channel e c e' a h))
    ∙ ap
        (finish sink_failed
          (record { kind = kind; channel = channel; attempted = c.state; previous = e.state }))
        (sym (ap (λ (x : Begun × Entry). x.1) h))
    ∙ finish-begin kind channel e c

started_choice :
    (known : Bool) (go : Begun × Entry) (e e' : Entry) (a : Attempt)
    → (if known then (unchanged, e) else go) ≡ (emits a, e')
    → (known ≡ false) × (go ≡ (emits a, e'))
started_choice known go e e' a h = ground (arith, h)

same_entry :
    (e : Entry) (ids : List String)
    → e.pending ≡ none
    → ids ≡ e.agent_ids
    → record e { pending = none; agent_ids = ids } ≡ e
same_entry e ids free same = ground (arith, free, same)

mutated_choice :
    (valid applied : Bool) (go : Begun × Entry) (e e' : Entry) (a : Attempt)
    → (if valid then (if applied then go else (unchanged, e)) else (refused workspace_busy, e))
      ≡ (emits a, e')
    → go ≡ (emits a, e')
mutated_choice valid applied go e e' a h = ground (arith, h)

nonblank :
    (blank : Bool) (go : Begun × Entry) (e e' : Entry) (a : Attempt)
    → (if blank then (refused invalid_argument, e) else go) ≡ (emits a, e')
    → go ≡ (emits a, e')
nonblank blank go e e' a h = ground (arith, h)

-- The state sink fails for an agent that starts, and nothing else happened to the workspace
-- meanwhile: the workspace is exactly what it was before, its agents, state and generation included.
pub agent_started-finish :
    (cancelled : Bool) (id : String) (now channel : ℕ) (e e' : Entry) (a : Attempt)
    → agent_started cancelled id now channel e ≡ (emits a, e')
    → finish sink_failed a e' ≡ e
unfolding agent_started with_agent undo_agents
agent_started-finish cancelled id now channel e e' a h =
    let lock = locked-emits cancelled e e' _ a (nonblank (str_eq id "") _ e e' a h) in
    let new = started_choice (contains id e.agent_ids) _ e e' a lock.1 in
    finish-begin_given (started id) channel e (with_agent id now e) e' a new.1
    ∙ same_entry e _ lock.0 (delete_head id e.agent_ids new.0)

-- The same of a write or upload whose target was replaced.
pub mutation-finish :
    (cancelled : Bool) (given : String) (applied : Bool) (token : String) (now channel : ℕ)
    (e e' : Entry) (a : Attempt)
    → mutation cancelled given applied token now channel e ≡ (emits a, e')
    → finish sink_failed a e' ≡ e
unfolding mutation advanced undo_agents
mutation-finish cancelled given applied token now channel e e' a h =
    let lock = locked-emits cancelled e e' _ a h in
    let did = mutated_choice (validate_mutation_state e given) applied _ e e' a lock.1 in
    finish-begin_given mutated channel e (advanced token now e) e' a did
    ∙ same_entry e e.agent_ids lock.0 refl
