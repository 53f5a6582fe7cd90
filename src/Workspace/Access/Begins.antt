-- ===== src/Workspace/Access/Begins.antt =====
-- internal/workspace/service.go: what the first step of an operation leaves.
use codex_remote.Prelude.{
  ℕ, String, Bool, ◌≡◌, ◌≢◌, refl, sym, subst, Option, none, some, if_cases, arith, str_eq,
}
use codex_remote.Workspace.{Entry, started, stopped, mutated, Attempt}
use codex_remote.Workspace.Access.{
  contains, with_agent, without_agent, advanced, validate_mutation_state, Begun, refused, waits,
  unchanged, emits, unless_pending, locked, begin, agent_started, agent_stopped, mutation,
}
use codex_remote.Workspace.Access.Invariant.{
  IsAccess, IsAttempt, with_agent-IsAccess, without_agent-IsAccess, validate_mutation_state-idle,
  advanced-IsAccess,
}
use codex_remote.Workspace.Access.Attempts.{
  attempt_of, started-IsAttempt, stopped-IsAttempt, mutated-IsAttempt,
}
use codex_remote.Workspace.Access.Moves.{Running, after_begin, Pends, IsRunning}

-- How an operation can begin: without a change, or with an attempt when none was pending.
pub data Begins (e : Entry) (b : Begun × Entry) : Type 0 where
  idles : ((a : Attempt) → b.0 ≢ emits a) → b.1 ≡ e → Begins e b
  attempts :
      (a : Attempt)
      → b.0 ≡ emits a
      → e.pending ≡ none
      → b.1.pending ≡ some a.channel
      → IsAccess b.1
      → IsAttempt b.1 a
      → Begins e b

unless_pending-Begins :
    (o : Option ℕ) (e : Entry) (go : Begun × Entry)
    → (o ≡ none → Begins e go)
    → Begins e (unless_pending o e go)
unfolding unless_pending
unless_pending-Begins none e go h = h refl
unless_pending-Begins (some c) e go h = idles (λ a q. ground (arith, q)) refl

locked-Begins :
    (cancelled : Bool) (e : Entry) (go : Begun × Entry)
    → (e.pending ≡ none → Begins e go)
    → Begins e (locked cancelled e go)
unfolding locked
locked-Begins cancelled e go h =
    if_cases (Begins e) cancelled (λ over. idles (λ a q. ground (arith, q)) refl)
      (λ live.
        if_cases (Begins e) e.removed (λ gone. idles (λ a q. ground (arith, q)) refl)
          (λ there. unless_pending-Begins e.pending e go h))

pending-IsAccess :
    (channel : ℕ) (e : Entry) → IsAccess e → IsAccess (record e { pending = some channel })
pending-IsAccess channel e v = record {
  agrees = v.agrees;
  distinct = v.distinct;
  counted = v.counted;
}

pub agent_started-Begins :
    (cancelled : Bool) (id : String) (now channel : ℕ) (e : Entry)
    → IsAccess e
    → Begins e (agent_started cancelled id now channel e)
unfolding agent_started begin
agent_started-Begins cancelled id now channel e v =
    if_cases (Begins e) (str_eq id "") (λ blank. idles (λ a q. ground (arith, q)) refl)
      (λ named. locked-Begins cancelled e _ (λ free.
        if_cases (Begins e) (contains id e.agent_ids)
          (λ known. idles (λ a q. ground (arith, q)) refl)
          (λ new.
            attempts (attempt_of (started id) channel e (with_agent id now e)) refl free refl
              (pending-IsAccess channel (with_agent id now e) (with_agent-IsAccess id now e new v))
              (started-IsAttempt id now channel e new v))))

pub agent_stopped-Begins :
    (cancelled : Bool) (id token : String) (now channel : ℕ) (e : Entry)
    → token ≢ ""
    → IsAccess e
    → Begins e (agent_stopped cancelled id token now channel e)
unfolding agent_stopped begin
agent_stopped-Begins cancelled id token now channel e filled v =
    locked-Begins cancelled e _ (λ free.
      if_cases (Begins e) (contains id e.agent_ids)
        (λ known.
          attempts (attempt_of (stopped id) channel e (without_agent id token now e)) refl free refl
            (pending-IsAccess channel (without_agent id token now e)
              (without_agent-IsAccess id token now e filled v))
            (stopped-IsAttempt id token now channel e known v))
        (λ absent. idles (λ a q. ground (arith, q)) refl))

pub mutation-Begins :
    (cancelled : Bool) (given : String) (applied : Bool) (token : String) (now channel : ℕ)
    (e : Entry)
    → token ≢ ""
    → IsAccess e
    → Begins e (mutation cancelled given applied token now channel e)
unfolding mutation begin
mutation-Begins cancelled given applied token now channel e filled v =
    locked-Begins cancelled e _ (λ free.
      if_cases (Begins e) (validate_mutation_state e given)
        (λ admitted.
          if_cases (Begins e) applied
            (λ done.
              attempts (attempt_of mutated channel e (advanced token now e)) refl free refl
                (pending-IsAccess channel (advanced token now e) (
                  advanced-IsAccess token now e filled
                    (validate_mutation_state-idle e given v admitted).0 v))
                (mutated-IsAttempt token now channel e v))
            (λ failed. idles (λ a q. ground (arith, q)) refl))
        (λ rejected. idles (λ a q. ground (arith, q)) refl))

entry_kept :
    (r : Running) (b : Begun) (e : Entry)
    → ((a : Attempt) → b ≢ emits a)
    → Begins r.entry (b, e)
    → e ≡ r.entry
entry_kept r b e quiet (idles h same) = same
entry_kept r b e quiet (attempts a is free here access t) = elim (quiet a is) [ ]

kept :
    (r : Running) (e : Entry)
    → IsRunning r
    → e ≡ r.entry
    → IsRunning (record { entry = e; attempt = r.attempt })
kept r e v same = record {
  access = subst IsAccess (sym same) v.access;
  pends = subst (Pends r.attempt) (sym same) v.pends;
}

pub after_begin-IsRunning :
    (r : Running) (b : Begun) (e : Entry)
    → IsRunning r
    → Begins r.entry (b, e)
    → IsRunning (after_begin r.attempt (b, e))
unfolding after_begin
after_begin-IsRunning r (refused x) e v k =
    kept r e v (entry_kept r (refused x) e (λ a q. ground (arith, q)) k)
after_begin-IsRunning r waits e v k = kept r e v (entry_kept r waits e (λ a q. ground (arith, q)) k)
after_begin-IsRunning r unchanged e v k =
    kept r e v (entry_kept r unchanged e (λ a q. ground (arith, q)) k)
after_begin-IsRunning r (emits a) e v (idles h same) = elim (h a refl) [ ]
after_begin-IsRunning r (emits a) e v (attempts a' is free here access t) =
    let same : a' ≡ a = ground (arith, is) in
    record {
      access = access;
      pends = subst (λ (x : Attempt). (e.pending ≡ some x.channel) × IsAttempt e x) same (here, t);
    }
