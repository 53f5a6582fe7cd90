-- ===== src/Workspace/Access/Attempts.antt =====
-- internal/workspace/service.go: an operation that waits for the state sink can be rolled back as
-- long as the state is the one that it wrote.
use codex_remote.Prelude.{
  ℕ, ◌+◌, ◌≤◌, String, true, false, ◌≡◌, sym, ap, subst, some, List, ◌∷◌, length, if_cases, arith,
  eq_iff, ltb,
}
use codex_remote.Workspace.{AccessState, Entry, Kind, started, stopped, mutated, Attempt}
use codex_remote.Workspace.Access.{
  contains, delete, add, register_again, with_agent, without_agent, advanced, undo_agents,
  busy_state,
}
use codex_remote.Workspace.Access.Invariant.{
  Agrees, Nodup, IsAccess, IsAttempt, delete_absent, contains-delete_self, delete-Nodup,
  length-delete, Agrees-length,
}

-- The attempt that `begin` makes of a changed entry.
abbrev pub attempt_of : Kind → ℕ → Entry → Entry → Attempt
attempt_of kind channel e changed = record {
  kind = kind;
  channel = channel;
  attempted = changed.state;
  previous = e.state;
}

pub delete_head :
    (id : String) (xs : List String) → contains id xs ≡ false → delete id (id ∷ xs) ≡ xs
unfolding delete
delete_head id xs new = ground (arith, eq_iff id id, delete_absent id xs new)

pub started-IsAttempt :
    (id : String) (now channel : ℕ) (e : Entry)
    → contains id e.agent_ids ≡ false
    → IsAccess e
    → IsAttempt
        (record (with_agent id now e) { pending = some channel })
        (attempt_of (started id) channel e (with_agent id now e))
unfolding with_agent undo_agents
started-IsAttempt id now channel e new v =
    let same : delete id (id ∷ e.agent_ids) ≡ e.agent_ids = delete_head id e.agent_ids new in
    record {
      not_ahead = omega arith;
      started_once = v.counted;
      undone = λ h. subst (λ xs. Agrees xs e.state × Nodup xs) (sym same) (v.agrees, v.distinct);
    }

add-delete : (id : String) (xs : List String) → add id (delete id xs) ≡ id ∷ delete id xs
unfolding add
add-delete id xs = ground (arith, contains-delete_self id xs)

pub stopped-IsAttempt :
    (id token : String) (now channel : ℕ) (e : Entry)
    → contains id e.agent_ids ≡ true
    → IsAccess e
    → IsAttempt
        (record (without_agent id token now e) { pending = some channel })
        (attempt_of (stopped id) channel e (without_agent id token now e))
unfolding without_agent undo_agents
stopped-IsAttempt id token now channel e here v =
    let ids = delete id e.agent_ids in
    let same : length e.agent_ids ≡ length (id ∷ ids) =
      sym (length-delete id e.agent_ids v.distinct here) in
    record {
      not_ahead = omega arith;
      started_once = v.counted;
      undone = λ h.
          subst (λ xs. Agrees xs e.state × Nodup xs) (sym (add-delete id e.agent_ids))
            (
              Agrees-length e.agent_ids (id ∷ ids) e.state same v.agrees,
              (contains-delete_self id e.agent_ids, delete-Nodup id e.agent_ids v.distinct),
            );
    }

pub mutated-IsAttempt :
    (token : String) (now channel : ℕ) (e : Entry)
    → IsAccess e
    → IsAttempt
        (record (advanced token now e) { pending = some channel })
        (attempt_of mutated channel e (advanced token now e))
unfolding advanced undo_agents
mutated-IsAttempt token now channel e v = record {
  not_ahead = omega arith;
  started_once = v.counted;
  undone = λ h. (v.agrees, v.distinct);
}

too_far :
    (e : Entry) (a : Attempt)
    → e.state.generation + 1 ≡ a.attempted.generation
    → a.attempted.generation ≤ e.state.generation
    → ⊥
too_far e a g h = omega (arith, g, h)

not_newer :
    (e : Entry) (s : AccessState) (a : Attempt)
    → s.generation ≡ a.attempted.generation
    → a.attempted.generation ≤ e.state.generation
    → ltb e.state.generation s.generation ≡ true
    → ⊥
not_newer e s a g h newer = ground (arith, g, h, newer)

-- Steps that other goroutines may take meanwhile.
pub with_agent-IsAttempt :
    (id : String) (now : ℕ) (e : Entry) (a : Attempt)
    → IsAttempt e a
    → IsAttempt (with_agent id now e) a
unfolding with_agent busy_state
with_agent-IsAttempt id now e a t = record {
  not_ahead = omega (arith, t.not_ahead);
  started_once = t.started_once;
  undone = λ h.
      let g : e.state.generation + 1 ≡ a.attempted.generation =
        ap (λ (s : AccessState). s.generation) h in
      elim (too_far e a g t.not_ahead) [ ];
}

pub register_again-IsAttempt :
    (resolved display : String) (s : AccessState) (e : Entry) (a : Attempt)
    → IsAttempt e a
    → IsAttempt (register_again resolved display s e) a
unfolding register_again
register_again-IsAttempt resolved display s e a t =
    if_cases (λ x. IsAttempt x a) (ltb e.state.generation s.generation)
      (λ newer. record {
        not_ahead = ground (arith, t.not_ahead, newer);
        started_once = t.started_once;
        undone = λ h.
            let g : s.generation ≡ a.attempted.generation =
              ap (λ (x : AccessState). x.generation) h in
            elim (not_newer e s a g t.not_ahead newer) [ ];
      })
      (λ older. record {
        not_ahead = t.not_ahead;
        started_once = t.started_once;
        undone = t.undone;
      })
