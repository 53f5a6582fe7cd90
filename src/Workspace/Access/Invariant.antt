-- ===== src/Workspace/Access/Invariant.antt =====
-- internal/workspace/service.go: the access state of a workspace tells whether an agent is active.
use codex_remote.Prelude.{
  ℕ, suc, ◌+◌, ◌≤◌, String, true, false, ◌≡◌, ◌≢◌, refl, sym, subst, ◌∙◌, inl, inr, Option, none,
  some, List, [], ◌∷◌, length, Bool-cases, if_cases, arith, eq_iff, ltb, str_eq,
}
use codex_remote.Workspace.{
  MutationStatus, unspecified, allowed, busy, AccessState, Entry, Attempt, Emitted, delivered,
  outcome_unknown, sink_failed,
}
use codex_remote.Workspace.Access.{
  contains, delete, status_eq, same_state, idle_state, busy_state, registered_state, register_again,
  with_agent, stopped_state, without_agent, advanced, validate_mutation_state, undo_agents,
  roll_back, finish_pending, finish, is_channel,
}

-- A state with no active agent admits mutations by its token; one with an agent admits none.
abbrev pub Agrees : List String → AccessState → Type 0
Agrees [] s = (s.active_agent_count ≡ 0) × (s.mutation_status ≡ allowed) × (s.quiescence_token ≢ "")
Agrees (x ∷ xs) s =
    (s.active_agent_count ≡ length (x ∷ xs))
    × (s.mutation_status ≡ busy)
    × (s.quiescence_token ≡ "")

abbrev pub Nodup : List String → Type 0
Nodup [] = Unit
Nodup (x ∷ xs) = (contains x xs ≡ false) × Nodup xs

pub record IsAccess (e : Entry) : Type 0 where
  pub agrees : Agrees e.agent_ids e.state
  pub distinct : Nodup e.agent_ids
  pub counted : 1 ≤ e.state.generation

-- What a rollback of the attempt needs: as long as the state is the attempted one, the agents that
-- the rollback leaves agree with the state before it.
pub record IsAttempt (e : Entry) (a : Attempt) : Type 0 where
  pub not_ahead : a.attempted.generation ≤ e.state.generation
  pub started_once : 1 ≤ a.previous.generation
  pub undone :
      e.state ≡ a.attempted
      → Agrees (undo_agents a.kind e.agent_ids) a.previous × Nodup (undo_agents a.kind e.agent_ids)

status_eq_sound : (s t : MutationStatus) → status_eq s t ≡ true → s ≡ t
unfolding status_eq
status_eq_sound unspecified unspecified h = refl
status_eq_sound unspecified allowed h = ground (arith, h)
status_eq_sound unspecified busy h = ground (arith, h)
status_eq_sound allowed unspecified h = ground (arith, h)
status_eq_sound allowed allowed h = refl
status_eq_sound allowed busy h = ground (arith, h)
status_eq_sound busy unspecified h = ground (arith, h)
status_eq_sound busy allowed h = ground (arith, h)
status_eq_sound busy busy h = refl

pub same_state_sound : (s t : AccessState) → same_state s t ≡ true → s ≡ t
unfolding same_state
same_state_sound s t h = ground (
  arith,
  h,
  status_eq_sound s.mutation_status t.mutation_status,
  eq_iff s.quiescence_token t.quiescence_token,
)

contains-delete :
    (id j : String) (xs : List String) → contains j xs ≡ false → contains j (delete id xs) ≡ false
unfolding contains delete
contains-delete id j [] h = refl
contains-delete id j (x ∷ xs) h = ground (arith, h, contains-delete id j xs)

pub delete-Nodup : (id : String) (xs : List String) → Nodup xs → Nodup (delete id xs)
unfolding delete
delete-Nodup id [] h = tt
delete-Nodup id (x ∷ xs) h =
    if_cases Nodup (str_eq x id) (λ same. delete-Nodup id xs h.1)
      (λ other. (contains-delete id x xs h.0, delete-Nodup id xs h.1))

pub delete_absent : (id : String) (xs : List String) → contains id xs ≡ false → delete id xs ≡ xs
unfolding contains delete
delete_absent id [] h = refl
delete_absent id (x ∷ xs) h = ground (arith, h, delete_absent id xs)

pub contains-delete_self : (id : String) (xs : List String) → contains id (delete id xs) ≡ false
unfolding contains delete
contains-delete_self id [] = refl
contains-delete_self id (x ∷ xs) = ground (arith, contains-delete_self id xs)

pub length-delete :
    (id : String) (xs : List String)
    → Nodup xs
    → contains id xs ≡ true
    → suc (length (delete id xs)) ≡ length xs
unfolding contains delete
length-delete id [] n h = ground (arith, h)
length-delete id (x ∷ xs) n h = elim (Bool-cases (str_eq x id)) [
  | inl same ↦ ground (
    arith,
    same,
    delete_absent id xs (subst (λ (k : String). contains k xs ≡ false) ((eq_iff x id).0 same) n.0),
  )
  | inr other ↦ ground (arith, other, h, length-delete id xs n.1)
]

stopped_state-Agrees :
    (xs : List String) (generation : ℕ) (token : String) (now : ℕ)
    → token ≢ ""
    → Agrees xs (stopped_state xs generation token now)
unfolding stopped_state idle_state busy_state
stopped_state-Agrees [] generation token now filled = (refl, refl, filled)
stopped_state-Agrees (x ∷ xs) generation token now filled = (refl, refl, refl)

-- A state agrees with every list of as many agents.
pub Agrees-length :
    (xs ys : List String) (s : AccessState) → length xs ≡ length ys → Agrees xs s → Agrees ys s
Agrees-length [] [] s e h = h
Agrees-length [] (y ∷ ys) s e h = ground (arith, e)
Agrees-length (x ∷ xs) [] s e h = ground (arith, e)
Agrees-length (x ∷ xs) (y ∷ ys) s e h = (h.0 ∙ e, h.1, h.2)

stopped_state-generation :
    (xs : List String) (generation : ℕ) (token : String) (now : ℕ)
    → (stopped_state xs generation token now).generation ≡ generation
unfolding stopped_state idle_state busy_state
stopped_state-generation [] generation token now = refl
stopped_state-generation (x ∷ xs) generation token now = refl

pub with_agent-IsAccess :
    (id : String) (now : ℕ) (e : Entry)
    → contains id e.agent_ids ≡ false
    → IsAccess e
    → IsAccess (with_agent id now e)
unfolding with_agent busy_state
with_agent-IsAccess id now e new v = record {
  agrees = (refl, refl, refl);
  distinct = (new, v.distinct);
  counted = omega arith;
}

pub without_agent-IsAccess :
    (id token : String) (now : ℕ) (e : Entry)
    → token ≢ ""
    → IsAccess e
    → IsAccess (without_agent id token now e)
unfolding without_agent
without_agent-IsAccess id token now e filled v = record {
  agrees = stopped_state-Agrees (delete id e.agent_ids) (e.state.generation + 1) token now filled;
  distinct = delete-Nodup id e.agent_ids v.distinct;
  counted =
      omega (
        arith,
        stopped_state-generation (delete id e.agent_ids) (e.state.generation + 1) token now,
      );
}

no_agents : (xs : List String) (s : AccessState) → Agrees xs s → s.active_agent_count ≡ 0 → xs ≡ []
no_agents [] s h e = refl
no_agents (x ∷ xs) s h e = ground (arith, h.0, e)

-- A mutation is admitted only if no agent is active, by the current token.
pub validate_mutation_state-idle :
    (e : Entry) (token : String)
    → IsAccess e
    → validate_mutation_state e token ≡ true
    → (e.agent_ids ≡ []) × (token ≡ e.state.quiescence_token) × (token ≢ "")
unfolding validate_mutation_state
validate_mutation_state-idle e token v h = (
  no_agents e.agent_ids e.state v.agrees (ground (arith, h)),
  ground (arith, h, eq_iff token e.state.quiescence_token),
  ground (arith, h, eq_iff token ""),
)

pub advanced-IsAccess :
    (token : String) (now : ℕ) (e : Entry)
    → token ≢ ""
    → e.agent_ids ≡ []
    → IsAccess e
    → IsAccess (advanced token now e)
unfolding advanced
advanced-IsAccess token now e filled none_active v =
    let a : Agrees [] e.state = subst (λ xs. Agrees xs e.state) none_active v.agrees in
    record {
      agrees =
          subst
            (λ xs. Agrees xs (record e.state {
              generation = e.state.generation + 1;
              observed_at_unix_ms = now;
              quiescence_token = token;
            }))
            (sym none_active) (a.0, a.1, filled);
      distinct = v.distinct;
      counted = omega arith;
    }

pub registered_state-Agrees :
    (s : Option AccessState) (token : String) (now : ℕ)
    → token ≢ ""
    → Agrees [] (registered_state s token now) × (1 ≤ (registered_state s token now).generation)
unfolding registered_state idle_state
registered_state-Agrees none token now filled = ((refl, refl, filled), omega arith)
registered_state-Agrees (some s) token now filled =
    ground (arith, filled, status_eq_sound s.mutation_status allowed, eq_iff s.quiescence_token "")

pub register_again-IsAccess :
    (resolved display : String) (s : AccessState) (e : Entry)
    → Agrees [] s
    → 1 ≤ s.generation
    → IsAccess e
    → IsAccess (register_again resolved display s e)
unfolding register_again
register_again-IsAccess resolved display s e agrees counted v =
    if_cases IsAccess (ltb e.state.generation s.generation)
      (λ newer. record { agrees = agrees; distinct = tt; counted = counted })
      (λ older. record { agrees = v.agrees; distinct = v.distinct; counted = v.counted })

pub roll_back-IsAccess :
    (a : Attempt) (e : Entry) → IsAttempt e a → IsAccess e → IsAccess (roll_back a e)
unfolding roll_back
roll_back-IsAccess a e t v =
    if_cases IsAccess (same_state e.state a.attempted)
      (λ same.
        let u = t.undone (same_state_sound e.state a.attempted same) in
        record { agrees = u.0; distinct = u.1; counted = t.started_once })
      (λ other. v)

finish_pending-IsAccess :
    (channel : ℕ) (e : Entry) → IsAccess e → IsAccess (finish_pending channel e)
unfolding finish_pending
finish_pending-IsAccess channel e v =
    if_cases IsAccess (is_channel channel e.pending)
      (λ same. record { agrees = v.agrees; distinct = v.distinct; counted = v.counted })
      (λ other. v)

pub finish-IsAccess :
    (x : Emitted) (a : Attempt) (e : Entry) → IsAttempt e a → IsAccess e → IsAccess (finish x a e)
unfolding finish
finish-IsAccess delivered a e t v = finish_pending-IsAccess a.channel e v
finish-IsAccess outcome_unknown a e t v = finish_pending-IsAccess a.channel e v
finish-IsAccess sink_failed a e t v =
    finish_pending-IsAccess a.channel (roll_back a e) (roll_back-IsAccess a e t v)
