-- ===== src/Codex/Lease/Sweep.antt =====
-- internal/codex/manager.go: what `sweepLease` may do to the view of a Codex in memory.
use codex_remote.Prelude.{
  eq_iff, none, ℕ, ◌-◌, String, Bool, true, false, not, ◌&&◌, ◌≡◌, refl, sym, ap, subst, ◌∙◌, ◌⊎◌,
  inl, inr, Option, some, List, [], ◌∷◌, lookup, insert, lookup-insert_self, if_cases, leb, ◌==◌,
  arith,
}
use codex_remote.Errors.{Error}
use codex_remote.Codex.{
  idle, CodexStatus, expiring_soon, unmanaged, View, warning_raised, Manager, Config,
}
use codex_remote.Codex.Store.{
  number_at, persist_state, publish_event, publish_codex, set_marker, set_view, set_memory,
  is_unknown, preserve_lifecycle_state,
}
use codex_remote.Codex.Store.Laws.{
  persist_state-memory, publish_event-memory, publish_codex-memory, rollback-memory,
  preserve-memory,
}
use codex_remote.Codex.Lease.{
  manual_unmanage_busy, is_idle, is_some, is_filled, automatic_unmanage_safe, is_leased,
  is_expiring_soon, with_lease, undo, lease_published, lease_persisted, transition, expiry_warning,
  with_warning, warned, then_warn, expire_soon, sweep_leased, sweep_found, sweep_lease,
}

-- The Codex has one of the two views in memory.
unfoldable pub HasOneOf : String → View → View → Manager → Type 0
HasOneOf id v s m = (lookup id m.by_id ≡ some v) ⊎ (lookup id m.by_id ≡ some s)

preserve-view :
    (id : String) (s : View) (deadline : ℕ) (persist : Bool) (e : List Error) (m : Manager)
    → lookup id (preserve_lifecycle_state id s deadline persist e m).1.by_id ≡ some s
unfolding set_memory insert
preserve-view id s deadline persist e m =
    ap (lookup id) (preserve-memory id s deadline persist e m).same_views
    ∙ lookup-insert_self id s m.by_id

undo-view :
    (id : String) (v s : View) (marker : ℕ) (persist : Bool) (old : ℕ) (e : List Error)
    (m : Manager)
    → HasOneOf id v s (undo id v s marker persist old e m).1
unfolding undo HasOneOf set_memory insert
undo-view id v s marker persist old e m =
    if_cases (λ (r : List Error × Manager). HasOneOf id v s r.1) (is_unknown e)
      (λ lost. inr (preserve-view id s marker persist e m))
      (λ failed. inl (
        ap (lookup id) (rollback-memory id v old e m).same_views ∙ lookup-insert_self id v m.by_id))

lease_published-view :
    (id : String) (v s : View) (marker : ℕ) (persist : Bool) (old : ℕ) (r : List Error × Manager)
    → lookup id r.1.by_id ≡ some s
    → HasOneOf id v s (lease_published id v s marker persist old r).1
unfolding lease_published HasOneOf
lease_published-view id v s marker persist old ([], m) h = inr h
lease_published-view id v s marker persist old (e ∷ es, m) h =
    undo-view id v s marker persist old (e ∷ es) m

lease_persisted-view :
    (cfg : Config) (id : String) (v s : View) (marker : ℕ) (persist : Bool) (old : ℕ)
    (r : List Error × Manager)
    → lookup id r.1.by_id ≡ some v
    → HasOneOf id v s (lease_persisted cfg id v s marker persist old r).1
unfolding lease_persisted set_marker set_view HasOneOf
lease_persisted-view cfg id v s marker persist old (e ∷ es, m) h = inl h
lease_persisted-view cfg id v s marker persist old ([], m) h =
    lease_published-view id v s marker persist old (publish_codex cfg s.codex (set_view id s m)) (
      ap (lookup id) (publish_codex-memory cfg s.codex (set_view id s m)).same_views
      ∙ lookup-insert_self id s m.by_id)

pub transition-view :
    (cfg : Config) (id : String) (v s : View) (new marker : ℕ) (persist : Bool) (m : Manager)
    → lookup id m.by_id ≡ some v
    → HasOneOf id v s (transition cfg id v s new marker persist m).1
unfolding transition set_marker
transition-view cfg id v s new marker persist m h =
    lease_persisted-view cfg id v s marker persist (number_at id m.warning_deadline)
      (persist_state s (set_marker id new m))
      (ap (lookup id) (persist_state-memory s (set_marker id new m)).same_views ∙ h)

warned-view :
    (id : String) (v s : View) (deadline : ℕ) (r : List Error × Manager)
    → HasOneOf id v s r.1
    → HasOneOf id v s (warned id s deadline r).1
unfolding warned HasOneOf
warned-view id v s deadline ([], m) h = h
warned-view id v s deadline (e ∷ es, m) h =
    if_cases (λ (r : List Error × Manager). HasOneOf id v s r.1) (is_unknown (e ∷ es))
      (λ lost. inr (preserve-view id s deadline false (e ∷ es) m))
      (λ failed. inr (preserve-view id s 0 true (e ∷ es) m))

then_warn-view :
    (id : String) (v s : View) (deadline : ℕ) (r : List Error × Manager)
    → HasOneOf id v s r.1
    → HasOneOf id v s (then_warn id s deadline r).1
unfolding then_warn HasOneOf
then_warn-view id v s deadline (e ∷ es, m) h = h
then_warn-view id v s deadline ([], m) h =
    let ev = warning_raised (expiry_warning deadline) in
    warned-view id v s deadline (publish_event id ev s m) (
      subst (λ (o : Option View). (o ≡ some v) ⊎ (o ≡ some s))
        (sym (ap (lookup id) (publish_event-memory id ev s m).same_views)) h)

-- How a view can look after a sweep at the time `now`.
pub data Swept (cfg : Config) (now : ℕ) (v v' : View) : Type 0 where
  stays : v' ≡ v → Swept cfg now v v'
  released :
      is_leased v.codex.management_state ≡ true
      → leb v.codex.managed_until_unix_ms now ≡ true
      → v.codex.status ≡ idle
      → v.codex.active_turn_id ≡ ""
      → v.active_turn ≡ none
      → v.pending_requests ≡ []
      → v' ≡ with_lease unmanaged 0 now v
      → Swept cfg now v v'
  warns :
      is_leased v.codex.management_state ≡ true
      → leb (v.codex.managed_until_unix_ms - cfg.lease_warning_before) now ≡ true
      → v'.codex.management_state ≡ expiring_soon
      → v'.codex.managed_until_unix_ms ≡ v.codex.managed_until_unix_ms
      → v'.codex.status ≡ v.codex.status
      → Swept cfg now v v'

-- The manager has a view of the Codex that a sweep can lead to.
unfoldable pub SweptTo : Config → String → View → ℕ → Manager → Type 0
SweptTo cfg id v now m = (v' : View) × (lookup id m.by_id ≡ some v') × Swept cfg now v v'

either-Swept :
    (cfg : Config) (id : String) (v s : View) (now : ℕ) (m : Manager)
    → Swept cfg now v s
    → HasOneOf id v s m
    → SweptTo cfg id v now m
unfolding HasOneOf SweptTo
either-Swept cfg id v s now m swept (inl h) = (v, h, stays refl)
either-Swept cfg id v s now m swept (inr h) = (s, h, swept)

expire_soon-swept :
    (cfg : Config) (id : String) (v : View) (m : Manager)
    → lookup id m.by_id ≡ some v
    → is_leased v.codex.management_state ≡ true
    → leb (v.codex.managed_until_unix_ms - cfg.lease_warning_before) m.now ≡ true
    → SweptTo cfg id v m.now (expire_soon cfg id v m).1
unfolding expire_soon with_lease with_warning HasOneOf
expire_soon-swept cfg id v m at leased soon =
    let deadline = v.codex.managed_until_unix_ms in
    let s = with_lease expiring_soon deadline m.now v in
    if_cases (λ (r : List Error × Manager). SweptTo cfg id v m.now r.1)
      (number_at id m.warning_deadline == deadline)
      (λ same.
        if_cases (λ (r : List Error × Manager). SweptTo cfg id v m.now r.1)
          (is_expiring_soon v.codex.management_state)
          (λ already. either-Swept cfg id v v m.now m (stays refl) (inl at))
          (λ first.
            either-Swept cfg id v s m.now (transition cfg id v s deadline deadline false m).1
              (warns leased soon refl refl refl)
              (transition-view cfg id v s deadline deadline false m at)))
      (λ new.
        let u = with_warning deadline s in
        either-Swept cfg id v u m.now
          (then_warn id u deadline (transition cfg id v u deadline 0 true m)).1
          (warns leased soon refl refl refl)
          (then_warn-view id v u deadline (transition cfg id v u deadline 0 true m)
            (transition-view cfg id v u deadline 0 true m at)))

idle_status : (s : CodexStatus) → is_idle s ≡ true → s ≡ idle
unfolding is_idle
idle_status CodexStatus.idle h = refl
idle_status s h = ground (arith, h)

no_value : {A : Type 0} (o : Option A) → is_some o ≡ false → o ≡ none
unfolding is_some
no_value none h = refl
no_value (some a) h = ground (arith, h)

no_items : {A : Type 0} (xs : List A) → is_filled xs ≡ false → xs ≡ []
unfolding is_filled
no_items [] h = refl
no_items (x ∷ xs) h = ground (arith, h)

safe_parts :
    (v : View)
    → automatic_unmanage_safe v ≡ true
    → (v.codex.status ≡ idle)
      × (v.codex.active_turn_id ≡ "")
      × (v.active_turn ≡ none)
      × (v.pending_requests ≡ [])
unfolding automatic_unmanage_safe manual_unmanage_busy
safe_parts v h = (
  idle_status v.codex.status (ground (arith, h)),
  ground (arith, h, eq_iff v.codex.active_turn_id ""),
  no_value v.active_turn (ground (arith, h)),
  no_items v.pending_requests (ground (arith, h)),
)

sweep_leased-swept :
    (cfg : Config) (id : String) (v : View) (m : Manager)
    → lookup id m.by_id ≡ some v
    → is_leased v.codex.management_state ≡ true
    → SweptTo cfg id v m.now (sweep_leased cfg id v m).1
unfolding sweep_leased HasOneOf
sweep_leased-swept cfg id v m at leased =
    let deadline = v.codex.managed_until_unix_ms in
    let s = with_lease unmanaged 0 m.now v in
    if_cases (λ (r : List Error × Manager). SweptTo cfg id v m.now r.1)
      (leb deadline m.now && automatic_unmanage_safe v)
      (λ over.
        either-Swept cfg id v s m.now (transition cfg id v s 0 0 false m).1
          (let (at_rest, no_id, no_turn, answered) = safe_parts v (ground (arith, over)) in
            released leased (ground (arith, over)) at_rest no_id no_turn answered refl)
          (transition-view cfg id v s 0 0 false m at))
      (λ kept.
        if_cases (λ (r : List Error × Manager). SweptTo cfg id v m.now r.1)
          (leb (deadline - cfg.lease_warning_before) m.now)
          (λ soon. expire_soon-swept cfg id v m at leased soon)
          (λ later. either-Swept cfg id v v m.now m (stays refl) (inl at)))

sweep_found-swept :
    (cfg : Config) (id : String) (v : View) (m : Manager)
    → lookup id m.by_id ≡ some v
    → SweptTo cfg id v m.now (sweep_found cfg id (some v) m).1
unfolding sweep_found HasOneOf
sweep_found-swept cfg id v m at =
    if_cases (λ (r : List Error × Manager). SweptTo cfg id v m.now r.1)
      (is_leased v.codex.management_state && not (v.codex.managed_until_unix_ms == 0))
      (λ leased. sweep_leased-swept cfg id v m at (ground (arith, leased)))
      (λ free. either-Swept cfg id v v m.now m (stays refl) (inl at))

-- Whatever the stores answer, `sweepLease` leaves the view of a Codex in memory as it was, or
-- releases the Codex, which needs a lease that is over and a Codex that is idle with no active turn
-- and no pending request, or marks a lease whose warning time has come as expiring, with its
-- deadline and status kept.
pub sweep_lease-SweptTo :
    (cfg : Config) (id : String) (v : View) (m : Manager)
    → lookup id m.by_id ≡ some v
    → SweptTo cfg id v m.now (sweep_lease cfg id m).1
unfolding sweep_lease
sweep_lease-SweptTo cfg id v m at =
    subst (λ (o : Option View). SweptTo cfg id v m.now (sweep_found cfg id o m).1) (sym at)
      (sweep_found-swept cfg id v m at)
