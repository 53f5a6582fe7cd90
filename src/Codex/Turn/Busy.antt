-- ===== src/Codex/Turn/Busy.antt =====
-- internal/codex/manager.go: a started turn stays recorded in memory, whatever the stores answer.
use codex_remote.Prelude.{
  ℕ, String, true, false, ◌≡◌, ◌≢◌, sym, ap, subst, ◌∙◌, ◌⊎◌, inr, if_cases, Option, some, List, [],
  ◌∷◌, lookup, lookup-insert_self, arith, eq_iff, str_eq,
}
use codex_remote.Errors.{Error, codex_busy}
use codex_remote.Codex.{Codex, View, turn_updated, Manager, Config}
use codex_remote.Codex.Store.{
  persist_state, publish_event, publish_codex, note_async_error, set_marker, set_memory, set_view,
}
use codex_remote.Codex.Store.Laws.{
  SameMemory, SameMemory-trans, persist_state-memory, publish_event-memory, publish_codex-memory,
  note_async_error-memory,
}
use codex_remote.Codex.Lease.{unmanage_codex, unmanage_found, manual_unmanage_busy, is_unmanaged}
use codex_remote.Codex.Turn.{
  started_view, running_view, noted, turn_published, turn_persisted, set_running_found, set_running,
}

turn_published-memory :
    (cfg : Config) (v : View) (r : List Error × Manager) → SameMemory r.1 (turn_published cfg v r).1
unfolding turn_published noted
turn_published-memory cfg v (e ∷ es, m) = note_async_error-memory (e ∷ es) m
turn_published-memory cfg v ([], m) =
    let p = publish_codex cfg v.codex m in
    SameMemory-trans m p.1 (note_async_error p.0 p.1) (publish_codex-memory cfg v.codex m)
      (note_async_error-memory p.0 p.1)

-- The view stands in memory with the marker 0, if the marker was set before.
turn_persisted-memory :
    (cfg : Config) (id turn_id : String) (v : View) (r : List Error × Manager)
    → lookup id r.1.warning_deadline ≡ some 0
    → (lookup id (turn_persisted cfg id turn_id v r).1.by_id ≡ some v)
      × (lookup id (turn_persisted cfg id turn_id v r).1.warning_deadline ≡ some 0)
unfolding turn_persisted noted set_memory set_view
turn_persisted-memory cfg id turn_id v (e ∷ es, m) h =
    let s = note_async_error-memory (e ∷ es) (set_memory id v 0 m) in
    (
      ap (lookup id) s.same_views ∙ lookup-insert_self id v m.by_id,
      ap (lookup id) s.same_markers ∙ lookup-insert_self id 0 m.warning_deadline,
    )
turn_persisted-memory cfg id turn_id v ([], m) h =
    let n = set_view id v m in
    let p = publish_event id (turn_updated turn_id) v n in
    let s =
      SameMemory-trans n p.1 (turn_published cfg v p).1
        (publish_event-memory id (turn_updated turn_id) v n) (turn_published-memory cfg v p) in
    (
      ap (lookup id) s.same_views ∙ lookup-insert_self id v m.by_id,
      ap (lookup id) s.same_markers ∙ h,
    )

set_running_found-memory :
    (cfg : Config) (id turn_id : String) (v : View) (m : Manager)
    → (lookup id (set_running_found cfg id turn_id (some v) m).1.by_id
        ≡ some (running_view cfg turn_id m.now v))
      × (lookup id (set_running_found cfg id turn_id (some v) m).1.warning_deadline ≡ some 0)
unfolding set_running_found set_marker
set_running_found-memory cfg id turn_id v m =
    let n = set_marker id 0 m in
    let snapshot = running_view cfg turn_id m.now v in
    let s = persist_state-memory snapshot n in
    turn_persisted-memory cfg id turn_id snapshot (persist_state snapshot n)
      (ap (lookup id) s.same_markers ∙ lookup-insert_self id 0 m.warning_deadline)

-- For a Codex in memory, `setRunning` leaves the running view in memory and no warning marker,
-- whatever the stores answer.
pub set_running-memory :
    (cfg : Config) (id turn_id : String) (v : View) (m : Manager)
    → lookup id m.by_id ≡ some v
    → (lookup id (set_running cfg id turn_id m).1.by_id ≡ some (running_view cfg turn_id m.now v))
      × (lookup id (set_running cfg id turn_id m).1.warning_deadline ≡ some 0)
unfolding set_running
set_running-memory cfg id turn_id v m at =
    subst
      (λ (o : Option View).
        (lookup id (set_running_found cfg id turn_id o m).1.by_id
          ≡ some (running_view cfg turn_id m.now v))
        × (lookup id (set_running_found cfg id turn_id o m).1.warning_deadline ≡ some 0))
      (sym at) (set_running_found-memory cfg id turn_id v m)

running_view-busy :
    (cfg : Config) (turn_id : String) (now : ℕ) (v : View)
    → turn_id ≢ ""
    → ((u : View) → (cfg.bound_current_view u).codex.active_turn_id ≡ u.codex.active_turn_id)
    → manual_unmanage_busy (running_view cfg turn_id now v) ≡ true
unfolding running_view started_view manual_unmanage_busy
running_view-busy cfg turn_id now v named kept =
    ground (arith, eq_iff turn_id "", kept (started_view cfg turn_id now v))

unmanage_found-busy :
    (cfg : Config) (id : String) (v : View) (m : Manager)
    → manual_unmanage_busy v ≡ true
    → is_unmanaged v.codex.management_state ≡ false
    → unmanage_found cfg id (some v) m ≡ (inr (codex_busy ∷ []), m)
unfolding unmanage_found
unmanage_found-busy cfg id v m busy leased = ground (arith, busy, leased)

-- Once `setRunning` was called for a Codex in memory, UnmanageCodex refuses it as busy and changes
-- nothing, whatever the stores answered to `setRunning`, if the turn id is not empty and
-- `boundCurrentView` keeps the active turn id and the management state.
pub set_running_blocks_unmanage :
    (cfg : Config) (id turn_id : String) (v : View) (m : Manager)
    → id ≢ ""
    → turn_id ≢ ""
    → ((u : View) → (cfg.bound_current_view u).codex.active_turn_id ≡ u.codex.active_turn_id)
    → ((u : View) → (cfg.bound_current_view u).codex.management_state ≡ u.codex.management_state)
    → lookup id m.by_id ≡ some v
    → unmanage_codex cfg id (set_running cfg id turn_id m).1
      ≡ (inr (codex_busy ∷ []), (set_running cfg id turn_id m).1)
unfolding unmanage_codex running_view started_view is_unmanaged
set_running_blocks_unmanage cfg id turn_id v m named turn kept_turn kept_state at =
    let n = (set_running cfg id turn_id m).1 in
    let r : unmanage_found cfg id (lookup id n.by_id) n ≡ (inr (codex_busy ∷ []), n) =
      subst (λ (o : Option View). unmanage_found cfg id o n ≡ (inr (codex_busy ∷ []), n))
        (sym (set_running-memory cfg id turn_id v m at).0)
        (unmanage_found-busy cfg id (running_view cfg turn_id m.now v) n
          (running_view-busy cfg turn_id m.now v turn kept_turn)
          (ap is_unmanaged (kept_state (started_view cfg turn_id m.now v)))) in
    if_cases (λ (x : (Codex ⊎ List Error) × Manager). x ≡ (inr (codex_busy ∷ []), n)) (str_eq id "")
      (λ e. ground (arith, e, eq_iff id "")) (λ e. r)
