-- ===== src/Codex/Lease.antt =====
-- internal/codex/manager.go: `UnmanageCodex`, `RenameCodex`, `renewLease`,
-- `RenewForegroundCodexes`, `sweepLease`, `sweepLeases` and `setRunning`, each under `commitMu`.
pub mod Sweep
pub mod Unmanage
use codex_remote.Prelude.{
  ℕ, ◌+◌, ◌-◌, String, Bool, true, false, not, ◌&&◌, ◌||◌, ◌⊎◌, inl, inr, Option, none, some, List,
  [], ◌∷◌, ◌++◌, Map, lookup, insert, if◌then◌else◌, leb, ◌==◌, str_eq,
}
use codex_remote.Errors.{Error, invalid_argument, codex_not_found, codex_busy}
use codex_remote.Codex.{
  CodexStatus, idle, running, waiting_for_approval, waiting_for_user_input, interrupting,
  ManagementState, managed, expiring_soon, unmanaged, Warning, management_expiring_soon, Codex,
  TurnSnapshot, View, Published, warning_raised, turn_updated, Manager, Config,
}
use codex_remote.Codex.Store.{
  number_at, flag_at, note_async_error, persist_state, publish_event, publish_codex, set_view,
  set_marker, set_memory, rollback_lifecycle_state, preserve_lifecycle_state, is_unknown,
}

unfoldable pub is_active : CodexStatus → Bool
is_active running = true
is_active waiting_for_approval = true
is_active waiting_for_user_input = true
is_active interrupting = true
is_active _ = false

unfoldable pub is_idle : CodexStatus → Bool
is_idle idle = true
is_idle _ = false

unfoldable pub is_some : {A : Type 0} → Option A → Bool
is_some none = false
is_some (some a) = true

unfoldable pub is_filled : {A : Type 0} → List A → Bool
is_filled [] = false
is_filled (x ∷ xs) = true

unfoldable pub manual_unmanage_busy : View → Bool
unfolding is_active is_some is_filled
manual_unmanage_busy v =
    is_active v.codex.status
    || not (str_eq v.codex.active_turn_id "")
    || is_some v.active_turn
    || is_filled v.pending_requests

unfoldable pub automatic_unmanage_safe : View → Bool
unfolding is_idle manual_unmanage_busy
automatic_unmanage_safe v = is_idle v.codex.status && not (manual_unmanage_busy v)

unfoldable pub is_expiring : Warning → Bool
is_expiring w = elim w.warning_code [ management_expiring_soon ↦ true | _ ↦ false ]

unfoldable pub has_management_warning : List Warning → ℕ → Bool
unfolding is_expiring
has_management_warning [] deadline = false
has_management_warning (w ∷ ws) deadline =
    (is_expiring w && (w.managed_until_unix_ms == deadline)) || has_management_warning ws deadline

unfoldable pub is_unmanaged : ManagementState → Bool
is_unmanaged unmanaged = true
is_unmanaged _ = false

-- MANAGED or EXPIRING_SOON
unfoldable pub is_leased : ManagementState → Bool
is_leased managed = true
is_leased expiring_soon = true
is_leased _ = false

unfoldable pub is_expiring_soon : ManagementState → Bool
is_expiring_soon expiring_soon = true
is_expiring_soon _ = false

unfoldable pub with_lease : ManagementState → ℕ → ℕ → View → View
with_lease state until now v = record v {
  codex = record v.codex { management_state = state; managed_until_unix_ms = until };
  generated_at_unix_ms = now;
}

unfoldable pub touched : ℕ → View → View
touched now v = record v { codex = record v.codex { last_activity_at_unix_ms = now } }

-- What a lease operation does when `publishCodex` has failed: `marker` and `persist` are for an
-- unknown outcome, `old_marker` for the rollback.
unfoldable pub undo :
    String → View → View → ℕ → Bool → ℕ → List Error → Manager → List Error × Manager
unfolding is_unknown preserve_lifecycle_state rollback_lifecycle_state
undo id original snapshot marker persist old_marker e m =
    if is_unknown e
    then preserve_lifecycle_state id snapshot marker persist e m
    else rollback_lifecycle_state id original old_marker e m

unfoldable pub lease_published :
    String → View → View → ℕ → Bool → ℕ → List Error × Manager → List Error × Manager
unfolding undo
lease_published id original snapshot marker persist old_marker ([], m) = ([], m)
lease_published id original snapshot marker persist old_marker (e ∷ es, m) =
    undo id original snapshot marker persist old_marker (e ∷ es) m

unfoldable pub lease_persisted :
    Config → String → View → View → ℕ → Bool → ℕ → List Error × Manager → List Error × Manager
unfolding lease_published set_view set_marker
lease_persisted cfg id original snapshot marker persist old_marker (e ∷ es, m) =
    (e ∷ es, set_marker id old_marker m)
lease_persisted cfg id original snapshot marker persist old_marker ([], m) =
    lease_published id original snapshot marker persist old_marker
      (publish_codex cfg snapshot.codex (set_view id snapshot m))

-- Persist, replace the view and publish it; `new_marker` is the warning marker while this runs.
unfoldable pub transition :
    Config → String → View → View → ℕ → ℕ → Bool → Manager → List Error × Manager
unfolding lease_persisted set_marker number_at
transition cfg id original snapshot new_marker marker persist m =
    lease_persisted cfg id original snapshot marker persist (number_at id m.warning_deadline)
      (persist_state snapshot (set_marker id new_marker m))

unfoldable pub unmanaged_answer : View → List Error × Manager → (Codex ⊎ List Error) × Manager
unmanaged_answer v ([], m) = (inl v.codex, m)
unmanaged_answer v (e ∷ es, m) = (inr (e ∷ es), m)

unfoldable pub unmanage_found :
    Config → String → Option View → Manager → (Codex ⊎ List Error) × Manager
unfolding is_unmanaged manual_unmanage_busy with_lease transition unmanaged_answer
unmanage_found cfg id none m = (inr (codex_not_found ∷ []), m)
unmanage_found cfg id (some v) m =
    if is_unmanaged v.codex.management_state
    then (inl v.codex, m)
    else if manual_unmanage_busy v
    then (inr (codex_busy ∷ []), m)
    else unmanaged_answer (with_lease unmanaged 0 m.now v)
        (transition cfg id v (with_lease unmanaged 0 m.now v) 0 0 false m)

unfoldable pub unmanage_codex : Config → String → Manager → (Codex ⊎ List Error) × Manager
unfolding unmanage_found
unmanage_codex cfg id m =
    if str_eq id ""
    then (inr (invalid_argument ∷ []), m)
    else unmanage_found cfg id (lookup id m.by_id) m

unfoldable pub renewed : Config → ℕ → View → View
unfolding with_lease touched
renewed cfg now v = touched now (with_lease managed (now + cfg.lease_duration) now v)

unfoldable pub renew_found : Config → String → Option View → Manager → List Error × Manager
unfolding is_unmanaged renewed transition
renew_found cfg id none m = (codex_not_found ∷ [], m)
renew_found cfg id (some v) m =
    if is_unmanaged v.codex.management_state
    then ([], m)
    else transition cfg id v (renewed cfg m.now v) 0 0 false m

unfoldable pub renew_lease : Config → String → Manager → List Error × Manager
unfolding renew_found
renew_lease cfg id m = renew_found cfg id (lookup id m.by_id) m

unfoldable pub member : String → List String → Bool
member id [] = false
member id (j ∷ js) = str_eq j id || member id js

unfoldable pub is_eligible : Option View → Bool
unfolding is_leased
is_eligible none = false
is_eligible (some v) = is_leased v.codex.management_state

unfoldable pub renew_each :
    Config → List String → List String → List Error × Manager → List Error × Manager
unfolding member is_eligible renew_lease
renew_each cfg seen ids (e ∷ es, m) = (e ∷ es, m)
renew_each cfg seen [] ([], m) = ([], m)
renew_each cfg seen (id ∷ ids) ([], m) =
    if str_eq id "" || member id seen
    then renew_each cfg seen ids ([], m)
    else renew_each cfg (id ∷ seen) ids
        (if is_eligible (lookup id m.by_id) then renew_lease cfg id m else ([], m))

unfoldable pub renew_foreground_codexes : Config → List String → Manager → List Error × Manager
unfolding renew_each
renew_foreground_codexes cfg ids m = renew_each cfg [] ids ([], m)

-- The warning of a lease that ends at the deadline.
unfoldable pub expiry_warning : ℕ → Warning
expiry_warning deadline = record {
  warning_code = management_expiring_soon;
  managed_until_unix_ms = deadline;
}

unfoldable pub with_warning : ℕ → View → View
unfolding has_management_warning expiry_warning
with_warning deadline v = record v {
  codex = record v.codex {
    warnings =
        if has_management_warning v.codex.warnings deadline
        then v.codex.warnings
        else v.codex.warnings ++ expiry_warning deadline ∷ [];
  };
}

-- `publishEvent` of the warning, and what its failure leads to.
unfoldable pub warned : String → View → ℕ → List Error × Manager → List Error × Manager
unfolding is_unknown preserve_lifecycle_state
warned id snapshot deadline ([], m) = ([], m)
warned id snapshot deadline (e ∷ es, m) =
    if is_unknown (e ∷ es)
    then preserve_lifecycle_state id snapshot deadline false (e ∷ es) m
    else preserve_lifecycle_state id snapshot 0 true (e ∷ es) m

unfoldable pub then_warn : String → View → ℕ → List Error × Manager → List Error × Manager
unfolding warned expiry_warning
then_warn id snapshot deadline (e ∷ es, m) = (e ∷ es, m)
then_warn id snapshot deadline ([], m) =
    warned id snapshot deadline
      (publish_event id (warning_raised (expiry_warning deadline)) snapshot m)

-- The branch of `sweepLease` for a lease that is about to expire.
unfoldable pub expire_soon : Config → String → View → Manager → List Error × Manager
unfolding with_lease with_warning transition then_warn is_expiring_soon number_at
expire_soon cfg id v m =
    let deadline = v.codex.managed_until_unix_ms in
    let snapshot = with_lease expiring_soon deadline m.now v in
    if number_at id m.warning_deadline == deadline
    then if is_expiring_soon v.codex.management_state
      then ([], m)
      else transition cfg id v snapshot deadline deadline false m
    else then_warn id (with_warning deadline snapshot) deadline
        (transition cfg id v (with_warning deadline snapshot) deadline 0 true m)

unfoldable pub sweep_leased : Config → String → View → Manager → List Error × Manager
unfolding automatic_unmanage_safe with_lease transition expire_soon
sweep_leased cfg id v m =
    let deadline = v.codex.managed_until_unix_ms in
    if leb deadline m.now && automatic_unmanage_safe v
    then transition cfg id v (with_lease unmanaged 0 m.now v) 0 0 false m
    else if leb (deadline - cfg.lease_warning_before) m.now
    then expire_soon cfg id v m
    else ([], m)

unfoldable pub sweep_found : Config → String → Option View → Manager → List Error × Manager
unfolding is_leased sweep_leased
sweep_found cfg id none m = ([], m)
sweep_found cfg id (some v) m =
    if is_leased v.codex.management_state && not (v.codex.managed_until_unix_ms == 0)
    then sweep_leased cfg id v m
    else ([], m)

unfoldable pub sweep_lease : Config → String → Manager → List Error × Manager
unfolding sweep_found
sweep_lease cfg id m = sweep_found cfg id (lookup id m.by_id) m

-- The loop over the ids that were in the map when the sweep began.
unfoldable pub sweep_each : Config → List String → List Error × Manager → List Error × Manager
unfolding sweep_lease
sweep_each cfg ids (e ∷ es, m) = (e ∷ es, m)
sweep_each cfg [] ([], m) = ([], m)
sweep_each cfg (id ∷ ids) ([], m) = sweep_each cfg ids (sweep_lease cfg id m)
