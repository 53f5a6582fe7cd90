-- ===== src/Codex/Turn.antt =====
-- internal/codex/manager.go: `RenameCodex`, and `setRunning`, which records a turn that the agent
-- has already started. strings.TrimSpace is the argument `trim`.
pub mod Busy
use codex_remote.Prelude.{
  ℕ, ◌+◌, String, Bool, true, ◌⊎◌, inl, inr, Option, none, some, List, [], ◌∷◌, lookup, insert,
  if◌then◌else◌, ◌==◌, str_eq,
}
use codex_remote.Errors.{Error, invalid_argument, codex_not_found}
use codex_remote.Codex.{
  CodexStatus, running, waiting_for_approval, waiting_for_user_input, managed, Codex, TurnSnapshot,
  View, turn_updated, Manager, Config,
}
use codex_remote.Codex.Store.{
  flag_at, note_async_error, persist_state, publish_event, publish_codex, set_view, set_marker,
  set_memory,
}

unfoldable pub set_manual_title : String → Bool → Manager → Manager
set_manual_title id b m = record m { manual_title = insert id b m.manual_title }

unfoldable pub titled : String → ℕ → View → View
titled title now v = record v {
  codex = record v.codex { title = title };
  generated_at_unix_ms = now;
}

unfoldable pub renamed_answer : View → List Error × Manager → (Codex ⊎ List Error) × Manager
renamed_answer v ([], m) = (inl v.codex, m)
renamed_answer v (e ∷ es, m) = (inr (e ∷ es), m)

unfoldable pub rename_persisted :
    Config → String → Bool → View → List Error × Manager → (Codex ⊎ List Error) × Manager
unfolding renamed_answer set_manual_title set_view
rename_persisted cfg id old_manual v (e ∷ es, m) = (inr (e ∷ es), set_manual_title id old_manual m)
rename_persisted cfg id old_manual v ([], m) =
    renamed_answer v (publish_codex cfg v.codex (set_view id v m))

unfoldable pub rename_found :
    Config → String → String → Option View → Manager → (Codex ⊎ List Error) × Manager
unfolding rename_persisted titled flag_at
rename_found cfg id title none m = (inr (codex_not_found ∷ []), m)
rename_found cfg id title (some v) m =
    let snapshot = titled title m.now v in
    rename_persisted cfg id (flag_at id m.manual_title) snapshot
      (persist_state snapshot (set_manual_title id true m))

unfoldable pub rename_codex :
    (String → String) → Config → String → String → Manager → (Codex ⊎ List Error) × Manager
unfolding rename_found
rename_codex trim cfg id title m =
    if str_eq id ""
    then (inr (invalid_argument ∷ []), m)
    else if str_eq (trim title) ""
    then (inr (invalid_argument ∷ []), m)
    else rename_found cfg id (trim title) (lookup id m.by_id) m

unfoldable pub running_unless_waiting : CodexStatus → CodexStatus
running_unless_waiting waiting_for_approval = waiting_for_approval
running_unless_waiting waiting_for_user_input = waiting_for_user_input
running_unless_waiting _ = running

unfoldable pub new_turn : String → ℕ → TurnSnapshot
new_turn turn_id now = record { turn_id = turn_id; is_running = true; started_at_unix_ms = now }

unfoldable pub running_turn : String → ℕ → Option TurnSnapshot → TurnSnapshot
unfolding new_turn
running_turn turn_id now none = new_turn turn_id now
running_turn turn_id now (some t) =
    if str_eq t.turn_id turn_id
    then record t {
      is_running = true;
      started_at_unix_ms = if t.started_at_unix_ms == 0 then now else t.started_at_unix_ms;
    }
    else new_turn turn_id now

unfoldable pub started_view : Config → String → ℕ → View → View
unfolding running_unless_waiting running_turn
started_view cfg turn_id now v = record v {
  codex = record v.codex {
    status = running_unless_waiting v.codex.status;
    active_turn_id = turn_id;
    last_activity_at_unix_ms = now;
    management_state = managed;
    managed_until_unix_ms = now + cfg.lease_duration;
  };
  active_turn = some (running_turn turn_id now v.active_turn);
  generated_at_unix_ms = now;
}

unfoldable pub running_view : Config → String → ℕ → View → View
unfolding started_view
running_view cfg turn_id now v = cfg.bound_current_view (started_view cfg turn_id now v)

unfoldable pub noted : List Error × Manager → List Error × Manager
unfolding note_async_error
noted (e, m) = (e, note_async_error e m)

unfoldable pub turn_published : Config → View → List Error × Manager → List Error × Manager
unfolding noted
turn_published cfg v (e ∷ es, m) = noted (e ∷ es, m)
turn_published cfg v ([], m) = noted (publish_codex cfg v.codex m)

unfoldable pub turn_persisted :
    Config → String → String → View → List Error × Manager → List Error × Manager
unfolding turn_published noted set_memory set_view
turn_persisted cfg id turn_id v (e ∷ es, m) = noted (e ∷ es, set_memory id v 0 m)
turn_persisted cfg id turn_id v ([], m) =
    turn_published cfg v (publish_event id (turn_updated turn_id) v (set_view id v m))

unfoldable pub set_running_found :
    Config → String → String → Option View → Manager → List Error × Manager
unfolding turn_persisted running_view set_marker
set_running_found cfg id turn_id none m = (codex_not_found ∷ [], m)
set_running_found cfg id turn_id (some v) m =
    let snapshot = running_view cfg turn_id m.now v in
    turn_persisted cfg id turn_id snapshot (persist_state snapshot (set_marker id 0 m))

unfoldable pub set_running : Config → String → String → Manager → List Error × Manager
unfolding set_running_found
set_running cfg id turn_id m = set_running_found cfg id turn_id (lookup id m.by_id) m
