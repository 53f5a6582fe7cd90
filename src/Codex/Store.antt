-- ===== src/Codex/Store.antt =====
-- internal/codex/manager.go: `persistState`, `publishEvent`, `publishCodex`,
-- `rollbackLifecycleState`, `preserveLifecycleState` and `noteAsyncError`. An error is the list of
-- the errors that it joins; the empty list is nil.
pub mod Laws
use codex_remote.Prelude.{
  ℕ, String, Bool, true, false, Option, none, some, List, [], ◌∷◌, ◌++◌, Map, lookup, insert,
  if◌then◌else◌,
}
use codex_remote.Errors.{
  Error, no_rows, sql_failed, commit_outcome_unknown, current_view_unavailable,
}
use codex_remote.Codex.{
  Codex, View, Row, Published, codex_updated, Reply, done, fails, unknown, Manager, Config,
}

unfoldable pub next_reply : List Reply → Reply
next_reply [] = done
next_reply (r ∷ rs) = r

unfoldable pub later_replies : List Reply → List Reply
later_replies [] = []
later_replies (r ∷ rs) = rs

-- A map's value, or the zero value for a missing key.
unfoldable pub number_at : String → Map ℕ → ℕ
number_at id m = elim (lookup id m) [ none ↦ 0 | some n ↦ n ]

unfoldable pub flag_at : String → Map Bool → Bool
flag_at id m = elim (lookup id m) [ none ↦ false | some b ↦ b ]

unfoldable pub spend : Manager → Manager
unfolding later_replies
spend m = record m { replies = later_replies m.replies }

unfoldable pub note_async_error : List Error → Manager → Manager
note_async_error [] m = m
note_async_error (e ∷ es) m = record m { async_error = e ∷ es }

unfoldable pub row_of : View → Manager → Row
unfolding number_at flag_at
row_of v m = record {
  view = v;
  warning_deadline = number_at v.codex.codex_id m.warning_deadline;
  manual_title_override = flag_at v.codex.codex_id m.manual_title;
}

unfoldable pub put_row : View → Manager → Manager
unfolding row_of
put_row v m = record m { rows = insert v.codex.codex_id (row_of v m) m.rows }

unfoldable pub persist_with : Reply → View → Manager → List Error × Manager
unfolding put_row
persist_with done v m = ([], put_row v m)
persist_with fails v m = (sql_failed ∷ [], m)
persist_with (unknown applied) v m = (sql_failed ∷ [], if applied then put_row v m else m)

unfoldable pub persist_state : View → Manager → List Error × Manager
unfolding persist_with spend next_reply
persist_state v m = persist_with (next_reply m.replies) v (spend m)

-- The commit of an event: its view goes into the row.
unfoldable pub commit : String → Published → View → Row → Manager → Manager
commit id event v row m = record m {
  rows = insert id (record row { view = v }) m.rows;
  events = (id, event) ∷ m.events;
}

unfoldable pub publish_with :
    Reply → String → Published → View → Option Row → Manager → List Error × Manager
unfolding commit
publish_with fails id event v row m = (sql_failed ∷ [], m)
publish_with reply id event v none m = (no_rows ∷ [], m)
publish_with done id event v (some row) m = ([], commit id event v row m)
publish_with (unknown applied) id event v (some row) m =
    (commit_outcome_unknown ∷ [], if applied then commit id event v row m else m)

unfoldable pub publish_event : String → Published → View → Manager → List Error × Manager
unfolding publish_with spend next_reply
publish_event id event v m =
    publish_with (next_reply m.replies) id event v (lookup id m.rows) (spend m)

-- ReloadDurable of the activity store
unfoldable pub reload_with : Reply → List Error
reload_with done = []
reload_with _ = sql_failed ∷ []

unfoldable pub reload_durable : Manager → List Error × Manager
unfolding reload_with spend next_reply
reload_durable m = (reload_with (next_reply m.replies), spend m)

unfoldable pub publish_found : Config → Codex → Option View → Manager → List Error × Manager
unfolding publish_event
publish_found cfg c none m = (current_view_unavailable ∷ [], m)
publish_found cfg c (some v) m =
    publish_event c.codex_id (cfg.bound_canonical_event (codex_updated c)) v m

unfoldable pub publish_codex : Config → Codex → Manager → List Error × Manager
unfolding publish_found
publish_codex cfg c m = publish_found cfg c (lookup c.codex_id m.by_id) m

-- The view and the warning marker of a Codex in memory.
unfoldable pub set_memory : String → View → ℕ → Manager → Manager
set_memory id v deadline m = record m {
  warning_deadline = insert id deadline m.warning_deadline;
  by_id = insert id v m.by_id;
}

unfoldable pub set_view : String → View → Manager → Manager
set_view id v m = record m { by_id = insert id v m.by_id }

unfoldable pub set_marker : String → ℕ → Manager → Manager
set_marker id deadline m = record m { warning_deadline = insert id deadline m.warning_deadline }

unfoldable pub note_joined : List Error → List Error × Manager → List Error × Manager
unfolding note_async_error
note_joined e ([], m) = (e, m)
note_joined e (e' ∷ es, m) = (e ++ e' ∷ es, note_async_error (e ++ e' ∷ es) m)

unfoldable pub rolled_back : List Error → List Error × Manager → List Error × Manager
unfolding note_joined reload_durable
rolled_back e ([], m) = note_joined e (reload_durable m)
rolled_back e (e' ∷ es, m) = note_joined e (e' ∷ es, m)

unfoldable pub rollback_lifecycle_state :
    String → View → ℕ → List Error → Manager → List Error × Manager
unfolding rolled_back set_memory
rollback_lifecycle_state id original deadline e m =
    rolled_back e (persist_state original (set_memory id original deadline m))

unfoldable pub preserved_reload : List Error → List Error × Manager → List Error × Manager
unfolding note_joined note_async_error
preserved_reload e ([], m) = (e, note_async_error e m)
preserved_reload e (e' ∷ es, m) = note_joined e (e' ∷ es, m)

unfoldable pub preserved : List Error → List Error × Manager → List Error × Manager
unfolding preserved_reload reload_durable note_joined
preserved e ([], m) = preserved_reload e (reload_durable m)
preserved e (e' ∷ es, m) = note_joined e (e' ∷ es, m)

unfoldable pub preserve_lifecycle_state :
    String → View → ℕ → Bool → List Error → Manager → List Error × Manager
unfolding preserved set_memory
preserve_lifecycle_state id snapshot deadline persist e m =
    let m' = set_memory id snapshot deadline m in
    let saved = persist_state snapshot m' in preserved e (if persist then saved else ([], m'))

-- errors.Is(err, persistence.ErrEventCommitOutcomeUnknown)
unfoldable pub is_unknown : List Error → Bool
is_unknown [] = false
is_unknown (commit_outcome_unknown ∷ es) = true
is_unknown (e ∷ es) = is_unknown es
