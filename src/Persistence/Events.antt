-- ===== src/Persistence/Events.antt =====
-- internal/persistence/store.go: `LoadEventState` and `CommitEvent`, which read and advance the
-- durable event boundary of a Codex together with its CurrentView.
pub mod Laws
pub mod Refines
use codex_remote.Prelude.{
  ℕ, ◌+◌, String, Bool, Option, none, some, List, [], ◌∷◌, lookup, insert, if◌then◌else◌, str_eq,
}
use codex_remote.Errors.{
  Error, Result, ok, err, invalid_argument, no_rows, sql_failed, commit_outcome_unknown,
}
use codex_remote.Persistence.{
  Fault, runs, fails, commit_fails, CodexRow, Db, next_fault, later_faults,
}

-- COALESCE((SELECT head_seq …), 0)
unfoldable pub head_or_zero : Option ℕ → ℕ
head_or_zero none = 0
head_or_zero (some n) = n

load_row : String → Db → Option CodexRow → Result (ℕ × List ℕ)
unfolding head_or_zero
load_row codex_id db none = err no_rows
load_row codex_id db (some row) =
    ok (head_or_zero (lookup codex_id db.event_heads), row.current_view_json)

load_with : String → Db → Fault → Result (ℕ × List ℕ)
unfolding load_row
load_with codex_id db fails = err sql_failed
load_with codex_id db _ = load_row codex_id db (lookup codex_id db.codexes)

unfoldable pub load_event_state : String → Db → Result (ℕ × List ℕ) × Db
unfolding load_with next_fault later_faults
load_event_state codex_id db =
    (load_with codex_id db (next_fault db.faults), record db { faults = later_faults db.faults })

-- What the transaction leaves when it is committed.
unfoldable pub committed : String → ℕ → List ℕ → Db → Db
committed codex_id seq view_json db = record db {
  event_heads = insert codex_id seq db.event_heads;
  codexes =
      insert codex_id (record { current_view_json = view_json; last_activity_at_ms = db.now })
        db.codexes;
}

-- The tail of the transaction, from the view that `buildView` returned.
write_view : Fault → String → ℕ → Result (List ℕ) → Db → Result ℕ × Db
unfolding committed
write_view fault codex_id seq (err e) db = (err e, db)
write_view fault codex_id seq (ok []) db = (err invalid_argument, db)
write_view runs codex_id seq (ok (b ∷ bs)) db = (ok seq, committed codex_id seq (b ∷ bs) db)
write_view fails codex_id seq (ok (b ∷ bs)) db = (err sql_failed, db)
write_view (commit_fails applied) codex_id seq (ok (b ∷ bs)) db =
    (err commit_outcome_unknown, if applied then committed codex_id seq (b ∷ bs) db else db)

advance_head : Fault → String → (ℕ → Result (List ℕ)) → Option CodexRow → Db → Result ℕ × Db
unfolding write_view head_or_zero
advance_head fails codex_id build row db = (err sql_failed, db)
advance_head fault codex_id build none db = (err no_rows, db)
advance_head fault codex_id build (some row) db =
    let seq = head_or_zero (lookup codex_id db.event_heads) + 1 in
    write_view fault codex_id seq (build seq) db

unfoldable pub commit_event : String → (ℕ → Result (List ℕ)) → Db → Result ℕ × Db
unfolding advance_head next_fault later_faults
commit_event codex_id build db =
    if str_eq codex_id ""
    then (err invalid_argument, db)
    else advance_head (next_fault db.faults) codex_id build (lookup codex_id db.codexes)
        (record db { faults = later_faults db.faults })
