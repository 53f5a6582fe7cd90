-- ===== src/Persistence/Dedup.antt =====
-- internal/persistence/store.go: `BeginRequest` and `CompleteRequest`, the durable record of the
-- requests that have side effects.
pub mod Laws
use codex_remote.Prelude.{
  ℕ, String, Bool, true, false, not, ◌&&◌, ◌||◌, Option, none, some, List, [], ◌∷◌, lookup, insert,
  if◌then◌else◌, ◌==◌, str_eq, ◌≡◌, refl, arith,
}
use codex_remote.Errors.{
  Error, Result, ok, err, invalid_argument, sql_failed, request_conflict, request_in_progress,
  not_in_progress,
}
use codex_remote.Persistence.{
  Fault, runs, fails, commit_fails, Status, in_progress, completed, DedupRow, Db, next_fault,
  later_faults,
}

-- DedupResult, without the state that comes with an error.
pub data DedupResult : Type 0 where
  started : DedupResult
  completed_with : List ℕ → DedupResult

unfoldable pub equal_bytes : List ℕ → List ℕ → Bool
equal_bytes [] [] = true
equal_bytes (x ∷ xs) (y ∷ ys) = (x == y) && equal_bytes xs ys
equal_bytes _ _ = false

unfoldable pub is_empty : List ℕ → Bool
is_empty [] = true
is_empty (b ∷ bs) = false

unfoldable pub started_row : String → List ℕ → DedupRow
started_row operation fingerprint = record {
  operation = operation;
  fingerprint = fingerprint;
  status = in_progress;
  response_json = [];
}

unfoldable pub put : String → DedupRow → Db → Db
put id row db = record db { request_dedup = insert id row db.request_dedup }

-- INSERT INTO request_dedup … and the commit
unfoldable pub insert_row : Fault → String → DedupRow → Db → Result DedupResult × Db
unfolding put
insert_row runs id row db = (ok started, put id row db)
insert_row fails id row db = (err sql_failed, db)
insert_row (commit_fails applied) id row db =
    (err sql_failed, if applied then put id row db else db)

unfoldable pub state_of : Status → List ℕ → Result DedupResult
state_of completed response = ok (completed_with response)
state_of in_progress response = err request_in_progress

unfoldable pub compare_row :
    Fault → String → String → List ℕ → Option DedupRow → Db → Result DedupResult × Db
unfolding insert_row state_of started_row equal_bytes
compare_row fault id operation fingerprint none db =
    insert_row fault id (started_row operation fingerprint) db
compare_row fails id operation fingerprint (some row) db = (err sql_failed, db)
compare_row _ id operation fingerprint (some row) db = (
  if not (str_eq row.operation operation) || not (equal_bytes row.fingerprint fingerprint)
      then err request_conflict
      else state_of row.status row.response_json,
  db,
)

unfoldable pub begin_request : String → String → List ℕ → Db → Result DedupResult × Db
unfolding is_empty compare_row next_fault later_faults
begin_request id operation fingerprint db =
    if str_eq id "" || str_eq operation "" || is_empty fingerprint
    then (err invalid_argument, db)
    else compare_row (next_fault db.faults) id operation fingerprint (lookup id db.request_dedup)
        (record db { faults = later_faults db.faults })

unfoldable pub finished_row : List ℕ → DedupRow → DedupRow
finished_row response row = record row { status = completed; response_json = response }

-- The UPDATE on the row that it matches: `none` if there is no such row, or it is completed.
unfoldable pub if_running : Status → DedupRow → Option DedupRow
if_running in_progress row = some row
if_running completed row = none

unfoldable pub running_row : Option DedupRow → Option DedupRow
unfolding if_running
running_row none = none
running_row (some row) = if_running row.status row

unfoldable pub update_row : Fault → String → List ℕ → Option DedupRow → Db → Result (Unit {0}) × Db
unfolding finished_row put
update_row fails id response row db = (err sql_failed, db)
update_row fault id response none db = (err not_in_progress, db)
update_row runs id response (some row) db = (ok tt, put id (finished_row response row) db)
update_row (commit_fails applied) id response (some row) db =
    (err sql_failed, if applied then put id (finished_row response row) db else db)

unfoldable pub complete_request : String → List ℕ → Db → Result (Unit {0}) × Db
unfolding is_empty update_row running_row next_fault later_faults
complete_request id response db =
    if is_empty response
    then (err invalid_argument, db)
    else update_row (next_fault db.faults) id response (running_row (lookup id db.request_dedup))
        (record db { faults = later_faults db.faults })
