-- ===== src/Persistence/Dedup/Laws.antt =====
-- internal/persistence/store.go: what `BeginRequest` and `CompleteRequest` keep of the table
-- request_dedup.
use codex_remote.Prelude.{
  [], ◌∷◌, ℕ, String, true, false, not, ◌≡◌, ◌≢◌, refl, sym, ap, ◌∙◌, Option, none, some, List, Map,
  lookup, lookup-insert, insert, lookup-insert_self, if_cases, Bool-cases, str_eq, ◌||◌, ◌⊎◌, inl,
  inr, arith, eq_iff, if◌then◌else◌,
}
use codex_remote.Errors.{Result, ok, err, request_conflict}
use codex_remote.Persistence.{
  Fault, runs, fails, commit_fails, Status, in_progress, completed, DedupRow, Db, next_fault,
  later_faults,
}
use codex_remote.Persistence.Dedup.{
  DedupResult, started, equal_bytes, is_empty, started_row, put, insert_row, state_of, compare_row,
  begin_request, finished_row, if_running, running_row, update_row, complete_request,
}

-- What a row keeps as the table grows: what was asked, and the response once it is there.
pub record Kept (row row' : DedupRow) : Type 0 where
  pub same_operation : row'.operation ≡ row.operation
  pub same_fingerprint : row'.fingerprint ≡ row.fingerprint
  pub final : row.status ≡ completed → row' ≡ row

unfoldable pub Grows : Map DedupRow → Map DedupRow → Type 0
Grows m n =
    (j : String) (row : DedupRow)
    → lookup j m ≡ some row
    → (row' : DedupRow) × (lookup j n ≡ some row') × Kept row row'

Kept-same : (row : DedupRow) → Kept row row
Kept-same row = record { same_operation = refl; same_fingerprint = refl; final = λ h. refl }

pub Grows-refl : (m : Map DedupRow) → Grows m m
unfolding Grows
Grows-refl m j row h = (row, h, Kept-same row)

pub Grows-trans : (l m n : Map DedupRow) → Grows l m → Grows m n → Grows l n
unfolding Grows
Grows-trans l m n f g j row h =
    let (row', at, k) = f j row h in
    let (row'', at', k') = g j row' at in
    (
      row'',
      at',
      record {
        same_operation = k'.same_operation ∙ k.same_operation;
        same_fingerprint = k'.same_fingerprint ∙ k.same_fingerprint;
        final =
            λ done. k'.final (ap (λ (r : DedupRow). r.status) (k.final done) ∙ done) ∙ k.final done;
      },
    )

-- A row that is written under a free key, or over a row that it keeps.
insert-Grows :
    (id : String) (new : DedupRow) (m : Map DedupRow)
    → ((row : DedupRow) → lookup id m ≡ some row → Kept row new)
    → Grows m (insert id new m)
unfolding Grows
insert-Grows id new m over j row h = elim (Bool-cases (str_eq id j)) [
  | inl same ↦ (
    new,
    ground (arith, lookup-insert id j new m),
    over row (ap (λ (k : String). lookup k m) ((eq_iff id j).0 same) ∙ h),
  )
  | inr other ↦ (row, ground (arith, lookup-insert id j new m), Kept-same row)
]

put-Grows :
    (id : String) (new : DedupRow) (db : Db)
    → ((row : DedupRow) → lookup id db.request_dedup ≡ some row → Kept row new)
    → Grows db.request_dedup (put id new db).request_dedup
unfolding put
put-Grows id new db over = insert-Grows id new db.request_dedup over

insert_row-Grows :
    (fault : Fault) (id : String) (new : DedupRow) (db : Db)
    → lookup id db.request_dedup ≡ none
    → Grows db.request_dedup (insert_row fault id new db).1.request_dedup
unfolding insert_row
insert_row-Grows runs id new db free = put-Grows id new db (λ row h. ground (arith, free))
insert_row-Grows fails id new db free = Grows-refl db.request_dedup
insert_row-Grows (commit_fails true) id new db free =
    put-Grows id new db (λ row h. ground (arith, free))
insert_row-Grows (commit_fails false) id new db free = Grows-refl db.request_dedup

compare_row-Grows :
    (fault : Fault) (id operation : String) (sum : List ℕ) (row : Option DedupRow) (db : Db)
    → lookup id db.request_dedup ≡ row
    → Grows db.request_dedup (compare_row fault id operation sum row db).1.request_dedup
unfolding compare_row
compare_row-Grows fault id operation sum none db at =
    insert_row-Grows fault id (started_row operation sum) db at
compare_row-Grows runs id operation sum (some row) db at = Grows-refl db.request_dedup
compare_row-Grows fails id operation sum (some row) db at = Grows-refl db.request_dedup
compare_row-Grows (commit_fails b) id operation sum (some row) db at = Grows-refl db.request_dedup

-- Whatever the database answers, `BeginRequest` keeps every row of the table.
pub begin_request-Grows :
    (id operation : String) (sum : List ℕ) (db : Db)
    → Grows db.request_dedup (begin_request id operation sum db).1.request_dedup
unfolding begin_request
begin_request-Grows id operation sum db =
    if_cases (λ (r : Result DedupResult × Db). Grows db.request_dedup r.1.request_dedup)
      (str_eq id "" || str_eq operation "" || is_empty sum) (λ bad. Grows-refl db.request_dedup)
      (λ good.
        compare_row-Grows (next_fault db.faults) id operation sum (lookup id db.request_dedup)
          (record db { faults = later_faults db.faults }) refl)

Status-cases : (s : Status) → (s ≡ in_progress) ⊎ (s ≡ completed)
Status-cases in_progress = inl refl
Status-cases completed = inr refl

-- The row was started before this UPDATE.
running_row-some :
    (o : Option DedupRow) (row : DedupRow)
    → running_row o ≡ some row
    → (o ≡ some row) × (row.status ≡ in_progress)
unfolding running_row if_running
running_row-some none row h = ground (arith, h)
running_row-some (some r) row h = elim (Status-cases r.status) [
  | inl going ↦ (ground (arith, h, going), ground (arith, h, going))
  | inr done ↦ ground (arith, h, done)
]

finish-Grows :
    (id : String) (raw : List ℕ) (r : DedupRow) (db : Db)
    → running_row (lookup id db.request_dedup) ≡ some r
    → Grows db.request_dedup (put id (finished_row raw r) db).request_dedup
unfolding finished_row
finish-Grows id raw r db at =
    let running : (lookup id db.request_dedup ≡ some r) × (r.status ≡ in_progress) =
      running_row-some (lookup id db.request_dedup) r at in
    put-Grows id (finished_row raw r) db (λ row h.
      let same : row ≡ r = ground (arith, h, running) in
      record {
        same_operation = ap (λ (x : DedupRow). x.operation) (sym same);
        same_fingerprint = ap (λ (x : DedupRow). x.fingerprint) (sym same);
        final = λ done. ground (arith, running, same, done);
      })

update_row-Grows :
    (fault : Fault) (id : String) (raw : List ℕ) (o : Option DedupRow) (db : Db)
    → running_row (lookup id db.request_dedup) ≡ o
    → Grows db.request_dedup (update_row fault id raw o db).1.request_dedup
unfolding update_row
update_row-Grows fails id raw o db at = Grows-refl db.request_dedup
update_row-Grows runs id raw none db at = Grows-refl db.request_dedup
update_row-Grows (commit_fails b) id raw none db at = Grows-refl db.request_dedup
update_row-Grows runs id raw (some r) db at = finish-Grows id raw r db at
update_row-Grows (commit_fails true) id raw (some r) db at = finish-Grows id raw r db at
update_row-Grows (commit_fails false) id raw (some r) db at = Grows-refl db.request_dedup

-- Whatever the database answers, `CompleteRequest` keeps every row of the table.
pub complete_request-Grows :
    (id : String) (raw : List ℕ) (db : Db)
    → Grows db.request_dedup (complete_request id raw db).1.request_dedup
unfolding complete_request
complete_request-Grows id raw db =
    if_cases (λ (r : Result (Unit {0}) × Db). Grows db.request_dedup r.1.request_dedup)
      (is_empty raw) (λ bad. Grows-refl db.request_dedup)
      (λ good.
        update_row-Grows (next_fault db.faults) id raw (running_row (lookup id db.request_dedup))
          (record db { faults = later_faults db.faults }) refl)

state_of-not_started : (s : Status) (raw : List ℕ) → state_of s raw ≢ ok started
unfolding state_of
state_of-not_started in_progress raw h = ground (arith, h)
state_of-not_started completed raw h = ground (arith, h)

compare_row-started :
    (fault : Fault) (id operation : String) (sum : List ℕ) (o : Option DedupRow) (db : Db)
    → (compare_row fault id operation sum o db).0 ≡ ok started
    → (o ≡ none)
      × (lookup id (compare_row fault id operation sum o db).1.request_dedup
          ≡ some (started_row operation sum))
unfolding compare_row insert_row state_of put
compare_row-started runs id operation sum none db h =
    (refl, lookup-insert_self id (started_row operation sum) db.request_dedup)
compare_row-started fails id operation sum none db h = ground (arith, h)
compare_row-started (commit_fails b) id operation sum none db h = ground (arith, h)
compare_row-started runs id operation sum (some row) db h =
    ground (arith, h, state_of-not_started row.status row.response_json)
compare_row-started fails id operation sum (some row) db h = ground (arith, h)
compare_row-started (commit_fails b) id operation sum (some row) db h =
    ground (arith, h, state_of-not_started row.status row.response_json)

-- A request is started only if its id was free; then its row stands in the table.
pub begin_request-started :
    (id operation : String) (sum : List ℕ) (db : Db)
    → (begin_request id operation sum db).0 ≡ ok started
    → (lookup id db.request_dedup ≡ none)
      × (lookup id (begin_request id operation sum db).1.request_dedup
          ≡ some (started_row operation sum))
unfolding begin_request
begin_request-started id operation sum db =
    if_cases
      (λ (r : Result DedupResult × Db).
        r.0 ≡ ok started
        → (lookup id db.request_dedup ≡ none)
          × (lookup id r.1.request_dedup ≡ some (started_row operation sum)))
      (str_eq id "" || str_eq operation "" || is_empty sum) (λ bad h. ground (arith, h))
      (λ good.
        compare_row-started (next_fault db.faults) id operation sum (lookup id db.request_dedup)
          (record db { faults = later_faults db.faults }))

compare_row-known :
    (fault : Fault) (id operation : String) (sum : List ℕ) (row : DedupRow) (db : Db)
    → fault ≢ fails
    → compare_row fault id operation sum (some row) db ≡ (
      if not (str_eq row.operation operation) || not (equal_bytes row.fingerprint sum)
          then err request_conflict
          else state_of row.status row.response_json,
      db,
    )
unfolding compare_row
compare_row-known runs id operation sum row db quiet = refl
compare_row-known fails id operation sum row db quiet = elim (quiet refl) [ ]
compare_row-known (commit_fails b) id operation sum row db quiet = refl

-- A request whose id is in the table is compared with its row, which stays as it is.
pub begin_request-known :
    (id operation : String) (sum : List ℕ) (db : Db) (row : DedupRow)
    → id ≢ ""
    → operation ≢ ""
    → is_empty sum ≡ false
    → next_fault db.faults ≢ fails
    → lookup id db.request_dedup ≡ some row
    → begin_request id operation sum db ≡ (
      if not (str_eq row.operation operation) || not (equal_bytes row.fingerprint sum)
          then err request_conflict
          else state_of row.status row.response_json,
      record db { faults = later_faults db.faults },
    )
unfolding begin_request
begin_request-known id operation sum db row named done full quiet at = ground (
  arith,
  at,
  full,
  eq_iff id "",
  eq_iff operation "",
  compare_row-known (next_fault db.faults) id operation sum row
      (record db { faults = later_faults db.faults }) quiet,
)

update_row-ok :
    (fault : Fault) (id : String) (raw : List ℕ) (o : Option DedupRow) (db : Db)
    → running_row (lookup id db.request_dedup) ≡ o
    → (update_row fault id raw o db).0 ≡ ok tt
    → (row : DedupRow) × (lookup id db.request_dedup ≡ some row)
      × (lookup id (update_row fault id raw o db).1.request_dedup ≡ some (finished_row raw row))
unfolding update_row put
update_row-ok fails id raw o db at h = ground (arith, h)
update_row-ok runs id raw none db at h = ground (arith, h)
update_row-ok (commit_fails b) id raw none db at h = ground (arith, h)
update_row-ok (commit_fails b) id raw (some r) db at h = ground (arith, h)
update_row-ok runs id raw (some r) db at h = (
  r,
  (running_row-some (lookup id db.request_dedup) r at).0,
  lookup-insert_self id (finished_row raw r) db.request_dedup,
)

-- A request that was completed had a row, which now holds the response.
pub complete_request-ok :
    (id : String) (raw : List ℕ) (db : Db)
    → (complete_request id raw db).0 ≡ ok tt
    → (row : DedupRow) × (lookup id db.request_dedup ≡ some row)
      × (lookup id (complete_request id raw db).1.request_dedup ≡ some (finished_row raw row))
unfolding complete_request
complete_request-ok id raw db =
    if_cases
      (λ (r : Result (Unit {0}) × Db).
        r.0 ≡ ok tt
        → (row : DedupRow) × (lookup id db.request_dedup ≡ some row)
          × (lookup id r.1.request_dedup ≡ some (finished_row raw row)))
      (is_empty raw) (λ bad h. ground (arith, h))
      (λ good.
        update_row-ok (next_fault db.faults) id raw (running_row (lookup id db.request_dedup))
          (record db { faults = later_faults db.faults }) refl)

compare_row-free :
    (fault : Fault) (id operation : String) (sum : List ℕ) (db : Db)
    → fault ≡ runs
    → compare_row fault id operation sum none db
      ≡ (ok started, put id (started_row operation sum) db)
unfolding compare_row insert_row
compare_row-free runs id operation sum db h = refl
compare_row-free fails id operation sum db h = ground (arith, h)
compare_row-free (commit_fails b) id operation sum db h = ground (arith, h)

-- A request with a free id is started, if the database works.
pub begin_request-free :
    (id operation : String) (sum : List ℕ) (db : Db)
    → id ≢ ""
    → operation ≢ ""
    → is_empty sum ≡ false
    → next_fault db.faults ≡ runs
    → lookup id db.request_dedup ≡ none
    → begin_request id operation sum db ≡ (
      ok started,
      put id (started_row operation sum) (record db { faults = later_faults db.faults }),
    )
unfolding begin_request
begin_request-free id operation sum db named done full working free = ground (
  arith,
  free,
  full,
  eq_iff id "",
  eq_iff operation "",
  compare_row-free (next_fault db.faults) id operation sum
      (record db { faults = later_faults db.faults }) working,
)

pub equal_bytes_self : (xs : List ℕ) → equal_bytes xs xs ≡ true
unfolding equal_bytes
equal_bytes_self [] = refl
equal_bytes_self (x ∷ xs) = ground (arith, equal_bytes_self xs)
