-- ===== src/Persistence/Events/Laws.antt =====
-- The transactions of internal/persistence/store.go are what internal/activity/store.go relies on.
use codex_remote.Prelude.{
  ℕ, suc, ◌+◌, ◌≡◌, refl, ap, ◌∙◌, ◌⊎◌, inl, inr, true, false, String, Option, none, some, List, [],
  ◌∷◌, lookup, lookup-insert, if_cases, arith, str_eq, if◌then◌else◌,
}
use codex_remote.Errors.{Error, Result, ok, err, commit_outcome_unknown}
use codex_remote.Persistence.{
  Fault, runs, fails, commit_fails, CodexRow, Db, next_fault, later_faults,
}
use codex_remote.Persistence.Events.{
  head_or_zero, load_event_state, committed, write_view, advance_head, commit_event,
}

boundary : Option ℕ → Option CodexRow → Option (ℕ × List ℕ)
boundary heads none = none
boundary heads (some row) = some (head_or_zero heads, row.current_view_json)

-- The boundary and the view of a Codex in the tables.
unfoldable pub durable : Db → String → Option (ℕ × List ℕ)
unfolding boundary
durable db id = boundary (lookup id db.event_heads) (lookup id db.codexes)

pub load_ok :
    (db : Db) (id : String) (head : ℕ) (raw : List ℕ)
    → (load_event_state id db).0 ≡ ok (head, raw)
    → durable db id ≡ some (head, raw)
unfolding load_event_state durable
load_ok db id head raw h = ground arith

durable-committed :
    (db : Db) (id j : String) (seq : ℕ) (raw : List ℕ)
    → durable (committed id seq raw db) j ≡ (if str_eq id j then some (seq, raw) else durable db j)
unfolding durable committed head_or_zero
durable-committed db id j seq raw = ground (
  arith,
  lookup-insert id j seq db.event_heads,
  lookup-insert id j (record { current_view_json = raw; last_activity_at_ms = db.now }) db.codexes,
)

-- How the tail of the transaction can end, at the number `seq` and the view that was built.
pub data Ends (db : Db) (id : String) (seq : ℕ) (built : Result (List ℕ)) (r : Result ℕ × Db)
    : Type 0 where
  kept : (e : Error) → r.0 ≡ err e → r.1 ≡ db → Ends db id seq built r
  done :
      (raw : List ℕ)
      → built ≡ ok raw
      → r.0 ≡ ok seq
      → r.1 ≡ committed id seq raw db
      → Ends db id seq built r
  unknown :
      (raw : List ℕ)
      → built ≡ ok raw
      → r.0 ≡ err commit_outcome_unknown
      → r.1 ≡ committed id seq raw db
      → Ends db id seq built r

write_view-Ends :
    (fault : Fault) (id : String) (seq : ℕ) (built : Result (List ℕ)) (db : Db)
    → Ends db id seq built (write_view fault id seq built db)
unfolding write_view
write_view-Ends fault id seq (err e) db = kept e refl refl
write_view-Ends fault id seq (ok []) db = kept _ refl refl
write_view-Ends runs id seq (ok (b ∷ bs)) db = done (b ∷ bs) refl refl refl
write_view-Ends fails id seq (ok (b ∷ bs)) db = kept _ refl refl
write_view-Ends (commit_fails true) id seq (ok (b ∷ bs)) db = unknown (b ∷ bs) refl refl refl
write_view-Ends (commit_fails false) id seq (ok (b ∷ bs)) db = kept _ refl refl

-- How a whole `CommitEvent` can end: nothing changed, or its codex moved to the next number.
pub data Commits (db : Db) (id : String) (build : ℕ → Result (List ℕ)) (r : Result ℕ × Db)
    : Type 0 where
  kept :
      (e : Error)
      → r.0 ≡ err e
      → ((j : String) → durable r.1 j ≡ durable db j)
      → Commits db id build r
  moved :
      (head : ℕ) (old raw : List ℕ)
      → durable db id ≡ some (head, old)
      → build (suc head) ≡ ok raw
      → (r.0 ≡ ok (suc head)) ⊎ (r.0 ≡ err commit_outcome_unknown)
      → ((j : String)
          → durable r.1 j ≡ (if str_eq id j then some (suc head, raw) else durable db j))
      → Commits db id build r

pub durable-faults :
    (db : Db) (fs : List Fault) (j : String) → durable (record db { faults = fs }) j ≡ durable db j
unfolding durable
durable-faults db fs j = refl

module _ (db : Db) (fs : List Fault) (id : String) (build : ℕ → Result (List ℕ)) where
  head_of : ℕ
  head_of = head_or_zero (lookup id db.event_heads)

  -- A transaction that wrote the next number and the view that was built for it.
  moved-Commits :
      (row : CodexRow) (raw : List ℕ) (r : Result ℕ × Db)
      → lookup id db.codexes ≡ some row
      → build (head_of + 1) ≡ ok raw
      → (r.0 ≡ ok (head_of + 1)) ⊎ (r.0 ≡ err commit_outcome_unknown)
      → r.1 ≡ committed id (head_of + 1) raw (record db { faults = fs })
      → Commits db id build r
  unfolding durable head_of
  moved-Commits row raw r here built a b =
      let next : head_of + 1 ≡ suc head_of = omega arith in
      moved head_of row.current_view_json raw (rw here) (rw (← next) built)
        (elim a [ inl x ↦ inl (x ∙ ap ok next) | inr x ↦ inr x ])
        (λ j.
          ap (λ (x : Db). durable x j) b
          ∙ durable-committed (record db { faults = fs }) id j (head_of + 1) raw
          ∙ ap (λ (n : ℕ). if str_eq id j then some (n, raw) else durable db j) next)

  Ends-Commits :
      (row : CodexRow) (r : Result ℕ × Db)
      → lookup id db.codexes ≡ some row
      → Ends (record db { faults = fs }) id (head_of + 1) (build (head_of + 1)) r
      → Commits db id build r
  Ends-Commits row r here (kept e a b) =
      kept e a (λ j. ap (λ (x : Db). durable x j) b ∙ durable-faults db fs j)
  Ends-Commits row r here (done raw built a b) = moved-Commits row raw r here built (inl a) b
  Ends-Commits row r here (unknown raw built a b) = moved-Commits row raw r here built (inr a) b

advance_head-Commits :
    (fault : Fault) (fs : List Fault) (id : String) (build : ℕ → Result (List ℕ))
    (o : Option CodexRow) (db : Db)
    → lookup id db.codexes ≡ o
    → Commits db id build (advance_head fault id build o (record db { faults = fs }))
unfolding advance_head head_of
advance_head-Commits fails fs id build o db e = kept _ refl (λ j. durable-faults db fs j)
advance_head-Commits runs fs id build none db e = kept _ refl (λ j. durable-faults db fs j)
advance_head-Commits (commit_fails b) fs id build none db e =
    kept _ refl (λ j. durable-faults db fs j)
advance_head-Commits runs fs id build (some row) db e =
    Ends-Commits db fs id build row _ e (write_view-Ends runs id _ _ (record db { faults = fs }))
advance_head-Commits (commit_fails b) fs id build (some row) db e =
    Ends-Commits db fs id build row _ e
      (write_view-Ends (commit_fails b) id _ _ (record db { faults = fs }))

-- Every `CommitEvent` either changes no boundary and no view, or moves its Codex to the next number
-- with the view that was built for it, and then returns this number or an unknown outcome.
pub commit_event-Commits :
    (db : Db) (id : String) (build : ℕ → Result (List ℕ))
    → Commits db id build (commit_event id build db)
unfolding commit_event
commit_event-Commits db id build =
    if_cases (Commits db id build) (str_eq id "") (λ _. kept _ refl (λ j. refl))
      (λ _.
        advance_head-Commits (next_fault db.faults) (later_faults db.faults) id build
          (lookup id db.codexes) db refl)
