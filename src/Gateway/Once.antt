-- ===== src/Gateway/Once.antt =====
-- internal/gateway/dispatcher.go: how often a request is handed to the backend.
use codex_remote.Prelude.{
  ℕ, suc, ◌+◌, ◌≤◌, String, false, ◌&&◌, ◌≡◌, refl, sym, ap, subst, ◌∙◌, if_cases, ◌⊎◌, inl, inr,
  Option, none, some, List, [], ◌∷◌, lookup, Bool-cases, Option-cases, arith, eq_iff, str_eq,
  if◌then◌else◌, Map,
}
use codex_remote.Errors.{Result, ok, err}
use codex_remote.Persistence.{DedupRow, Db}
use codex_remote.Persistence.Dedup.{
  DedupResult, started, completed_with, begin_request, complete_request, started_row,
}
use codex_remote.Persistence.Dedup.Laws.{
  Grows, Grows-refl, Grows-trans, begin_request-Grows, begin_request-started,
  complete_request-Grows,
}
use codex_remote.Gateway.{Kind, Request, Response, Method, Backend, World, Dispatcher}
use codex_remote.Gateway.Kinds.{operation}
use codex_remote.Gateway.Call.{call, call_with, method}
use codex_remote.Gateway.Dispatch.{
  reported, completed_call, execute, begun, deduplicated, serve, validated, validate_request,
  dispatch, fingerprint_of, is_connection_scoped,
}

-- How many of the calls had this request id and a side effect.
unfoldable pub executions : String → List (String × Kind) → ℕ
executions id [] = 0
executions id ((i, k) ∷ calls) =
    let rest = executions id calls in if str_eq i id && (operation k).1 then suc rest else rest

unfoldable pub present : Option DedupRow → ℕ
present none = 0
present (some row) = 1

-- Whether a call of this request counts for the id.
unfoldable pub counts : {B : Type 0} → String → Request B → Kind → ℕ
counts id req k = if str_eq req.request_id id && (operation k).1 then 1 else 0

-- No request with side effects was executed twice, nor one whose id is not in the table.
unfoldable pub IsOnce : {S : Type 0} → World S → Type 0
IsOnce w = (id : String) → executions id w.calls ≤ present (lookup id w.db.request_dedup)

-- One world after another: rows are kept, and an execution comes with a new row.
pub record Advances {S : Type 0} (w w' : World S) : Type 0 where
  pub grows : Grows w.db.request_dedup w'.db.request_dedup
  pub counted :
      (id : String)
      → executions id w'.calls + present (lookup id w.db.request_dedup)
        ≤ executions id w.calls + present (lookup id w'.db.request_dedup)

pub present_le : (o : Option DedupRow) → present o ≤ 1
unfolding present
present_le none = omega arith
present_le (some row) = omega arith

present-Grows :
    (m n : Map DedupRow) → Grows m n → (id : String) → present (lookup id m) ≤ present (lookup id n)
unfolding Grows present
present-Grows m n g id = elim (Option-cases (lookup id m)) [
  | inl free ↦ ground (arith, free)
  | inr (row, at) ↦ ground (arith, at, g id row at)
]

module _ {S : Type 0} where
  pub Advances-refl : (w : World S) → Advances w w
  Advances-refl w = record { grows = Grows-refl w.db.request_dedup; counted = λ id. omega arith }

  pub Advances-trans : (u v w : World S) → Advances u v → Advances v w → Advances u w
  Advances-trans u v w a b = record {
    grows = Grows-trans u.db.request_dedup v.db.request_dedup w.db.request_dedup a.grows b.grows;
    counted = λ id. omega (arith, a.counted id, b.counted id);
  }

  pub Advances-IsOnce : (v w : World S) → Advances v w → IsOnce v → IsOnce w
  unfolding IsOnce
  Advances-IsOnce v w a once id = omega (arith, a.counted id, once id)

  -- A change of the database alone.
  pub Advances-db :
      (w : World S) (db : Db)
      → Grows w.db.request_dedup db.request_dedup
      → Advances w (record w { db = db })
  Advances-db w db g = record {
    grows = g;
    counted = λ id. omega (arith, present-Grows w.db.request_dedup db.request_dedup g id);
  }

module _ {B R S : Type 0} where
  call_with-db :
      (m : Option (Method B R S)) (req : Request B) (k : Kind) (b : B) (w : World S)
      → (call_with m req k b w).1.db ≡ w.db
  unfolding call_with
  call_with-db none req k b w = refl
  call_with-db (some m) req k b w = refl

  call_with-calls :
      (m : Option (Method B R S)) (req : Request B) (k : Kind) (b : B) (w : World S) (id : String)
      → executions id (call_with m req k b w).1.calls ≤ executions id w.calls + counts id req k
  unfolding call_with executions counts
  call_with-calls none req k b w id = omega arith
  call_with-calls (some m) req k b w id = ground arith

  pub call-db :
      (be : Backend B R S) (req : Request B) (k : Kind) (b : B) (w : World S)
      → (call be req k b w).1.db ≡ w.db
  unfolding call
  call-db be req k b w = call_with-db (method be k) req k b w

  pub call-calls :
      (be : Backend B R S) (req : Request B) (k : Kind) (b : B) (w : World S) (id : String)
      → executions id (call be req k b w).1.calls ≤ executions id w.calls + counts id req k
  unfolding call
  call-calls be req k b w id = call_with-calls (method be k) req k b w id

module _ {B R S : Type 0} (d : Dispatcher B R S) where
  reported-world :
      (resp : Response R) (w : World S) (r : Result (Unit {0}) × Db)
      → (reported d resp w r).1 ≡ record w { db = r.1 }
  unfolding reported
  reported-world resp w (err e, db) = refl
  reported-world resp w (ok done, db) = refl

  -- What `CompleteRequest` does to the world after the call.
  completed_call-Advances :
      (req : Request B) (raw : Option (List ℕ)) (resp : Response R) (w : World S)
      → Advances w (completed_call d req raw (resp, w)).1
  unfolding completed_call
  completed_call-Advances req none resp w = Advances-refl w
  completed_call-Advances req (some raw) resp w =
      subst (λ (v : World S). Advances w v)
        (sym (reported-world resp w (complete_request req.request_id raw w.db)))
        (Advances-db w (complete_request req.request_id raw w.db).1
          (complete_request-Grows req.request_id raw w.db))

  room :
      (id : String) (req : Request B) (k : Kind) (w : World S) (db : Db) (row : DedupRow) {n : ℕ}
      → lookup req.request_id w.db.request_dedup ≡ none
      → lookup req.request_id db.request_dedup ≡ some row
      → n ≤ executions id w.calls + counts id req k
      → present (lookup id w.db.request_dedup) ≤ present (lookup id db.request_dedup)
      → n + present (lookup id w.db.request_dedup)
        ≤ executions id w.calls + present (lookup id db.request_dedup)
  unfolding counts present
  room id req k w db row free at c p = elim (Bool-cases (str_eq req.request_id id)) [
    | inl same ↦
        let e : req.request_id ≡ id = (eq_iff req.request_id id).0 same in
        let free' : lookup id w.db.request_dedup ≡ none =
          ap (λ (j : String). lookup j w.db.request_dedup) (sym e) ∙ free in
        let at' : lookup id db.request_dedup ≡ some row =
          ap (λ (j : String). lookup j db.request_dedup) (sym e) ∙ at in
        ground (arith, free', at', c)
    | inr other ↦ ground (arith, other, c, p)
  ]

  -- A request that was started is executed once, and its row is there.
  started-Advances :
      (be : Backend B R S) (req : Request B) (k : Kind) (b : B) (w : World S) (db : Db)
      (row : DedupRow)
      → lookup req.request_id w.db.request_dedup ≡ none
      → lookup req.request_id db.request_dedup ≡ some row
      → Grows w.db.request_dedup db.request_dedup
      → Advances w (call be req k b (record w { db = db })).1
  unfolding counts present
  started-Advances be req k b w db row free at g = record {
    grows =
        subst (λ (x : Db). Grows w.db.request_dedup x.request_dedup)
          (sym (call-db be req k b (record w { db = db }))) g;
    counted = λ id.
        let c : executions id (call be req k b (record w { db = db })).1.calls
            ≤ executions id w.calls + counts id req k =
          call-calls be req k b (record w { db = db }) id in
        let e : (call be req k b (record w { db = db })).1.db ≡ db =
          call-db be req k b (record w { db = db }) in
        let p = present-Grows w.db.request_dedup db.request_dedup g id in
        subst
          (λ (x : Db).
            executions id (call be req k b (record w { db = db })).1.calls
              + present (lookup id w.db.request_dedup)
            ≤ executions id w.calls + present (lookup id x.request_dedup))
          (sym e) (room id req k w db row free at c p);
  }

  execute-Advances :
      (be : Backend B R S) (req : Request B) (k : Kind) (b : B) (w : World S) (db : Db)
      (row : DedupRow)
      → lookup req.request_id w.db.request_dedup ≡ none
      → lookup req.request_id db.request_dedup ≡ some row
      → Grows w.db.request_dedup db.request_dedup
      → Advances w (execute d be req k b (record w { db = db })).1
  unfolding execute
  execute-Advances be req k b w db row free at g =
      let v = (call be req k b (record w { db = db })).1 in
      Advances-trans w v (execute d be req k b (record w { db = db })).1
        (started-Advances be req k b w db row free at g)
        (completed_call-Advances req (d.marshal (call be req k b (record w { db = db })).0)
          (call be req k b (record w { db = db })).0 v)

  begun-Advances :
      (be : Backend B R S) (req : Request B) (k : Kind) (b : B) (w : World S)
      (r : Result DedupResult × Db)
      → Grows w.db.request_dedup r.1.request_dedup
      → (r.0 ≡ ok started
          → (lookup req.request_id w.db.request_dedup ≡ none)
            × (row : DedupRow) × (lookup req.request_id r.1.request_dedup ≡ some row))
      → Advances w (begun d be req k b w r).1
  unfolding begun
  begun-Advances be req k b w (err e, db) g new = Advances-db w db g
  begun-Advances be req k b w (ok (completed_with raw), db) g new = Advances-db w db g
  begun-Advances be req k b w (ok started, db) g new =
      let (free, row, at) = new refl in execute-Advances be req k b w db row free at g

  deduplicated-Advances :
      (be : Backend B R S) (req : Request B) (k : Kind) (b : B) (w : World S)
      (sum : Option (List ℕ))
      → Advances w (deduplicated d be req k b w sum).1
  unfolding deduplicated
  deduplicated-Advances be req k b w none = Advances-refl w
  deduplicated-Advances be req k b w (some sum) =
      begun-Advances be req k b w (begin_request req.request_id (operation k).0 sum w.db)
        (begin_request-Grows req.request_id (operation k).0 sum w.db)
        (λ h.
          let (free, at) = begin_request-started req.request_id (operation k).0 sum w.db h in
          (free, started_row (operation k).0 sum, at))

  -- An operation without side effects counts for no id.
  read_only-Advances :
      (be : Backend B R S) (req : Request B) (k : Kind) (b : B) (w : World S)
      → (operation k).1 ≡ false
      → Advances w (call be req k b w).1
  unfolding counts
  read_only-Advances be req k b w pure =
      let e : (call be req k b w).1.db ≡ w.db = call-db be req k b w in
      record {
        grows =
            subst (λ (x : Db). Grows w.db.request_dedup x.request_dedup) (sym e)
              (Grows-refl w.db.request_dedup);
        counted = λ id. ground (arith, e, pure, call-calls be req k b w id);
      }

  serve-Advances :
      (be : Option (Backend B R S)) (req : Request B) (k : Kind) (b : B) (w : World S)
      → Advances w (serve d be req k b w).1
  unfolding serve
  serve-Advances none req k b w = Advances-refl w
  serve-Advances (some be) req k b w =
      if_cases (λ (r : Result (Response R) × World S). Advances w r.1) (is_connection_scoped k)
        (λ scoped. Advances-refl w)
        (λ free.
          if_cases (λ (r : Result (Response R) × World S). Advances w r.1) (operation k).1
            (λ effect.
              if_cases (λ (r : Result (Response R) × World S). Advances w r.1) d.has_dedup
                (λ has. deduplicated-Advances be req k b w (fingerprint_of d req))
                (λ lacks. Advances-refl w))
            (λ pure. read_only-Advances be req k b w pure))

  validated-Advances :
      (req : Request B) (w : World S) (v : Response R ⊎ (Kind × B))
      → Advances w (validated d req w v).1
  unfolding validated
  validated-Advances req w (inl refusal) = Advances-refl w
  validated-Advances req w (inr (k, b)) = serve-Advances d.backend req k b w

  pub dispatch-Advances : (req : Option (Request B)) (w : World S) → Advances w (dispatch d req w).1
  unfolding dispatch
  dispatch-Advances none w = Advances-refl w
  dispatch-Advances (some req) w = validated-Advances req w (validate_request w.db.now req)
