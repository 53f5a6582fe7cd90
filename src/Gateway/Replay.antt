-- ===== src/Gateway/Replay.antt =====
-- internal/gateway/dispatcher.go: a request that is sent again gets the stored response.
use codex_remote.Prelude.{
  ℕ, String, true, false, ◌≡◌, ◌≢◌, refl, sym, ap, subst, ◌∙◌, inr, Option, none, some, List,
  lookup, lookup-insert_self, arith, eq_iff,
}
use codex_remote.Errors.{Result, ok, err}
use codex_remote.Persistence.{runs, fails, DedupRow, Db, next_fault, later_faults}
use codex_remote.Persistence.Dedup.{
  DedupResult, completed_with, is_empty, begin_request, complete_request, started_row, finished_row,
  put, state_of,
}
use codex_remote.Persistence.Dedup.Laws.{
  Grows, begin_request-free, begin_request-known, complete_request-ok, equal_bytes_self,
}
use codex_remote.Gateway.{
  get_host, list_directories, list_session_candidates, list_codexes, create_codex, import_session,
  watch_codex, unwatch_codex, list_history, start_turn, interrupt_turn, respond_approval,
  respond_user_input, unmanage_codex, rename_codex, forget_codex, get_workspace,
  list_workspace_entries, read_workspace_text_file, write_workspace_text_file,
  upload_workspace_entry, download_workspace_entry, upload_image_attachment,
  download_image_attachment, Kind, Request, Response, Backend, World, Dispatcher,
}
use codex_remote.Gateway.Kinds.{operation, operation-named, mark_deduplicated}
use codex_remote.Gateway.Call.{call}
use codex_remote.Gateway.Dispatch.{
  reported, completed_call, execute, replayed, begun, deduplicated, serve, validated,
  validate_request, dispatch, fingerprint_of, is_connection_scoped,
}
use codex_remote.Gateway.Once.{call-db}
use codex_remote.Gateway.History.{run, run-Advances}

effect-not_scoped : (k : Kind) → (operation k).1 ≡ true → is_connection_scoped k ≡ false
unfolding operation is_connection_scoped
effect-not_scoped get_host h = refl
effect-not_scoped list_directories h = refl
effect-not_scoped list_session_candidates h = refl
effect-not_scoped list_codexes h = refl
effect-not_scoped create_codex h = refl
effect-not_scoped import_session h = refl
effect-not_scoped watch_codex h = ground (arith, h)
effect-not_scoped unwatch_codex h = ground (arith, h)
effect-not_scoped list_history h = refl
effect-not_scoped start_turn h = refl
effect-not_scoped interrupt_turn h = refl
effect-not_scoped respond_approval h = refl
effect-not_scoped respond_user_input h = refl
effect-not_scoped unmanage_codex h = refl
effect-not_scoped rename_codex h = refl
effect-not_scoped forget_codex h = refl
effect-not_scoped get_workspace h = refl
effect-not_scoped list_workspace_entries h = refl
effect-not_scoped read_workspace_text_file h = refl
effect-not_scoped write_workspace_text_file h = refl
effect-not_scoped upload_workspace_entry h = refl
effect-not_scoped download_workspace_entry h = refl
effect-not_scoped upload_image_attachment h = refl
effect-not_scoped download_image_attachment h = refl

module _ {B R S : Type 0} (d : Dispatcher B R S) where
  reported-ok :
      (resp resp' : Response R) (w : World S) (r : Result (Unit {0}) × Db)
      → (reported d resp w r).0 ≡ ok resp'
      → (resp ≡ resp') × (r.0 ≡ ok tt)
  unfolding reported
  reported-ok resp resp' w (err e, db) h = ground (arith, h)
  reported-ok resp resp' w (ok tt, db) h = (ground (arith, h), refl)

  reported-db :
      (resp : Response R) (w : World S) (r : Result (Unit {0}) × Db)
      → (reported d resp w r).1.db ≡ r.1
  unfolding reported
  reported-db resp w (err e, db) = refl
  reported-db resp w (ok tt, db) = refl

  -- The response that was returned is stored in the row of the request.
  unfoldable pub Stores : Request B → Response R → Db → Db → Type 0
  Stores req resp before after =
      (raw : List ℕ) × (row : DedupRow) × (d.marshal resp ≡ some raw)
      × (lookup req.request_id before.request_dedup ≡ some row)
      × (lookup req.request_id after.request_dedup ≡ some (finished_row raw row))

  completed_call-ok :
      (req : Request B) (o : Option (List ℕ)) (resp resp' : Response R) (w : World S)
      → d.marshal resp ≡ o
      → (completed_call d req o (resp, w)).0 ≡ ok resp'
      → Stores req resp' w.db (completed_call d req o (resp, w)).1.db
  unfolding completed_call Stores
  completed_call-ok req none resp resp' w m h = ground (arith, h)
  completed_call-ok req (some raw) resp resp' w m h =
      let r = complete_request req.request_id raw w.db in
      let (same, done) = reported-ok resp resp' w r h in
      let (row, before, after) = complete_request-ok req.request_id raw w.db done in
      (
        raw,
        row,
        ap d.marshal (sym same) ∙ m,
        before,
        ap (λ (db : Db). lookup req.request_id db.request_dedup) (reported-db resp w r) ∙ after,
      )

  execute-ok :
      (be : Backend B R S) (req : Request B) (k : Kind) (b : B) (w : World S) (resp : Response R)
      → (execute d be req k b w).0 ≡ ok resp
      → Stores req resp w.db (execute d be req k b w).1.db
  unfolding execute
  execute-ok be req k b w resp h =
      let c = call be req k b w in
      subst (λ (db : Db). Stores req resp db (execute d be req k b w).1.db) (call-db be req k b w)
        (completed_call-ok req (d.marshal c.0) c.0 resp c.1 refl h)

  served :
      (be : Backend B R S) (req : Request B) (k : Kind) (b : B) (sum : List ℕ) (w : World S)
      → d.has_dedup ≡ true
      → (operation k).1 ≡ true
      → is_connection_scoped k ≡ false
      → fingerprint_of d req ≡ some sum
      → serve d (some be) req k b w
        ≡ begun d be req k b w (begin_request req.request_id (operation k).0 sum w.db)
  unfolding serve deduplicated
  served be req k b sum w dedup effect scoped print =
      ground (arith, dedup, effect, scoped, ap (deduplicated d be req k b w) print)

  dispatch-deduplicated :
      (be : Backend B R S) (req : Request B) (k : Kind) (b : B) (sum : List ℕ) (w : World S)
      → d.backend ≡ some be
      → d.has_dedup ≡ true
      → (operation k).1 ≡ true
      → validate_request {R = R} w.db.now req ≡ inr (k, b)
      → fingerprint_of d req ≡ some sum
      → dispatch d (some req) w
        ≡ begun d be req k b w (begin_request req.request_id (operation k).0 sum w.db)
  unfolding dispatch validated
  dispatch-deduplicated be req k b sum w has dedup effect valid print =
      let scoped = effect-not_scoped k effect in
      ap (validated d req w) valid
      ∙ ap (λ (o : Option (Backend B R S)). serve d o req k b w) has
      ∙ served be req k b sum w dedup effect scoped print

  -- The worlds around a first request that the backend executed and whose response was returned.
  first-Stores :
      (be : Backend B R S) (req : Request B) (k : Kind) (b : B) (sum : List ℕ) (w : World S)
      (resp : Response R)
      → req.request_id ≢ ""
      → is_empty sum ≡ false
      → next_fault w.db.faults ≡ runs
      → lookup req.request_id w.db.request_dedup ≡ none
      → (begun d be req k b w (begin_request req.request_id (operation k).0 sum w.db)).0 ≡ ok resp
      → (raw : List ℕ) × (d.marshal resp ≡ some raw)
        × (lookup req.request_id
              (begun d be req k b w
                (begin_request req.request_id (operation k).0 sum w.db)).1.db.request_dedup
            ≡ some (finished_row raw (started_row (operation k).0 sum)))
  unfolding begun put Stores
  first-Stores be req k b sum w resp named full working free =
      let row = started_row (operation k).0 sum in
      let db = put req.request_id row (record w.db { faults = later_faults w.db.faults }) in
      subst
        (λ (r : Result DedupResult × Db).
          (begun d be req k b w r).0 ≡ ok resp
          → (raw : List ℕ) × (d.marshal resp ≡ some raw)
            × (lookup req.request_id (begun d be req k b w r).1.db.request_dedup
                ≡ some (finished_row raw row)))
        (sym (
          begin_request-free req.request_id (operation k).0 sum w.db named (operation-named k) full
            working free))
        (λ h.
          let (raw, found, m, before, after) =
            execute-ok be req k b (record w { db = db }) resp h in
          let same : found ≡ row =
            ground (arith, before, lookup-insert_self req.request_id row w.db.request_dedup) in
          (raw, m, after ∙ ap (λ (x : DedupRow). some (finished_row raw x)) same))

  -- A completed row stays as it is.
  still-stored :
      (reqs : List (ℕ × Option (Request B))) (w : World S) (raw : List ℕ) (name : String)
      (sum : List ℕ) (id : String)
      → lookup id w.db.request_dedup ≡ some (finished_row raw (started_row name sum))
      → lookup id (run d reqs w).db.request_dedup ≡ some (finished_row raw (started_row name sum))
  unfolding Grows finished_row
  still-stored reqs w raw name sum id at =
      let (row, here, kept) =
        (run-Advances d reqs w).grows id (finished_row raw (started_row name sum)) at in
      here ∙ ap some (kept.final refl)

  -- A request whose row is completed gets the stored response.
  again-replayed :
      (be : Backend B R S) (req : Request B) (k : Kind) (b : B) (sum raw : List ℕ) (w : World S)
      → req.request_id ≢ ""
      → is_empty sum ≡ false
      → next_fault w.db.faults ≢ fails
      → lookup req.request_id w.db.request_dedup
        ≡ some (finished_row raw (started_row (operation k).0 sum))
      → begun d be req k b w (begin_request req.request_id (operation k).0 sum w.db) ≡ (
        replayed d (d.unmarshal raw),
        record w { db = record w.db { faults = later_faults w.db.faults } },
      )
  unfolding begun finished_row started_row state_of
  again-replayed be req k b sum raw w named full quiet at =
      let row = finished_row raw (started_row (operation k).0 sum) in
      let e =
        begin_request-known req.request_id (operation k).0 sum w.db row named (operation-named k)
          full quiet at in
      let g : begin_request req.request_id (operation k).0 sum w.db
          ≡ (ok (completed_with raw), record w.db { faults = later_faults w.db.faults }) =
        ground (arith, e, equal_bytes_self sum, eq_iff (operation k).0 (operation k).0) in
      ap (begun d be req k b w) g

  -- A request with side effects that the backend executed while its id was free and the database
  -- worked, and whose response was returned, gets this response again, marked as deduplicated, and
  -- no further call of the backend, when it is sent again after any other requests. The repeated
  -- request has the same id and the same fingerprint, which is not empty, and is valid at its
  -- time; the database answers; what protojson reads back is the response that it wrote.
  pub dispatch_replay :
      (be : Backend B R S) (req again : Request B) (k : Kind) (b b' : B) (sum : List ℕ)
      (w : World S) (resp : Response R) (reqs : List (ℕ × Option (Request B)))
      → d.backend ≡ some be
      → d.has_dedup ≡ true
      → (operation k).1 ≡ true
      → req.request_id ≢ ""
      → validate_request {R = R} w.db.now req ≡ inr (k, b)
      → fingerprint_of d req ≡ some sum
      → is_empty sum ≡ false
      → lookup req.request_id w.db.request_dedup ≡ none
      → next_fault w.db.faults ≡ runs
      → (dispatch d (some req) w).0 ≡ ok resp
      → again.request_id ≡ req.request_id
      → fingerprint_of d again ≡ some sum
      → validate_request {R = R} (run d reqs (dispatch d (some req) w).1).db.now again ≡ inr (k, b')
      → next_fault (run d reqs (dispatch d (some req) w).1).db.faults ≢ fails
      → ((raw : List ℕ) → d.marshal resp ≡ some raw → d.unmarshal raw ≡ some resp)
      → let v = run d reqs (dispatch d (some req) w).1 in
        dispatch d (some again) v ≡ (
          ok (mark_deduplicated resp),
          record v { db = record v.db { faults = later_faults v.db.faults } },
        )
  unfolding replayed
  dispatch_replay be req again k b b' sum w resp reqs has dedup effect named valid print full free
        working answered same_id same_print valid' quiet back =
      let w' = (dispatch d (some req) w).1 in
      let v = run d reqs w' in
      let e = dispatch-deduplicated be req k b sum w has dedup effect valid print in
      let (raw, m, stored) =
        first-Stores be req k b sum w resp named full working free
          (ap (λ (r : Result (Response R) × World S). r.0) (sym e) ∙ answered) in
      let stored' : lookup req.request_id w'.db.request_dedup
          ≡ some (finished_row raw (started_row (operation k).0 sum)) =
        ap (λ (r : Result (Response R) × World S). lookup req.request_id r.1.db.request_dedup) e
        ∙ stored in
      let kept : lookup again.request_id v.db.request_dedup
          ≡ some (finished_row raw (started_row (operation k).0 sum)) =
        still-stored reqs w' raw (operation k).0 sum again.request_id
          (ap (λ (i : String). lookup i w'.db.request_dedup) same_id ∙ stored') in
      dispatch-deduplicated be again k b' sum v has dedup effect valid' same_print
      ∙ again-replayed be again k b' sum raw v (λ x. named (sym same_id ∙ x)) full quiet kept
      ∙ ap
          (λ (o : Option (Response R)).
            (replayed d o, record v { db = record v.db { faults = later_faults v.db.faults } }))
          (back raw m)
