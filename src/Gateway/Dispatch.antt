-- ===== src/Gateway/Dispatch.antt =====
-- internal/gateway/dispatcher.go: `validateRequest` and `Dispatch`.
use codex_remote.Prelude.{
  ℕ, ℤ, pos, negsuc, String, Bool, true, false, ◌&&◌, ◌⊎◌, inl, inr, Option, none, some, List,
  if◌then◌else◌, ltb, leb, str_eq,
}
use codex_remote.Errors.{
  Error, Result, ok, err, encoding, request_conflict, request_in_progress, connection_scoped,
}
use codex_remote.Persistence.{Db}
use codex_remote.Persistence.Dedup.{
  DedupResult, started, completed_with, begin_request, complete_request,
}
use codex_remote.Gateway.{
  Kind, watch_codex, unwatch_codex, Request, invalid_request, host_not_ready, conflict,
  internal_error, deadline_exceeded, Response, Backend, World, Dispatcher,
}
use codex_remote.Gateway.Kinds.{operation, mark_deduplicated}
use codex_remote.Gateway.Call.{error_response, call}

elapsed : ℕ → ℤ → Bool
elapsed now (negsuc n) = true
elapsed now (pos deadline) = ltb 0 deadline && leb deadline now

module _ {B R : Type 0} where
  checked : ℕ → Request B → Option (Kind × B) → Response R ⊎ (Kind × B)
  unfolding elapsed error_response
  checked now req none =
      inl (error_response now req.request_id invalid_request "request payload is required" false)
  checked now req (some payload) =
      if elapsed now req.deadline_unix_ms
      then inl
          (error_response now req.request_id deadline_exceeded "request deadline has elapsed" true)
      else inr payload

  -- The response that refuses the request, or its payload.
  unfoldable pub validate_request : ℕ → Request B → Response R ⊎ (Kind × B)
  unfolding checked error_response
  validate_request now req =
      if str_eq req.request_id ""
      then inl (error_response now "" invalid_request "request_id is required" false)
      else checked now req req.payload

unfoldable pub cleared : {B : Type 0} → Request B → Request B
cleared req = record req { request_id = ""; sent_at_unix_ms = pos 0; deadline_unix_ms = pos 0 }

unfoldable pub is_connection_scoped : Kind → Bool
is_connection_scoped watch_codex = true
is_connection_scoped unwatch_codex = true
is_connection_scoped _ = false

module _ {B R S : Type 0} (d : Dispatcher B R S) where
  unfoldable pub fingerprint_of : Request B → Option (List ℕ)
  unfolding cleared
  fingerprint_of req = elim (d.marshal_request (cleared req)) [
    | none ↦ none
    | some payload ↦ some (d.sum256 payload)
  ]

  -- After `CompleteRequest`.
  unfoldable pub reported :
      Response R → World S → Result (Unit {0}) × Db → Result (Response R) × World S
  reported resp w (err e, db) = (err e, record w { db = db })
  reported resp w (ok done, db) = (ok resp, record w { db = db })

  unfoldable pub completed_call :
      Request B → Option (List ℕ) → Response R × World S → Result (Response R) × World S
  unfolding reported
  completed_call req none (resp, w) = (err encoding, w)
  completed_call req (some raw) (resp, w) =
      reported resp w (complete_request req.request_id raw w.db)

  unfoldable pub execute :
      Backend B R S → Request B → Kind → B → World S → Result (Response R) × World S
  unfolding completed_call
  execute be req k b w = let r = call be req k b w in completed_call req (d.marshal r.0) r

  unfoldable pub replayed : Option (Response R) → Result (Response R)
  replayed none = err encoding
  replayed (some resp) = ok (mark_deduplicated resp)

  -- The response to an error of `BeginRequest`.
  dedup_refusal : ℕ → String → Error → Response R
  unfolding error_response
  dedup_refusal now id request_conflict =
      error_response now id conflict "request_id was already used with different payload" false
  dedup_refusal now id request_in_progress =
      error_response now id conflict
        "request outcome is unknown; IN_PROGRESS operation will not be replayed" false
  dedup_refusal now id e = error_response now id internal_error (d.store_error_text e) true

  -- After `BeginRequest`.
  unfoldable pub begun :
      Backend B R S
      → Request B
      → Kind
      → B
      → World S
      → Result DedupResult × Db
      → Result (Response R) × World S
  unfolding execute replayed dedup_refusal
  begun be req k b w (err e, db) =
      (ok (dedup_refusal w.db.now req.request_id e), record w { db = db })
  begun be req k b w (ok (completed_with raw), db) =
      (replayed (d.unmarshal raw), record w { db = db })
  begun be req k b w (ok started, db) = execute be req k b (record w { db = db })

  unfoldable pub deduplicated :
      Backend B R S
      → Request B
      → Kind
      → B
      → World S
      → Option (List ℕ)
      → Result (Response R) × World S
  unfolding begun
  deduplicated be req k b w none = (err encoding, w)
  deduplicated be req k b w (some sum) =
      begun be req k b w (begin_request req.request_id (operation k).0 sum w.db)

  unfoldable pub serve :
      Option (Backend B R S) → Request B → Kind → B → World S → Result (Response R) × World S
  unfolding deduplicated error_response fingerprint_of is_connection_scoped
  serve none req k b w = (
    ok (error_response w.db.now req.request_id host_not_ready "Host backend is not ready" true),
    w,
  )
  serve (some be) req k b w =
      if is_connection_scoped k
      then (err connection_scoped, w)
      else if (operation k).1
      then if d.has_dedup then deduplicated be req k b w (fingerprint_of req) else (
        ok (
            error_response w.db.now req.request_id host_not_ready
              "request deduplication is unavailable" true),
        w,
      )
      else (let (resp, w') = call be req k b w in (ok resp, w'))

  unfoldable pub validated :
      Request B → World S → Response R ⊎ (Kind × B) → Result (Response R) × World S
  unfolding serve
  validated req w (inl refusal) = (ok refusal, w)
  validated req w (inr (k, b)) = serve d.backend req k b w

  unfoldable pub dispatch : Option (Request B) → World S → Result (Response R) × World S
  unfolding validated validate_request error_response
  dispatch none w =
      (ok (error_response w.db.now "" invalid_request "request_id is required" false), w)
  dispatch (some req) w = validated req w (validate_request w.db.now req)
