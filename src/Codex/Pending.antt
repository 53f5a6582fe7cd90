-- ===== src/Codex/Pending.antt =====
-- internal/codex/manager.go: `pendingIDOf`, `upsertPending` and `resolvePending`. A view in memory
-- lists its pending requests by their ids.
use codex_remote.Prelude.{
  ℕ, String, false, ◌≡◌, ◌≢◌, refl, ap, ◌∙◌, Option, none, some, List, [], ◌∷◌, ◌++◌, map, lookup,
  lookup-insert_self, if◌then◌else◌, arith, str_eq, eq_iff,
}
use codex_remote.Errors.{Error, sql_failed, current_view_unavailable}
use codex_remote.Codex.{
  CodexStatus, idle, running, TurnSnapshot, View, pending_request_updated, Reply, done, fails,
  unknown, Manager, Config,
}
use codex_remote.Codex.Store.{next_reply, spend, persist_state, publish_event, set_view}
use codex_remote.Codex.Store.Laws.{persist_state-memory, publish_event-memory}
use codex_remote.Codex.Lease.{member}
use codex_remote.Codex.Budget.Pending.{
  PendingRequest, approval_request, user_input_request, unknown_request,
}

unfoldable pub pending_id_of : PendingRequest → String
pending_id_of (approval_request a) = a.approval_id
pending_id_of (user_input_request u) = u.user_input_request_id
pending_id_of unknown_request = ""

unfoldable pub upsert_pending : List PendingRequest → PendingRequest → List PendingRequest
unfolding pending_id_of
upsert_pending [] pending = pending ∷ []
upsert_pending (p ∷ ps) pending =
    if str_eq (pending_id_of p) (pending_id_of pending)
    then pending ∷ ps
    else p ∷ upsert_pending ps pending

-- The first request with an id.
unfoldable pub find_pending : List PendingRequest → String → Option PendingRequest
find_pending [] id = none
find_pending (p ∷ ps) id = if str_eq (pending_id_of p) id then some p else find_pending ps id

upsert_pending-found :
    (ps : List PendingRequest) (p : PendingRequest)
    → find_pending (upsert_pending ps p) (pending_id_of p) ≡ some p
unfolding upsert_pending find_pending
upsert_pending-found [] p = ground (arith, eq_iff (pending_id_of p) (pending_id_of p))
upsert_pending-found (q ∷ ps) p =
    ground (arith, upsert_pending-found ps p, eq_iff (pending_id_of p) (pending_id_of p))

upsert_pending-others :
    (ps : List PendingRequest) (p : PendingRequest) (id : String)
    → id ≢ pending_id_of p
    → find_pending (upsert_pending ps p) id ≡ find_pending ps id
unfolding upsert_pending find_pending
upsert_pending-others [] p id other = ground (arith, other, eq_iff (pending_id_of p) id)
upsert_pending-others (q ∷ ps) p id other = ground (
  arith,
  other,
  upsert_pending-others ps p id other,
  eq_iff (pending_id_of p) id,
  eq_iff (pending_id_of q) id,
  eq_iff (pending_id_of q) (pending_id_of p),
)

upsert_pending-ids :
    (ps : List PendingRequest) (p : PendingRequest)
    → map pending_id_of (upsert_pending ps p) ≡ (
        if member (pending_id_of p) (map pending_id_of ps)
        then map pending_id_of ps
        else map pending_id_of ps ++ pending_id_of p ∷ [])
unfolding upsert_pending member
upsert_pending-ids [] p = refl
upsert_pending-ids (q ∷ ps) p =
    ground (arith, upsert_pending-ids ps p, eq_iff (pending_id_of q) (pending_id_of p))

-- Upserting a request replaces the first one with its id in place, or appends it: the ids stay in
-- their order and a new id comes last, the request found under its id is the new one, and the first
-- request with any other id is as before.
pub upsert_pending-find_pending :
    (ps : List PendingRequest) (p : PendingRequest)
    → (map pending_id_of (upsert_pending ps p) ≡ (
        if member (pending_id_of p) (map pending_id_of ps)
        then map pending_id_of ps
        else map pending_id_of ps ++ pending_id_of p ∷ []))
      × (find_pending (upsert_pending ps p) (pending_id_of p) ≡ some p)
      × ((id : String)
          → id ≢ pending_id_of p
          → find_pending (upsert_pending ps p) id ≡ find_pending ps id)
upsert_pending-find_pending ps p =
    (upsert_pending-ids ps p, upsert_pending-found ps p, upsert_pending-others ps p)

-- The loop that keeps the other requests.
unfoldable pub without : String → List String → List String
without id [] = []
without id (p ∷ ps) = let rest = without id ps in if str_eq p id then rest else p ∷ rest

unfoldable pub status_of : List String → Option TurnSnapshot → CodexStatus → CodexStatus
status_of (p ∷ ps) turn status = status
status_of [] none status = idle
status_of [] (some t) status = running

unfoldable pub resolved_view : String → ℕ → View → View
unfolding without status_of
resolved_view pending_id now v =
    let out = without pending_id v.pending_requests in
    record v {
      codex = record v.codex { status = status_of out v.active_turn v.codex.status };
      pending_requests = out;
      generated_at_unix_ms = now;
    }

put_resolved : String → String → Manager → Manager
put_resolved id pending_id m = record m { resolved_pending = (id, pending_id) ∷ m.resolved_pending }

-- SaveResolvedPending; protojson.Marshal, which comes before it, fails like it.
unfoldable pub save_resolved : Reply → String → String → Manager → List Error × Manager
unfolding put_resolved
save_resolved done id pending_id m = ([], put_resolved id pending_id m)
save_resolved fails id pending_id m = (sql_failed ∷ [], m)
save_resolved (unknown applied) id pending_id m =
    (sql_failed ∷ [], if applied then put_resolved id pending_id m else m)

unfoldable pub resolution_persisted :
    Config → String → String → View → List Error × Manager → List Error × Manager
unfolding publish_event
resolution_persisted cfg id pending_id v (e ∷ es, m) = (e ∷ es, m)
resolution_persisted cfg id pending_id v ([], m) =
    publish_event id (cfg.bound_canonical_event (pending_request_updated pending_id)) v m

unfoldable pub resolve_found :
    Config → String → String → Option View → Manager → List Error × Manager
unfolding resolved_view resolution_persisted set_view persist_state
resolve_found cfg id pending_id none m = (current_view_unavailable ∷ [], m)
resolve_found cfg id pending_id (some v) m =
    let snapshot = cfg.bound_current_view (resolved_view pending_id m.now v) in
    resolution_persisted cfg id pending_id snapshot
      (persist_state snapshot (set_view id snapshot m))

unfoldable pub resolution_saved :
    Config → String → String → List Error × Manager → List Error × Manager
unfolding resolve_found
resolution_saved cfg id pending_id (e ∷ es, m) = (e ∷ es, m)
resolution_saved cfg id pending_id ([], m) = resolve_found cfg id pending_id (lookup id m.by_id) m

unfoldable pub resolve_pending : Config → String → String → Manager → List Error × Manager
unfolding resolution_saved save_resolved next_reply spend
resolve_pending cfg id pending_id m =
    resolution_saved cfg id pending_id
      (save_resolved (next_reply m.replies) id pending_id (spend m))

member-without : (id : String) (ps : List String) → member id (without id ps) ≡ false
unfolding member without
member-without id [] = refl
member-without id (p ∷ ps) = ground (arith, member-without id ps)

-- Only the id itself is taken out.
without-other : (id q : String) (ps : List String) → q ≢ id → member q (without id ps) ≡ member q ps
unfolding member without
without-other id q [] other = refl
without-other id q (p ∷ ps) other =
    ground (arith, without-other id q ps other, other, eq_iff p id, eq_iff q p, eq_iff p q)

resolution_persisted-memory :
    (cfg : Config) (id pending_id : String) (v : View) (r : List Error × Manager)
    → (resolution_persisted cfg id pending_id v r).1.by_id ≡ r.1.by_id
unfolding resolution_persisted
resolution_persisted-memory cfg id pending_id v (e ∷ es, m) = refl
resolution_persisted-memory cfg id pending_id v ([], m) =
    (publish_event-memory id (cfg.bound_canonical_event (pending_request_updated pending_id)) v
      m).same_views

resolve_found-memory :
    (cfg : Config) (id pending_id : String) (v : View) (m : Manager)
    → lookup id (resolve_found cfg id pending_id (some v) m).1.by_id
      ≡ some (cfg.bound_current_view (resolved_view pending_id m.now v))
unfolding resolve_found set_view
resolve_found-memory cfg id pending_id v m =
    let u = cfg.bound_current_view (resolved_view pending_id m.now v) in
    let n = set_view id u m in
    ap (lookup id) (resolution_persisted-memory cfg id pending_id u (persist_state u n))
    ∙ ap (lookup id) (persist_state-memory u n).same_views
    ∙ lookup-insert_self id u m.by_id

-- Once the resolution of a pending request of a Codex in memory is saved, the request is no longer
-- pending in memory and every other request is pending if it was, whatever the stores answer after
-- that, if `boundCurrentView` keeps the pending requests.
pub resolve_pending-member :
    (cfg : Config) (id pending_id : String) (v : View) (m : Manager)
    → ((u : View) → (cfg.bound_current_view u).pending_requests ≡ u.pending_requests)
    → lookup id m.by_id ≡ some v
    → next_reply m.replies ≡ done
    → (v' : View) × (lookup id (resolve_pending cfg id pending_id m).1.by_id ≡ some v')
      × (member pending_id v'.pending_requests ≡ false)
      × ((q : String) → q ≢ pending_id → member q v'.pending_requests ≡ member q v.pending_requests)
unfolding resolve_pending resolution_saved save_resolved put_resolved resolved_view spend
resolve_pending-member cfg id pending_id v m kept at saved =
    let n = put_resolved id pending_id (spend m) in
    let u = cfg.bound_current_view (resolved_view pending_id m.now v) in
    let found : resolve_pending cfg id pending_id m ≡ resolve_found cfg id pending_id (some v) n =
      ap
        (λ (r : Reply).
          resolution_saved cfg id pending_id (save_resolved r id pending_id (spend m)))
        saved
      ∙ ap (λ (o : Option View). resolve_found cfg id pending_id o n) at in
    (
      u,
      ap (λ (r : List Error × Manager). lookup id r.1.by_id) found
          ∙ resolve_found-memory cfg id pending_id v n,
      ap (member pending_id) (kept (resolved_view pending_id m.now v))
          ∙ member-without pending_id v.pending_requests,
      λ q apart.
          ap (member q) (kept (resolved_view pending_id m.now v))
          ∙ without-other pending_id q v.pending_requests apart,
    )
