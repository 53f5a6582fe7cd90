-- ===== src/Gateway/Server/Handled.antt =====
-- internal/gateway/server.go: `handleWatch`, `handleUnwatch` within the bounds of the connection.
use codex_remote.Prelude.{
  ℕ, suc, ◌≤◌, String, Bool, true, false, not, ◌&&◌, Option, none, some, List, [], ◌∷◌, length,
  lookup, insert, remove, if_cases, arith, if◌then◌else◌, leb, str_eq,
}
use codex_remote.Errors.{Result, ok, err}
use codex_remote.Gateway.{ErrorCode, invalid_request, conflict, deadline_exceeded, host_not_ready}
use codex_remote.Gateway.Server.{
  ServerConfig, refusal, watched, unwatched, event, Connection, Events,
}
use codex_remote.Gateway.Server.Queue.{enqueue}
use codex_remote.Gateway.Server.Watches.{
  WatchRequest, watch_error, is_given, Step, refuse, enqueue_events, drop_watch, replayed,
  responded, watching, registering, replacing, handle_watch, unwatching, handle_unwatch,
}
use codex_remote.Gateway.Server.Bounds.{
  length-insert, length-remove, Queues, Queues-self, Queues-trans, Queues-watches, enqueue-Queues,
}
use codex_remote.Activity.{Event}
use codex_remote.Activity.Watch.{Watch}

module _ {R V P S : Type 0} (ev : Events S V P) (cfg : ServerConfig) where
  refuse-Queues :
      (request : String) (code : ErrorCode) (retry : Bool) (c : Connection R V P) (s : S)
      → Queues cfg c (refuse ev cfg request code retry c s).0
  unfolding refuse
  refuse-Queues request code retry c s = enqueue-Queues cfg (refusal request code retry) c

  enqueue_events-Queues :
      (w : ℕ) (es : List (Event P)) (c : Connection R V P)
      → Queues cfg c (enqueue_events ev cfg w es c).1
  unfolding enqueue_events
  enqueue_events-Queues w [] c = Queues-self cfg c
  enqueue_events-Queues w (e ∷ es) c =
      let r = enqueue cfg (event w e) c in
      let first = enqueue-Queues cfg (event w e) c in
      if_cases (λ (x : Bool × Connection R V P). Queues cfg c x.1) r.0
        (λ room.
          Queues-trans cfg c r.1 (enqueue_events ev cfg w es r.1).1 first
            (enqueue_events-Queues w es r.1))
        (λ full. first)

  drop_watch-Queues :
      (id : String) (w : ℕ) (b c : Connection R V P) (s : S)
      → Queues cfg b c
      → Queues cfg b (drop_watch ev cfg id w c s).0
  unfolding drop_watch
  drop_watch-Queues id w b c s h =
      Queues-trans cfg b c (record c { watches = remove id c.watches }) h
        (Queues-watches cfg c (remove id c.watches) (omega (arith, length-remove id c.watches)))

  replayed-Queues :
      (id : String) (watch : Watch V P) (b : Connection R V P) (r : Bool × Connection R V P) (s : S)
      → Queues cfg b r.1
      → Queues cfg b (replayed ev cfg id watch r s).0
  unfolding replayed
  replayed-Queues id watch b (true, c) s h = h
  replayed-Queues id watch b (false, c) s h = drop_watch-Queues id watch.watcher b c s h

  responded-Queues :
      (id : String) (watch : Watch V P) (b : Connection R V P) (r : Bool × Connection R V P) (s : S)
      → Queues cfg b r.1
      → Queues cfg b (responded ev cfg id watch r s).0
  unfolding responded
  responded-Queues id watch b (true, c) s h =
      let r = enqueue_events ev cfg watch.watcher watch.replay c in
      replayed-Queues id watch b r s
        (Queues-trans cfg b c r.1 h (enqueue_events-Queues watch.watcher watch.replay c))
  responded-Queues id watch b (false, c) s h = drop_watch-Queues id watch.watcher b c s h

  watching-Queues :
      (request id : String) (r : Result (Watch V P) × S) (c : Connection R V P)
      → suc (length c.watches) ≤ cfg.max_watches
      → Queues cfg c (watching ev cfg request id r c).0
  unfolding watching
  watching-Queues request id (err x, s) c room =
      refuse-Queues request (watch_error x).0 (watch_error x).1 c s
  watching-Queues request id (ok watch, s) c room =
      let c' = record c { watches = insert id watch.watcher c.watches } in
      let f = watched request watch.response in
      responded-Queues id watch c (enqueue cfg f c') s (
        Queues-trans cfg c c' (enqueue cfg f c').1
          (Queues-watches cfg c (insert id watch.watcher c.watches)
            (omega (arith, room, length-insert id watch.watcher c.watches)))
          (enqueue-Queues cfg f c'))

  registering-Queues :
      (request : String) (req : WatchRequest) (c : Connection R V P) (s : S)
      → Queues cfg c (registering ev cfg request req c s).0
  unfolding registering
  registering-Queues request req c s =
      if_cases (λ (x : Step R V P S). Queues cfg c x.0) (leb cfg.max_watches (length c.watches))
        (λ full. refuse-Queues request conflict false c s)
        (λ room. watching-Queues request req.codex_id _ c (ground (arith, room)))

  replacing-Queues :
      (request : String) (req : WatchRequest) (o : Option ℕ) (c : Connection R V P) (s : S)
      → Queues cfg c (replacing ev cfg request req o c s).0
  unfolding replacing
  replacing-Queues request req none c s = registering-Queues request req c s
  replacing-Queues request req (some w) c s =
      let c' = record c { watches = remove req.codex_id c.watches } in
      Queues-trans cfg c c' _
        (Queues-watches cfg c c'.watches (omega (arith, length-remove req.codex_id c.watches)))
        (registering-Queues request req c' (ev.cancel req.codex_id w s))

  either-Queues :
      (b : Bool) (c : Connection R V P) (x y : Step R V P S)
      → Queues cfg c x.0
      → Queues cfg c y.0
      → Queues cfg c (if b then x else y).0
  either-Queues true c x y h k = h
  either-Queues false c x y h k = k

  pub handle_watch-Queues :
      (over : Bool) (request : String) (req : WatchRequest) (c : Connection R V P) (s : S)
      → Queues cfg c (handle_watch ev cfg over request req c s).0
  unfolding handle_watch
  handle_watch-Queues over request req c s =
      let invalid = refuse-Queues request invalid_request false c s in
      let given = is_given req.after_event_seq in
      let blank = str_eq req.after_host_run_id "" in
      either-Queues (str_eq req.codex_id "") c _ _ invalid (
        either-Queues over c _ _ (refuse-Queues request deadline_exceeded true c s) (
          either-Queues (not cfg.has_events) c _ _ (refuse-Queues request host_not_ready true c s) (
            either-Queues (given && blank) c _ _ invalid (
              either-Queues (not given && not blank) c _ _ invalid
                (replacing-Queues request req (lookup req.codex_id c.watches) c s)))))

  unwatching-Queues :
      (id : String) (o : Option ℕ) (c : Connection R V P) (s : S)
      → Queues cfg c (unwatching ev cfg id o c s).0
  unfolding unwatching
  unwatching-Queues id none c s = Queues-self cfg c
  unwatching-Queues id (some w) c s =
      Queues-watches cfg c (remove id c.watches) (omega (arith, length-remove id c.watches))

  pub handle_unwatch-Queues :
      (over : Bool) (request id : String) (c : Connection R V P) (s : S)
      → Queues cfg c (handle_unwatch ev cfg over request id c s).0
  unfolding handle_unwatch
  handle_unwatch-Queues over request id c s =
      let r = unwatching ev cfg id (lookup id c.watches) c s in
      either-Queues over c _ _ (refuse-Queues request deadline_exceeded true c s) (
        either-Queues (str_eq id "") c _ _ (refuse-Queues request invalid_request false c s) (
          Queues-trans cfg c r.0 (enqueue cfg (unwatched request id) r.0).1
            (unwatching-Queues id (lookup id c.watches) c s)
            (enqueue-Queues cfg (unwatched request id) r.0)))
