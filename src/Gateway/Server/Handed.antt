-- ===== src/Gateway/Server/Handed.antt =====
-- internal/gateway/server.go: the handlers of a connection send no event of a watch that is not theirs.
use codex_remote.Prelude.{
  ℕ, ◌+◌, ◌-◌, String, Bool, true, false, not, ◌&&◌, ◌≡◌, ◌≢◌, refl, Option, none, some, List, [],
  ◌∷◌, length, lookup, insert, remove, if_cases, Bool-cases, inl, inr, arith, if◌then◌else◌, leb,
  str_eq, ◌==◌,
}
use codex_remote.Errors.{Result, ok, err}
use codex_remote.Gateway.{ErrorCode, invalid_request, conflict, deadline_exceeded, host_not_ready}
use codex_remote.Gateway.Server.{
  ServerConfig, slow_consumer, connection_timeout, refusal, watched, unwatched, event, ping,
  Connection, Events,
}
use codex_remote.Gateway.Server.Queue.{enqueue, heartbeat}
use codex_remote.Gateway.Server.Watches.{
  WatchRequest, watch_error, is_given, Step, is_watch, refuse, enqueue_events, drop_watch, replayed,
  responded, watching, registering, replacing, handle_watch, unwatching, handle_unwatch,
  forward_event, forward_end, forward_slow,
}
use codex_remote.Activity.{Event}
use codex_remote.Activity.Watch.{Watch}
use codex_remote.Gateway.Server.Store.{IsSpent}
use codex_remote.Gateway.Server.Order.{
  comes_from, Silent, Absent-remove, Absent-insert, lookup-Absent, Silent-watches,
  protocol_close-Silent, enqueue-Silent,
}

event_other :
    (R V : Type 0) {P : Type 0} (w from : ℕ) (e : Event P)
    → from ≢ w
    → comes_from {R = R} {V = V} w (event from e) ≡ 0
unfolding comes_from
event_other R V w from e other = ground (arith, other)

module _ {R V P : Type 0} (cfg : ServerConfig) (w n : ℕ) where
  pub heartbeat-Silent :
      (now nonce : ℕ) (c : Connection R V P) → Silent w n c → Silent w n (heartbeat cfg now nonce c)
  unfolding heartbeat comes_from
  heartbeat-Silent now nonce c v =
      if_cases (Silent w n) (leb cfg.connection_timeout (now - c.last_valid))
        (λ late. protocol_close-Silent cfg w n connection_timeout c v)
        (λ live. enqueue-Silent cfg w n (ping (nonce + 1) now) c refl v)

  -- A forwarder of a watch that is not the connection's any more sends nothing.
  pub forward_event-Silent :
      (id : String) (from : ℕ) (e : Event P) (c : Connection R V P)
      → Silent w n c
      → Silent w n (forward_event cfg id from e c)
  unfolding forward_event
  forward_event-Silent id from e c v = elim (Bool-cases (from == w)) [
    | inl same ↦
        if_cases (Silent w n) (is_watch from (lookup id c.watches))
          (λ current. ground (arith, current, same, lookup-Absent w id c.watches v.absent))
          (λ old. v)
    | inr other ↦
        if_cases (Silent w n) (is_watch from (lookup id c.watches))
          (λ current.
            enqueue-Silent cfg w n (event from e) c
              (event_other R V w from e (λ h. ground (arith, h, other))) v)
          (λ old. v)
  ]

  pub forward_end-Silent :
      (id : String) (from : ℕ) (c : Connection R V P)
      → Silent w n c
      → Silent w n (forward_end cfg id from c)
  unfolding forward_end
  forward_end-Silent id from c v =
      if_cases (Silent w n) (is_watch from (lookup id c.watches))
        (λ current.
          Silent-watches cfg w n c (remove id c.watches) (Absent-remove w id c.watches v.absent) v)
        (λ old. v)

  pub forward_slow-Silent :
      (id : String) (from : ℕ) (c : Connection R V P)
      → Silent w n c
      → Silent w n (forward_slow cfg id from c)
  unfolding forward_slow
  forward_slow-Silent id from c v =
      if_cases (Silent w n) (is_watch from (lookup id c.watches))
        (λ current. protocol_close-Silent cfg w n slow_consumer c v) (λ old. v)

module _ {R V P S : Type 0} (ev : Events S V P) (cfg : ServerConfig) (w n : ℕ) (Inv : S → Type 0)
    (spent : IsSpent ev w Inv) where
  refuse-Silent :
      (request : String) (code : ErrorCode) (retry : Bool) (c : Connection R V P) (s : S)
      → Silent w n c
      → Silent w n (refuse ev cfg request code retry c s).0
  unfolding refuse comes_from
  refuse-Silent request code retry c s v =
      enqueue-Silent cfg w n (refusal request code retry) c refl v

  enqueue_events-Silent :
      (from : ℕ) (es : List (Event P)) (c : Connection R V P)
      → from ≢ w
      → Silent w n c
      → Silent w n (enqueue_events ev cfg from es c).1
  unfolding enqueue_events
  enqueue_events-Silent from [] c other v = v
  enqueue_events-Silent from (e ∷ es) c other v =
      let r = enqueue cfg (event from e) c in
      let first = enqueue-Silent cfg w n (event from e) c (event_other R V w from e other) v in
      if_cases (λ (x : Bool × Connection R V P). Silent w n x.1) r.0
        (λ room. enqueue_events-Silent from es r.1 other first) (λ full. first)

  drop_watch-Silent :
      (id : String) (from : ℕ) (c : Connection R V P) (s : S)
      → Silent w n c
      → Silent w n (drop_watch ev cfg id from c s).0
  unfolding drop_watch
  drop_watch-Silent id from c s v =
      Silent-watches cfg w n c (remove id c.watches) (Absent-remove w id c.watches v.absent) v

  replayed-Silent :
      (id : String) (watch : Watch V P) (r : Bool × Connection R V P) (s : S)
      → Silent w n r.1
      → Silent w n (replayed ev cfg id watch r s).0
  unfolding replayed
  replayed-Silent id watch (true, c) s v = v
  replayed-Silent id watch (false, c) s v = drop_watch-Silent id watch.watcher c s v

  responded-Silent :
      (id : String) (watch : Watch V P) (r : Bool × Connection R V P) (s : S)
      → watch.watcher ≢ w
      → Silent w n r.1
      → Silent w n (responded ev cfg id watch r s).0
  unfolding responded
  responded-Silent id watch (true, c) s other v =
      replayed-Silent id watch (enqueue_events ev cfg watch.watcher watch.replay c) s
        (enqueue_events-Silent watch.watcher watch.replay c other v)
  responded-Silent id watch (false, c) s other v = drop_watch-Silent id watch.watcher c s v

  watching-Silent :
      (request id : String) (r : Result (Watch V P) × S) (c : Connection R V P)
      → ((new : Watch V P) (s : S) → r ≡ (ok new, s) → new.watcher ≢ w)
      → Silent w n c
      → Silent w n (watching ev cfg request id r c).0
  unfolding watching comes_from
  watching-Silent request id (err x, s) c fresh v =
      refuse-Silent request (watch_error x).0 (watch_error x).1 c s v
  watching-Silent request id (ok watch, s) c fresh v =
      let other = fresh watch s refl in
      let c' = record c { watches = insert id watch.watcher c.watches } in
      let f = watched request watch.response in
      responded-Silent id watch (enqueue cfg f c') s other (
        enqueue-Silent cfg w n f c' refl (
          Silent-watches cfg w n c c'.watches
            (Absent-insert w watch.watcher id c.watches other v.absent) v))

  registering-Silent :
      (request : String) (req : WatchRequest) (c : Connection R V P) (s : S)
      → Inv s
      → Silent w n c
      → Silent w n (registering ev cfg request req c s).0
  unfolding registering
  registering-Silent request req c s i v =
      if_cases (λ (x : Step R V P S). Silent w n x.0) (leb cfg.max_watches (length c.watches))
        (λ full. refuse-Silent request conflict false c s v)
        (λ room.
          if_cases
            (λ (r : Result (Watch V P) × S).
              Silent w n (watching ev cfg request req.codex_id r c).0)
            (is_given req.after_event_seq && not (str_eq req.after_host_run_id cfg.host_run_id))
            (λ restarted.
              watching-Silent request req.codex_id
                (ev.force_reset req.codex_id cfg.watch_queue_size s) c
                (λ new s' h. spent.reset_other req.codex_id cfg.watch_queue_size s s' new i h) v)
            (λ same.
              watching-Silent request req.codex_id
                (ev.watch req.codex_id req.after_event_seq cfg.watch_queue_size s) c
                (λ new s' h.
                  spent.watch_other req.codex_id req.after_event_seq cfg.watch_queue_size s s' new i
                    h)
                v))

  replacing-Silent :
      (request : String) (req : WatchRequest) (o : Option ℕ) (c : Connection R V P) (s : S)
      → Inv s
      → Silent w n c
      → Silent w n (replacing ev cfg request req o c s).0
  unfolding replacing
  replacing-Silent request req none c s i v = registering-Silent request req c s i v
  replacing-Silent request req (some old) c s i v =
      let c' = record c { watches = remove req.codex_id c.watches } in
      registering-Silent request req c' (ev.cancel req.codex_id old s)
        (spent.cancel_kept req.codex_id old s i)
        (Silent-watches cfg w n c c'.watches (Absent-remove w req.codex_id c.watches v.absent) v)

  either-Silent :
      (b : Bool) (x y : Step R V P S)
      → Silent w n x.0
      → Silent w n y.0
      → Silent w n (if b then x else y).0
  either-Silent true x y h k = h
  either-Silent false x y h k = k

  pub handle_watch-Silent :
      (over : Bool) (request : String) (req : WatchRequest) (c : Connection R V P) (s : S)
      → Inv s
      → Silent w n c
      → Silent w n (handle_watch ev cfg over request req c s).0
  unfolding handle_watch
  handle_watch-Silent over request req c s i v =
      let invalid = refuse-Silent request invalid_request false c s v in
      let given = is_given req.after_event_seq in
      let blank = str_eq req.after_host_run_id "" in
      either-Silent (str_eq req.codex_id "") _ _ invalid (
        either-Silent over _ _ (refuse-Silent request deadline_exceeded true c s v) (
          either-Silent (not cfg.has_events) _ _ (refuse-Silent request host_not_ready true c s v) (
            either-Silent (given && blank) _ _ invalid (
              either-Silent (not given && not blank) _ _ invalid
                (replacing-Silent request req (lookup req.codex_id c.watches) c s i v)))))

  unwatching-Silent :
      (id : String) (o : Option ℕ) (c : Connection R V P) (s : S)
      → Silent w n c
      → Silent w n (unwatching ev cfg id o c s).0
  unfolding unwatching
  unwatching-Silent id none c s v = v
  unwatching-Silent id (some old) c s v =
      Silent-watches cfg w n c (remove id c.watches) (Absent-remove w id c.watches v.absent) v

  pub handle_unwatch-Silent :
      (over : Bool) (request id : String) (c : Connection R V P) (s : S)
      → Silent w n c
      → Silent w n (handle_unwatch ev cfg over request id c s).0
  unfolding handle_unwatch comes_from
  handle_unwatch-Silent over request id c s v =
      let r = unwatching ev cfg id (lookup id c.watches) c s in
      either-Silent over _ _ (refuse-Silent request deadline_exceeded true c s v) (
        either-Silent (str_eq id "") _ _ (refuse-Silent request invalid_request false c s v) (
          enqueue-Silent cfg w n (unwatched request id) r.0 refl
            (unwatching-Silent id (lookup id c.watches) c s v)))
