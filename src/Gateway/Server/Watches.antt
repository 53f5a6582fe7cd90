-- ===== src/Gateway/Server/Watches.antt =====
-- internal/gateway/server.go: `handleWatch`, `handleUnwatch` and `forwardWatch`. The answer to a
-- request is queued under the lock on the watches.
use codex_remote.Prelude.{
  ℕ, String, Bool, true, false, not, ◌&&◌, Option, none, some, List, [], ◌∷◌, length, lookup,
  insert, remove, if◌then◌else◌, leb, str_eq, ◌==◌,
}
use codex_remote.Errors.{Error, Result, ok, err, codex_not_found, context_done}
use codex_remote.Gateway.{
  ErrorCode, invalid_request, conflict, internal_error, deadline_exceeded, host_not_ready,
  other_code,
}
use codex_remote.Gateway.Server.{
  ServerConfig, slow_consumer, refusal, watched, unwatched, event, Connection, Events,
}
use codex_remote.Gateway.Server.Queue.{enqueue, protocol_close}
use codex_remote.Activity.{Event}
use codex_remote.Activity.Watch.{Watch}

-- WatchCodexRequest
pub record WatchRequest : Type 0 where
  pub codex_id : String
  pub after_event_seq : Option ℕ
  pub after_host_run_id : String

-- `watchError`; other_code 1 is ERROR_CODE_CODEX_NOT_FOUND.
unfoldable pub watch_error : Error → ErrorCode × Bool
watch_error codex_not_found = (other_code 1, false)
watch_error context_done = (deadline_exceeded, true)
watch_error _ = (internal_error, true)

unfoldable pub is_given : Option ℕ → Bool
is_given none = false
is_given (some seq) = true

-- The connection, the store, and the watch to forward.
abbrev pub Step : Type 0 → Type 0 → Type 0 → Type 0 → Type 0
Step R V P S = Connection R V P × S × Option ℕ

unfoldable pub is_watch : ℕ → Option ℕ → Bool
is_watch w none = false
is_watch w (some current) = current == w

module _ {R V P S : Type 0} (ev : Events S V P) (cfg : ServerConfig) where
  unfoldable pub refuse : String → ErrorCode → Bool → Connection R V P → S → Step R V P S
  unfolding enqueue
  refuse request code retry c s = ((enqueue cfg (refusal request code retry) c).1, s, none)

  -- The replay, until a frame finds the queue full.
  unfoldable pub enqueue_events : ℕ → List (Event P) → Connection R V P → Bool × Connection R V P
  unfolding enqueue
  enqueue_events w [] c = (true, c)
  enqueue_events w (e ∷ es) c =
      let r = enqueue cfg (event w e) c in
      let rest = enqueue_events w es r.1 in if r.0 then rest else r

  unfoldable pub drop_watch : String → ℕ → Connection R V P → S → Step R V P S
  drop_watch id w c s = (record c { watches = remove id c.watches }, ev.cancel id w s, none)

  unfoldable pub replayed : String → Watch V P → Bool × Connection R V P → S → Step R V P S
  unfolding drop_watch
  replayed id watch (true, c) s = (c, s, some watch.watcher)
  replayed id watch (false, c) s = drop_watch id watch.watcher c s

  unfoldable pub responded : String → Watch V P → Bool × Connection R V P → S → Step R V P S
  unfolding drop_watch replayed enqueue_events
  responded id watch (true, c) s = replayed id watch (enqueue_events watch.watcher watch.replay c) s
  responded id watch (false, c) s = drop_watch id watch.watcher c s

  unfoldable pub watching :
      String → String → Result (Watch V P) × S → Connection R V P → Step R V P S
  unfolding refuse watch_error responded enqueue
  watching request id (err x, s) c = refuse request (watch_error x).0 (watch_error x).1 c s
  watching request id (ok watch, s) c =
      let c' = record c { watches = insert id watch.watcher c.watches } in
      responded id watch (enqueue cfg (watched request watch.response) c') s

  unfoldable pub registering : String → WatchRequest → Connection R V P → S → Step R V P S
  unfolding refuse watching is_given
  registering request req c s =
      if leb cfg.max_watches (length c.watches)
      then refuse request conflict false c s
      else watching request req.codex_id
          (if is_given req.after_event_seq && not (str_eq req.after_host_run_id cfg.host_run_id)
            then ev.force_reset req.codex_id cfg.watch_queue_size s
            else ev.watch req.codex_id req.after_event_seq cfg.watch_queue_size s)
          c

  unfoldable pub replacing : String → WatchRequest → Option ℕ → Connection R V P → S → Step R V P S
  unfolding registering
  replacing request req none c s = registering request req c s
  replacing request req (some w) c s =
      registering request req (record c { watches = remove req.codex_id c.watches })
        (ev.cancel req.codex_id w s)

  unfoldable pub handle_watch : Bool → String → WatchRequest → Connection R V P → S → Step R V P S
  unfolding refuse replacing is_given
  handle_watch over request req c s =
      if str_eq req.codex_id ""
      then refuse request invalid_request false c s
      else if over
      then refuse request deadline_exceeded true c s
      else if not cfg.has_events
      then refuse request host_not_ready true c s
      else if is_given req.after_event_seq && str_eq req.after_host_run_id ""
      then refuse request invalid_request false c s
      else if not (is_given req.after_event_seq) && not (str_eq req.after_host_run_id "")
      then refuse request invalid_request false c s
      else replacing request req (lookup req.codex_id c.watches) c s

  unfoldable pub unwatching : String → Option ℕ → Connection R V P → S → Connection R V P × S
  unwatching id none c s = (c, s)
  unwatching id (some w) c s = (record c { watches = remove id c.watches }, ev.cancel id w s)

  unfoldable pub handle_unwatch : Bool → String → String → Connection R V P → S → Step R V P S
  unfolding refuse unwatching enqueue
  handle_unwatch over request id c s =
      if over
      then refuse request deadline_exceeded true c s
      else if str_eq id ""
      then refuse request invalid_request false c s
      else (let r = unwatching id (lookup id c.watches) c s in
          ((enqueue cfg (unwatched request id) r.0).1, r.1, none))

module _ {R V P : Type 0} (cfg : ServerConfig) where
  -- What `forwardWatch` makes of an event of the watch, of the end of its events, and of its being
  -- slow.
  unfoldable pub forward_event : String → ℕ → Event P → Connection R V P → Connection R V P
  unfolding is_watch enqueue
  forward_event id w e c =
      if is_watch w (lookup id c.watches) then (enqueue cfg (event w e) c).1 else c

  unfoldable pub forward_end : String → ℕ → Connection R V P → Connection R V P
  unfolding is_watch
  forward_end id w c =
      if is_watch w (lookup id c.watches) then record c { watches = remove id c.watches } else c

  unfoldable pub forward_slow : String → ℕ → Connection R V P → Connection R V P
  unfolding is_watch protocol_close
  forward_slow id w c =
      if is_watch w (lookup id c.watches) then protocol_close slow_consumer c else c
