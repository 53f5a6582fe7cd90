-- ===== src/Gateway/Server/Store.antt =====
-- internal/gateway/server.go: what the handlers of a connection make of the event store.
use codex_remote.Prelude.{
  ℕ, String, Bool, true, false, not, ◌&&◌, ◌≡◌, ◌≢◌, Option, none, some, [], ◌∷◌, Map, length,
  lookup, insert, remove, if_cases, if◌then◌else◌, leb, str_eq,
}
use codex_remote.Errors.{Result, ok, err}
use codex_remote.Gateway.Server.{ServerConfig, watched, Connection, Events}
use codex_remote.Gateway.Server.Queue.{cancel_all, clear_watches, enqueue}
use codex_remote.Gateway.Server.Watches.{
  WatchRequest, is_given, Step, refuse, enqueue_events, drop_watch, replayed, responded, watching,
  registering, replacing, handle_watch, unwatching, handle_unwatch,
}
use codex_remote.Gateway.Server.Moves.{Move, happens}
use codex_remote.Activity.Watch.{Watch}

-- From a store with `Inv`, which the calls of the connection keep, no call hands out the watch `w`.
pub record IsSpent {S V P : Type 0} (ev : Events S V P) (w : ℕ) (Inv : S → Type 0) : Type 0 where
  pub watch_kept :
      (id : String) (after : Option ℕ) (queue : ℕ) (s : S)
      → Inv s
      → Inv (ev.watch id after queue s).1
  pub watch_other :
      (id : String) (after : Option ℕ) (queue : ℕ) (s s' : S) (new : Watch V P)
      → Inv s
      → ev.watch id after queue s ≡ (ok new, s')
      → new.watcher ≢ w
  pub reset_kept : (id : String) (queue : ℕ) (s : S) → Inv s → Inv (ev.force_reset id queue s).1
  pub reset_other :
      (id : String) (queue : ℕ) (s s' : S) (new : Watch V P)
      → Inv s
      → ev.force_reset id queue s ≡ (ok new, s')
      → new.watcher ≢ w
  pub cancel_kept : (id : String) (old : ℕ) (s : S) → Inv s → Inv (ev.cancel id old s)

-- What else happens to the store keeps `Inv`.
abbrev pub KeepsStore : {Q R V P S : Type 0} → (S → Type 0) → Move Q R V P S → Type 0
KeepsStore Inv (happens f) = (s : _) → Inv s → Inv (f s)
KeepsStore Inv _ = Unit

module _ {V P S : Type 0} (ev : Events S V P) (w : ℕ) (Inv : S → Type 0)
    (spent : IsSpent ev w Inv) where
  cancel_all-Inv : (ws : Map ℕ) (s : S) → Inv s → Inv (cancel_all ev ws s)
  unfolding cancel_all
  cancel_all-Inv [] s i = i
  cancel_all-Inv ((id, old) ∷ ws) s i =
      spent.cancel_kept id old (cancel_all ev ws s) (cancel_all-Inv ws s i)

module _ {R V P S : Type 0} (ev : Events S V P) (cfg : ServerConfig) (w : ℕ) (Inv : S → Type 0)
    (spent : IsSpent ev w Inv) where
  either-Inv : (b : Bool) (x y : Step R V P S) → Inv x.1 → Inv y.1 → Inv (if b then x else y).1
  either-Inv true x y h k = h
  either-Inv false x y h k = k

  replayed-Inv :
      (id : String) (watch : Watch V P) (r : Bool × Connection R V P) (s : S)
      → Inv s
      → Inv (replayed ev cfg id watch r s).1
  unfolding replayed drop_watch
  replayed-Inv id watch (true, c) s i = i
  replayed-Inv id watch (false, c) s i = spent.cancel_kept id watch.watcher s i

  responded-Inv :
      (id : String) (watch : Watch V P) (r : Bool × Connection R V P) (s : S)
      → Inv s
      → Inv (responded ev cfg id watch r s).1
  unfolding responded drop_watch
  responded-Inv id watch (true, c) s i =
      replayed-Inv id watch (enqueue_events ev cfg watch.watcher watch.replay c) s i
  responded-Inv id watch (false, c) s i = spent.cancel_kept id watch.watcher s i

  watching-Inv :
      (request id : String) (r : Result (Watch V P) × S) (c : Connection R V P)
      → Inv r.1
      → Inv (watching ev cfg request id r c).1
  unfolding watching refuse
  watching-Inv request id (err x, s) c i = i
  watching-Inv request id (ok watch, s) c i =
      let c' = record c { watches = insert id watch.watcher c.watches } in
      responded-Inv id watch (enqueue cfg (watched request watch.response) c') s i

  registering-Inv :
      (request : String) (req : WatchRequest) (c : Connection R V P) (s : S)
      → Inv s
      → Inv (registering ev cfg request req c s).1
  unfolding registering refuse
  registering-Inv request req c s i =
      if_cases (λ (x : Step R V P S). Inv x.1) (leb cfg.max_watches (length c.watches)) (λ full. i)
        (λ room.
          if_cases
            (λ (r : Result (Watch V P) × S). Inv (watching ev cfg request req.codex_id r c).1)
            (is_given req.after_event_seq && not (str_eq req.after_host_run_id cfg.host_run_id))
            (λ restarted.
              watching-Inv request req.codex_id _ c
                (spent.reset_kept req.codex_id cfg.watch_queue_size s i))
            (λ same.
              watching-Inv request req.codex_id _ c
                (spent.watch_kept req.codex_id req.after_event_seq cfg.watch_queue_size s i)))

  replacing-Inv :
      (request : String) (req : WatchRequest) (o : Option ℕ) (c : Connection R V P) (s : S)
      → Inv s
      → Inv (replacing ev cfg request req o c s).1
  unfolding replacing
  replacing-Inv request req none c s i = registering-Inv request req c s i
  replacing-Inv request req (some old) c s i =
      registering-Inv request req (record c { watches = remove req.codex_id c.watches })
        (ev.cancel req.codex_id old s) (spent.cancel_kept req.codex_id old s i)

  pub handle_watch-Inv :
      (over : Bool) (request : String) (req : WatchRequest) (c : Connection R V P) (s : S)
      → Inv s
      → Inv (handle_watch ev cfg over request req c s).1
  unfolding handle_watch refuse
  handle_watch-Inv over request req c s i =
      let given = is_given req.after_event_seq in
      let blank = str_eq req.after_host_run_id "" in
      either-Inv (str_eq req.codex_id "") _ _ i (
        either-Inv over _ _ i (
          either-Inv (not cfg.has_events) _ _ i (
            either-Inv (given && blank) _ _ i (
              either-Inv (not given && not blank) _ _ i
                (replacing-Inv request req (lookup req.codex_id c.watches) c s i)))))

  unwatching-Inv :
      (id : String) (o : Option ℕ) (c : Connection R V P) (s : S)
      → Inv s
      → Inv (unwatching ev cfg id o c s).1
  unfolding unwatching
  unwatching-Inv id none c s i = i
  unwatching-Inv id (some old) c s i = spent.cancel_kept id old s i

  pub handle_unwatch-Inv :
      (over : Bool) (request id : String) (c : Connection R V P) (s : S)
      → Inv s
      → Inv (handle_unwatch ev cfg over request id c s).1
  unfolding handle_unwatch refuse
  handle_unwatch-Inv over request id c s i =
      either-Inv over _ _ i
        (either-Inv (str_eq id "") _ _ i (unwatching-Inv id (lookup id c.watches) c s i))

  pub clear_watches-Inv : (c : Connection R V P) (s : S) → Inv s → Inv (clear_watches ev c s).1
  unfolding clear_watches
  clear_watches-Inv c s i = cancel_all-Inv ev w Inv spent c.watches s i
