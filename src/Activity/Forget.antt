-- ===== src/Activity/Forget.antt =====
-- internal/activity/store.go: `Forget`, which ends the streams of a Codex and destroys it.
use codex_remote.Prelude.{
  ℕ, ◌+◌, String, true, Option, none, some, List, [], ◌∷◌, ◌++◌, length, insert, remove,
  if◌then◌else◌, ltb, str_eq,
}
use codex_remote.Errors.{Result, ok, err, invalid_argument}
use codex_remote.Activity.{Event, codex_forgotten, Watcher, Stream, World}
use codex_remote.Activity.Interface.{Codec, EventPersistence}
use codex_remote.Activity.Load.{ensure}
use codex_remote.Activity.Publish.{Auditor, audited, with_codex}

module _ {P : Type 0} where
  -- The inner loop, on a channel of capacity `queue`: discard from the front until the event
  -- fits. `none` is a loop that never ends, as on a channel of capacity 0.
  unfoldable pub force : ℕ → Event P → List (Event P) → Option (List (Event P))
  force queue event [] = if ltb 0 queue then some (event ∷ []) else none
  force queue event (old ∷ events) =
      let rest = force queue event events in
      if ltb (length (old ∷ events)) queue then some ((old ∷ events) ++ event ∷ []) else rest

  pub close_with : Watcher P → Option (List (Event P)) → Option (Watcher P)
  close_with w none = none
  close_with w (some events) = some (record w { events = events; events_closed = true })

  pub add_closed : Option (Watcher P) → Option (List (Watcher P)) → Option (List (Watcher P))
  add_closed none ws = none
  add_closed (some w) none = none
  add_closed (some w) (some ws) = some (w ∷ ws)

  -- The loop over the watchers: each gets the terminal event, leaves the map and is closed.
  unfoldable pub terminate : Event P → List (Watcher P) → Option (List (Watcher P))
  unfolding force close_with add_closed
  terminate event [] = some []
  terminate event (w ∷ ws) =
      add_closed (close_with w (force w.queue event w.events)) (terminate event ws)

module _ {V P : Type 0} where
  -- The event that `Forget` builds.
  unfoldable pub terminal_event : String → String → ℕ → Stream V P → Event P
  terminal_event id request_id now st = record {
    codex_id = id;
    event_seq = st.head + 1;
    occurred_at_unix_ms = now;
    caused_by_request_id = request_id;
    payload = codex_forgotten;
  }

module _ {V P D : Type 0} where
  unfoldable pub destroyed :
      String → Event P → World V P D → Result (Unit {0}) × D → Result (Event P) × World V P D
  destroyed id event w (err e, d) = (err e, record w { db = d })
  destroyed id event w (ok _, d) = (ok event, record w { db = d; codex = remove id w.codex })

  unfoldable pub end_stream :
      (String → D → Result (Unit {0}) × D)
      → Auditor P
      → String
      → Event P
      → Stream V P
      → World V P D
      → Option (List (Watcher P))
      → Option (Result (Event P) × World V P D)
  unfolding destroyed audited with_codex
  end_stream destroy audit id event st w none = none
  end_stream destroy audit id event st w (some closed) =
      let w' = record w {
        audit_err = audited audit event w.audit_err;
        codex = insert id (record st { watchers = [] }) w.codex;
        departed = with_codex id closed ++ w.departed;
      } in
      some (destroyed id event w' (destroy id w'.db))

module _ {V P D : Type 0} (audit : Auditor P) where
  unfoldable pub forget_stream :
      (String → D → Result (Unit {0}) × D)
      → String
      → String
      → ℕ
      → Result (Stream V P) × World V P D
      → Option (Result (Event P) × World V P D)
  unfolding end_stream terminate terminal_event
  forget_stream destroy id request_id now (err e, w) = some (err e, w)
  forget_stream destroy id request_id now (ok st, w) =
      let event = terminal_event id request_id now st in
      end_stream destroy audit id event st w (terminate event st.watchers)

module _ {V P D : Type 0} (c : Codec V) (p : EventPersistence D) (audit : Auditor P) where
  -- `destroy` is the callback that deletes the durable state; `none` is a call that never returns.
  unfoldable pub forget :
      Option (String → D → Result (Unit {0}) × D)
      → String
      → String
      → ℕ
      → World V P D
      → Option (Result (Event P) × World V P D)
  unfolding forget_stream ensure
  forget none id request_id now w = some (err invalid_argument, w)
  forget (some destroy) id request_id now w =
      if str_eq id ""
      then some (err invalid_argument, w)
      else forget_stream audit destroy id request_id now (ensure c p id w)
