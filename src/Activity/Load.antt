-- ===== src/Activity/Load.antt =====
-- internal/activity/store.go: `ensure`, `loadDurable`, `reloadUnsafe` and `ReloadDurable`, which
-- bring a stream into memory.
use codex_remote.Prelude.{
  ℕ, String, Bool, true, false, not, Option, none, some, List, [], ◌∷◌, lookup, insert,
  if◌then◌else◌, ◌==◌, str_eq,
}
use codex_remote.Errors.{Error, Result, ok, err, no_rows, codex_not_found, invalid_argument}
use codex_remote.Activity.{CurrentView, Stream, World}
use codex_remote.Activity.Interface.{Codec, EventPersistence}

-- `errors.Is(err, sql.ErrNoRows)` becomes ErrCodexNotFound; any other error is passed on.
unfoldable pub not_found : Error → Error
not_found no_rows = codex_not_found
not_found e = e

stale_view : {V : Type 0} → ℕ → Option (CurrentView V) → Bool
stale_view head none = true
stale_view head (some v) = not (v.head_event_seq == head)

module _ {V P : Type 0} where
  -- The stream with its replay suffix dropped, before it is read again.
  unfoldable pub invalidated : Stream V P → Stream V P
  invalidated st = record st { events = []; replay_unsafe = true; safe_replay_floor = none }

  unfoldable pub empty_stream : Stream V P
  empty_stream = record {
    head = 0;
    events = [];
    view = none;
    replay_unsafe = false;
    safe_replay_floor = none;
    needs_reload = false;
    next_watcher = 0;
    watchers = [];
  }

  unfoldable pub stream_or_empty : Option (Stream V P) → Stream V P
  unfolding empty_stream
  stream_or_empty none = empty_stream
  stream_or_empty (some st) = st

module _ {V : Type 0} (c : Codec V) where
  -- The view of a stored snapshot; one that does not parse leaves the view nil.
  unfoldable pub decode_view : List ℕ → Option (CurrentView V)
  decode_view [] = none
  decode_view (b ∷ bs) = c.unmarshal (b ∷ bs)

  -- Whether a stream that is read for the first time in this run starts with `replayUnsafe`.
  unfoldable pub unsafe_at_start : ℕ → List ℕ → Bool
  unfolding stale_view
  unsafe_at_start head [] = not (head == 0)
  unsafe_at_start head (b ∷ bs) = stale_view head (c.unmarshal (b ∷ bs))

module _ {V P : Type 0} (c : Codec V) where
  unfoldable pub new_stream : ℕ → List ℕ → Stream V P
  unfolding decode_view unsafe_at_start
  new_stream head raw = record {
    head = head;
    events = [];
    view = decode_view c raw;
    replay_unsafe = unsafe_at_start c head raw;
    safe_replay_floor = none;
    needs_reload = false;
    next_watcher = 0;
    watchers = [];
  }

  unfoldable pub loaded : Stream V P → Result (ℕ × List ℕ) → Result (Stream V P)
  unfolding decode_view
  loaded st (err e) = err e
  loaded st (ok (head, raw)) = ok (record st { head = head; view = decode_view c raw })

module _ {V P D : Type 0} where
  -- `ensure` on a stream that is in memory and wants a reload
  unfoldable pub reloaded :
      String → World V P D → Result (Stream V P) × D → Result (Stream V P) × World V P D
  reloaded id w (err e, d) = (err e, record w { db = d })
  reloaded id w (ok st, d) =
      let st' = record st { needs_reload = false; replay_unsafe = true } in
      (ok st', record w { db = d; codex = insert id st' w.codex })

  unfoldable pub settle :
      String → Stream V P → World V P D → Result (Stream V P) × D → Result (Unit {0}) × World V P D
  settle id st w (err e, d) =
      (err e, record w { db = d; codex = insert id (record st { needs_reload = true }) w.codex })
  settle id st w (ok st', d) =
      (ok tt, record w { db = d; codex = insert id (record st' { needs_reload = false }) w.codex })

module _ {V P D : Type 0} (c : Codec V) where
  -- `ensure` on a stream that is not in memory
  unfoldable pub opened :
      String → World V P D → Result (ℕ × List ℕ) × D → Result (Stream V P) × World V P D
  unfolding not_found new_stream
  opened id w (err e, d) = (err (not_found e), record w { db = d })
  opened id w (ok (head, raw), d) =
      let st = new_stream c head raw in (ok st, record w { db = d; codex = insert id st w.codex })

module _ {V P D : Type 0} (c : Codec V) (p : EventPersistence D) where
  unfoldable pub load_durable : String → Stream V P → D → Result (Stream V P) × D
  unfolding loaded
  load_durable id st d = let (r, d') = p.load_event_state id d in (loaded c st r, d')

  unfoldable pub ensure_with :
      String → Option (Stream V P) → World V P D → Result (Stream V P) × World V P D
  unfolding reloaded opened load_durable
  ensure_with id (some st) w =
      if st.needs_reload then reloaded id w (load_durable id st w.db) else (ok st, w)
  ensure_with id none w = opened c id w (p.load_event_state id w.db)

  unfoldable pub ensure : String → World V P D → Result (Stream V P) × World V P D
  unfolding ensure_with
  ensure id w = ensure_with id (lookup id w.codex) w

  -- The result is whether `loadDurable` failed, which `reloadUnsafe` drops and `ReloadDurable`
  -- returns.
  unfoldable pub reload_unsafe : String → Stream V P → World V P D → Result (Unit {0}) × World V P D
  unfolding settle load_durable invalidated
  reload_unsafe id st w = settle id (invalidated st) w (load_durable id (invalidated st) w.db)

  unfoldable pub reload_durable : String → World V P D → Result (Unit {0}) × World V P D
  unfolding reload_unsafe stream_or_empty
  reload_durable id w =
      if str_eq id ""
      then (err invalid_argument, w)
      else reload_unsafe id (stream_or_empty (lookup id w.codex)) w
