-- ===== src/Activity/Publish.antt =====
-- internal/activity/store.go: `Publish`, which commits an event and hands it to the watchers.
use codex_remote.Prelude.{
  ℕ, ◌-◌, String, Bool, true, Option, none, some, List, [], ◌∷◌, ◌++◌, map, length, drop, insert,
  if◌then◌else◌, ltb, str_eq,
}
use codex_remote.Errors.{Result, ok, err, invalid_argument, encoding}
use codex_remote.Activity.{Event, CurrentView, Watcher, Stream, World}
use codex_remote.Activity.Interface.{Codec, EventPersistence}
use codex_remote.Activity.Load.{ensure, reload_unsafe}

-- `RecordCanonical` of the auditor, if there is one: `some e` is its error.
abbrev pub Auditor : Type 0 → Type 0
Auditor P = Option (Event P → Option String)

-- `s.auditErr` after the answer of the auditor.
keep_error : Option String → Option String → Option String
keep_error old none = old
keep_error old (some e) = some e

module _ {P : Type 0} where
  unfoldable pub audited : Auditor P → Event P → Option String → Option String
  unfolding keep_error
  audited none ev old = old
  audited (some record_canonical) ev old = keep_error old (record_canonical ev)

  unfoldable pub has_room : Watcher P → Bool
  has_room w = ltb (length w.events) w.queue

  -- `watcher.events <- ev`
  unfoldable pub push : Event P → Watcher P → Watcher P
  push ev w = record w { events = w.events ++ ev ∷ [] }

  -- The watchers that stay, with the event in their channel, and those that were full.
  unfoldable pub deliver : Event P → List (Watcher P) → List (Watcher P) × List (Watcher P)
  unfolding has_room push
  deliver ev [] = ([], [])
  deliver ev (w ∷ ws) =
      let (kept, slow) = deliver ev ws in
      if has_room w
      then (push ev w ∷ kept, slow)
      else (kept, record w { slow_closed = true } ∷ slow)

  -- The replay suffix after one more event: the last `capacity` events.
  unfoldable pub retain : ℕ → List (Event P) → List (Event P)
  retain capacity events =
      if ltb capacity (length events) then drop (length events - capacity) events else events

  unfoldable pub with_codex : String → List (Watcher P) → List (String × Watcher P)
  with_codex id = map (λ w. (id, w))

unfoldable pub encoded : Option (List ℕ) → Result (List ℕ)
encoded none = err encoding
encoded (some raw) = ok raw

-- The callback of `CommitEvent`: the view with the new boundary, as JSON.
unfoldable pub build_view : {V : Type 0} → Codec V → CurrentView V → ℕ → Result (List ℕ)
unfolding encoded
build_view c view seq = encoded (c.marshal (record view { head_event_seq = seq }))

module _ {V P D : Type 0} (audit : Auditor P) where
  -- What `Publish` does after the commit of `seq`.
  unfoldable pub expose :
      Event P → CurrentView V → Stream V P → ℕ → World V P D → Event P × World V P D
  unfolding audited deliver retain with_codex
  expose event view st seq w =
      let ev = record event { event_seq = seq } in
      let (kept, slow) = deliver ev st.watchers in
      let st' = record st {
        head = seq;
        view = some (record view { head_event_seq = seq });
        events = retain w.capacity (st.events ++ ev ∷ []);
        watchers = kept;
      } in
      (
        ev,
        record w {
          audit_err = audited audit ev w.audit_err;
          codex = insert event.codex_id st' w.codex;
          departed = with_codex event.codex_id slow ++ w.departed;
        },
      )

module _ {V P D : Type 0} (c : Codec V) (p : EventPersistence D) (audit : Auditor P) where
  unfoldable pub finish :
      Event P
      → CurrentView V
      → Stream V P
      → World V P D
      → Result ℕ × D
      → Result (Event P) × World V P D
  unfolding expose reload_unsafe
  finish event view st w (err e, d) =
      (err e, (reload_unsafe c p event.codex_id st (record w { db = d })).1)
  finish event view st w (ok seq, d) =
      let (ev, w') = expose audit event view st seq (record w { db = d }) in (ok ev, w')

  unfoldable pub commit_to :
      Event P → CurrentView V → Result (Stream V P) × World V P D → Result (Event P) × World V P D
  unfolding finish build_view
  commit_to event view (err e, w) = (err e, w)
  commit_to event view (ok st, w) =
      finish event view st w (p.commit_event event.codex_id (build_view c view) w.db)

  unfoldable pub publish :
      Option (Event P) → Option (CurrentView V) → World V P D → Result (Event P) × World V P D
  unfolding commit_to ensure
  publish none view w = (err invalid_argument, w)
  publish (some event) none w = (err invalid_argument, w)
  publish (some event) (some view) w =
      if str_eq event.codex_id ""
      then (err invalid_argument, w)
      else commit_to event view (ensure c p event.codex_id w)
