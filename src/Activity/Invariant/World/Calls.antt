-- ===== src/Activity/Invariant/World/Calls.antt =====
-- Every call of the Store keeps its streams in agreement with the database.
use codex_remote.Prelude.{
  Bool, ℕ, zero, suc, ◌≤◌, ◌≡◌, ◌≢◌, refl, sym, ap, subst, ◌∙◌, true, false, String, Option, none,
  some, List, [], ◌∷◌, ◌++◌, All, lookup, insert, if_cases, arith, str_eq,
}
use codex_remote.Errors.{Result, ok, err}
use codex_remote.Activity.{Event, CurrentView, Watcher, Stream, World}
use codex_remote.Activity.Interface.{Codec, EventPersistence, IsEventPersistence}
use codex_remote.Activity.Suffix.{IsSuffix, append-IsSuffix}
use codex_remote.Activity.Load.{
  invalidated, stream_or_empty, load_durable, loaded, settle, reload_unsafe, reload_durable,
}
use codex_remote.Activity.Publish.{
  Auditor, deliver, retain, build_view, expose, finish, commit_to, publish,
}
use codex_remote.Activity.Watch.{
  watch_locked, queue_or_default, register, watch, with_reason, force_reset, ResetReason, Watch,
  take_watcher, depart, cancel, cached_view, current_view,
}
use codex_remote.Activity.Invariant.{
  IsOpen, IsStream, reload-IsStream, stale-IsStream, retain-IsSuffix, length-retain, deliver-IsOpen,
  IsOpen-mono, take_watcher-IsOpen,
}
use codex_remote.Activity.Invariant.World.{
  Streams, IsWorld, insert-Streams, Ensures, ensure-Ensures,
}

-- The database moved from `d` to `d'`, and only the entry of `id` may have changed.
abbrev pub Only : {D : Type 0} → (D → String → Option (ℕ × List ℕ)) → String → D → D → Type 0
Only durable id d d' = (j : String) → j ≢ id → durable d' j ≡ durable d j

queue_or_default_pos : (queue : ℕ) → 1 ≤ queue_or_default queue
unfolding queue_or_default
queue_or_default_pos zero = omega arith
queue_or_default_pos (suc n) = omega arith

module _ {V P D : Type 0} (durable : D → String → Option (ℕ × List ℕ)) where
  settle-IsWorld :
      (c : Codec V) (id : String) (st : Stream V P) (w : World V P D) (d : D)
      (r : Result (ℕ × List ℕ) × D)
      → All (IsOpen st.next_watcher) st.watchers
      → Only durable id d r.1
      → ((head : ℕ) (raw : List ℕ) → r.0 ≡ ok (head, raw) → durable r.1 id ≡ some (head, raw))
      → Streams durable w.capacity w.codex d
      → IsWorld durable (settle id (invalidated st) w (loaded c (invalidated st) r.0, r.1)).1
  unfolding settle loaded invalidated
  settle-IsWorld c id st w d (err e, d') o only found inv =
      insert-Streams durable w.codex d d' id (record (invalidated st) { needs_reload = true }) only
        (stale-IsStream st (durable d' id) o) inv
  settle-IsWorld c id st w d (ok (head, raw), d') o only found inv =
      insert-Streams durable w.codex d d' id _ only
        (reload-IsStream (invalidated st) head raw _ true o refl (found head raw refl)) inv

module _ {V P D : Type 0} (c : Codec V) (p : EventPersistence D)
    (durable : D → String → Option (ℕ × List ℕ)) (laws : IsEventPersistence p durable) where
  pub reload_unsafe-IsWorld :
      (id : String) (st : Stream V P) (w : World V P D) (d : D)
      → All (IsOpen st.next_watcher) st.watchers
      → Only durable id d w.db
      → Streams durable w.capacity w.codex d
      → IsWorld durable (reload_unsafe c p id st w).1
  unfolding reload_unsafe load_durable
  reload_unsafe-IsWorld id st w d o only inv =
      settle-IsWorld durable c id st w d (p.load_event_state id w.db) o
        (λ j other. laws.load_frame w.db id j ∙ only j other)
        (λ head raw h. laws.load_frame w.db id id ∙ laws.load_ok w.db id head raw h) inv

  pub reload_durable-IsWorld :
      (id : String) (w : World V P D)
      → IsWorld durable w
      → IsWorld durable (reload_durable c p id w).1
  unfolding reload_durable
  reload_durable-IsWorld id w inv =
      if_cases (λ (r : Result (Unit {0}) × World V P D). IsWorld durable r.1) (str_eq id "")
        (λ _. inv)
        (λ _.
          reload_unsafe-IsWorld id (stream_or_empty (lookup id w.codex)) w w.db
            (open_watchers (lookup id w.codex) refl) (λ j _. refl) inv)
    where
      open_watchers :
          (o : Option (Stream V P))
          → lookup id w.codex ≡ o
          → All (IsOpen (stream_or_empty o).next_watcher) (stream_or_empty o).watchers
      open_watchers none e = tt
      open_watchers (some st) e = (inv id st e).watchers_open

  expose-IsStream :
      (event : Event P) (view : CurrentView V) (st : Stream V P) (seq : ℕ) (raw : List ℕ)
      (capacity : ℕ) {stored stored' : Option (ℕ × List ℕ)}
      → IsStream capacity st stored
      → st.needs_reload ≡ false
      → seq ≡ suc st.head
      → stored' ≡ some (seq, raw)
      → IsStream capacity
          (record st {
            head = seq;
            view = some (record view { head_event_seq = seq });
            events = retain capacity (st.events ++ record event { event_seq = seq } ∷ []);
            watchers = (deliver (record event { event_seq = seq }) st.watchers).0;
          })
          stored'
  expose-IsStream event view st seq raw capacity s live e k =
      let ev = record event { event_seq = seq } in
      let grown = append-IsSuffix ev s.suffix e in
      let (m, kept) = retain-IsSuffix capacity grown in
      record {
        first = m;
        suffix = subst (λ h. IsSuffix m h (retain capacity (st.events ++ ev ∷ []))) (sym e) kept;
        bounded = length-retain capacity (st.events ++ ev ∷ []);
        coupled = λ _. (raw, k);
        dropped = λ h. cc;
        watchers_open = deliver-IsOpen st.next_watcher ev st.watchers s.watchers_open;
      }

  finish-IsWorld :
      (audit : Auditor P) (event : Event P) (view : CurrentView V) (st : Stream V P)
      (w : World V P D) (r : Result ℕ × D)
      → r ≡ p.commit_event event.codex_id (build_view c view) w.db
      → IsStream w.capacity st (durable w.db event.codex_id)
      → st.needs_reload ≡ false
      → IsWorld durable w
      → IsWorld durable (finish c p audit event view st w r).1
  unfolding finish expose
  finish-IsWorld audit event view st w (err e, d) k s live inv =
      reload_unsafe-IsWorld event.codex_id st (record w { db = d }) w.db s.watchers_open
        (λ j other.
          ap (λ (q : Result ℕ × D). durable q.1 j) k
          ∙ laws.commit_frame w.db event.codex_id j (build_view c view) other)
        inv
  finish-IsWorld audit event view st w (ok seq, d) k s live inv =
      let id = event.codex_id in
      let build = build_view c view in
      let (head, old, raw, before, next, built, after) =
        laws.commit_ok w.db id build seq (sym (ap (λ (q : Result ℕ × D). q.0) k)) in
      let (old', coupled) = s.coupled live in
      let only = λ (j : String) (other : j ≢ id).
        ap (λ (q : Result ℕ × D). durable q.1 j) k ∙ laws.commit_frame w.db id j build other in
      let stored = ap (λ (q : Result ℕ × D). durable q.1 id) k ∙ after in
      insert-Streams durable w.codex w.db d id _ only
        (expose-IsStream event view st seq raw w.capacity s live
          (ground (arith, before, coupled, next)) stored)
        inv

  commit_to-IsWorld :
      (audit : Auditor P) (event : Event P) (view : CurrentView V) (w : World V P D)
      (r : Result (Stream V P) × World V P D)
      → Ensures durable event.codex_id w r
      → IsWorld durable (commit_to c p audit event view r).1
  unfolding commit_to
  commit_to-IsWorld audit event view w (err e, w') s = s.streams
  commit_to-IsWorld audit event view w (ok st, w') s =
      let (here, live) = s.fresh st refl in
      finish-IsWorld audit event view st w' _ refl (s.streams event.codex_id st here) live s.streams

  pub publish-IsWorld :
      (audit : Auditor P) (event : Option (Event P)) (view : Option (CurrentView V))
      (w : World V P D)
      → IsWorld durable w
      → IsWorld durable (publish c p audit event view w).1
  unfolding publish
  publish-IsWorld audit none view w inv = inv
  publish-IsWorld audit (some event) none w inv = inv
  publish-IsWorld audit (some event) (some view) w inv =
      if_cases (λ (r : Result (Event P) × World V P D). IsWorld durable r.1)
        (str_eq event.codex_id "") (λ _. inv)
        (λ _.
          commit_to-IsWorld audit event view w _
            (ensure-Ensures durable c p laws event.codex_id w inv))

  register-IsWorld :
      (id : String) (after : Option ℕ) (queue : ℕ) (w : World V P D)
      (r : Result (Stream V P) × World V P D)
      → 1 ≤ queue
      → Ensures durable id w r
      → IsWorld durable (register c id after queue r).1
  unfolding register watch_locked
  register-IsWorld id after queue w (err e, w') q s = s.streams
  register-IsWorld id after queue w (ok st, w') q s =
      let (here, live) = s.fresh st refl in
      let i = s.streams id st here in
      insert-Streams durable w'.codex w'.db w'.db id _ (λ j _. refl)
        (record {
          first = i.first;
          suffix = i.suffix;
          bounded = i.bounded;
          coupled = i.coupled;
          dropped = i.dropped;
          watchers_open = (
            record {
              buffered = q;
              within = omega arith;
              numbered = omega arith;
              live = refl;
              quick = refl;
            },
            IsOpen-mono st.watchers (omega arith) i.watchers_open,
          );
        })
        s.streams

  pub watch-IsWorld :
      (id : String) (after : Option ℕ) (queue : ℕ) (w : World V P D)
      → IsWorld durable w
      → IsWorld durable (watch c p id after queue w).1
  unfolding watch
  watch-IsWorld id after queue w inv =
      if_cases (λ (r : Result (Watch V P) × World V P D). IsWorld durable r.1) (str_eq id "")
        (λ _. inv)
        (λ _.
          register-IsWorld id after (queue_or_default queue) w _ (queue_or_default_pos queue)
            (ensure-Ensures durable c p laws id w inv))

  with_reason-IsWorld :
      (reason : ResetReason) (r : Result (Watch V P) × World V P D)
      → IsWorld durable r.1
      → IsWorld durable (with_reason reason r).1
  unfolding with_reason
  with_reason-IsWorld reason (err e, w) inv = inv
  with_reason-IsWorld reason (ok watch, w) inv = inv

  pub force_reset-IsWorld :
      (id : String) (reason : ResetReason) (queue : ℕ) (w : World V P D)
      → IsWorld durable w
      → IsWorld durable (force_reset c p id reason queue w).1
  unfolding force_reset
  force_reset-IsWorld id reason queue w inv =
      with_reason-IsWorld reason _ (watch-IsWorld id none queue w inv)

  cached_view-IsWorld :
      (r : Result (Stream V P) × World V P D)
      → IsWorld durable r.1
      → IsWorld durable (cached_view r).1
  unfolding cached_view
  cached_view-IsWorld (err e, w) inv = inv
  cached_view-IsWorld (ok st, w) inv = inv

  pub current_view-IsWorld :
      (id : String) (w : World V P D)
      → IsWorld durable w
      → IsWorld durable (current_view c p id w).1
  unfolding current_view
  current_view-IsWorld id w inv =
      cached_view-IsWorld _ (ensure-Ensures durable c p laws id w inv).streams

  -- Fewer watchers, all open, in a stream of the map.
  pub unwatched-IsWorld :
      (id : String) (st : Stream V P) (ws : List (Watcher P)) (w : World V P D)
      → lookup id w.codex ≡ some st
      → All (IsOpen st.next_watcher) ws
      → IsWorld durable w
      → Streams durable w.capacity (insert id (record st { watchers = ws }) w.codex) w.db
  unwatched-IsWorld id st ws w here o inv =
      let i = inv id st here in
      insert-Streams durable w.codex w.db w.db id _ (λ j _. refl)
        (record {
          first = i.first;
          suffix = i.suffix;
          bounded = i.bounded;
          coupled = i.coupled;
          dropped = i.dropped;
          watchers_open = o;
        })
        inv

  depart-IsWorld :
      (id : String) (st : Stream V P) (w : World V P D) (r : Option (Watcher P) × List (Watcher P))
      → lookup id w.codex ≡ some st
      → All (IsOpen st.next_watcher) r.1
      → IsWorld durable w
      → IsWorld durable (depart id st w r)
  unfolding depart
  depart-IsWorld id st w (none, ws) here o inv = inv
  depart-IsWorld id st w (some x, ws) here o inv = unwatched-IsWorld id st ws w here o inv

  pub cancel-IsWorld :
      (id : String) (current : Bool) (wid : ℕ) (w : World V P D)
      → IsWorld durable w
      → IsWorld durable (cancel id current wid w)
  unfolding cancel
  cancel-IsWorld id false wid w inv = inv
  cancel-IsWorld id true wid w inv = go (lookup id w.codex) refl
    where
      go :
          (o : Option (Stream V P))
          → lookup id w.codex ≡ o
          → IsWorld durable
              (elim o [ none ↦ w | some st ↦ depart id st w (take_watcher wid st.watchers) ])
      go none e = inv
      go (some st) e =
          depart-IsWorld id st w _ e
            (take_watcher-IsOpen st.next_watcher wid st.watchers (inv id st e).watchers_open) inv
