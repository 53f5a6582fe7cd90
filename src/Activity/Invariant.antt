-- ===== src/Activity/Invariant.antt =====
-- What holds of the streams between two calls of the Store, and of each stream function.
pub mod World
use codex_remote.Prelude.{
  ℕ, zero, suc, ◌+◌, ◌-◌, ◌≤◌, ◌<◌, ◌≡◌, ◌≢◌, refl, sym, ap, subst, inl, inr, Bool, true, false,
  String, Option, none, some, List, [], ◌∷◌, ◌++◌, All, length, length-drop, length-append, lookup,
  insert, remove, lookup-insert, lookup-remove, Map, Bool-cases, ltb, ◌==◌, arith, str_eq, eq_iff,
}
use codex_remote.Activity.{Event, CurrentView, Watcher, Stream}
use codex_remote.Activity.Interface.{Codec}
use codex_remote.Activity.Suffix.{IsSuffix, drop-IsSuffix, append-IsSuffix}
use codex_remote.Activity.Load.{new_stream, invalidated}
use codex_remote.Activity.Publish.{push, has_room, deliver, retain}
use codex_remote.Activity.Watch.{watch_locked, take_watcher}

-- A registered watcher has a buffered channel that is open and within its capacity.
pub record IsOpen {P : Type 0} (next_watcher : ℕ) (w : Watcher P) : Type 0 where
  pub buffered : 1 ≤ w.queue
  pub within : length w.events ≤ w.queue
  pub numbered : w.id ≤ next_watcher
  pub live : w.events_closed ≡ false
  pub quick : w.slow_closed ≡ false

-- `stored` is the durable boundary and view of the Codex, if it exists.
pub record IsStream {V P : Type 0} (capacity : ℕ) (st : Stream V P) (stored : Option (ℕ × List ℕ))
    : Type 0 where
  pub first : ℕ
  pub suffix : IsSuffix first st.head st.events
  pub bounded : length st.events ≤ capacity
  pub coupled : st.needs_reload ≡ false → (raw : List ℕ) × (stored ≡ some (st.head, raw))
  pub dropped : st.needs_reload ≡ true → st.events ≡ []
  pub watchers_open : All (IsOpen st.next_watcher) st.watchers

module _ {P : Type 0} where
  no_events : (head : ℕ) → IsSuffix {P = P} (suc head) head []
  no_events head = record { numbered = tt; up_to = omega arith }

  retain-IsSuffix :
      {first head : ℕ} {events : List (Event P)} (capacity : ℕ)
      → IsSuffix first head events
      → (m : ℕ) × IsSuffix m head (retain capacity events)
  unfolding retain
  retain-IsSuffix {first} {events = events} capacity v =
      elim (Bool-cases (ltb capacity (length events))) [
        | inl over ↦ (
          first + (length events - capacity),
          rw over (drop-IsSuffix (length events - capacity) (omega arith) v),
        )
        | inr fits ↦ (first, rw fits v)
      ]

  length-retain :
      (capacity : ℕ) (events : List (Event P)) → length (retain capacity events) ≤ capacity
  unfolding retain
  length-retain capacity events = ground (arith, length-drop (length events - capacity) events)

  push-IsOpen :
      {n : ℕ} (ev : Event P) {w : Watcher P}
      → length w.events < w.queue
      → IsOpen n w
      → IsOpen n (push ev w)
  unfolding push
  push-IsOpen ev {w} room h = record {
    buffered = h.buffered;
    within = omega (arith, length-append w.events (ev ∷ []));
    numbered = h.numbered;
    live = h.live;
    quick = h.quick;
  }

  deliver-IsOpen :
      (n : ℕ) (ev : Event P) (ws : List (Watcher P))
      → All (IsOpen n) ws
      → All (IsOpen n) (deliver ev ws).0
  unfolding deliver
  deliver-IsOpen n ev [] h = tt
  deliver-IsOpen n ev (w ∷ ws) h = elim (Bool-cases (ltb (length w.events) w.queue)) [
    | inl room ↦ rw room (push-IsOpen ev (ground arith) h.0, deliver-IsOpen n ev ws h.1)
    | inr full ↦ rw full (deliver-IsOpen n ev ws h.1)
  ]

  IsOpen-mono : {n m : ℕ} (ws : List (Watcher P)) → n ≤ m → All (IsOpen n) ws → All (IsOpen m) ws
  IsOpen-mono [] le h = tt
  IsOpen-mono (w ∷ ws) le h = (
    record {
      buffered = h.0.buffered;
      within = h.0.within;
      numbered = omega (arith, h.0.numbered);
      live = h.0.live;
      quick = h.0.quick;
    },
    IsOpen-mono ws le h.1,
  )

  take_watcher-IsOpen :
      (n wid : ℕ) (ws : List (Watcher P))
      → All (IsOpen n) ws
      → All (IsOpen n) (take_watcher wid ws).1
  unfolding take_watcher
  take_watcher-IsOpen n wid [] h = tt
  take_watcher-IsOpen n wid (w ∷ ws) h = elim (Bool-cases (w.id == wid)) [
    | inl hit ↦ rw hit (h.1)
    | inr miss ↦ rw miss (h.0, take_watcher-IsOpen n wid ws h.1)
  ]

module _ {V P : Type 0} {capacity : ℕ} where
  -- A stream whose suffix was dropped, at the boundary that was read again.
  reload-IsStream :
      (st : Stream V P) {stored : Option (ℕ × List ℕ)} (head : ℕ) (raw : List ℕ)
      (view : Option (CurrentView V)) (unsafe : Bool)
      → All (IsOpen st.next_watcher) st.watchers
      → st.events ≡ []
      → stored ≡ some (head, raw)
      → IsStream capacity
          (record st { head = head; view = view; needs_reload = false; replay_unsafe = unsafe })
          stored
  reload-IsStream st head raw view unsafe o e k = record {
    first = suc head;
    suffix = rw e (no_events head);
    bounded = rw e (omega arith);
    coupled = λ _. (raw, k);
    dropped = λ h. cc;
    watchers_open = o;
  }

  -- A stream that could not be read again.
  stale-IsStream :
      (st : Stream V P) (stored : Option (ℕ × List ℕ))
      → All (IsOpen st.next_watcher) st.watchers
      → IsStream capacity (record (invalidated st) { needs_reload = true }) stored
  unfolding invalidated
  stale-IsStream st stored o = record {
    first = suc st.head;
    suffix = no_events st.head;
    bounded = omega arith;
    coupled = λ h. cc;
    dropped = λ _. refl;
    watchers_open = o;
  }

  -- A stream keeps its invariant where the store of its Codex is the same.
  IsStream-eq :
      {st : Stream V P} {stored stored' : Option (ℕ × List ℕ)}
      → stored' ≡ stored
      → IsStream capacity st stored
      → IsStream capacity st stored'
  IsStream-eq {st} e v = rw e v

  new_stream-IsStream :
      (c : Codec V) {stored : Option (ℕ × List ℕ)} (head : ℕ) (raw : List ℕ)
      → stored ≡ some (head, raw)
      → IsStream {P = P} capacity (new_stream c head raw) stored
  unfolding new_stream
  new_stream-IsStream c head raw k = record {
    first = suc head;
    suffix = no_events head;
    bounded = omega arith;
    coupled = λ _. (raw, k);
    dropped = λ _. refl;
    watchers_open = tt;
  }
