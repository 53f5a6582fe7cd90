-- ===== src/Activity/Watch.antt =====
-- internal/activity/store.go: `Watch`, `ForceReset`, `CurrentView` and the `Cancel` of a watch.
pub mod Resume
use codex_remote.Prelude.{
  ℕ, zero, suc, ◌+◌, ◌%◌, ◌^◌, String, Bool, true, false, not, Option, none, some, List, [], ◌∷◌,
  ◌++◌, ◌&&◌, lookup, insert, if◌then◌else◌, ltb, leb, ◌==◌, str_eq,
}
use codex_remote.Errors.{Error, Result, ok, err, invalid_argument, current_view_unavailable}
use codex_remote.Activity.{Event, CurrentView, Watcher, Stream, World}
use codex_remote.Activity.Interface.{Codec, EventPersistence}
use codex_remote.Activity.Load.{ensure}

abbrev pub u64_mod : ℕ
u64_mod = 2 ^ 64

pub data WatchMode : Type 0 where
  resumed reset : WatchMode

pub data ResetReason : Type 0 where
  unspecified initial_watch cursor_unavailable cursor_invalid host_restarted : ResetReason

-- WatchCodexResponse
pub record Response (V : Type 0) : Type 0 where
  pub codex_id : String
  pub head_event_seq : ℕ
  pub mode : WatchMode
  pub reset_reason : ResetReason
  pub reset_view : Option (CurrentView V)
  pub replay_from_event_seq : ℕ

-- The Watch that a client gets: `watcher` names its channels in the stream.
pub record Watch (V P : Type 0) : Type 0 where
  pub watcher : ℕ
  pub response : Response V
  pub replay : List (Event P)

module _ {P : Type 0} where
  -- The loop of `continuousReplayAvailable`, from the next sequence number that it expects.
  scan : ℕ → ℕ → ℕ → List (Event P) → Bool
  scan start head expected [] = false
  scan start head expected (event ∷ events) =
      let skip = scan start head expected events in
      let next = (expected + 1) % u64_mod in
      let go_on = scan start head next events in
      if ltb event.event_seq start
      then skip
      else if not (event.event_seq == expected)
      then false
      else if ltb head next
      then true
      else go_on

  unfoldable pub continuous_replay_available : List (Event P) → ℕ → ℕ → Bool
  unfolding scan
  continuous_replay_available events start head =
      if ltb head start then true else scan start head start events

  -- The loop that collects the replay of a resumed watch.
  unfoldable pub replay_range : ℕ → ℕ → List (Event P) → List (Event P)
  replay_range start head [] = []
  replay_range start head (ev ∷ events) =
      let rest = replay_range start head events in
      if leb start ev.event_seq && leb ev.event_seq head then ev ∷ rest else rest

-- `st.safeReplayFloor == nil || *after < *st.safeReplayFloor`
unfoldable pub below_floor : Option ℕ → ℕ → Bool
below_floor none after = true
below_floor (some floor) after = ltb after floor

-- A reset moves the floor to its boundary.
unfoldable pub floor_after : {V : Type 0} → Response V → Option ℕ → Option ℕ
floor_after resp floor = elim resp.mode [ reset ↦ some resp.head_event_seq | resumed ↦ floor ]

module _ {V : Type 0} (c : Codec V) where
  unfoldable pub clone_view : Option (CurrentView V) → ℕ → CurrentView V
  clone_view none head = record { head_event_seq = head; content = c.blank }
  clone_view (some v) head = record v { head_event_seq = head }

module _ {V P : Type 0} (c : Codec V) where
  reset_for : String → Stream V P → ResetReason → Response V × List (Event P)
  unfolding clone_view
  reset_for id st reason = (
    record {
      codex_id = id;
      head_event_seq = st.head;
      mode = reset;
      reset_reason = reason;
      reset_view = some (clone_view c st.view st.head);
      replay_from_event_seq = 0;
    },
    [],
  )

  resume_from : String → Stream V P → ℕ → Response V × List (Event P)
  unfolding replay_range
  resume_from id st start = (
    record {
      codex_id = id;
      head_event_seq = st.head;
      mode = resumed;
      reset_reason = unspecified;
      reset_view = none;
      replay_from_event_seq = start;
    },
    replay_range start st.head st.events,
  )

  -- The response and the replay of `watchLocked`.
  unfoldable pub answer : String → Stream V P → Option ℕ → Response V × List (Event P)
  unfolding reset_for resume_from continuous_replay_available below_floor
  answer id st none = reset_for id st initial_watch
  answer id st (some after) =
      let start = (after + 1) % u64_mod in
      if st.replay_unsafe && below_floor st.safe_replay_floor after
      then reset_for id st cursor_unavailable
      else if ltb st.head after
      then reset_for id st cursor_invalid
      else if continuous_replay_available st.events start st.head
      then resume_from id st start
      else reset_for id st cursor_unavailable

  unfoldable pub watch_locked : String → Stream V P → Option ℕ → ℕ → Watch V P × Stream V P
  unfolding answer floor_after
  watch_locked id st after queue =
      let wid = st.next_watcher + 1 in
      let (resp, replay) = answer id st after in
      (
        record { watcher = wid; response = resp; replay = replay },
        record st {
          next_watcher = wid;
          watchers =
              record {
                id = wid;
                queue = queue;
                events = [];
                events_closed = false;
                slow_closed = false;
              }
              ∷ st.watchers;
          safe_replay_floor = floor_after resp st.safe_replay_floor;
        },
      )

-- `if queue <= 0 { queue = 128 }`
unfoldable pub queue_or_default : ℕ → ℕ
queue_or_default zero = 128
queue_or_default (suc n) = suc n

module _ {V P D : Type 0} (c : Codec V) where
  unfoldable pub register :
      String → Option ℕ → ℕ → Result (Stream V P) × World V P D → Result (Watch V P) × World V P D
  unfolding watch_locked
  register id after queue (err e, w) = (err e, w)
  register id after queue (ok st, w) =
      let (watch, st') = watch_locked c id st after queue in
      (ok watch, record w { codex = insert id st' w.codex })

module _ {V P D : Type 0} where
  unfoldable pub with_reason :
      ResetReason → Result (Watch V P) × World V P D → Result (Watch V P) × World V P D
  with_reason reason (err e, w) = (err e, w)
  with_reason reason (ok watch, w) =
      (ok (record watch { response = record watch.response { reset_reason = reason } }), w)

  unfoldable pub cached_view :
      Result (Stream V P) × World V P D → Result (CurrentView V) × World V P D
  cached_view (err e, w) = (err e, w)
  cached_view (ok st, w) = (elim st.view [ none ↦ err current_view_unavailable | some v ↦ ok v ], w)

module _ {V P D : Type 0} (c : Codec V) (p : EventPersistence D) where
  unfoldable pub watch : String → Option ℕ → ℕ → World V P D → Result (Watch V P) × World V P D
  unfolding register ensure queue_or_default
  watch id after queue w =
      if str_eq id ""
      then (err invalid_argument, w)
      else register c id after (queue_or_default queue) (ensure c p id w)

  unfoldable pub force_reset :
      String → ResetReason → ℕ → World V P D → Result (Watch V P) × World V P D
  unfolding watch with_reason
  force_reset id reason queue w = with_reason reason (watch id none queue w)

  unfoldable pub current_view : String → World V P D → Result (CurrentView V) × World V P D
  unfolding cached_view ensure
  current_view id w = cached_view (ensure c p id w)

module _ {P : Type 0} where
  -- `delete(st.watchers, id)`, and the watcher that was there.
  unfoldable pub take_watcher : ℕ → List (Watcher P) → Option (Watcher P) × List (Watcher P)
  take_watcher wid [] = (none, [])
  take_watcher wid (w ∷ ws) =
      let (found, rest) = take_watcher wid ws in
      if w.id == wid then (some w, ws) else (found, w ∷ rest)

module _ {V P D : Type 0} where
  unfoldable pub depart :
      String → Stream V P → World V P D → Option (Watcher P) × List (Watcher P) → World V P D
  depart id st w (none, rest) = w
  depart id st w (some watcher, rest) = record w {
    codex = insert id (record st { watchers = rest }) w.codex;
    departed = (id, record watcher { events_closed = true }) ∷ w.departed;
  }

  -- The `Cancel` of the watch `wid`: a second call finds nothing to delete. `current` tells that the
  -- stream of the watch is still the one of the Codex; one that `Forget` took away has no watchers,
  -- since `Forget` deletes them first.
  unfoldable pub cancel : String → Bool → ℕ → World V P D → World V P D
  unfolding depart take_watcher
  cancel id current wid w =
      if current
      then elim (lookup id w.codex) [
        | none ↦ w
        | some st ↦ depart id st w (take_watcher wid st.watchers)
      ]
      else w
