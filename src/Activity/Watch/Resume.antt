-- ===== src/Activity/Watch/Resume.antt =====
-- Which cursors `watchLocked` resumes, and what it replays to them.
use codex_remote.Prelude.{
  ℕ, suc, ◌+◌, ◌-◌, ◌%◌, ◌≤◌, ◌<◌, ◌≡◌, refl, ◌↔◌, inl, inr, true, false, String, some, List, [],
  ◌∷◌, ◌&&◌, length, drop-nil, drop, sym, ap, subst, arith, leb, ltb, Bool-cases,
}
use codex_remote.Activity.{Event, Stream}
use codex_remote.Activity.Interface.{Codec}
use codex_remote.Activity.Suffix.{Numbered, IsSuffix, drop-IsSuffix}
use codex_remote.Activity.Watch.{
  u64_mod, resumed, scan, continuous_replay_available, replay_range, below_floor, answer,
  resume_from,
}

module _ {P : Type 0} where
  -- Past the start, each event is the one that the scan expects, up to the boundary.
  scan_run :
      (start first head : ℕ) (es : List (Event P))
      → start ≤ first
      → first ≤ head
      → suc head < u64_mod
      → Numbered first es
      → first + length es ≡ suc head
      → scan start head first es ≡ true
  unfolding scan
  scan_run start first head [] s f h n l = absurd (omega arith)
  scan_run start first head (e ∷ es) s f h n l =
      let next : (first + 1) % u64_mod ≡ suc first = omega arith in
      rw (n.0, next) (ground (arith, scan_run start (suc first) head es))

  -- Events before the start are skipped.
  scan_skip :
      (start first head : ℕ) (es : List (Event P))
      → first ≤ start
      → start ≤ head
      → suc head < u64_mod
      → Numbered first es
      → first + length es ≡ suc head
      → scan start head start es ≡ true
  unfolding scan
  scan_skip start first head [] f s h n l = absurd (omega arith)
  scan_skip start first head (e ∷ es) f s h n l = elim (Bool-cases (ltb first start)) [
    | inl early ↦ rw (n.0, early) (ground (arith, scan_skip start (suc first) head es))
    | inr late ↦
        subst (λ k. scan start head k (e ∷ es) ≡ true)
          (let same : first ≡ start = ground arith in same)
          (scan_run start first head (e ∷ es) (ground arith) (ground arith) h n l)
  ]

  -- If the start was dropped from the suffix, the scan stops at its first event.
  scan_gap :
      (start first head : ℕ) (es : List (Event P))
      → start < first
      → Numbered first es
      → scan start head start es ≡ false
  unfolding scan
  scan_gap start first head [] s n = refl
  scan_gap start first head (e ∷ es) s n = ground arith

  -- The suffix covers a start exactly if it lies past the boundary or not before the first event.
  continuous_replay_available_lem :
      {first head : ℕ} {events : List (Event P)} (start : ℕ)
      → suc head < u64_mod
      → IsSuffix first head events
      → start ≤ suc head
      → (continuous_replay_available events start head ≡ true) ↔ (first ≤ start)
  unfolding continuous_replay_available
  continuous_replay_available_lem {first} {head} {events} start h v s = (
    λ a. elim (Bool-cases (ltb start first)) [
      | inl gap ↦ ground (arith, scan_gap start first head events, v.numbered, v.up_to)
      | inr covered ↦ ground arith
    ],
    λ f. ground (arith, scan_skip start first head events, v.numbered, v.up_to),
  )

  -- Nothing before the start, and nothing past the boundary, is in a numbered list.
  replay_range_all :
      (start first head : ℕ) (events : List (Event P))
      → start ≤ first
      → Numbered first events
      → first + length events ≡ suc head
      → replay_range start head events ≡ events
  unfolding replay_range
  replay_range_all start first head [] s n l = refl
  replay_range_all start first head (e ∷ es) s n l =
      rw (n.0) (ground (arith, replay_range_all start (suc first) head es))

  -- The replay is the part of the suffix from the start on.
  replay_range-eq-drop :
      (start first head : ℕ) (events : List (Event P))
      → first ≤ start
      → Numbered first events
      → first + length events ≡ suc head
      → replay_range start head events ≡ drop (start - first) events
  unfolding replay_range
  replay_range-eq-drop start first head [] f n l = sym (drop-nil (start - first))
  replay_range-eq-drop start first head (e ∷ es) f n l = elim (Bool-cases (ltb first start)) [
    | inl early ↦
        let k : start - first ≡ suc (start - suc first) = ground arith in
        let skip : leb start first ≡ false = ground arith in
        rw (k, n.0, skip)
          (replay_range-eq-drop start (suc first) head es (ground arith) n.1 (omega arith))
    | inr late ↦
        let k : start - first ≡ 0 = ground arith in
        rw k (unfold replay_range in replay_range_all start first head (e ∷ es) (ground arith) n l)
  ]

  replay_range-IsSuffix :
      {first head : ℕ} {events : List (Event P)} (start : ℕ)
      → first ≤ start
      → start ≤ suc head
      → IsSuffix first head events
      → IsSuffix start head (replay_range start head events)
  replay_range-IsSuffix {first} {head} {events} start f s v =
      let k : first + (start - first) ≡ start = omega arith in
      rw (replay_range-eq-drop start first head events f v.numbered v.up_to) (
        subst (λ m. IsSuffix m head (drop (start - first) events)) k
          (drop-IsSuffix (start - first) (omega (arith, v.up_to)) v))

module _ {V P : Type 0} (c : Codec V) (id : String) (st : Stream V P) (first : ℕ) where
  -- The cursor `after` is at or behind the boundary, no event after it has left the stream, and
  -- no reload made it unsafe.
  pub record CanResume (after : ℕ) : Type 0 where
    pub safe : (st.replay_unsafe && below_floor st.safe_replay_floor after) ≡ false
    pub not_ahead : after ≤ st.head
    pub retained : first ≤ suc after

  module _ (room : suc st.head < u64_mod) (v : IsSuffix first st.head st.events) where
    answer_of_CanResume :
        (after : ℕ)
        → CanResume after
        → answer c id st (some after) ≡ resume_from c id st (suc after)
    unfolding answer
    answer_of_CanResume after r =
        let next : (after + 1) % u64_mod ≡ suc after = omega (arith, r.not_ahead) in
        rw next (
          ground (
            arith,
            r.safe,
            r.not_ahead,
            r.retained,
            continuous_replay_available_lem {first = first} (suc after) room v,
          ))

    CanResume-answer :
        (after : ℕ) → (answer c id st (some after)).0.mode ≡ resumed → CanResume after
    unfolding answer
    CanResume-answer after m =
        let ahead : after ≤ st.head = ground arith in
        let next : (after + 1) % u64_mod ≡ suc after = omega arith in
        record {
          safe = ground arith;
          not_ahead = ahead;
          retained =
              (continuous_replay_available_lem {first = first} (suc after) room v (omega arith)).0
                (ground (arith, ap (λ n. continuous_replay_available st.events n st.head) next));
        }

    -- On a well-formed stream a cursor is resumed exactly if it is not below the safe floor of a
    -- stream with lost events, not ahead of the boundary, and the event after it, if there is one,
    -- is retained.
    pub answer_resumed :
        (after : ℕ) → CanResume after ↔ ((answer c id st (some after)).0.mode ≡ resumed)
    unfolding resume_from
    answer_resumed after = (λ r. rw (answer_of_CanResume after r), λ m. CanResume-answer after m)

    -- On a well-formed stream a watch that is resumed replays the retained events after its cursor,
    -- numbered without a gap from the cursor up to the boundary of the response.
    pub answer_replay :
        (after : ℕ)
        → (answer c id st (some after)).0.mode ≡ resumed
        → ((answer c id st (some after)).1 ≡ drop (suc after - first) st.events)
          × IsSuffix (suc after) st.head (answer c id st (some after)).1
          × ((answer c id st (some after)).0.head_event_seq ≡ st.head)
          × ((answer c id st (some after)).0.replay_from_event_seq ≡ suc after)
    unfolding resume_from
    answer_replay after m =
        let r = CanResume-answer after m in
        rw (answer_of_CanResume after r) (
          replay_range-eq-drop (suc after) first st.head st.events r.retained v.numbered v.up_to,
          replay_range-IsSuffix (suc after) r.retained (omega (arith, r.not_ahead)) v,
          refl,
          refl,
        )
