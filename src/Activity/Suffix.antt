-- ===== src/Activity/Suffix.antt =====
-- The replay suffix of a stream: the events that end at its boundary, numbered without a gap.
use native.Mathlib.Nat.{add-zero, add-suc, suc-add}
use codex_remote.Prelude.{
  ℕ, zero, suc, ◌+◌, ◌≤◌, ◌≡◌, List, [], ◌∷◌, ◌++◌, length, length-append, length-drop, drop, arith,
}
use codex_remote.Activity.{Event}

module _ {P : Type 0} where
  -- The events carry the sequence numbers `first`, `first + 1`, … in this order.
  abbrev pub Numbered : ℕ → List (Event P) → Type 0
  Numbered first [] = Unit {0}
  Numbered first (ev ∷ events) = (ev.event_seq ≡ first) × Numbered (suc first) events

  -- The retained events are numbered from `first` up to the boundary `head`.
  pub record IsSuffix (first head : ℕ) (events : List (Event P)) : Type 0 where
    pub numbered : Numbered first events
    pub up_to : first + length events ≡ suc head

  drop-Numbered :
      (k first : ℕ) (events : List (Event P))
      → Numbered first events
      → Numbered (first + k) (drop k events)
  drop-Numbered zero first events n = rw add-zero n
  drop-Numbered (suc k) first [] n = tt
  drop-Numbered (suc k) first (e ∷ es) n =
      rw (add-suc, ← suc-add) (drop-Numbered k (suc first) es n.1)

  -- What is left of a suffix is a suffix.
  pub drop-IsSuffix :
      {first head : ℕ} {events : List (Event P)} (k : ℕ)
      → k ≤ length events
      → IsSuffix first head events
      → IsSuffix (first + k) head (drop k events)
  drop-IsSuffix {first} {head} {events} k h v = record {
    numbered = drop-Numbered k first events v.numbered;
    up_to = omega (arith, length-drop k events, v.up_to);
  }

  -- One more event, numbered next, extends a suffix to the new boundary.
  append-Numbered :
      (first : ℕ) (ev : Event P) (events : List (Event P))
      → Numbered first events
      → ev.event_seq ≡ first + length events
      → Numbered first (events ++ ev ∷ [])
  append-Numbered first ev [] n e = (omega arith, tt)
  append-Numbered first ev (x ∷ xs) n e = (n.0, append-Numbered (suc first) ev xs n.1 (omega arith))

  pub append-IsSuffix :
      {first head : ℕ} {events : List (Event P)} (ev : Event P)
      → IsSuffix first head events
      → ev.event_seq ≡ suc head
      → IsSuffix first (suc head) (events ++ ev ∷ [])
  append-IsSuffix {first} {head} {events} ev v e = record {
    numbered = append-Numbered first ev events v.numbered (omega (arith, v.up_to));
    up_to = omega (arith, length-append events (ev ∷ []), v.up_to);
  }
