-- ===== src/Activity/Invariant/World.antt =====
-- The invariant of the Store over its map of streams, and how `ensure` and the reloads keep it.
pub mod Calls
use codex_remote.Prelude.{
  ℕ, suc, ◌≤◌, ◌≡◌, ◌≢◌, refl, sym, ap, subst, ◌∙◌, ◌⊎◌, inl, inr, Bool, true, false, String,
  Option, none, some, List, [], ◌∷◌, All, lookup, insert, remove, lookup-insert_self,
  lookup-insert_cases, lookup-remove_cases, Map, Bool-cases, if_cases, Option-cases, arith, str_eq,
  eq_iff,
}
use codex_remote.Errors.{Error, Result, ok, err}
use codex_remote.Activity.{CurrentView, Stream, World}
use codex_remote.Activity.Interface.{Codec, EventPersistence, IsEventPersistence}
use codex_remote.Activity.Load.{
  ensure, ensure_with, opened, reloaded, loaded, load_durable, new_stream, decode_view,
}
use codex_remote.Activity.Invariant.{
  IsOpen, IsStream, reload-IsStream, new_stream-IsStream, stale-IsStream, IsStream-eq,
}

module _ {V P D : Type 0} (durable : D → String → Option (ℕ × List ℕ)) where
  abbrev pub Streams : ℕ → Map (Stream V P) → D → Type 0
  Streams capacity codex d =
      (id : String) (st : Stream V P)
      → lookup id codex ≡ some st
      → IsStream capacity st (durable d id)

  -- Every stream of the Store agrees with the database.
  abbrev pub IsWorld : World V P D → Type 0
  IsWorld w = Streams w.capacity w.codex w.db

  pub insert-Streams :
      {capacity : ℕ} (codex : Map (Stream V P)) (d d' : D) (id : String) (st : Stream V P)
      → ((j : String) → j ≢ id → durable d' j ≡ durable d j)
      → IsStream capacity st (durable d' id)
      → Streams capacity codex d
      → Streams capacity (insert id st codex) d'
  insert-Streams {capacity} codex d d' id st frame new old j s found =
      elim (lookup-insert_cases id j st s codex found) [
        | inl (same, e) ↦ rw (same, ← e) new
        | inr (other, e) ↦ IsStream-eq (frame j other) (old j s e)
      ]

  pub remove-Streams :
      {capacity : ℕ} (codex : Map (Stream V P)) (d d' : D) (id : String)
      → ((j : String) → j ≢ id → durable d' j ≡ durable d j)
      → Streams capacity codex d
      → Streams capacity (remove id codex) d'
  remove-Streams {capacity} codex d d' id frame old j s found =
      let (other, e) = lookup-remove_cases id j s codex found in
      IsStream-eq (frame j other) (old j s e)

  pub same-Streams :
      {capacity : ℕ} (codex : Map (Stream V P)) (d d' : D)
      → ((j : String) → durable d' j ≡ durable d j)
      → Streams capacity codex d
      → Streams capacity codex d'
  same-Streams codex d d' frame old j s found = IsStream-eq (frame j) (old j s found)

  -- What `ensure` leaves: the stream that it returns is in the map, and agrees with the database.
  pub record Ensures (id : String) (w : World V P D) (r : Result (Stream V P) × World V P D)
      : Type 0 where
    pub streams : IsWorld r.1
    pub capacity : r.1.capacity ≡ w.capacity
    pub frame : (j : String) → durable r.1.db j ≡ durable w.db j
    pub fresh :
        (st : Stream V P)
        → r.0 ≡ ok st
        → (lookup id r.1.codex ≡ some st) × (st.needs_reload ≡ false)

  module _ (c : Codec V) (id : String) (w : World V P D) (inv : IsWorld w) where
    opened-Ensures :
        (r : Result (ℕ × List ℕ) × D)
        → ((j : String) → durable r.1 j ≡ durable w.db j)
        → ((head : ℕ) (raw : List ℕ) → r.0 ≡ ok (head, raw) → durable w.db id ≡ some (head, raw))
        → Ensures id w (opened c id w r)
    unfolding opened new_stream
    opened-Ensures (err e, d) frame found = record {
      streams = same-Streams w.codex w.db d frame inv;
      capacity = refl;
      frame = frame;
      fresh = λ st h. cc;
    }
    opened-Ensures (ok (head, raw), d) frame found = record {
      streams =
          insert-Streams w.codex w.db d id (new_stream c head raw) (λ j _. frame j)
            (new_stream-IsStream c head raw (frame id ∙ found head raw refl)) inv;
      capacity = refl;
      frame = frame;
      fresh = λ st h.
          (ground (arith, lookup-insert_self id (new_stream c head raw) w.codex), ground arith);
    }

    reloaded-Ensures :
        (st : Stream V P) (r : Result (ℕ × List ℕ) × D)
        → lookup id w.codex ≡ some st
        → st.needs_reload ≡ true
        → ((j : String) → durable r.1 j ≡ durable w.db j)
        → ((head : ℕ) (raw : List ℕ) → r.0 ≡ ok (head, raw) → durable w.db id ≡ some (head, raw))
        → Ensures id w (reloaded id w (loaded c st r.0, r.1))
    unfolding reloaded loaded
    reloaded-Ensures st (err e, d) here stale frame found = record {
      streams = same-Streams w.codex w.db d frame inv;
      capacity = refl;
      frame = frame;
      fresh = λ s h. cc;
    }
    reloaded-Ensures st (ok (head, raw), d) here stale frame found = record {
      streams =
          insert-Streams w.codex w.db d id st' (λ j _. frame j)
            (reload-IsStream st head raw (decode_view c raw) true (inv id st here).watchers_open
              ((inv id st here).dropped stale) (frame id ∙ found head raw refl))
            inv;
      capacity = refl;
      frame = frame;
      fresh = λ s h. (ground (arith, lookup-insert_self id st' w.codex), ground arith);
    }
      where
        st' : Stream V P
        st' = record st {
          head = head;
          view = decode_view c raw;
          needs_reload = false;
          replay_unsafe = true;
        }

  module _ (c : Codec V) (p : EventPersistence D) (laws : IsEventPersistence p durable) where
    ensure_with-Ensures :
        (id : String) (w : World V P D) (o : Option (Stream V P))
        → lookup id w.codex ≡ o
        → IsWorld w
        → Ensures id w (ensure_with c p id o w)
    unfolding ensure_with load_durable
    ensure_with-Ensures id w none here inv =
        opened-Ensures c id w inv (p.load_event_state id w.db) (laws.load_frame w.db id)
          (laws.load_ok w.db id)
    ensure_with-Ensures id w (some st) here inv =
        if_cases (Ensures id w) st.needs_reload
          (λ stale.
            reloaded-Ensures c id w inv st (p.load_event_state id w.db) here stale
              (laws.load_frame w.db id) (laws.load_ok w.db id))
          (λ live. record {
            streams = inv;
            capacity = refl;
            frame = λ j. refl;
            fresh = λ s h. (ground (arith, here), ground arith);
          })

    pub ensure-Ensures :
        (id : String) (w : World V P D) → IsWorld w → Ensures id w (ensure c p id w)
    unfolding ensure
    ensure-Ensures id w inv = ensure_with-Ensures id w (lookup id w.codex) refl inv
