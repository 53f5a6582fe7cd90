-- ===== src/Gateway/Server/Ledger.antt =====
-- internal/activity/store.go as a connection uses it: the watches that its pointers are, known by
-- numbers that are never given again, over the streams of the Activity store.
use codex_remote.Prelude.{
  ℕ, suc, ◌≤◌, String, true, ◌≡◌, ◌≢◌, refl, Option, none, some, List, [], ◌∷◌, arith, ◌==◌,
  if◌then◌else◌,
}
use codex_remote.Errors.{Result, ok, err}
use codex_remote.Activity.{World}
use codex_remote.Activity.Interface.{Codec, EventPersistence}
use codex_remote.Activity.Watch.{Watch, watch, force_reset, cancel, host_restarted}
use codex_remote.Gateway.Server.{Events}
use codex_remote.Gateway.Server.Store.{IsSpent}

-- How many watches were given out, and those on streams that are still there, with their numbers in
-- their streams.
pub record Ledger (V P D : Type 0) : Type 0 where
  pub last : ℕ
  pub given : List (ℕ × ℕ)
  pub world : World V P D

unfoldable pub stream_number : ℕ → List (ℕ × ℕ) → Option ℕ
stream_number w [] = none
stream_number w ((number, wid) ∷ rest) = if number == w then some wid else stream_number w rest

module _ {V P D : Type 0} (c : Codec V) (p : EventPersistence D) where
  unfoldable pub entered :
      Result (Watch V P) × World V P D → Ledger V P D → Result (Watch V P) × Ledger V P D
  entered (err e, w) l = (err e, record l { world = w })
  entered (ok new, w) l = (
    ok (record new { watcher = suc l.last }),
    record l { last = suc l.last; given = (suc l.last, new.watcher) ∷ l.given; world = w },
  )

  unfoldable pub cancelled_in : String → Option ℕ → Ledger V P D → Ledger V P D
  cancelled_in id none l = l
  cancelled_in id (some wid) l = record l { world = cancel id true wid l.world }

  unfoldable pub activity_events : Events (Ledger V P D) V P
  unfolding entered cancelled_in stream_number
  activity_events = record {
    watch = λ id after queue l. entered (watch c p id after queue l.world) l;
    force_reset = λ id queue l. entered (force_reset c p id host_restarted queue l.world) l;
    cancel = λ id w l. cancelled_in id (stream_number w l.given) l;
  }

  entered-last :
      (r : Result (Watch V P) × World V P D) (l : Ledger V P D) → l.last ≤ (entered r l).1.last
  unfolding entered
  entered-last (err e, w) l = omega arith
  entered-last (ok new, w) l = omega arith

  entered-new :
      (r : Result (Watch V P) × World V P D) (l l' : Ledger V P D) (new : Watch V P)
      → entered r l ≡ (ok new, l')
      → new.watcher ≡ suc l.last
  unfolding entered
  entered-new (err e, w) l l' new h = cc
  entered-new (ok watch, w) l l' new h = ground arith

  cancelled_in-last :
      (id : String) (o : Option ℕ) (l : Ledger V P D) → (cancelled_in id o l).last ≡ l.last
  unfolding cancelled_in
  cancelled_in-last id none l = refl
  cancelled_in-last id (some wid) l = refl

  later :
      (w : ℕ) (l : Ledger V P D)
      → w ≤ l.last
      → (new : Watch V P) → new.watcher ≡ suc l.last
      → new.watcher ≢ w
  later w l h new e k = omega (arith, h, e, k)

  -- A watch that was given out is never given again.
  pub activity_events-IsSpent : (w : ℕ) → IsSpent activity_events w (λ l. w ≤ l.last)
  unfolding activity_events
  activity_events-IsSpent w = record {
    watch_kept =
        λ id after queue l h. omega (arith, h, entered-last (watch c p id after queue l.world) l);
    watch_other = λ id after queue l l' new h e.
        later w l h new (entered-new (watch c p id after queue l.world) l l' new e);
    reset_kept = λ id queue l h.
        omega (arith, h, entered-last (force_reset c p id host_restarted queue l.world) l);
    reset_other = λ id queue l l' new h e.
        later w l h new (entered-new (force_reset c p id host_restarted queue l.world) l l' new e);
    cancel_kept =
        λ id old l h. omega (arith, h, cancelled_in-last id (stream_number old l.given) l);
  }
