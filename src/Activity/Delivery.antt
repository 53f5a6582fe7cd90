-- ===== src/Activity/Delivery.antt =====
-- What the outcome of a `Publish` means for the database, the watchers and later cursors.
pub mod Commit
use codex_remote.Prelude.{
  ℕ, suc, ◌+◌, ◌≤◌, ◌<◌, ◌≡◌, ◌≢◌, refl, sym, ap, ◌∙◌, ◌⊎◌, inl, inr, Bool, true, false, String,
  Option, none, some, List, [], ◌∷◌, ◌++◌, All, length, lookup, insert, lookup-insert_self,
  Bool-cases, if_cases, arith, str_eq, ltb,
}
use codex_remote.Errors.{Error, Result, ok, err, commit_outcome_unknown}
use codex_remote.Activity.{Event, CurrentView, Watcher, Stream, World}
use codex_remote.Activity.Interface.{Codec, EventPersistence, IsEventPersistence}
use codex_remote.Activity.Suffix.{IsSuffix, append-IsSuffix}
use codex_remote.Activity.Load.{
  ensure, ensure_with, load_durable, loaded, invalidated, settle, reload_unsafe, reloaded,
}
use codex_remote.Activity.Publish.{
  Auditor, audited, with_codex, push, deliver, retain, build_view, expose, finish, commit_to,
  publish,
}
use codex_remote.Activity.Watch.{
  Watch, WatchMode, reset, resumed, answer, watch_locked, register, watch, queue_or_default,
}
use codex_remote.Activity.Invariant.{IsOpen, IsStream}
use codex_remote.Activity.Invariant.World.{IsWorld, Ensures, ensure-Ensures}

-- No cursor can be resumed on the stream.
abbrev pub IsUnsafe : {V P : Type 0} → Stream V P → Type 0
IsUnsafe st = (st.replay_unsafe ≡ true) × (st.safe_replay_floor ≡ none)

module _ {V P : Type 0} (c : Codec V) where
  answer_of_IsUnsafe :
      (id : String) (st : Stream V P) (after : Option ℕ)
      → IsUnsafe st
      → ((answer c id st after).0.mode ≡ reset) × ((answer c id st after).1 ≡ [])
  unfolding answer
  answer_of_IsUnsafe id st none u = (refl, refl)
  answer_of_IsUnsafe id st (some after) u = ground arith

module _ {V P D : Type 0} (c : Codec V) where
  settle-IsUnsafe :
      (id : String) (st : Stream V P) (w : World V P D) (r : Result (ℕ × List ℕ) × D)
      → (st' : Stream V P) × (lookup id
            (settle id (invalidated st) w (loaded c (invalidated st) r.0, r.1)).1.codex
          ≡ some st')
        × IsUnsafe st'
        × (st'.events ≡ [])
        × (st'.watchers ≡ st.watchers)
  unfolding settle loaded invalidated
  settle-IsUnsafe id st w (err e, d) =
      (_, lookup-insert_self id _ w.codex, (refl, refl), refl, refl)
  settle-IsUnsafe id st w (ok (head, raw), d) =
      (_, lookup-insert_self id _ w.codex, (refl, refl), refl, refl)

  reloaded-IsUnsafe :
      (id : String) (st st' : Stream V P) (w : World V P D) (r : Result (ℕ × List ℕ) × D)
      → st.safe_replay_floor ≡ none
      → (reloaded id w (loaded c st r.0, r.1)).0 ≡ ok st'
      → IsUnsafe st'
  unfolding reloaded loaded
  reloaded-IsUnsafe id st st' w (err e, d) u h = cc
  reloaded-IsUnsafe id st st' w (ok (head, raw), d) u h = ground arith

module _ {V P D : Type 0} (c : Codec V) (p : EventPersistence D) where
  ensure-IsUnsafe :
      (id : String) (st st' : Stream V P) (w : World V P D)
      → lookup id w.codex ≡ some st
      → IsUnsafe st
      → (ensure c p id w).0 ≡ ok st'
      → IsUnsafe st'
  unfolding ensure load_durable
  ensure-IsUnsafe id st st' w here u h = elim (Bool-cases st.needs_reload) [
    | inl stale ↦
        reloaded-IsUnsafe c id st st' w (p.load_event_state id w.db) u.1 (ground (arith, here))
    | inr live ↦ ground (arith, here)
  ]

  register-IsReset :
      (id : String) (after : Option ℕ) (queue : ℕ) (r : Result (Stream V P) × World V P D)
      {h : Watch V P}
      → ((st : Stream V P) → r.0 ≡ ok st → IsUnsafe st)
      → (register c id after queue r).0 ≡ ok h
      → (h.response.mode ≡ reset) × (h.replay ≡ [])
  unfolding register watch_locked
  register-IsReset id after queue (err e, w) u e' = cc
  register-IsReset id after queue (ok st, w) u e' =
      ground (arith, answer_of_IsUnsafe c id st after (u st refl))

  -- While a stream is unsafe, a watch is a reset that replays nothing, whatever the cursor.
  pub watch_of_IsUnsafe :
      (id : String) (after : Option ℕ) (queue : ℕ) (st : Stream V P) (w : World V P D)
      {h : Watch V P}
      → lookup id w.codex ≡ some st
      → IsUnsafe st
      → (watch c p id after queue w).0 ≡ ok h
      → (h.response.mode ≡ reset) × (h.replay ≡ [])
  unfolding watch
  watch_of_IsUnsafe id after queue st w {h = h} here u e = elim (Bool-cases (str_eq id "")) [
    | inl blank ↦ ground arith
    | inr named ↦
        register-IsReset id after (queue_or_default queue) (ensure c p id w) {h = h}
          (λ st' h. ensure-IsUnsafe id st st' w here u h) (ground (arith, named))
  ]

  module _ (audit : Auditor P) where
    finish_failed :
        (event : Event P) (view : CurrentView V) (st : Stream V P) (w : World V P D)
        (r : Result ℕ × D) {e : Error}
        → (finish c p audit event view st w r).0 ≡ err e
        → (st' : Stream V P) × (lookup event.codex_id (finish c p audit event view st w r).1.codex
            ≡ some st')
          × IsUnsafe st'
          × (st'.events ≡ [])
          × (st'.watchers ≡ st.watchers)
    unfolding finish reload_unsafe load_durable
    finish_failed event view st w (err e', d) h =
        settle-IsUnsafe c event.codex_id st (record w { db = d })
          (p.load_event_state event.codex_id d)
    finish_failed event view st w (ok seq, d) h = cc

    module _ (event : Event P) (view : CurrentView V) (st : Stream V P) (w w1 w2 : World V P D)
        {e : Error} (named : str_eq event.codex_id "" ≡ false)
        (opened : ensure c p event.codex_id w ≡ (ok st, w1))
        (failed : publish c p audit (some event) (some view) w ≡ (err e, w2)) where
      -- When the commit of an event fails, the watchers of its Codex are as they were, and the
      -- replay suffix is gone.
      pub publish_failed :
          (st' : Stream V P) × (lookup event.codex_id w2.codex ≡ some st')
          × IsUnsafe st'
          × (st'.events ≡ [])
          × (st'.watchers ≡ st.watchers)
      unfolding publish commit_to
      publish_failed =
          let r = p.commit_event event.codex_id (build_view c view) w1.db in
          let at_end : finish c p audit event view st w1 r ≡ (err e, w2) = ground arith in
          let (st', here, u, none_left, same) =
            finish_failed event view st w1 r
              (ap (λ (q : Result (Event P) × World V P D). q.0) at_end) in
          let here' : lookup event.codex_id w2.codex ≡ some st' =
            sym
              (ap (λ (q : Result (Event P) × World V P D). lookup event.codex_id q.1.codex) at_end)
            ∙ here in
          (st', here', u, none_left, same)

      -- After a `Publish` of a named Codex whose stream could be read and whose commit failed in
      -- whatever way, the next `Watch` of this Codex that succeeds is a reset that replays nothing,
      -- whatever its cursor.
      pub publish_failed_resets :
          (after : Option ℕ) (queue : ℕ) (h : Watch V P)
          → (watch c p event.codex_id after queue w2).0 ≡ ok h
          → (h.response.mode ≡ reset) × (h.replay ≡ [])
      publish_failed_resets after queue h =
          let (st', here, u, none_left, same) = publish_failed in
          watch_of_IsUnsafe event.codex_id after queue st' w2 here u
