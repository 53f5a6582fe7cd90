-- ===== src/Activity/History.antt =====
-- Histories of the Store: every call holds the mutex, so a run of the Host is a sequence of calls.
use codex_remote.Prelude.{
  Bool, ℕ, suc, ◌-◌, ◌≤◌, ◌≡◌, refl, inl, inr, true, String, Option, none, some, List, [], ◌∷◌,
  ◌++◌, All, length, insert, Bool-cases, arith, str_eq, eq_iff, drop, drop-nil, map, ltb,
}
use codex_remote.Errors.{Error, Result, ok, err, invalid_argument}
use codex_remote.Activity.{Event, CurrentView, Watcher, Stream, World}
use codex_remote.Activity.Interface.{Codec, EventPersistence, IsEventPersistence}
use codex_remote.Activity.Load.{ensure, reload_durable}
use codex_remote.Activity.Publish.{Auditor, audited, with_codex, publish}
use codex_remote.Activity.Watch.{ResetReason, watch, force_reset, current_view, cancel}
use codex_remote.Activity.Forget.{
  force, terminate, terminal_event, destroyed, forget_stream, forget,
}
use codex_remote.Activity.Invariant.{IsOpen}
use codex_remote.Activity.Invariant.World.{
  IsWorld, Ensures, ensure-Ensures, remove-Streams, same-Streams,
}
use codex_remote.Activity.Invariant.World.Calls.{Only, unwatched-IsWorld}

-- What `Forget` relies on in its callback: it touches one Codex, and nothing if it fails.
pub record IsDestroy {D : Type 0} (durable : D → String → Option (ℕ × List ℕ))
    (destroy : String → D → Result (Unit {0}) × D) : Type 0 where
  pub frame : (id : String) (d : D) → Only durable id d (destroy id d).1
  pub atomic :
      (id : String) (d : D) (e : Error)
      → (destroy id d).0 ≡ err e
      → durable (destroy id d).1 id ≡ durable d id

module _ {P : Type 0} where
  -- The loop discards only what is needed to fit the event in.
  pub force_lem :
      (queue : ℕ) (event : Event P) (events : List (Event P))
      → 1 ≤ queue
      → force queue event events ≡ some (drop (suc (length events) - queue) events ++ event ∷ [])
  unfolding force
  force_lem queue event [] q = rw drop-nil (ground arith)
  force_lem queue event (old ∷ events) q = elim (Bool-cases (ltb (length (old ∷ events)) queue)) [
    | inl room ↦ let k : suc (length (old ∷ events)) - queue ≡ 0 = ground arith in rw (room, k)
    | inr full ↦
        let k : suc (length (old ∷ events)) - queue ≡ suc (suc (length events) - queue) =
          ground arith in
        rw (full, k) (force_lem queue event events q)
  ]

  -- How `Forget` leaves a watcher.
  abbrev pub closed_with : Event P → Watcher P → Watcher P
  closed_with event w = record w {
    events = drop (suc (length w.events) - w.queue) w.events ++ event ∷ [];
    events_closed = true;
  }

  -- The loop over the watchers ends.
  pub terminate_lem :
      (n : ℕ) (event : Event P) (ws : List (Watcher P))
      → All (IsOpen n) ws
      → terminate event ws ≡ some (map (closed_with event) ws)
  unfolding terminate
  terminate_lem n event [] h = refl
  terminate_lem n event (w ∷ ws) h =
      rw (force_lem w.queue event w.events h.0.buffered, terminate_lem n event ws h.1)

module _ {V P D : Type 0} (c : Codec V) (p : EventPersistence D)
    (durable : D → String → Option (ℕ × List ℕ)) (laws : IsEventPersistence p durable)
    (audit : Auditor P) where
  destroyed-IsWorld :
      (id : String) (event : Event P) (w : World V P D) (r : Result (Unit {0}) × D)
      → Only durable id w.db r.1
      → ((e : Error) → r.0 ≡ err e → durable r.1 id ≡ durable w.db id)
      → IsWorld durable w
      → IsWorld durable (destroyed id event w r).1
  unfolding destroyed
  destroyed-IsWorld id event w (err e, d) only same inv =
      same-Streams durable w.codex w.db d
        (λ j. elim (Bool-cases (str_eq j id)) [
          | inl here ↦ let at : j ≡ id = (eq_iff j id).0 here in rw at (same e refl)
          | inr other ↦ only j (λ at. ground (arith, eq_iff j id))
        ])
        inv
  destroyed-IsWorld id event w (ok _, d) only same inv =
      remove-Streams durable w.codex w.db d id only inv

  -- `Forget` returns, and keeps the Store in agreement with the database.
  pub forget-IsWorld :
      (destroy : String → D → Result (Unit {0}) × D) (id request_id : String) (now : ℕ)
      (w : World V P D)
      → IsDestroy durable destroy
      → IsWorld durable w
      → (r : Result (Event P) × World V P D) × (forget c p audit (some destroy) id request_id now w
          ≡ some r)
        × IsWorld durable r.1
  unfolding forget
  forget-IsWorld destroy id request_id now w lawful inv = elim (Bool-cases (str_eq id "")) [
    | inl blank ↦ ((err invalid_argument, w), rw blank, inv)
    | inr named ↦ rw named (go (ensure c p id w) (ensure-Ensures durable c p laws id w inv))
  ]
    where
      go :
          (r : Result (Stream V P) × World V P D)
          → Ensures durable id w r
          → (s : Result (Event P) × World V P D) × (forget_stream audit destroy id request_id now r
              ≡ some s)
            × IsWorld durable s.1
      go (err e, w') s = ((err e, w'), refl, s.streams)
      go (ok st, w') s =
          let (here, live) = s.fresh st refl in
          let i = s.streams id st here in
          let event = terminal_event id request_id now st in
          let ended : World V P D = record w' {
            audit_err = audited audit event w'.audit_err;
            codex = insert id (record st { watchers = [] }) w'.codex;
            departed = with_codex id (map (closed_with event) st.watchers) ++ w'.departed;
          } in
          rw (terminate_lem st.next_watcher event st.watchers i.watchers_open) (
            destroyed id event ended (destroy id ended.db),
            refl,
            destroyed-IsWorld id event ended (destroy id ended.db) (lawful.frame id ended.db)
                (lawful.atomic id ended.db)
                (unwatched-IsWorld c p durable laws id st [] w' here tt s.streams),
          )

-- A call of the Store, with the arguments that its client chose.
pub data Call (V P D : Type 0) : Type 0 where
  publishes : Option (Event P) → Option (CurrentView V) → Call V P D
  watches : String → Option ℕ → ℕ → Call V P D
  forces_reset : String → ResetReason → ℕ → Call V P D
  reads_view : String → Call V P D
  cancels : String → Bool → ℕ → Call V P D
  reloads : String → Call V P D
  forgets : String → String → ℕ → Call V P D

module _ {V P D : Type 0} (c : Codec V) (p : EventPersistence D) (audit : Auditor P)
    (destroy : String → D → Result (Unit {0}) × D) where
  forgotten : Option (Result (Event P) × World V P D) → Option (World V P D)
  forgotten none = none
  forgotten (some (r, w)) = some w

  -- `none` is a call that never returns.
  unfoldable pub step : World V P D → Call V P D → Option (World V P D)
  unfolding forgotten
  step w (publishes event view) = some (publish c p audit event view w).1
  step w (watches id after queue) = some (watch c p id after queue w).1
  step w (forces_reset id reason queue) = some (force_reset c p id reason queue w).1
  step w (reads_view id) = some (current_view c p id w).1
  step w (cancels id current wid) = some (cancel id current wid w)
  step w (reloads id) = some (reload_durable c p id w).1
  step w (forgets id request_id now) =
      forgotten (forget c p audit (some destroy) id request_id now w)

  abbrev and_then :
      Option (World V P D) → (World V P D → Option (World V P D)) → Option (World V P D)
  and_then none f = none
  and_then (some w) f = f w

  unfoldable pub run : World V P D → List (Call V P D) → Option (World V P D)
  run w [] = some w
  run w (call ∷ calls) = and_then (step w call) (λ w'. run w' calls)
