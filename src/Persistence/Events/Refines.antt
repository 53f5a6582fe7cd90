-- ===== src/Persistence/Events/Refines.antt =====
-- The transactions of internal/persistence/store.go implement the interface of
-- internal/activity/store.go.
use codex_remote.Prelude.{ℕ, suc, ◌≡◌, ◌≢◌, ◌⊎◌, inl, inr, String, some, List, arith, eq_iff}
use codex_remote.Errors.{Error, Result, ok, err, commit_outcome_unknown}
use codex_remote.Persistence.{Db, later_faults}
use codex_remote.Persistence.Events.{load_event_state, commit_event}
use codex_remote.Persistence.Events.Laws.{
  durable, load_ok, durable-faults, Commits, commit_event-Commits,
}
use codex_remote.Activity.Interface.{EventPersistence, IsEventPersistence}

abbrev pub store : EventPersistence Db
store = record { load_event_state = load_event_state; commit_event = commit_event }

module _ (db : Db) (id : String) (build : ℕ → Result (List ℕ)) (r : Result ℕ × Db) where
  commit_frame : (j : String) → Commits db id build r → j ≢ id → durable r.1 j ≡ durable db j
  commit_frame j (Commits.kept e a same) other = same j
  commit_frame j (Commits.moved head old raw before built a at) other =
      ground (arith, at j, eq_iff id j)

  commit_ok :
      (seq : ℕ)
      → Commits db id build r
      → r.0 ≡ ok seq
      → (head : ℕ) × (old : List ℕ) × (raw : List ℕ) × (durable db id ≡ some (head, old))
        × (seq ≡ suc head)
        × (build seq ≡ ok raw)
        × (durable r.1 id ≡ some (seq, raw))
  commit_ok seq (Commits.kept e a same) h = cc
  commit_ok seq (Commits.moved head old raw before built (inl a) at) h =
      let next : seq ≡ suc head = ground arith in
      (head, old, raw, before, next, rw next built, rw next (ground (arith, at id, eq_iff id id)))
  commit_ok seq (Commits.moved head old raw before built (inr a) at) h = cc

  commit_err :
      (e : Error)
      → Commits db id build r
      → r.0 ≡ err e
      → e ≢ commit_outcome_unknown
      → durable r.1 id ≡ durable db id
  commit_err e (Commits.kept e' a same) h known = same id
  commit_err e (Commits.moved head old raw before built (inl a) at) h known = cc
  commit_err e (Commits.moved head old raw before built (inr a) at) h known =
      absurd (known (ground arith))

  commit_unknown :
      Commits db id build r
      → r.0 ≡ err commit_outcome_unknown
      → (durable r.1 id ≡ durable db id)
        ⊎ ((head : ℕ) × (old : List ℕ) × (raw : List ℕ) × (durable db id ≡ some (head, old))
            × (build (suc head) ≡ ok raw)
            × (durable r.1 id ≡ some (suc head, raw)))
  commit_unknown (Commits.kept e a same) h = inl (same id)
  commit_unknown (Commits.moved head old raw before built a at) h =
      inr (head, old, raw, before, built, ground (arith, at id, eq_iff id id))

-- `LoadEventState` and `CommitEvent` meet the interface that the activity Store relies on.
pub store-IsEventPersistence : IsEventPersistence store durable
unfolding load_event_state
store-IsEventPersistence = record {
  load_frame = λ db id j. durable-faults db (later_faults db.faults) j;
  load_ok = load_ok;
  commit_frame = λ db id j build other.
      commit_frame db id build (commit_event id build db) j (commit_event-Commits db id build)
        other;
  commit_ok = λ db id build seq.
      commit_ok db id build (commit_event id build db) seq (commit_event-Commits db id build);
  commit_err = λ db id build e.
      commit_err db id build (commit_event id build db) e (commit_event-Commits db id build);
  commit_unknown = λ db id build.
      commit_unknown db id build (commit_event id build db) (commit_event-Commits db id build);
}
