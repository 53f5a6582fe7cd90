-- ===== src/Activity/Interface.antt =====
-- The interface `Persistence` of internal/activity/store.go, with what the Store relies on, and
-- the protojson codec of the CurrentView.
use codex_remote.Prelude.{ℕ, suc, ◌≡◌, ◌≢◌, ◌⊎◌, String, Option, some, List}
use codex_remote.Errors.{Error, Result, ok, err, commit_outcome_unknown}
use codex_remote.Activity.{CurrentView}

-- `blank` is the message with no field set.
pub record Codec (V : Type 0) : Type 0 where
  pub marshal : CurrentView V → Option (List ℕ)
  pub unmarshal : List ℕ → Option (CurrentView V)
  pub blank : V

pub record EventPersistence (D : Type 0) : Type 0 where
  pub load_event_state : String → D → Result (ℕ × List ℕ) × D
  pub commit_event : String → (ℕ → Result (List ℕ)) → D → Result ℕ × D

-- `durable d id` is the event boundary and the view of a Codex that is stored in `d`.
pub record IsEventPersistence {D : Type 0} (p : EventPersistence D)
    (durable : D → String → Option (ℕ × List ℕ)) : Type 0 where
  pub load_frame : (d : D) (id j : String) → durable (p.load_event_state id d).1 j ≡ durable d j
  pub load_ok :
      (d : D) (id : String) (head : ℕ) (raw : List ℕ)
      → (p.load_event_state id d).0 ≡ ok (head, raw)
      → durable d id ≡ some (head, raw)
  pub commit_frame :
      (d : D) (id j : String) (build : ℕ → Result (List ℕ))
      → j ≢ id
      → durable (p.commit_event id build d).1 j ≡ durable d j
  pub commit_ok :
      (d : D) (id : String) (build : ℕ → Result (List ℕ)) (seq : ℕ)
      → (p.commit_event id build d).0 ≡ ok seq
      → (head : ℕ) × (old : List ℕ) × (raw : List ℕ) × (durable d id ≡ some (head, old))
        × (seq ≡ suc head)
        × (build seq ≡ ok raw)
        × (durable (p.commit_event id build d).1 id ≡ some (seq, raw))
  pub commit_err :
      (d : D) (id : String) (build : ℕ → Result (List ℕ)) (e : Error)
      → (p.commit_event id build d).0 ≡ err e
      → e ≢ commit_outcome_unknown
      → durable (p.commit_event id build d).1 id ≡ durable d id
  pub commit_unknown :
      (d : D) (id : String) (build : ℕ → Result (List ℕ))
      → (p.commit_event id build d).0 ≡ err commit_outcome_unknown
      → (durable (p.commit_event id build d).1 id ≡ durable d id)
        ⊎ ((head : ℕ) × (old : List ℕ) × (raw : List ℕ) × (durable d id ≡ some (head, old))
            × (build (suc head) ≡ ok raw)
            × (durable (p.commit_event id build d).1 id ≡ some (suc head, raw)))
