-- ===== src/Gateway/History.antt =====
-- internal/gateway/dispatcher.go: a history of dispatched requests, each at its time. The store is
-- behind one SQLite connection, and the requests of a history are handled one after another.
use codex_remote.Prelude.{ℕ, ◌≤◌, String, ◌≡◌, Option, List, [], ◌∷◌, lookup, arith}
use codex_remote.Persistence.Dedup.Laws.{Grows-refl}
use codex_remote.Gateway.{Request, World, Dispatcher}
use codex_remote.Gateway.Dispatch.{dispatch}
use codex_remote.Gateway.Once.{
  executions, present, present_le, IsOnce, Advances, Advances-refl, Advances-trans, Advances-IsOnce,
  dispatch-Advances,
}

-- The world when the clock shows this time.
unfoldable pub at_time : {S : Type 0} → ℕ → World S → World S
at_time now w = record w { db = record w.db { now = now } }

module _ {B R S : Type 0} (d : Dispatcher B R S) where
  unfoldable pub run : List (ℕ × Option (Request B)) → World S → World S
  unfolding at_time
  run [] w = w
  run ((now, req) ∷ reqs) w = run reqs (dispatch d req (at_time now w)).1

  at_time-Advances : (now : ℕ) (w : World S) → Advances w (at_time now w)
  unfolding at_time
  at_time-Advances now w = record {
    grows = Grows-refl w.db.request_dedup;
    counted = λ id. omega arith;
  }

  pub run-Advances : (reqs : List (ℕ × Option (Request B))) (w : World S) → Advances w (run reqs w)
  unfolding run
  run-Advances [] w = Advances-refl w
  run-Advances ((now, req) ∷ reqs) w =
      let v = at_time now w in
      let u = (dispatch d req v).1 in
      Advances-trans w v (run reqs u) (at_time-Advances now w)
        (Advances-trans v u (run reqs u) (dispatch-Advances d req v) (run-Advances reqs u))

  -- In every history of requests that starts before any call of the backend, with whatever table
  -- of requests, the backend executes at most one request with side effects for each request id,
  -- and none for an id that the table does not hold, whatever the database answers.
  pub run_at_most_once :
      (reqs : List (ℕ × Option (Request B))) (w : World S) (id : String)
      → w.calls ≡ []
      → (executions id (run reqs w).calls ≤ 1)
        × (executions id (run reqs w).calls ≤ present (lookup id (run reqs w).db.request_dedup))
  unfolding IsOnce executions
  run_at_most_once reqs w id none_yet =
      let once : executions id (run reqs w).calls
          ≤ present (lookup id (run reqs w).db.request_dedup) =
        Advances-IsOnce w (run reqs w) (run-Advances reqs w) (λ j. ground (arith, none_yet)) id in
      (omega (arith, once, present_le (lookup id (run reqs w).db.request_dedup)), once)
