-- ===== src/Tests/Adapter.antt =====
-- The client of the app-server at concrete values: two calls that register in the other order and are
-- answered, a response that comes twice, and one that comes while the client closes.
use codex_remote.Prelude.{ℕ, false, ◌≡◌, inl, refl, none, some, List, [], ◌∷◌, arith}
use codex_remote.Adapter.{
  Client, response, notification, Move, allocates, registers, writes, reads, closes, resets, run,
}
use codex_remote.Adapter.Calls.{delivered_ids, IsClient, run-IsClient}

abbrev client : Client ℕ
client = record {
  next_id = 0;
  allocated = [];
  pending = [];
  delivered = [];
  incoming = [];
  done = false;
  resetting = false;
}

client-IsClient : IsClient client
unfolding delivered_ids
client-IsClient = record {
  pending_ids = tt;
  delivered_once = tt;
  apart = tt;
  allocated_ids = tt;
  apart_pending = tt;
  apart_delivered = tt;
  closed = inl refl;
}

abbrev moves : List (Move ℕ)
moves =
    allocates
    ∷ allocates
    ∷ registers 2
    ∷ writes none
    ∷ registers 1
    ∷ reads (response (some 2) 22)
    ∷ reads (notification 5)
    ∷ reads (response (some 2) 23)
    ∷ writes (some 5)
    ∷ reads (response (some 1) 11)
    ∷ closes
    ∷ allocates
    ∷ registers 3
    ∷ resets
    ∷ []

run-IsClient_example : IsClient (run moves client)
run-IsClient_example = run-IsClient moves client (omega arith) client-IsClient

answered : (run moves client).delivered ≡ (1, 11) ∷ (2, 22) ∷ []
unfolding run
answered = refl
