-- ===== src/Adapter.antt =====
-- internal/adapter/client.go: the JSON-RPC client of the app-server. A call is known by the number in
-- its id "remote-N"; the channel of a call, of capacity 1, is the messages delivered to its id.
pub mod Calls
use codex_remote.Prelude.{
  ℕ, ◌+◌, ◌%◌, ◌^◌, Bool, true, false, not, Option, none, some, List, [], ◌∷◌, ◌++◌, length,
  if◌then◌else◌, ltb, ◌==◌,
}

pub record Client (M : Type 0) : Type 0 where
  pub next_id : ℕ
  -- the calls that have their id and do not hold the lock yet
  pub allocated : List ℕ
  pub pending : List ℕ
  pub delivered : List (ℕ × M)
  pub incoming : List M
  -- `done` is closed, and `closeWithError` has `pending` still to reset
  pub done : Bool
  pub resetting : Bool

pub data CallError : Type 0 where
  disconnected context_over : CallError
  encoding write_error : ℕ → CallError

unfoldable pub waits_for : ℕ → List ℕ → Bool
waits_for id [] = false
waits_for id (x ∷ xs) = if x == id then true else waits_for id xs

unfoldable pub drop_id : ℕ → List ℕ → List ℕ
drop_id id [] = []
drop_id id (x ∷ xs) = let rest = drop_id id xs in if x == id then rest else x ∷ rest

-- A text message: one with an id and no method, whose id is of this client or not, or another.
pub data Inbound (M : Type 0) : Type 0 where
  ignored : Inbound M
  response : Option ℕ → M → Inbound M
  notification : M → Inbound M

module _ {M : Type 0} where
  unfoldable pub remove_pending : ℕ → Client M → Client M
  unfolding drop_id
  remove_pending id c = record c { pending = drop_id id c.pending }

  -- `closeWithError` closes `done`, once, and resets `pending` when it has the lock.
  unfoldable pub close_with_error : Client M → Client M
  close_with_error c = if c.done then c else record c { done = true; resetting = true }

  unfoldable pub reset_pending : Client M → Client M
  reset_pending c = if c.resetting then record c { pending = []; resetting = false } else c

  -- `write` up to its look at `done`: the error of json.Marshal, or the one of a client that is done
  unfoldable pub start_write : Option ℕ → Client M → Option CallError
  start_write (some e) c = some (encoding e)
  start_write none c = if c.done then some disconnected else none

  -- The answer of the connection to a `write`
  unfoldable pub finish_write : Option ℕ → Client M → Option CallError × Client M
  unfolding close_with_error
  finish_write (some e) c = (some (write_error e), close_with_error c)
  finish_write none c = (none, c)

  -- The id of a `Call`
  unfoldable pub allocate_id : Client M → Client M
  allocate_id c =
      let id = (c.next_id + 1) % 2 ^ 64 in record c { next_id = id; allocated = id ∷ c.allocated }

  -- A `Call` that has its id, under the lock: whether it goes on
  unfoldable pub register_call : ℕ → Client M → Bool × Client M
  unfolding waits_for drop_id
  register_call id c =
      let c' = record c { allocated = drop_id id c.allocated } in
      if waits_for id c.allocated
      then (if c.done then (false, c') else (true, record c' { pending = id ∷ c.pending }))
      else (false, c)

  -- The end of a `Call` that was not answered: its write failed, its context is over, or `done` closed
  unfoldable pub end_call : ℕ → Client M → Client M
  unfolding remove_pending
  end_call id c = remove_pending id c

  unfoldable pub take_response : Option ℕ → M → Client M → Client M
  unfolding waits_for remove_pending
  take_response none m c = c
  take_response (some id) m c =
      if waits_for id c.pending
      then record (remove_pending id c) { delivered = (id, m) ∷ c.delivered }
      else c

  -- One message of `readLoop`; a full `incoming` makes it wait, without a change.
  unfoldable pub read_message : Inbound M → Client M → Client M
  unfolding take_response
  read_message ignored c = c
  read_message (response key m) c = take_response key m c
  read_message (notification m) c =
      if ltb (length c.incoming) 128 then record c { incoming = c.incoming ++ m ∷ [] } else c

-- What the goroutines of a client do. A write that starts changes nothing; the calls whose write
-- failed are ended by `ends`.
pub data Move (M : Type 0) : Type 0 where
  allocates : Move M
  registers : ℕ → Move M
  writes : Option ℕ → Move M
  ends : ℕ → Move M
  reads : Inbound M → Move M
  closes : Move M
  resets : Move M

module _ {M : Type 0} where
  unfoldable pub step : Move M → Client M → Client M
  unfolding allocate_id register_call end_call read_message finish_write close_with_error
      reset_pending
  step allocates c = allocate_id c
  step (registers id) c = (register_call id c).1
  step (writes answer) c = (finish_write answer c).1
  step (ends id) c = end_call id c
  step (reads m) c = read_message m c
  step closes c = close_with_error c
  step resets c = reset_pending c

  unfoldable pub run : List (Move M) → Client M → Client M
  unfolding step
  run [] c = c
  run (m ∷ ms) c = run ms (step m c)
