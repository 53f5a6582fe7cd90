-- ===== src/Adapter/Calls.antt =====
-- internal/adapter/client.go: at most one response is delivered to the id of a call.
use codex_remote.Prelude.{
  ℕ, ◌+◌, ◌%◌, ◌^◌, ◌≤◌, ◌<◌, Bool, true, false, ◌≡◌, ◌⊎◌, inl, inr, refl, subst, Option, none,
  some, List, [], ◌∷◌, length, if_cases, arith, ltb, ◌==◌,
}
use codex_remote.Adapter.{
  Client, waits_for, drop_id, remove_pending, close_with_error, reset_pending, finish_write,
  allocate_id, register_call, end_call, Inbound, ignored, response, notification, take_response,
  read_message, Move, allocates, registers, writes, ends, reads, closes, resets, step, run,
}

-- All ids are at most `n` and pairwise different, and none of them was delivered to.
abbrev pub Ids : ℕ → List ℕ → Type 0
Ids n [] = Unit
Ids n (x ∷ xs) = (x ≤ n) × (waits_for x xs ≡ false) × Ids n xs

unfoldable pub delivered_ids : {M : Type 0} → List (ℕ × M) → List ℕ
delivered_ids [] = []
delivered_ids ((id, m) ∷ rest) = id ∷ delivered_ids rest

abbrev Apart : List ℕ → List ℕ → Type 0
Apart [] ys = Unit
Apart (x ∷ xs) ys = (waits_for x ys ≡ false) × Apart xs ys

pub record IsClient {M : Type 0} (c : Client M) : Type 0 where
  -- no two calls that wait have the same id
  pub pending_ids : Ids c.next_id c.pending
  -- at most one message was delivered to an id, so that a channel never blocks the reader
  pub delivered_once : Ids c.next_id (delivered_ids c.delivered)
  -- a call that waits was delivered nothing
  pub apart : Apart c.pending (delivered_ids c.delivered)
  -- the calls that are about to wait have ids of their own
  pub allocated_ids : Ids c.next_id c.allocated
  pub apart_pending : Apart c.allocated c.pending
  pub apart_delivered : Apart c.allocated (delivered_ids c.delivered)
  -- a call waits on a client that is done only until `closeWithError` resets the calls
  pub closed : (c.done ≡ false) ⊎ (c.resetting ≡ true) ⊎ (c.pending ≡ [])

Ids-mono : (n k : ℕ) (xs : List ℕ) → n ≤ k → Ids n xs → Ids k xs
Ids-mono n k [] le h = tt
Ids-mono n k (x ∷ xs) le h = (omega (arith, le, h.0), h.1, Ids-mono n k xs le h.2)

fresh_id : (n : ℕ) (xs : List ℕ) → Ids n xs → waits_for (n + 1) xs ≡ false
unfolding waits_for
fresh_id n [] h = refl
fresh_id n (x ∷ xs) h = ground (arith, h.0, fresh_id n xs h.2)

waits_for-drop_id :
    (x id : ℕ) (xs : List ℕ) → waits_for x xs ≡ false → waits_for x (drop_id id xs) ≡ false
unfolding waits_for drop_id
waits_for-drop_id x id [] h = refl
waits_for-drop_id x id (y ∷ ys) h = ground (arith, h, waits_for-drop_id x id ys)

drop_id-Ids : (n id : ℕ) (xs : List ℕ) → Ids n xs → Ids n (drop_id id xs)
unfolding drop_id
drop_id-Ids n id [] h = tt
drop_id-Ids n id (x ∷ xs) h =
    if_cases (Ids n) (x == id) (λ same. drop_id-Ids n id xs h.2)
      (λ other. (h.0, waits_for-drop_id x id xs h.1, drop_id-Ids n id xs h.2))

drop_id-Apart : (id : ℕ) (xs ys : List ℕ) → Apart xs ys → Apart (drop_id id xs) ys
unfolding drop_id
drop_id-Apart id [] ys h = tt
drop_id-Apart id (x ∷ xs) ys h =
    if_cases (λ zs. Apart zs ys) (x == id) (λ same. drop_id-Apart id xs ys h.1)
      (λ other. (h.0, drop_id-Apart id xs ys h.1))

-- The id of a delivered call waits no more, so the others are apart from it too.
drop_id-Apart_more : (id : ℕ) (xs ys : List ℕ) → Apart xs ys → Apart (drop_id id xs) (id ∷ ys)
unfolding drop_id waits_for
drop_id-Apart_more id [] ys h = tt
drop_id-Apart_more id (x ∷ xs) ys h =
    if_cases (λ zs. Apart zs (id ∷ ys)) (x == id) (λ same. drop_id-Apart_more id xs ys h.1)
      (λ other. (ground (arith, other, h.0), drop_id-Apart_more id xs ys h.1))

bound_of : (n id : ℕ) (xs : List ℕ) → Ids n xs → waits_for id xs ≡ true → id ≤ n
unfolding waits_for
bound_of n id [] h e = ground (arith, e)
bound_of n id (x ∷ xs) h e = ground (arith, h.0, e, bound_of n id xs h.2)

not_delivered :
    (id : ℕ) (xs ys : List ℕ) → Apart xs ys → waits_for id xs ≡ true → waits_for id ys ≡ false
unfolding waits_for
not_delivered id [] ys h e = ground (arith, e)
not_delivered id (x ∷ xs) ys h e = ground (arith, h.0, e, not_delivered id xs ys h.1)

drop_id-none : (id : ℕ) (xs : List ℕ) → xs ≡ [] → drop_id id xs ≡ []
unfolding drop_id
drop_id-none id [] h = refl
drop_id-none id (x ∷ xs) h = ground (arith, h)

Apart-none : (xs : List ℕ) → Apart xs []
unfolding waits_for
Apart-none [] = tt
Apart-none (x ∷ xs) = (refl, Apart-none xs)

-- Fewer ids on the right.
Apart-drop_id : (id : ℕ) (xs ys : List ℕ) → Apart xs ys → Apart xs (drop_id id ys)
Apart-drop_id id [] ys h = tt
Apart-drop_id id (x ∷ xs) ys h = (waits_for-drop_id x id ys h.0, Apart-drop_id id xs ys h.1)

other_id :
    (x id : ℕ) (ys zs : List ℕ)
    → waits_for x ys ≡ false
    → waits_for id ys ≡ true
    → waits_for x zs ≡ false
    → waits_for x (id ∷ zs) ≡ false
unfolding waits_for
other_id x id [] zs h e k = ground (arith, e)
other_id x id (y ∷ ys) zs h e k = ground (arith, h, e, k, other_id x id ys zs)

-- An id that waits on the right is not on the left.
Apart-more :
    (id : ℕ) (xs ys zs : List ℕ)
    → Apart xs ys
    → waits_for id ys ≡ true
    → Apart xs zs
    → Apart xs (id ∷ zs)
Apart-more id [] ys zs h e k = tt
Apart-more id (x ∷ xs) ys zs h e k =
    (other_id x id ys zs h.0 e k.0, Apart-more id xs ys zs h.1 e k.1)

module _ {M : Type 0} where
  remove_pending-IsClient : (id : ℕ) (c : Client M) → IsClient c → IsClient (remove_pending id c)
  unfolding remove_pending
  remove_pending-IsClient id c v = record {
    pending_ids = drop_id-Ids c.next_id id c.pending v.pending_ids;
    delivered_once = v.delivered_once;
    apart = drop_id-Apart id c.pending (delivered_ids c.delivered) v.apart;
    allocated_ids = v.allocated_ids;
    apart_pending = Apart-drop_id id c.allocated c.pending v.apart_pending;
    apart_delivered = v.apart_delivered;
    closed = elim v.closed [
      | inl live ↦ inl live
      | inr (inl soon) ↦ inr (inl soon)
      | inr (inr none_left) ↦ inr (inr (drop_id-none id c.pending none_left))
    ];
  }

  close_with_error-IsClient : (c : Client M) → IsClient c → IsClient (close_with_error c)
  unfolding close_with_error
  close_with_error-IsClient c v =
      if_cases IsClient c.done (λ over. v)
        (λ live. record {
          pending_ids = v.pending_ids;
          delivered_once = v.delivered_once;
          apart = v.apart;
          allocated_ids = v.allocated_ids;
          apart_pending = v.apart_pending;
          apart_delivered = v.apart_delivered;
          closed = inr (inl refl);
        })

  reset_pending-IsClient : (c : Client M) → IsClient c → IsClient (reset_pending c)
  unfolding reset_pending
  reset_pending-IsClient c v =
      if_cases IsClient c.resetting
        (λ soon. record {
          pending_ids = tt;
          delivered_once = v.delivered_once;
          apart = tt;
          allocated_ids = v.allocated_ids;
          apart_pending = Apart-none c.allocated;
          apart_delivered = v.apart_delivered;
          closed = inr (inr refl);
        })
        (λ before. v)

  finish_write-IsClient :
      (answer : Option ℕ) (c : Client M) → IsClient c → IsClient (finish_write answer c).1
  unfolding finish_write
  finish_write-IsClient (some e) c v = close_with_error-IsClient c v
  finish_write-IsClient none c v = v

  allocate_id-IsClient :
      (c : Client M) → c.next_id + 1 < 2 ^ 64 → IsClient c → IsClient (allocate_id c)
  unfolding allocate_id
  allocate_id-IsClient c room v =
      let id = (c.next_id + 1) % 2 ^ 64 in
      let ids = delivered_ids c.delivered in
      let next : c.next_id + 1 ≡ id = omega (arith, room) in
      let le : c.next_id ≤ id = omega (arith, next) in
      let fresh : (xs : List ℕ) → Ids c.next_id xs → waits_for id xs ≡ false =
        λ xs h. subst (λ k. waits_for k xs ≡ false) next (fresh_id c.next_id xs h) in
      record {
        pending_ids = Ids-mono c.next_id id c.pending le v.pending_ids;
        delivered_once = Ids-mono c.next_id id ids le v.delivered_once;
        apart = v.apart;
        allocated_ids = (
          omega arith,
          fresh c.allocated v.allocated_ids,
          Ids-mono c.next_id id c.allocated le v.allocated_ids,
        );
        apart_pending = (fresh c.pending v.pending_ids, v.apart_pending);
        apart_delivered = (fresh ids v.delivered_once, v.apart_delivered);
        closed = v.closed;
      }

  register_call-IsClient : (id : ℕ) (c : Client M) → IsClient c → IsClient (register_call id c).1
  unfolding register_call
  register_call-IsClient id c v =
      let ids = delivered_ids c.delivered in
      let fewer = drop_id-Ids c.next_id id c.allocated v.allocated_ids in
      let apart' = drop_id-Apart id c.allocated ids v.apart_delivered in
      if_cases (λ (r : Bool × Client M). IsClient r.1) (waits_for id c.allocated)
        (λ had.
          if_cases (λ (r : Bool × Client M). IsClient r.1) c.done
            (λ over. record {
              pending_ids = v.pending_ids;
              delivered_once = v.delivered_once;
              apart = v.apart;
              allocated_ids = fewer;
              apart_pending = drop_id-Apart id c.allocated c.pending v.apart_pending;
              apart_delivered = apart';
              closed = v.closed;
            })
            (λ live. record {
              pending_ids = (
                bound_of c.next_id id c.allocated v.allocated_ids had,
                not_delivered id c.allocated c.pending v.apart_pending had,
                v.pending_ids,
              );
              delivered_once = v.delivered_once;
              apart = (not_delivered id c.allocated ids v.apart_delivered had, v.apart);
              allocated_ids = fewer;
              apart_pending = drop_id-Apart_more id c.allocated c.pending v.apart_pending;
              apart_delivered = apart';
              closed = inl live;
            }))
        (λ unknown. v)

  take_response-IsClient :
      (key : Option ℕ) (m : M) (c : Client M) → IsClient c → IsClient (take_response key m c)
  unfolding take_response remove_pending delivered_ids
  take_response-IsClient none m c v = v
  take_response-IsClient (some id) m c v =
      if_cases IsClient (waits_for id c.pending)
        (λ waiting.
          let rest = remove_pending-IsClient id c v in
          record {
            pending_ids = rest.pending_ids;
            delivered_once = (
              bound_of c.next_id id c.pending v.pending_ids waiting,
              not_delivered id c.pending (delivered_ids c.delivered) v.apart waiting,
              v.delivered_once,
            );
            apart = drop_id-Apart_more id c.pending (delivered_ids c.delivered) v.apart;
            allocated_ids = rest.allocated_ids;
            apart_pending = rest.apart_pending;
            apart_delivered =
                Apart-more id c.allocated c.pending (delivered_ids c.delivered) v.apart_pending
                  waiting v.apart_delivered;
            closed = rest.closed;
          })
        (λ unknown. v)

  read_message-IsClient : (m : Inbound M) (c : Client M) → IsClient c → IsClient (read_message m c)
  unfolding read_message
  read_message-IsClient ignored c v = v
  read_message-IsClient (response key m) c v = take_response-IsClient key m c v
  read_message-IsClient (notification m) c v =
      if_cases IsClient (ltb (length c.incoming) 128)
        (λ room. record {
          pending_ids = v.pending_ids;
          delivered_once = v.delivered_once;
          apart = v.apart;
          allocated_ids = v.allocated_ids;
          apart_pending = v.apart_pending;
          apart_delivered = v.apart_delivered;
          closed = v.closed;
        })
        (λ full. v)

  step-IsClient :
      (m : Move M) (c : Client M) → c.next_id + 1 < 2 ^ 64 → IsClient c → IsClient (step m c)
  unfolding step end_call
  step-IsClient allocates c room v = allocate_id-IsClient c room v
  step-IsClient (registers id) c room v = register_call-IsClient id c v
  step-IsClient (writes answer) c room v = finish_write-IsClient answer c v
  step-IsClient (ends id) c room v = remove_pending-IsClient id c v
  step-IsClient (reads m) c room v = read_message-IsClient m c v
  step-IsClient closes c room v = close_with_error-IsClient c v
  step-IsClient resets c room v = reset_pending-IsClient c v

  finish_write-next_id :
      (answer : Option ℕ) (c : Client M) → (finish_write answer c).1.next_id ≡ c.next_id
  unfolding finish_write close_with_error
  finish_write-next_id (some e) c = ground arith
  finish_write-next_id none c = refl

  take_response-next_id :
      (key : Option ℕ) (m : M) (c : Client M) → (take_response key m c).next_id ≡ c.next_id
  unfolding take_response remove_pending
  take_response-next_id none m c = refl
  take_response-next_id (some id) m c = ground arith

  read_message-next_id : (m : Inbound M) (c : Client M) → (read_message m c).next_id ≡ c.next_id
  unfolding read_message
  read_message-next_id ignored c = refl
  read_message-next_id (response key m) c = take_response-next_id key m c
  read_message-next_id (notification m) c = ground arith

  step-next_id : (m : Move M) (c : Client M) → (step m c).next_id ≤ c.next_id + 1
  unfolding step end_call allocate_id register_call remove_pending close_with_error reset_pending
  step-next_id allocates c = ground arith
  step-next_id (registers id) c = ground arith
  step-next_id (writes answer) c = omega (arith, finish_write-next_id answer c)
  step-next_id (ends id) c = omega arith
  step-next_id (reads m) c = omega (arith, read_message-next_id m c)
  step-next_id closes c = ground arith
  step-next_id resets c = ground arith

  -- In every history of ids taken, registrations of calls, answers of the connection to writes,
  -- messages of the app-server, ends of calls, closes and resets of `pending`, with fewer than 2^64
  -- steps in all: no two calls that wait have the same id; every id is delivered at most one response,
  -- so that the reader never blocks on the channel of a call; a call that waits was delivered nothing
  -- yet; and a call waits on a client that is done only until `pending` is reset.
  pub run-IsClient :
      (ms : List (Move M)) (c : Client M)
      → c.next_id + length ms < 2 ^ 64
      → IsClient c
      → IsClient (run ms c)
  unfolding run
  run-IsClient [] c room v = v
  run-IsClient (m ∷ ms) c room v =
      run-IsClient ms (step m c) (omega (arith, room, step-next_id m c))
        (step-IsClient m c (omega (arith, room)) v)
