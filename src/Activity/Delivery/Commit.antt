-- ===== src/Activity/Delivery/Commit.antt =====
-- A `Publish` that succeeds: what is durable, what is in memory and what the watchers get.
use codex_remote.Prelude.{
  ℕ, suc, ◌≤◌, ◌<◌, ◌≡◌, refl, sym, ap, subst, ◌∙◌, true, false, String, Option, none, some, List,
  [], ◌∷◌, ◌++◌, length, lookup, lookup-insert_self, arith,
}
use codex_remote.Errors.{Result, ok, err}
use codex_remote.Activity.{Event, CurrentView, Watcher, Stream, World}
use codex_remote.Activity.Interface.{Codec, EventPersistence, IsEventPersistence}
use codex_remote.Activity.Suffix.{IsSuffix}
use codex_remote.Activity.Load.{ensure}
use codex_remote.Activity.Publish.{
  Auditor, with_codex, deliver, retain, build_view, encoded, expose, finish, commit_to, publish,
}
use codex_remote.Activity.Invariant.{IsStream}
use codex_remote.Activity.Invariant.World.{IsWorld, Ensures, ensure-Ensures}

-- The buffered events of a watcher end at the boundary `head`, without a gap.
abbrev pub UpTo : {P : Type 0} → ℕ → Watcher P → Type 0
UpTo head w = (first : ℕ) × IsSuffix first head w.events

-- An event is handed to the watchers that have room in their queue, which stay; `slow` are the
-- others, whose `slow` channel is closed.
pub data Delivers {P : Type 0} (ev : Event P)
    : List (Watcher P) → List (Watcher P) → List (Watcher P) → Type 0 where
  nobody : Delivers ev [] [] []
  handed :
      {w : Watcher P} {ws kept slow : List (Watcher P)}
      → length w.events < w.queue
      → Delivers ev ws kept slow
      → Delivers ev (w ∷ ws) (record w { events = w.events ++ ev ∷ [] } ∷ kept) slow
  dropped :
      {w : Watcher P} {ws kept slow : List (Watcher P)}
      → w.queue ≤ length w.events
      → Delivers ev ws kept slow
      → Delivers ev (w ∷ ws) kept (record w { slow_closed = true } ∷ slow)

-- What a successful `Publish` of `event` with `view` leaves, from a stream `st`.
pub record Published {V P D : Type 0} (c : Codec V) (durable : D → String → Option (ℕ × List ℕ))
    (event : Event P) (view : CurrentView V) (st : Stream V P) (w1 : World V P D) (ev : Event P)
    (w2 : World V P D) : Type 0 where
  pub numbered : ev ≡ record event { event_seq = suc st.head }
  -- the boundary and the view were written together, from the boundary that the stream had
  pub before : (old : List ℕ) × (durable w1.db event.codex_id ≡ some (st.head, old))
  pub stored :
      (raw : List ℕ) × (c.marshal (record view { head_event_seq = suc st.head }) ≡ some raw)
      × (durable w2.db event.codex_id ≡ some (suc st.head, raw))
  pub after : Stream V P
  pub here : lookup event.codex_id w2.codex ≡ some after
  pub head : after.head ≡ suc st.head
  pub shown : after.view ≡ some (record view { head_event_seq = suc st.head })
  pub kept : after.watchers ≡ (deliver ev st.watchers).0
  pub slow : w2.departed ≡ with_codex event.codex_id (deliver ev st.watchers).1 ++ w1.departed

module _ {V P D : Type 0} (c : Codec V) (p : EventPersistence D)
    (durable : D → String → Option (ℕ × List ℕ)) (laws : IsEventPersistence p durable)
    (audit : Auditor P) where
  encoded-eq-ok : (o : Option (List ℕ)) {raw : List ℕ} → encoded o ≡ ok raw → o ≡ some raw
  unfolding encoded
  encoded-eq-ok none h = cc
  encoded-eq-ok (some raw) h = ground arith

  finish_ok :
      (event : Event P) (view : CurrentView V) (st : Stream V P) (w : World V P D)
      (r : Result ℕ × D) (ev : Event P)
      → r ≡ p.commit_event event.codex_id (build_view c view) w.db
      → IsStream w.capacity st (durable w.db event.codex_id)
      → st.needs_reload ≡ false
      → (finish c p audit event view st w r).0 ≡ ok ev
      → Published c durable event view st w ev (finish c p audit event view st w r).1
  unfolding finish expose
  finish_ok event view st w (err e, d) ev k s fresh h = cc
  finish_ok event view st w (ok seq, d) ev k s fresh h =
      let id = event.codex_id in
      let build = build_view c view in
      let (head, old, raw, before, next, built, after) =
        laws.commit_ok w.db id build seq (sym (ap (λ (q : Result ℕ × D). q.0) k)) in
      let (old', coupled) = s.coupled fresh in
      let e : seq ≡ suc st.head = ground (arith, before, coupled, next) in
      let same : record event { event_seq = seq } ≡ ev = ground arith in
      record {
        numbered = ground (arith, e);
        before = (old', coupled);
        stored = (
          raw,
          rw (← e) (
              encoded-eq-ok (c.marshal (record view { head_event_seq = seq }))
                (unfold build_view in built)),
          rw (← e) (ap (λ (q : Result ℕ × D). durable q.1 id) k ∙ after),
        );
        after = record st {
          head = seq;
          events = retain w.capacity (st.events ++ record event { event_seq = seq } ∷ []);
          view = some (record view { head_event_seq = seq });
          watchers = (deliver (record event { event_seq = seq }) st.watchers).0;
        };
        here = lookup-insert_self id _ w.codex;
        head = e;
        shown = ground (arith, e);
        kept = ap (λ (x : Event P). (deliver x st.watchers).0) same;
        slow = ap (λ (x : Event P). with_codex id (deliver x st.watchers).1 ++ w.departed) same;
      }

  -- In a Store that agrees with the database, an event that `Publish` returned has the number after
  -- the boundary, which is written with its view in one commit; the stream in memory has this
  -- boundary and the view, and its watchers were handed the event.
  pub publish_ok :
      (event : Event P) (view : CurrentView V) (st : Stream V P) (w w1 w2 : World V P D)
      (ev : Event P)
      → IsWorld durable w
      → ensure c p event.codex_id w ≡ (ok st, w1)
      → publish c p audit (some event) (some view) w ≡ (ok ev, w2)
      → Published c durable event view st w1 ev w2
  unfolding publish commit_to
  publish_ok event view st w w1 w2 ev inv opened done =
      let id = event.codex_id in
      let s = ensure-Ensures durable c p laws id w inv in
      let s' : Ensures durable id w (ok st, w1) = subst (Ensures durable id w) opened s in
      let r = p.commit_event id (build_view c view) w1.db in
      let at_end : finish c p audit event view st w1 r ≡ (ok ev, w2) = ground arith in
      let (here, fresh) = s'.fresh st refl in
      subst (λ (q : Result (Event P) × World V P D). Published c durable event view st w1 ev q.1)
        at_end
        (finish_ok event view st w1 r ev refl (s'.streams id st here) fresh
          (ap (λ (q : Result (Event P) × World V P D). q.0) at_end))
