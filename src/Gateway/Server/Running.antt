-- ===== src/Gateway/Server/Running.antt =====
-- internal/gateway/server.go: every history of a connection keeps its bounds, and a Close ends it.
use codex_remote.Prelude.{
  Bool, true, false, none, ap, ◌≡◌, refl, ◌∙◌, some, List, [], ◌∷◌, if_cases, arith,
}
use codex_remote.Gateway.Server.{
  ServerConfig, CloseCode, answered, WriterState, idle, sending, sending_close, formal_close,
  hanging_up, returned, Connection, Events,
}
use codex_remote.Gateway.Server.Queue.{
  shut, clear_watches, Wire, take_at, take_outbound, write_at, write_outbound, hang_at, hang_up,
  quit_at, quit,
}
use codex_remote.Gateway.Server.Moves.{
  Move, reads, watches, unwatches, answers, forwards, ends, slows, ticks, takes, writes, hangs_up,
  quits, leaves, clears, happens, step, run,
}
use codex_remote.Gateway.Server.Bounds.{
  Queues, enqueue-Queues, heartbeat-Queues, forward_event-Queues, forward_end-Queues,
  forward_slow-Queues,
}
use codex_remote.Gateway.Server.Handled.{handle_watch-Queues, handle_unwatch-Queues}
use codex_remote.Gateway.Server.Read.{read_loop-Queues}
use codex_remote.Gateway.Server.Writer.{
  is_over, IsConnection, Queues-IsConnection, shut-IsConnection, is_over-IsFinal,
  take_outbound-IsConnection, write_outbound-IsConnection, hang_up-IsConnection, quit-IsConnection,
  clear_watches-IsConnection,
}

-- A writer that is over has written nothing more.
abbrev Ended : {R V P : Type 0} → Connection R V P → Connection R V P → Type 0
Ended c c' =
    (is_over c'.writer ≡ true) × (c'.written ≡ c.written) × (c'.close_written ≡ c.close_written)

module _ {Q R V P S : Type 0} (ev : Events S V P) (cfg : ServerConfig) where
  step-IsConnection :
      (m : Move Q R V P S) (c : Connection R V P) (s : S)
      → IsConnection cfg c
      → IsConnection cfg (step ev cfg m (c, s)).0
  unfolding step
  step-IsConnection (reads now raw) c s v =
      Queues-IsConnection cfg c _ (read_loop-Queues cfg now raw c) v
  step-IsConnection (watches over request req) c s v =
      Queues-IsConnection cfg c _ (handle_watch-Queues ev cfg over request req c s) v
  step-IsConnection (unwatches over request id) c s v =
      Queues-IsConnection cfg c _ (handle_unwatch-Queues ev cfg over request id c s) v
  step-IsConnection (answers r) c s v =
      Queues-IsConnection cfg c _ (enqueue-Queues cfg (answered r) c) v
  step-IsConnection (forwards id w e) c s v =
      Queues-IsConnection cfg c _ (forward_event-Queues cfg id w e c) v
  step-IsConnection (ends id w) c s v =
      Queues-IsConnection cfg c _ (forward_end-Queues cfg id w c) v
  step-IsConnection (slows id w) c s v =
      Queues-IsConnection cfg c _ (forward_slow-Queues cfg id w c) v
  step-IsConnection (ticks now nonce) c s v =
      Queues-IsConnection cfg c _ (heartbeat-Queues cfg now nonce c) v
  step-IsConnection (takes late) c s v = take_outbound-IsConnection cfg late c v
  step-IsConnection (writes wire) c s v = write_outbound-IsConnection cfg wire c v
  step-IsConnection hangs_up c s v = hang_up-IsConnection cfg c v
  step-IsConnection quits c s v = quit-IsConnection cfg c v
  step-IsConnection leaves c s v = shut-IsConnection cfg c v
  step-IsConnection clears c s v = clear_watches-IsConnection ev cfg c s v
  step-IsConnection (happens f) c s v = v

  -- In every history of the goroutines of a connection, whatever the client sends, the dispatcher and
  -- the event store answer and the WebSocket takes: the send queue and the watches stay within their
  -- limits; and after a Close was written the writer is in the WebSocket's Close handshake, or it
  -- returned and the connection is cancelled.
  pub run-IsConnection :
      (ms : List (Move Q R V P S)) (c : Connection R V P) (s : S)
      → IsConnection cfg c
      → IsConnection cfg (run ev cfg ms (c, s)).0
  unfolding run
  run-IsConnection [] c s v = v
  run-IsConnection (m ∷ ms) c s v =
      let r = step ev cfg m (c, s) in run-IsConnection ms r.0 r.1 (step-IsConnection m c s v)

no_wire : {R V P : Type 0} → Wire R V P
no_wire = record { size = λ f. none; accepts = false; close_size = λ code. none }

module _ {R V P : Type 0} (cfg : ServerConfig) where
  Ended-Queues : (c c' : Connection R V P) → is_over c.writer ≡ true → Queues cfg c c' → Ended c c'
  Ended-Queues c c' over q = (ap is_over q.writer ∙ over, q.written, q.close_written)

  Ended-shut : (c : Connection R V P) → is_over c.writer ≡ true → Ended c (shut c)
  unfolding shut
  Ended-shut c over =
      if_cases (Ended c) c.close_once (λ was. (over, refl, refl)) (λ new. (over, refl, refl))

  Ended-writer :
      (st : WriterState R V P) (late : Bool) (wire : Wire R V P) (c : Connection R V P)
      → is_over st ≡ true
      → c.writer ≡ st
      → Ended c (take_at st late c)
        × Ended c (write_at cfg wire st c)
        × Ended c (hang_at st c)
        × Ended c (quit_at st c)
  unfolding take_at write_at hang_at quit_at is_over
  Ended-writer idle late wire c over at = ground (arith, over)
  Ended-writer (sending f) late wire c over at = ground (arith, over)
  Ended-writer (sending_close code) late wire c over at = ground (arith, over)
  Ended-writer (formal_close code) late wire c over at = ground (arith, over)
  Ended-writer hanging_up late wire c over at =
      let still : Ended c c = (ap is_over at, refl, refl) in
      (still, still, (refl, refl, refl), still)
  Ended-writer returned late wire c over at =
      let still : Ended c c = (ap is_over at, refl, refl) in (still, still, still, still)

module _ {Q R V P S : Type 0} (ev : Events S V P) (cfg : ServerConfig) where
  Ended-step :
      (m : Move Q R V P S) (c : Connection R V P) (s : S)
      → is_over c.writer ≡ true
      → Ended c (step ev cfg m (c, s)).0
  unfolding step take_outbound write_outbound hang_up quit clear_watches
  Ended-step (reads now raw) c s v = Ended-Queues cfg c _ v (read_loop-Queues cfg now raw c)
  Ended-step (watches over request req) c s v =
      Ended-Queues cfg c _ v (handle_watch-Queues ev cfg over request req c s)
  Ended-step (unwatches over request id) c s v =
      Ended-Queues cfg c _ v (handle_unwatch-Queues ev cfg over request id c s)
  Ended-step (answers r) c s v = Ended-Queues cfg c _ v (enqueue-Queues cfg (answered r) c)
  Ended-step (forwards id w e) c s v = Ended-Queues cfg c _ v (forward_event-Queues cfg id w e c)
  Ended-step (ends id w) c s v = Ended-Queues cfg c _ v (forward_end-Queues cfg id w c)
  Ended-step (slows id w) c s v = Ended-Queues cfg c _ v (forward_slow-Queues cfg id w c)
  Ended-step (ticks now nonce) c s v = Ended-Queues cfg c _ v (heartbeat-Queues cfg now nonce c)
  Ended-step (takes late) c s v = (Ended-writer cfg c.writer late no_wire c v refl).0
  Ended-step (writes wire) c s v = (Ended-writer cfg c.writer false wire c v refl).1
  Ended-step hangs_up c s v = (Ended-writer cfg c.writer false no_wire c v refl).2
  Ended-step quits c s v = (Ended-writer cfg c.writer false no_wire c v refl).3
  Ended-step leaves c s v = Ended-shut cfg c v
  Ended-step clears c s v = (v, refl, refl)
  Ended-step (happens f) c s v = (v, refl, refl)

  Ended-run :
      (ms : List (Move Q R V P S)) (c : Connection R V P) (s : S)
      → is_over c.writer ≡ true
      → Ended c (run ev cfg ms (c, s)).0
  unfolding run
  Ended-run [] c s v = (v, refl, refl)
  Ended-run (m ∷ ms) c s v =
      let one = Ended-step m c s v in
      let r = step ev cfg m (c, s) in
      let rest = Ended-run ms r.0 r.1 one.0 in (rest.0, rest.1 ∙ one.1, rest.2 ∙ one.2)

  -- Once a Close was written on a connection within its bounds, nothing more is written on it,
  -- whatever else its goroutines do: the frames written and the Close stay as they are.
  pub run-close_written :
      (ms : List (Move Q R V P S)) (c : Connection R V P) (s : S) (code : CloseCode)
      → IsConnection cfg c
      → c.close_written ≡ some code
      → ((run ev cfg ms (c, s)).0.written ≡ c.written)
        × ((run ev cfg ms (c, s)).0.close_written ≡ some code)
  run-close_written ms c s code v h =
      let e = Ended-run ms c s (is_over-IsFinal cfg c code h v.final) in (e.1, e.2 ∙ h)
