-- ===== src/Gateway/Server/Moves.antt =====
-- internal/gateway/server.go: a history of the goroutines of one connection, over the event store.
use codex_remote.Prelude.{ℕ, String, Bool, List, [], ◌∷◌}
use codex_remote.Gateway.Server.{ServerConfig, answered, Connection, Events}
use codex_remote.Gateway.Server.Queue.{
  enqueue, shut, clear_watches, Wire, take_outbound, write_outbound, hang_up, quit, heartbeat,
}
use codex_remote.Gateway.Server.Watches.{
  WatchRequest, handle_watch, handle_unwatch, forward_event, forward_end, forward_slow,
}
use codex_remote.Gateway.Server.Frames.{Raw, read_loop}
use codex_remote.Activity.{Event}

-- What a goroutine does next, with the time and what it was given: the reader, the requests that it
-- started, with the responses of the dispatcher, the forwarders of the watches, the heartbeat, the
-- writer, which takes, writes and, after the Close handshake, hangs up, or quits; the end of the
-- reader; the watches of a `shutdown`; and anything else that happens to the event store.
pub data Move (Q R V P S : Type 0) : Type 0 where
  reads : ℕ → Raw Q → Move Q R V P S
  watches : Bool → String → WatchRequest → Move Q R V P S
  unwatches : Bool → String → String → Move Q R V P S
  answers : R → Move Q R V P S
  forwards : String → ℕ → Event P → Move Q R V P S
  ends : String → ℕ → Move Q R V P S
  slows : String → ℕ → Move Q R V P S
  ticks : ℕ → ℕ → Move Q R V P S
  takes : Bool → Move Q R V P S
  writes : Wire R V P → Move Q R V P S
  hangs_up quits : Move Q R V P S
  leaves : Move Q R V P S
  clears : Move Q R V P S
  happens : (S → S) → Move Q R V P S

module _ {Q R V P S : Type 0} (ev : Events S V P) (cfg : ServerConfig) where
  unfoldable pub step : Move Q R V P S → Connection R V P × S → Connection R V P × S
  unfolding read_loop handle_watch handle_unwatch enqueue forward_event forward_end forward_slow
      heartbeat take_outbound write_outbound hang_up quit shut clear_watches
  step (reads now raw) (c, s) = ((read_loop cfg now raw c).1, s)
  step (watches over request req) (c, s) =
      let r = handle_watch ev cfg over request req c s in (r.0, r.1)
  step (unwatches over request id) (c, s) =
      let r = handle_unwatch ev cfg over request id c s in (r.0, r.1)
  step (answers r) (c, s) = ((enqueue cfg (answered r) c).1, s)
  step (forwards id w e) (c, s) = (forward_event cfg id w e c, s)
  step (ends id w) (c, s) = (forward_end cfg id w c, s)
  step (slows id w) (c, s) = (forward_slow cfg id w c, s)
  step (ticks now nonce) (c, s) = (heartbeat cfg now nonce c, s)
  step (takes late) (c, s) = (take_outbound late c, s)
  step (writes wire) (c, s) = (write_outbound cfg wire c, s)
  step hangs_up (c, s) = (hang_up c, s)
  step quits (c, s) = (quit c, s)
  step leaves (c, s) = (shut c, s)
  step clears (c, s) = clear_watches ev c s
  step (happens f) (c, s) = (c, f s)

  unfoldable pub run : List (Move Q R V P S) → Connection R V P × S → Connection R V P × S
  unfolding step
  run [] r = r
  run (m ∷ ms) r = run ms (step m r)
