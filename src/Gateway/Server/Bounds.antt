-- ===== src/Gateway/Server/Bounds.antt =====
-- internal/gateway/server.go: what the operations other than the writer's leave of a connection.
use codex_remote.Prelude.{
  ℕ, suc, ◌+◌, ◌-◌, ◌≤◌, max, String, Bool, ◌≡◌, refl, ◌∙◌, [], ◌∷◌, length, length-append, Map,
  lookup, insert, remove, if_cases, arith, ltb, leb,
}
use codex_remote.Gateway.Server.{
  ServerConfig, CloseCode, slow_consumer, connection_timeout, Outbound, event, ping, Connection,
}
use codex_remote.Gateway.Server.Queue.{protocol_close, enqueue, heartbeat}
use codex_remote.Gateway.Server.Watches.{is_watch, forward_event, forward_end, forward_slow}
use codex_remote.Activity.{Event}

pub length-insert :
    {V : Type 0} (k : String) (v : V) (m : Map V) → length (insert k v m) ≤ suc (length m)
unfolding insert
length-insert k v [] = omega arith
length-insert k v ((j, old) ∷ m) = ground (arith, length-insert k v m)

pub length-remove : {V : Type 0} (k : String) (m : Map V) → length (remove k m) ≤ length m
unfolding remove
length-remove k [] = omega arith
length-remove k ((j, v) ∷ m) = ground (arith, length-remove k m)

-- `c'` comes from `c` without a step of the writer and without a cancellation.
pub record Queues {R V P : Type 0} (cfg : ServerConfig) (c c' : Connection R V P) : Type 0 where
  pub written : c'.written ≡ c.written
  pub close_written : c'.close_written ≡ c.close_written
  pub cancelled : c'.cancelled ≡ c.cancelled
  pub writer : c'.writer ≡ c.writer
  pub send : length c'.send ≤ max (length c.send) cfg.send_queue_size
  pub watches : length c'.watches ≤ max (length c.watches) cfg.max_watches

module _ {R V P : Type 0} (cfg : ServerConfig) where
  pub Queues-self : (c : Connection R V P) → Queues cfg c c
  Queues-self c = record {
    written = refl;
    close_written = refl;
    cancelled = refl;
    writer = refl;
    send = omega arith;
    watches = omega arith;
  }

  pub Queues-trans : (a b c : Connection R V P) → Queues cfg a b → Queues cfg b c → Queues cfg a c
  Queues-trans a b c h k = record {
    written = k.written ∙ h.written;
    close_written = k.close_written ∙ h.close_written;
    cancelled = k.cancelled ∙ h.cancelled;
    writer = k.writer ∙ h.writer;
    send = omega (arith, h.send, k.send);
    watches = omega (arith, h.watches, k.watches);
  }

  pub Queues-watches :
      (c : Connection R V P) (m : Map ℕ)
      → length m ≤ max (length c.watches) cfg.max_watches
      → Queues cfg c (record c { watches = m })
  Queues-watches c m h = record {
    written = refl;
    close_written = refl;
    cancelled = refl;
    writer = refl;
    send = omega arith;
    watches = h;
  }

  pub protocol_close-Queues :
      (code : CloseCode) (c : Connection R V P) → Queues cfg c (protocol_close code c)
  unfolding protocol_close
  protocol_close-Queues code c =
      if_cases (Queues cfg c) c.close_once (λ was. Queues-self c)
        (λ new. record {
          written = refl;
          close_written = refl;
          cancelled = refl;
          writer = refl;
          send = omega arith;
          watches = omega arith;
        })

  pub enqueue-Queues :
      (f : Outbound R V P) (c : Connection R V P) → Queues cfg c (enqueue cfg f c).1
  unfolding enqueue
  enqueue-Queues f c =
      if_cases (λ (r : Bool × Connection R V P). Queues cfg c r.1)
        (ltb (length c.send) cfg.send_queue_size)
        (λ room. record {
          written = refl;
          close_written = refl;
          cancelled = refl;
          writer = refl;
          send = ground (arith, room, length-append c.send (f ∷ []));
          watches = omega arith;
        })
        (λ full. protocol_close-Queues slow_consumer c)

  pub heartbeat-Queues :
      (now nonce : ℕ) (c : Connection R V P) → Queues cfg c (heartbeat cfg now nonce c)
  unfolding heartbeat
  heartbeat-Queues now nonce c =
      if_cases (Queues cfg c) (leb cfg.connection_timeout (now - c.last_valid))
        (λ late. protocol_close-Queues connection_timeout c)
        (λ live. enqueue-Queues (ping (nonce + 1) now) c)

  pub forward_event-Queues :
      (id : String) (w : ℕ) (e : Event P) (c : Connection R V P)
      → Queues cfg c (forward_event cfg id w e c)
  unfolding forward_event
  forward_event-Queues id w e c =
      if_cases (Queues cfg c) (is_watch w (lookup id c.watches))
        (λ current. enqueue-Queues (event w e) c) (λ old. Queues-self c)

  pub forward_end-Queues :
      (id : String) (w : ℕ) (c : Connection R V P) → Queues cfg c (forward_end cfg id w c)
  unfolding forward_end
  forward_end-Queues id w c =
      if_cases (Queues cfg c) (is_watch w (lookup id c.watches))
        (λ current.
          Queues-watches c (remove id c.watches) (omega (arith, length-remove id c.watches)))
        (λ old. Queues-self c)

  pub forward_slow-Queues :
      (id : String) (w : ℕ) (c : Connection R V P) → Queues cfg c (forward_slow cfg id w c)
  unfolding forward_slow
  forward_slow-Queues id w c =
      if_cases (Queues cfg c) (is_watch w (lookup id c.watches))
        (λ current. protocol_close-Queues slow_consumer c) (λ old. Queues-self c)
