-- ===== src/Gateway/Server/Order.antt =====
-- internal/gateway/server.go: the events of a watch among the frames of a connection.
use codex_remote.Prelude.{
  ℕ, ◌+◌, ◌≤◌, String, Bool, false, ◌≡◌, ◌≢◌, refl, List, [], ◌∷◌, ◌++◌, length, Map, lookup,
  insert, remove, if_cases, arith, if◌then◌else◌, ltb, str_eq, ◌==◌,
}
use codex_remote.Gateway.Server.{
  ServerConfig, CloseCode, slow_consumer, Outbound, server_hello, refusal, watched, unwatched,
  answered, event, ping, pong, WriterState, sending, Connection,
}
use codex_remote.Gateway.Server.Queue.{protocol_close, enqueue}
use codex_remote.Gateway.Server.Watches.{is_watch}

module _ {R V P : Type 0} where
  unfoldable pub comes_from : ℕ → Outbound R V P → ℕ
  comes_from w server_hello = 0
  comes_from w (refusal request code retry) = 0
  comes_from w (watched request response) = 0
  comes_from w (unwatched request id) = 0
  comes_from w (answered r) = 0
  comes_from w (event from e) = if from == w then 1 else 0
  comes_from w (ping nonce sent) = 0
  comes_from w (pong nonce sent now) = 0

  -- The number of events of the watch among the frames.
  unfoldable pub events_of : ℕ → List (Outbound R V P) → ℕ
  unfolding comes_from
  events_of w [] = 0
  events_of w (f ∷ fs) = comes_from w f + events_of w fs

  pub events_of-append :
      (w : ℕ) (fs gs : List (Outbound R V P))
      → events_of w (fs ++ gs) ≡ events_of w fs + events_of w gs
  unfolding events_of
  events_of-append w [] gs = omega arith
  events_of-append w (f ∷ fs) gs = omega (arith, events_of-append w fs gs)

module _ {R V P : Type 0} where
  -- The frame that the writer has taken.
  unfoldable pub in_flight : ℕ → WriterState R V P → ℕ
  unfolding comes_from
  in_flight w (sending f) = comes_from w f
  in_flight w st = 0

  -- The events of the watch that were queued, taken or written.
  unfoldable pub events_at : ℕ → Connection R V P → ℕ
  unfolding events_of in_flight
  events_at w c = events_of w c.written + (in_flight w c.writer + events_of w c.send)

-- No Codex is watched by `w`.
abbrev pub Absent : ℕ → Map ℕ → Type 0
Absent w [] = Unit
Absent w ((id, other) ∷ ws) = (other ≢ w) × Absent w ws

-- `w` is no watch of the connection, and at most `n` of its events were queued, taken or written.
pub record Silent {R V P : Type 0} (w n : ℕ) (c : Connection R V P) : Type 0 where
  pub absent : Absent w c.watches
  pub events : events_at w c ≤ n

pub Absent-remove : (w : ℕ) (id : String) (ws : Map ℕ) → Absent w ws → Absent w (remove id ws)
unfolding remove
Absent-remove w id [] h = tt
Absent-remove w id ((j, other) ∷ ws) h =
    if_cases (Absent w) (str_eq j id) (λ same. Absent-remove w id ws h.1)
      (λ apart. (h.0, Absent-remove w id ws h.1))

pub Absent-insert :
    (w new : ℕ) (id : String) (ws : Map ℕ) → new ≢ w → Absent w ws → Absent w (insert id new ws)
unfolding insert
Absent-insert w new id [] other h = (other, tt)
Absent-insert w new id ((j, old) ∷ ws) other h =
    if_cases (Absent w) (str_eq j id) (λ same. (other, h.1))
      (λ apart. (h.0, Absent-insert w new id ws other h.1))

pub lookup-Absent :
    (w : ℕ) (id : String) (ws : Map ℕ) → Absent w ws → is_watch w (lookup id ws) ≡ false
unfolding lookup is_watch
lookup-Absent w id [] h = refl
lookup-Absent w id ((j, other) ∷ ws) h = ground (arith, h.0, lookup-Absent w id ws h.1)

module _ {R V P : Type 0} (cfg : ServerConfig) (w n : ℕ) where
  pub Silent-watches :
      (c : Connection R V P) (m : Map ℕ)
      → Absent w m
      → Silent w n c
      → Silent w n (record c { watches = m })
  unfolding events_at
  Silent-watches c m h v = record { absent = h; events = v.events }

  pub protocol_close-Silent :
      (code : CloseCode) (c : Connection R V P) → Silent w n c → Silent w n (protocol_close code c)
  unfolding protocol_close events_at
  protocol_close-Silent code c v =
      if_cases (Silent w n) c.close_once (λ was. v)
        (λ new. record { absent = v.absent; events = v.events })

  pub enqueue-Silent :
      (f : Outbound R V P) (c : Connection R V P)
      → comes_from w f ≡ 0
      → Silent w n c
      → Silent w n (enqueue cfg f c).1
  unfolding enqueue events_of events_at
  enqueue-Silent f c quiet v =
      if_cases (λ (r : Bool × Connection R V P). Silent w n r.1)
        (ltb (length c.send) cfg.send_queue_size)
        (λ room. record {
          absent = v.absent;
          events = omega (arith, quiet, v.events, events_of-append w c.send (f ∷ []));
        })
        (λ full. protocol_close-Silent slow_consumer c v)
