-- ===== src/Gateway/Server/Queue.antt =====
-- internal/gateway/server.go: `enqueue`, `protocolClose`, `shutdown` and the writer.
use codex_remote.Prelude.{
  ℕ, ◌+◌, ◌-◌, Bool, true, false, Option, none, some, List, [], ◌∷◌, ◌++◌, ◌&&◌, length, Map,
  if◌then◌else◌, ltb, leb,
}
use codex_remote.Gateway.Server.{
  ServerConfig, CloseCode, slow_consumer, frame_too_large, internal_protocol_error,
  connection_timeout, Outbound, ping, WriterState, idle, sending, sending_close, formal_close,
  hanging_up, returned, Connection, Events,
}

unfoldable pub cancel_all : {S V P : Type 0} → Events S V P → Map ℕ → S → S
cancel_all ev [] s = s
cancel_all ev ((id, w) ∷ ws) s = let rest = cancel_all ev ws s in ev.cancel id w rest

unfoldable pub has_size : Option ℕ → Bool
has_size none = false
has_size (some n) = true

-- What writing a frame makes of its ProtoJSON: its size, or none if it cannot be encoded; and whether
-- the WebSocket took it. The same of a Close.
pub record Wire (R V P : Type 0) : Type 0 where
  pub size : Outbound R V P → Option ℕ
  pub accepts : Bool
  pub close_size : CloseCode → Option ℕ

module _ {R V P : Type 0} where
  -- Only the first call of `closeOnce` has an effect, so that the control channel never blocks.
  unfoldable pub protocol_close : CloseCode → Connection R V P → Connection R V P
  protocol_close code c =
      if c.close_once then c else record c { close_once = true; control = some code }

  unfoldable pub enqueue :
      ServerConfig → Outbound R V P → Connection R V P → Bool × Connection R V P
  unfolding protocol_close
  enqueue cfg frame c =
      if ltb (length c.send) cfg.send_queue_size
      then (true, record c { send = c.send ++ frame ∷ [] })
      else (false, protocol_close slow_consumer c)

  -- `shutdown` cancels the context, unless the connection is closed in another way;
  unfoldable pub shut : Connection R V P → Connection R V P
  shut c = if c.close_once then c else record c { close_once = true; cancelled = true }

  -- then, under the lock, it cancels the watches.
  unfoldable pub clear_watches :
      {S : Type 0} → Events S V P → Connection R V P → S → Connection R V P × S
  unfolding cancel_all
  clear_watches ev c s = (record c { watches = [] }, cancel_all ev c.watches s)

  unfoldable pub next_frame : List (Outbound R V P) → Connection R V P → Connection R V P
  next_frame [] c = c
  next_frame (frame ∷ rest) c = record c { send = rest; writer = sending frame }

  unfoldable pub received : Bool → Option CloseCode → Connection R V P → Connection R V P
  unfolding next_frame
  received late none c = next_frame c.send c
  received late (some code) c =
      if late then next_frame c.send c else record c { control = none; writer = sending_close code }

  unfoldable pub take_at : WriterState R V P → Bool → Connection R V P → Connection R V P
  unfolding received
  take_at idle late c = received late c.control c
  take_at st late c = c

  -- What the writer takes in a round of `writeLoop`: the control channel comes first. A Close that
  -- comes between the two `select`s is `late`, and the second one may choose a frame before it.
  unfoldable pub take_outbound : Bool → Connection R V P → Connection R V P
  unfolding take_at
  take_outbound late c = take_at c.writer late c

  -- What comes of a frame or Close of this size: it is written, or the writer closes formally, or the
  -- WebSocket failed, which ends the writer.
  unfoldable pub written_as :
      ServerConfig → Wire R V P → Option ℕ → Connection R V P → Connection R V P → Connection R V P
  unfolding shut
  written_as cfg wire none done c = record c { writer = formal_close internal_protocol_error }
  written_as cfg wire (some n) done c =
      if ltb cfg.max_frame_bytes n
      then record c { writer = formal_close frame_too_large }
      else if wire.accepts
      then done
      else record (shut c) { writer = returned }

  -- `writeFormalClose`, up to the Close handshake: a Close that cannot be encoded is not written.
  unfoldable pub write_formal_close : Wire R V P → CloseCode → Connection R V P → Connection R V P
  unfolding has_size
  write_formal_close wire code c =
      if has_size (wire.close_size code) && wire.accepts
      then record c { close_written = some code; writer = hanging_up }
      else record c { writer = hanging_up }

  unfoldable pub write_at :
      ServerConfig → Wire R V P → WriterState R V P → Connection R V P → Connection R V P
  unfolding written_as write_formal_close
  write_at cfg wire (sending frame) c =
      written_as cfg wire (wire.size frame)
        (record c { written = frame ∷ c.written; writer = idle }) c
  write_at cfg wire (sending_close code) c =
      written_as cfg wire (wire.close_size code)
        (record c { close_written = some code; writer = hanging_up }) c
  write_at cfg wire (formal_close code) c = write_formal_close wire code c
  write_at cfg wire st c = c

  -- `writeOutbound` on what was taken, up to the Close handshake.
  unfoldable pub write_outbound : ServerConfig → Wire R V P → Connection R V P → Connection R V P
  unfolding write_at
  write_outbound cfg wire c = write_at cfg wire c.writer c

  unfoldable pub hang_at : WriterState R V P → Connection R V P → Connection R V P
  hang_at hanging_up c = record c { cancelled = true; writer = returned }
  hang_at st c = c

  -- The end of the Close handshake: `cancel`, and the writer returns.
  unfoldable pub hang_up : Connection R V P → Connection R V P
  unfolding hang_at
  hang_up c = hang_at c.writer c

  unfoldable pub quit_at : WriterState R V P → Connection R V P → Connection R V P
  quit_at idle c = if c.cancelled then record c { writer = returned } else c
  quit_at st c = c

  -- The writer finds the context cancelled.
  unfoldable pub quit : Connection R V P → Connection R V P
  unfolding quit_at
  quit c = quit_at c.writer c

  -- One tick of `heartbeat`.
  unfoldable pub heartbeat : ServerConfig → ℕ → ℕ → Connection R V P → Connection R V P
  unfolding protocol_close enqueue
  heartbeat cfg now nonce c =
      if leb cfg.connection_timeout (now - c.last_valid)
      then protocol_close connection_timeout c
      else (enqueue cfg (ping (nonce + 1) now) c).1
