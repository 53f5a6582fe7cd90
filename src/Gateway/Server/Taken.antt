-- ===== src/Gateway/Server/Taken.antt =====
-- internal/gateway/server.go: the writer takes, writes or loses the events that are queued.
use codex_remote.Prelude.{
  Bool, ℕ, true, ◌&&◌, ap, ◌≡◌, refl, Option, none, some, List, [], ◌∷◌, if_cases, arith, ltb,
}
use codex_remote.Gateway.Server.{
  ServerConfig, CloseCode, internal_protocol_error, frame_too_large, Outbound, WriterState, idle,
  sending, sending_close, formal_close, hanging_up, returned, Connection,
}
use codex_remote.Gateway.Server.Queue.{
  shut, Wire, next_frame, received, take_at, written_as, has_size, write_formal_close, write_at,
  hang_at, quit_at,
}
use codex_remote.Gateway.Server.Order.{events_of, in_flight, events_at, Silent}

module _ {R V P : Type 0} (cfg : ServerConfig) (w n : ℕ) where
  pub shut-Silent : (c : Connection R V P) → Silent w n c → Silent w n (shut c)
  unfolding shut events_at
  shut-Silent c v =
      if_cases (Silent w n) c.close_once (λ was. v)
        (λ new. record { absent = v.absent; events = v.events })

  next_frame-Silent :
      (fs : List (Outbound R V P)) (c : Connection R V P)
      → fs ≡ c.send
      → Silent w n c
      → Silent w n (next_frame fs c)
  unfolding next_frame events_at events_of in_flight
  next_frame-Silent [] c same v = v
  next_frame-Silent (f ∷ fs) c same v = record {
    absent = v.absent;
    events = omega (arith, ap (events_of w) same, v.events);
  }

  received-Silent :
      (late : Bool) (o : Option CloseCode) (c : Connection R V P)
      → Silent w n c
      → Silent w n (received late o c)
  unfolding received events_at in_flight
  received-Silent late none c v = next_frame-Silent c.send c refl v
  received-Silent late (some code) c v =
      if_cases (Silent w n) late (λ after. next_frame-Silent c.send c refl v)
        (λ first. record { absent = v.absent; events = omega (arith, v.events) })

  pub take_at-Silent :
      (st : WriterState R V P) (late : Bool) (c : Connection R V P)
      → Silent w n c
      → Silent w n (take_at st late c)
  unfolding take_at
  take_at-Silent idle late c v = received-Silent late c.control c v
  take_at-Silent (sending f) late c v = v
  take_at-Silent (sending_close code) late c v = v
  take_at-Silent (formal_close code) late c v = v
  take_at-Silent hanging_up late c v = v
  take_at-Silent returned late c v = v

  -- A frame that the writer has is lost or written.
  moved-Silent :
      (c : Connection R V P) (st : WriterState R V P) (o : Option CloseCode)
      → in_flight w st ≡ 0
      → Silent w n c
      → Silent w n (record c { close_written = o; writer = st })
  unfolding events_at
  moved-Silent c st o gone v = record { absent = v.absent; events = omega (arith, gone, v.events) }

  written_as-Silent :
      (wire : Wire R V P) (o : Option ℕ) (done c : Connection R V P)
      → Silent w n done
      → Silent w n c
      → Silent w n (written_as cfg wire o done c)
  unfolding written_as in_flight
  written_as-Silent wire none done c d v =
      moved-Silent c (formal_close internal_protocol_error) c.close_written refl v
  written_as-Silent wire (some k) done c d v =
      if_cases (Silent w n) (ltb cfg.max_frame_bytes k)
        (λ large. moved-Silent c (formal_close frame_too_large) c.close_written refl v)
        (λ fits.
          if_cases (Silent w n) wire.accepts (λ taken. d)
            (λ broken.
              moved-Silent (shut c) returned (shut c).close_written refl (shut-Silent c v)))

  pub write_at-Silent :
      (wire : Wire R V P) (st : WriterState R V P) (c : Connection R V P)
      → c.writer ≡ st
      → Silent w n c
      → Silent w n (write_at cfg wire st c)
  unfolding write_at write_formal_close events_at events_of in_flight
  write_at-Silent wire idle c at v = v
  write_at-Silent wire (sending f) c at v =
      written_as-Silent wire (wire.size f) _ c
        (record { absent = v.absent; events = omega (arith, ap (in_flight w) at, v.events) }) v
  write_at-Silent wire (sending_close code) c at v =
      written_as-Silent wire (wire.close_size code) _ c
        (moved-Silent c hanging_up (some code) refl v) v
  write_at-Silent wire (formal_close code) c at v =
      if_cases (Silent w n) (has_size (wire.close_size code) && wire.accepts)
        (λ taken. moved-Silent c hanging_up (some code) refl v)
        (λ lost. moved-Silent c hanging_up c.close_written refl v)
  write_at-Silent wire hanging_up c at v = v
  write_at-Silent wire returned c at v = v

  over-Silent :
      (c : Connection R V P) (b : Bool)
      → Silent w n c
      → Silent w n (record c { cancelled = b; writer = returned })
  unfolding events_at in_flight
  over-Silent c b v = record { absent = v.absent; events = omega (arith, v.events) }

  pub hang_at-Silent :
      (st : WriterState R V P) (c : Connection R V P) → Silent w n c → Silent w n (hang_at st c)
  unfolding hang_at
  hang_at-Silent idle c v = v
  hang_at-Silent (sending f) c v = v
  hang_at-Silent (sending_close code) c v = v
  hang_at-Silent (formal_close code) c v = v
  hang_at-Silent hanging_up c v = over-Silent c true v
  hang_at-Silent returned c v = v

  pub quit_at-Silent :
      (st : WriterState R V P) (c : Connection R V P) → Silent w n c → Silent w n (quit_at st c)
  unfolding quit_at
  quit_at-Silent idle c v =
      if_cases (Silent w n) c.cancelled (λ over. over-Silent c c.cancelled v) (λ live. v)
  quit_at-Silent (sending f) c v = v
  quit_at-Silent (sending_close code) c v = v
  quit_at-Silent (formal_close code) c v = v
  quit_at-Silent hanging_up c v = v
  quit_at-Silent returned c v = v
