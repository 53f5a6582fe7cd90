-- ===== src/Gateway/Server/Writer.antt =====
-- internal/gateway/server.go: the writer within the bounds of the connection.
use codex_remote.Prelude.{
  ℕ, ◌≤◌, Bool, true, false, ◌&&◌, ◌≡◌, ◌⊎◌, inl, inr, refl, ◌∙◌, Option, none, some, List, [], ◌∷◌,
  length, if_cases, arith, ltb,
}
use codex_remote.Gateway.Server.{
  ServerConfig, CloseCode, Outbound, WriterState, idle, sending, sending_close, formal_close,
  hanging_up, returned, Connection, Events,
}
use codex_remote.Gateway.Server.Queue.{
  shut, clear_watches, Wire, next_frame, received, take_at, take_outbound, written_as, has_size,
  write_formal_close, write_at, write_outbound, hang_at, hang_up, quit_at, quit,
}
use codex_remote.Gateway.Server.Bounds.{Queues}

-- The writer writes no more.
unfoldable pub is_over : {R V P : Type 0} → WriterState R V P → Bool
is_over hanging_up = true
is_over returned = true
is_over st = false

-- No Close was written, or the writer is in the Close handshake after it, or it returned and the
-- connection is cancelled.
abbrev pub IsFinal : {R V P : Type 0} → Connection R V P → Type 0
IsFinal c =
    (c.close_written ≡ none)
    ⊎ (c.writer ≡ hanging_up)
    ⊎ ((c.writer ≡ returned) × (c.cancelled ≡ true))

-- The queue and the watches are within their limits, and a Close is the writer's last.
pub record IsConnection {R V P : Type 0} (cfg : ServerConfig) (c : Connection R V P) : Type 0 where
  pub send_bound : length c.send ≤ cfg.send_queue_size
  pub watches_bound : length c.watches ≤ cfg.max_watches
  pub final : IsFinal c

module _ {R V P : Type 0} (cfg : ServerConfig) where
  IsFinal-Queues : (c c' : Connection R V P) → Queues cfg c c' → IsFinal c → IsFinal c'
  IsFinal-Queues c c' q (inl open_still) = inl (q.close_written ∙ open_still)
  IsFinal-Queues c c' q (inr (inl closing)) = inr (inl (q.writer ∙ closing))
  IsFinal-Queues c c' q (inr (inr (gone, over))) = inr (inr (q.writer ∙ gone, q.cancelled ∙ over))

  pub Queues-IsConnection :
      (c c' : Connection R V P) → Queues cfg c c' → IsConnection cfg c → IsConnection cfg c'
  Queues-IsConnection c c' q v = record {
    send_bound = omega (arith, q.send, v.send_bound);
    watches_bound = omega (arith, q.watches, v.watches_bound);
    final = IsFinal-Queues c c' q v.final;
  }

  pub shut-IsConnection : (c : Connection R V P) → IsConnection cfg c → IsConnection cfg (shut c)
  unfolding shut
  shut-IsConnection c v =
      if_cases (IsConnection cfg) c.close_once (λ was. v)
        (λ new. record {
          send_bound = v.send_bound;
          watches_bound = v.watches_bound;
          final = elim v.final [
            | inl open_still ↦ inl open_still
            | inr (inl closing) ↦ inr (inl closing)
            | inr (inr (gone, over)) ↦ inr (inr (gone, refl))
          ];
        })

  still_open :
      (c : Connection R V P) → is_over c.writer ≡ false → IsFinal c → c.close_written ≡ none
  unfolding is_over
  still_open c live (inl none_written) = none_written
  still_open c live (inr (inl closing)) = ground (arith, live, closing)
  still_open c live (inr (inr (gone, over))) = ground (arith, live, gone)

  pub is_over-IsFinal :
      (c : Connection R V P) (code : CloseCode)
      → c.close_written ≡ some code
      → IsFinal c
      → is_over c.writer ≡ true
  unfolding is_over
  is_over-IsFinal c code h (inl none_written) = ground (arith, h, none_written)
  is_over-IsFinal c code h (inr (inl closing)) = ground (arith, closing)
  is_over-IsFinal c code h (inr (inr (gone, over))) = ground (arith, gone)

  broken_write :
      (c : Connection R V P)
      → is_over c.writer ≡ false
      → IsConnection cfg c
      → IsConnection cfg (record (shut c) { writer = returned })
  unfolding shut
  broken_write c live v =
      if_cases (λ (x : Connection R V P). IsConnection cfg (record x { writer = returned }))
        c.close_once
        (λ was. record {
          send_bound = v.send_bound;
          watches_bound = v.watches_bound;
          final = inl (still_open c live v.final);
        })
        (λ new. record {
          send_bound = v.send_bound;
          watches_bound = v.watches_bound;
          final = inl (still_open c live v.final);
        })

  next_frame-IsConnection :
      (fs : List (Outbound R V P)) (c : Connection R V P)
      → length fs ≤ cfg.send_queue_size
      → is_over c.writer ≡ false
      → IsConnection cfg c
      → IsConnection cfg (next_frame fs c)
  unfolding next_frame
  next_frame-IsConnection [] c fits live v = v
  next_frame-IsConnection (f ∷ fs) c fits live v = record {
    send_bound = omega (arith, fits);
    watches_bound = v.watches_bound;
    final = inl (still_open c live v.final);
  }

  received-IsConnection :
      (late : Bool) (o : Option CloseCode) (c : Connection R V P)
      → is_over c.writer ≡ false
      → IsConnection cfg c
      → IsConnection cfg (received late o c)
  unfolding received
  received-IsConnection late none c live v = next_frame-IsConnection c.send c v.send_bound live v
  received-IsConnection late (some code) c live v =
      if_cases (IsConnection cfg) late
        (λ after. next_frame-IsConnection c.send c v.send_bound live v)
        (λ first. record {
          send_bound = v.send_bound;
          watches_bound = v.watches_bound;
          final = inl (still_open c live v.final);
        })

  take_at-IsConnection :
      (st : WriterState R V P) (late : Bool) (c : Connection R V P)
      → c.writer ≡ st
      → IsConnection cfg c
      → IsConnection cfg (take_at st late c)
  unfolding take_at is_over
  take_at-IsConnection idle late c at v =
      received-IsConnection late c.control c (ground (arith, at)) v
  take_at-IsConnection (sending f) late c at v = v
  take_at-IsConnection (sending_close code) late c at v = v
  take_at-IsConnection (formal_close code) late c at v = v
  take_at-IsConnection hanging_up late c at v = v
  take_at-IsConnection returned late c at v = v

  written_as-IsConnection :
      (wire : Wire R V P) (o : Option ℕ) (done c : Connection R V P)
      → is_over c.writer ≡ false
      → IsConnection cfg done
      → IsConnection cfg c
      → IsConnection cfg (written_as cfg wire o done c)
  unfolding written_as
  written_as-IsConnection wire none done c live w v = record {
    send_bound = v.send_bound;
    watches_bound = v.watches_bound;
    final = inl (still_open c live v.final);
  }
  written_as-IsConnection wire (some n) done c live w v =
      if_cases (IsConnection cfg) (ltb cfg.max_frame_bytes n)
        (λ large. record {
          send_bound = v.send_bound;
          watches_bound = v.watches_bound;
          final = inl (still_open c live v.final);
        })
        (λ fits.
          if_cases (IsConnection cfg) wire.accepts (λ taken. w) (λ broken. broken_write c live v))

  closing-IsConnection :
      (o : Option CloseCode) (c : Connection R V P)
      → IsConnection cfg c
      → IsConnection cfg (record c { close_written = o; writer = hanging_up })
  closing-IsConnection o c v = record {
    send_bound = v.send_bound;
    watches_bound = v.watches_bound;
    final = inr (inl refl);
  }

  write_at-IsConnection :
      (wire : Wire R V P) (st : WriterState R V P) (c : Connection R V P)
      → c.writer ≡ st
      → IsConnection cfg c
      → IsConnection cfg (write_at cfg wire st c)
  unfolding write_at write_formal_close is_over
  write_at-IsConnection wire idle c at v = v
  write_at-IsConnection wire (sending f) c at v =
      let live : is_over c.writer ≡ false = ground (arith, at) in
      written_as-IsConnection wire (wire.size f) _ c live
        (record {
          send_bound = v.send_bound;
          watches_bound = v.watches_bound;
          final = inl (still_open c live v.final);
        })
        v
  write_at-IsConnection wire (sending_close code) c at v =
      written_as-IsConnection wire (wire.close_size code) _ c (ground (arith, at))
        (closing-IsConnection (some code) c v) v
  write_at-IsConnection wire (formal_close code) c at v =
      if_cases (IsConnection cfg) (has_size (wire.close_size code) && wire.accepts)
        (λ taken. closing-IsConnection (some code) c v)
        (λ lost. closing-IsConnection c.close_written c v)
  write_at-IsConnection wire hanging_up c at v = v
  write_at-IsConnection wire returned c at v = v

  hang_at-IsConnection :
      (st : WriterState R V P) (c : Connection R V P)
      → IsConnection cfg c
      → IsConnection cfg (hang_at st c)
  unfolding hang_at
  hang_at-IsConnection idle c v = v
  hang_at-IsConnection (sending f) c v = v
  hang_at-IsConnection (sending_close code) c v = v
  hang_at-IsConnection (formal_close code) c v = v
  hang_at-IsConnection hanging_up c v = record {
    send_bound = v.send_bound;
    watches_bound = v.watches_bound;
    final = inr (inr (refl, refl));
  }
  hang_at-IsConnection returned c v = v

  quit_at-IsConnection :
      (st : WriterState R V P) (c : Connection R V P)
      → IsConnection cfg c
      → IsConnection cfg (quit_at st c)
  unfolding quit_at
  quit_at-IsConnection idle c v =
      if_cases (IsConnection cfg) c.cancelled
        (λ over. record {
          send_bound = v.send_bound;
          watches_bound = v.watches_bound;
          final = inr (inr (refl, over));
        })
        (λ live. v)
  quit_at-IsConnection (sending f) c v = v
  quit_at-IsConnection (sending_close code) c v = v
  quit_at-IsConnection (formal_close code) c v = v
  quit_at-IsConnection hanging_up c v = v
  quit_at-IsConnection returned c v = v

  pub take_outbound-IsConnection :
      (late : Bool) (c : Connection R V P)
      → IsConnection cfg c
      → IsConnection cfg (take_outbound late c)
  unfolding take_outbound
  take_outbound-IsConnection late c v = take_at-IsConnection c.writer late c refl v

  pub write_outbound-IsConnection :
      (wire : Wire R V P) (c : Connection R V P)
      → IsConnection cfg c
      → IsConnection cfg (write_outbound cfg wire c)
  unfolding write_outbound
  write_outbound-IsConnection wire c v = write_at-IsConnection wire c.writer c refl v

  pub hang_up-IsConnection :
      (c : Connection R V P) → IsConnection cfg c → IsConnection cfg (hang_up c)
  unfolding hang_up
  hang_up-IsConnection c v = hang_at-IsConnection c.writer c v

  pub quit-IsConnection : (c : Connection R V P) → IsConnection cfg c → IsConnection cfg (quit c)
  unfolding quit
  quit-IsConnection c v = quit_at-IsConnection c.writer c v

module _ {R V P S : Type 0} (ev : Events S V P) (cfg : ServerConfig) where
  pub clear_watches-IsConnection :
      (c : Connection R V P) (s : S)
      → IsConnection cfg c
      → IsConnection cfg (clear_watches ev c s).0
  unfolding clear_watches
  clear_watches-IsConnection c s v = record {
    send_bound = v.send_bound;
    watches_bound = omega arith;
    final = v.final;
  }
