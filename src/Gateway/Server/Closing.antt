-- ===== src/Gateway/Server/Closing.antt =====
-- internal/gateway/server.go: a connection that is silent for too long ends.
use codex_remote.Prelude.{
  ℕ, ◌-◌, ◌≤◌, true, false, ◌≡◌, ◌≢◌, refl, ap, sym, subst, ◌∙◌, ◌⊎◌, inl, inr, Option, none, some,
  [], ◌∷◌, if_cases, arith, ltb, ◌&&◌,
}
use codex_remote.Gateway.Server.{
  ServerConfig, CloseCode, connection_timeout, WriterState, idle, sending, sending_close,
  formal_close, hanging_up, returned, Connection, Events,
}
use codex_remote.Gateway.Server.Queue.{
  protocol_close, heartbeat, Wire, has_size, received, take_at, take_outbound, written_as,
  write_formal_close, write_at, write_outbound, hang_at, hang_up,
}
use codex_remote.Gateway.Server.Moves.{ticks, takes, writes, hangs_up, step, run}

-- How far the writer is on its way to the Close handshake.
abbrev Hanging : {R V P : Type 0} → Connection R V P → Type 0
Hanging x = x.writer ≡ hanging_up

abbrev Formal : {R V P : Type 0} → Connection R V P → Type 0
Formal x = Hanging x ⊎ ((code : CloseCode) × (x.writer ≡ formal_close code))

abbrev Closes : {R V P : Type 0} → Connection R V P → Type 0
Closes x = Formal x ⊎ ((code : CloseCode) × (x.writer ≡ sending_close code))

abbrev Ready : {R V P : Type 0} → Connection R V P → Type 0
Ready x = Closes x ⊎ ((x.writer ≡ idle) × (code : CloseCode) × (x.control ≡ some code))

module _ {R V P : Type 0} (cfg : ServerConfig) where
  heartbeat-late :
      (now nonce : ℕ) (c : Connection R V P)
      → c.close_once ≡ false
      → cfg.connection_timeout ≤ now - c.last_valid
      → heartbeat cfg now nonce c
        ≡ record c { close_once = true; control = some connection_timeout }
  unfolding heartbeat protocol_close
  heartbeat-late now nonce c fresh late = ground (arith, fresh, late)

  hang_up-cancelled : (x : Connection R V P) → Hanging x → (hang_up x).cancelled ≡ true
  unfolding hang_up hang_at
  hang_up-cancelled x e = ap (λ (st : WriterState R V P). (hang_at st x).cancelled) e

  write_outbound-Hanging :
      (wire : Wire R V P) (x : Connection R V P) → Formal x → Hanging (write_outbound cfg wire x)
  unfolding write_outbound write_at write_formal_close
  write_outbound-Hanging wire x (inl e) =
      ap (λ (st : WriterState R V P). (write_at cfg wire st x).writer) e ∙ e
  write_outbound-Hanging wire x (inr (code, e)) =
      ap (λ (st : WriterState R V P). (write_at cfg wire st x).writer) e
      ∙ if_cases Hanging (has_size (wire.close_size code) && wire.accepts) (λ taken. refl)
          (λ lost. refl)

  written_as-Formal :
      (wire : Wire R V P) (o : Option ℕ) (done x : Connection R V P)
      → wire.accepts ≡ true
      → Hanging done
      → Formal (written_as cfg wire o done x)
  unfolding written_as
  written_as-Formal wire none done x accepts h = inr (_, refl)
  written_as-Formal wire (some n) done x accepts h =
      if_cases Formal (ltb cfg.max_frame_bytes n) (λ large. inr (_, refl))
        (λ fits.
          if_cases Formal wire.accepts (λ taken. inl h) (λ broken. ground (arith, accepts, broken)))

  write_outbound-Formal :
      (wire : Wire R V P) (x : Connection R V P)
      → wire.accepts ≡ true
      → Closes x
      → Formal (write_outbound cfg wire x)
  unfolding write_outbound write_at
  write_outbound-Formal wire x accepts (inl f) = inl (write_outbound-Hanging wire x f)
  write_outbound-Formal wire x accepts (inr (code, e)) =
      subst (λ (st : WriterState R V P). Formal (write_at cfg wire st x)) (sym e)
        (written_as-Formal wire (wire.close_size code) _ x accepts refl)

  take_outbound-Closes : (x : Connection R V P) → Ready x → Closes (take_outbound false x)
  unfolding take_outbound take_at received
  take_outbound-Closes x (inl (inl (inl e))) =
      inl (inl (ap (λ (st : WriterState R V P). (take_at st false x).writer) e ∙ e))
  take_outbound-Closes x (inl (inl (inr (code, e)))) =
      inl (inr (code, ap (λ (st : WriterState R V P). (take_at st false x).writer) e ∙ e))
  take_outbound-Closes x (inl (inr (code, e))) =
      inr (code, ap (λ (st : WriterState R V P). (take_at st false x).writer) e ∙ e)
  take_outbound-Closes x (inr (e, code, h)) = inr (
    code,
    ap (λ (st : WriterState R V P). (take_at st false x).writer) e
        ∙ ap (λ (o : Option CloseCode). (received false o x).writer) h,
  )

  written_as-Ready :
      (wire : Wire R V P) (o : Option ℕ) (done x : Connection R V P)
      → wire.accepts ≡ true
      → Ready done
      → Ready (written_as cfg wire o done x)
  unfolding written_as
  written_as-Ready wire none done x accepts h = inl (inl (inr (_, refl)))
  written_as-Ready wire (some n) done x accepts h =
      if_cases Ready (ltb cfg.max_frame_bytes n) (λ large. inl (inl (inr (_, refl))))
        (λ fits.
          if_cases Ready wire.accepts (λ taken. h) (λ broken. ground (arith, accepts, broken)))

  -- What the writer has in hand when the Close comes, first.
  write_at-Ready :
      (wire : Wire R V P) (st : WriterState R V P) (code : CloseCode) (x : Connection R V P)
      → wire.accepts ≡ true
      → x.writer ≡ st
      → st ≢ returned
      → x.control ≡ some code
      → Ready (write_at cfg wire st x)
  unfolding write_at write_formal_close
  write_at-Ready wire idle code x accepts at live h = inr (at, code, h)
  write_at-Ready wire (sending f) code x accepts at live h =
      written_as-Ready wire (wire.size f) _ x accepts (inr (refl, code, h))
  write_at-Ready wire (sending_close first) code x accepts at live h =
      written_as-Ready wire (wire.close_size first) _ x accepts (inl (inl (inl refl)))
  write_at-Ready wire (formal_close first) code x accepts at live h = inl (
      inl (
        inl (
          if_cases Hanging (has_size (wire.close_size first) && wire.accepts) (λ taken. refl)
            (λ lost. refl))))
  write_at-Ready wire hanging_up code x accepts at live h = inl (inl (inl at))
  write_at-Ready wire returned code x accepts at live h = ground (arith, live refl)

module _ {R V P : Type 0} (cfg : ServerConfig) where
  write_outbound-Ready :
      (wire : Wire R V P) (code : CloseCode) (x : Connection R V P)
      → wire.accepts ≡ true
      → x.writer ≢ returned
      → x.control ≡ some code
      → Ready (write_outbound cfg wire x)
  unfolding write_outbound
  write_outbound-Ready wire code x accepts live h =
      write_at-Ready cfg wire x.writer code x accepts refl live h

module _ (Q : Type 0) {R V P S : Type 0} (ev : Events S V P) (cfg : ServerConfig) where
  -- A connection that was not closed yet, whose writer has not returned, and that has had no valid
  -- frame for the connection timeout: after the next tick of the heartbeat, what the writer has in
  -- hand, its next round, a formal Close if there has to be one, and the Close handshake, it is
  -- cancelled, however full its send queue is, provided that the WebSocket accepts what the writer has
  -- in hand and the Close.
  pub run_timeout :
      (now nonce : ℕ) (first second third : Wire R V P) (c : Connection R V P) (s : S)
      → c.close_once ≡ false
      → cfg.connection_timeout ≤ now - c.last_valid
      → c.writer ≢ returned
      → first.accepts ≡ true
      → second.accepts ≡ true
      → (run {Q = Q} ev cfg
          (ticks now nonce
            ∷ writes first
            ∷ takes false
            ∷ writes second
            ∷ writes third
            ∷ hangs_up
            ∷ [])
          (c, s)).0.cancelled
        ≡ true
  unfolding run step
  run_timeout now nonce first second third c s fresh late live takes1 takes2 =
      let h = heartbeat cfg now nonce c in
      let e = heartbeat-late cfg now nonce c fresh late in
      let ready : Ready (write_outbound cfg first h) =
        write_outbound-Ready cfg first connection_timeout h takes1
          (λ gone. live (sym (ap (λ (x : Connection R V P). x.writer) e) ∙ gone))
          (ap (λ (x : Connection R V P). x.control) e) in
      let taken = take_outbound-Closes cfg (write_outbound cfg first h) ready in
      let formal = write_outbound-Formal cfg second _ takes2 taken in
      hang_up-cancelled cfg _ (write_outbound-Hanging cfg third _ formal)
