-- ===== src/I2c/Reset.antt =====
-- The reset of the device by the host: the command, the interrupt, and the read of the two zero bytes.
use c2usb.Base.{ℕ, ◌+◌, ◌≡◌, refl, ap, ◌∙◌, inl, inr, arith, Option-cases, case_none}
use c2usb.Base.{true, false, not, ◌&&◌, none, some, ◌∷◌, ◌==◌}
use c2usb.Base.{case_some}
use c2usb.Hid.{Session}
use c2usb.Message.Reply.{le_bytes}
use c2usb.Message.Transfer.{empty_span}
use c2usb.Serial.Memory.{Memory, store}
use c2usb.I2c.Command.{get_u16, command_register, reset_code, opcode, is_extended, command_size}
use c2usb.I2c.State.{
  Device, Setup, Clients, set_pin_interrupt, send, write_buffer, queue_input_report,
  transport_start, transport_stop, link_reset,
}
use c2usb.I2c.Reads.{value_span, send_sentinel, get_input, process_input_complete}
use c2usb.I2c.Writes.{set_command, process_write}
use c2usb.I2c.Bus.{read, write, on_start, on_stop}

module _ {E : Type 0} (c : Clients E) (t : Setup) where
  -- After the reset there is no session, no buffer of the application, and the reset response waits.
  pub record IsReset (d : Device E) : Type 0 where
    pub at_rest : d.stage ≡ 0
    pub asserted : d.slave.pin ≡ true
    pub no_session : d.session ≡ none
    pub no_output : d.rx_output ≡ empty_span
    pub no_feature : d.rx_feature ≡ empty_span
    pub response : d.in_queue ≡ some empty_span

  stopped : (d : Device E) → (transport_stop c d).session ≡ none
  unfolding transport_stop
  stopped d = elim (Option-cases d.session) [
    | inl e ↦ ap (λ (x : Device E). x.session) (case_none _ _ d.session e) ∙ e
    | inr (s, e) ↦ ap (λ (x : Device E). x.session) (case_some _ _ d.session s e)
  ]

  reset_size : (m : Memory) (p : ℕ) → m (p + 1) ≡ 1 → command_size m p ≡ 2
  unfolding command_size is_extended opcode
  reset_size m p e = ground arith

  -- The command RESET, of two bytes after the command register, resets the device, in whatever state it was.
  IsReset-command :
      (d : Device E)
      → get_u16 d.mem t.buffer ≡ command_register
      → d.mem (t.buffer + 3) ≡ reset_code
      → (d' : Device E) × (on_stop c t write 4 d ≡ some d') × IsReset d'
  unfolding on_stop process_write set_command link_reset queue_input_report set_pin_interrupt opcode
  IsReset-command d reg code =
      let coded : d.mem (t.buffer + 2 + 1) ≡ 1 = rw (plus t.buffer) code in
      let size = reset_size d.mem (t.buffer + 2) coded in
      (
        record (link_reset c d) { stage = 0 },
        rw (reg, coded, size) refl,
        record {
          at_rest = refl;
          asserted = refl;
          no_session = stopped d;
          no_output = refl;
          no_feature = refl;
          response = refl;
        },
      )
    where
      plus : (n : ℕ) → n + 2 + 1 ≡ n + 3
      plus n = omega arith

  -- The read of the reset response: two zero bytes, after which the application has a session, unless the build has
  -- the full command support.
  reset_response :
      (d : Device E)
      → IsReset d
      → t.full_command_support ≡ false
      → (d' : Device E) × (on_start c t read 0 d ≡ some (true, d'))
        × (d'.slave.tx ≡ (value_span t 2, empty_span) ∷ d.slave.tx)
        × (get_u16 d'.mem t.buffer ≡ 0)
        × (d'.slave.pin ≡ false)
        × (e : Device E) × (on_stop c t read 2 d' ≡ some e)
        × (e.session ≡ some (c.start c.mode_none (record d' { in_queue = none })).0)
  unfolding on_start on_stop get_input send_sentinel set_pin_interrupt send write_buffer
      process_input_complete transport_start store get_u16 le_bytes
  reset_response d r short =
      let quiet : (t.asserts && not (◌==◌ 0 0)) ≡ false = ground arith in
      let first : (d.stage == 0) ≡ true = ground (arith, r.at_rest) in
      let d' = set_pin_interrupt false (send_sentinel c t d) in
      let after = record d' { in_queue = none } in
      let fresh = record (c.start c.mode_none after).1 {
        session = some (c.start c.mode_none after).0;
      } in
      (
        d',
        rw (first, quiet, case_some _ _ d.in_queue empty_span r.response) refl,
        refl,
        ground arith,
        refl,
        record fresh { stage = 0 },
        rw
            (
              first,
              case_some _ _ d.in_queue empty_span r.response,
              short,
              case_none _ _ d.session r.no_session,
            )
            refl,
        refl,
      )

  -- The host's reset, in whatever state the device is: the command RESET, of two bytes after the command register, ends
  -- the session, clears the application's buffers and asserts the interrupt line; the read that the host makes then
  -- shows the two zero bytes and releases the line, and leaves the application with a session for the report protocol.
  -- The build is without the full command support, and the application creates sessions for the protocol that it is
  -- asked for.
  pub IsReset-starts :
      (d : Device E)
      → ((mode : ℕ) (e : Device E) → (c.start mode e).0.boot_mode ≡ mode)
      → t.full_command_support ≡ false
      → get_u16 d.mem t.buffer ≡ command_register
      → d.mem (t.buffer + 3) ≡ reset_code
      → (d1 : Device E) × (on_stop c t write 4 d ≡ some d1)
        × IsReset d1
        × (d2 : Device E) × (on_start c t read 0 d1 ≡ some (true, d2))
        × (d2.slave.tx ≡ (value_span t 2, empty_span) ∷ d1.slave.tx)
        × (get_u16 d2.mem t.buffer ≡ 0)
        × (d2.slave.pin ≡ false)
        × (d3 : Device E) × (on_stop c t read 2 d2 ≡ some d3)
        × (s : Session) × (d3.session ≡ some s)
        × (s.boot_mode ≡ c.mode_none)
  IsReset-starts d obeys short reg code =
      let (d1, e1, r) = IsReset-command d reg code in
      let (d2, e2, sent, zero, released, d3, e3, begun) = reset_response d1 r short in
      (
        d1,
        e1,
        r,
        d2,
        e2,
        sent,
        zero,
        released,
        d3,
        e3,
        (c.start c.mode_none (record d2 { in_queue = none })).0,
        begun,
        obeys c.mode_none (record d2 { in_queue = none }),
      )
