-- ===== src/I2c/Keeps.antt =====
-- The operations between two conditions on the bus leave the stage alone and keep the host informed.
use c2usb.Base.{ℕ, ◌+◌, ◌-◌, ◌≡◌, refl, sym, inr, arith}
use c2usb.Base.{Bool, true, false, not, ◌&&◌, ◌||◌, Option, none, some, leb, ltb, ◌==◌, ◌>>=◌}
use c2usb.Base.{if◌then◌else◌, case-Holds, if-Holds, some-injective}
use c2usb.Hid.{Session}
use c2usb.Message.Transfer.{Span, empty_span}
use c2usb.I2c.Command.{
  get_u16, report_descriptor_register, command_register, data_register, output_report_register,
  get_report_code, get_idle_code, get_protocol_code, opcode, command_size, report_type, report_id,
  sleep, reset_code, set_report_code, set_idle_code, set_protocol_code, set_power_code,
}
use c2usb.I2c.State.{
  Device, Setup, Clients, set_pin_interrupt, send, write_buffer, queue_input_report, rx_buffer,
  set_rx_buffer, transport_start, transport_stop, link_reset,
}
use c2usb.I2c.Reads.{
  get_report, send_short_data, get_optional, get_command, reply_request, process_reply_complete,
}
use c2usb.I2c.Writes.{
  set_power, copy_report, set_report, set_optional, set_command, process_write, less_two,
}
use c2usb.I2c.Uses.{Keeps, Obeys, Keeps-Keeps, set_rx_buffer-Keeps, Uses-Keeps}

module _ {E : Type 0} (c : Clients E) (t : Setup) (k : Obeys c) where
  kept : (d : Device E) → Keeps d d
  kept d = record { same = refl; informs = λ h. h }

  with_session :
      (o : Option Session) (d d' : Device E) → Keeps d d' → Keeps d (record d' { session = o })
  with_session o d d' k = record { same = k.same; informs = k.informs }

  transport_stop-Keeps : (d : Device E) → Keeps d (transport_stop c d)
  unfolding transport_stop
  transport_stop-Keeps d =
      case-Holds (Keeps d) d _ d.session (kept d)
        (λ s. with_session none d (c.stop s d) (Uses-Keeps c d _ (k.on_end s d)))

  pub transport_start-Keeps : (mode : ℕ) (d : Device E) → Keeps d (transport_start c mode d)
  unfolding transport_start
  transport_start-Keeps mode d =
      let begun = λ (d' : Device E).
        (with_session (some (c.start mode d').0) d' (c.start mode d').1
          (Uses-Keeps c d' _ (k.on_begin mode d'))) in
      case-Holds (Keeps d) _ _ d.session (begun d) (λ s.
        if-Holds (Keeps d) (s.boot_mode == mode) d _ (kept d)
          (Keeps-Keeps d (c.stop s d) _ (Uses-Keeps c d _ (k.on_end s d)) (begun (c.stop s d))))

  link_reset-Keeps : (d : Device E) → Keeps d (link_reset c d)
  unfolding link_reset queue_input_report set_pin_interrupt
  link_reset-Keeps d = record { same = (transport_stop-Keeps d).same; informs = λ h. inr refl }

  set_power-Keeps : (on : Bool) (d : Device E) → Keeps d (set_power c t on d)
  unfolding set_power
  set_power-Keeps on d =
      if-Holds (Keeps d) (if d.powered then not on else on) _ d
        (Keeps-Keeps d (record d { powered = on }) _ (record { same = refl; informs = λ h. h })
          (Uses-Keeps c _ _ (k.on_power (record d { powered = on }))))
        (kept d)

  -- The rest of an operation keeps what its first part left.
  record KeepsPair (d : Device E) (r : Bool × Device E) : Type 0 where
    after : Keeps d r.1

  unmoved : (b : Bool) (d : Device E) → KeepsPair d (b, d)
  unmoved b d = record { after = kept d }

  untouched :
      (r : Bool × Device E) (d : Device E)
      → r.1.stage ≡ d.stage
      → r.1.in_queue ≡ d.in_queue
      → r.1.slave.pin ≡ d.slave.pin
      → KeepsPair d r
  untouched r d s q p = record { after = record { same = s; informs = λ h. ground arith } }

  get_report-Keeps : (type id : ℕ) (d : Device E) → KeepsPair d (get_report c t type id d)
  unfolding get_report send write_buffer
  get_report-Keeps type id d =
      case-Holds (KeepsPair d) (false, d) _ d.session (unmoved false d)
        (λ s.
          let room : Span = record { ptr = t.buffer + 2; len = 28 } in
          let u = Uses-Keeps c d _ (k.on_get type id room s d) in
          if-Holds (KeepsPair d) ((c.get_report type id room s d).0.len == 0) _ _
            (record { after = u })
            (record { after = record { same = u.same; informs = u.informs } }))

  get_optional-Keeps : (code id : ℕ) (d : Device E) → KeepsPair d (get_optional c t code id d)
  unfolding get_optional send_short_data send write_buffer
  get_optional-Keeps code id d =
      if-Holds (KeepsPair d) (t.full_command_support && (code == get_idle_code)) _ _
        (case-Holds (KeepsPair d) (false, d) _ d.session (unmoved false d)
          (λ s. (untouched _ d refl refl refl)))
        (if-Holds (KeepsPair d) (t.full_command_support && (code == get_protocol_code)) _ _
          (case-Holds (KeepsPair d) (false, d) _ d.session (unmoved false d)
            (λ s. (untouched _ d refl refl refl)))
          (untouched _ d refl refl refl))

  get_command-Keeps : (p size : ℕ) (d : Device E) → KeepsPair d (get_command c t p size d)
  unfolding get_command
  get_command-Keeps p size d =
      let n = command_size d.mem p in
      if-Holds (KeepsPair d) (not (size == n + 2) || not (get_u16 d.mem (p + n) == data_register)) _
        _ (unmoved false d)
        (if-Holds (KeepsPair d) (opcode d.mem p == get_report_code) _ _
          (if-Holds (KeepsPair d) (c.is_report_type (report_type d.mem p)) _ _
            (get_report-Keeps (report_type d.mem p) (report_id d.mem p) d) (unmoved false d))
          (get_optional-Keeps (opcode d.mem p) (report_id d.mem p) d))

  pub reply_request-Keeps : (n : ℕ) (d : Device E) → Keeps d (reply_request c t n d).1
  unfolding reply_request send write_buffer
  reply_request-Keeps n d =
      let reg = get_u16 d.mem t.buffer in
      KeepsPair.after (
        if-Holds (KeepsPair d) (n == 2) _ _
          (if-Holds (KeepsPair d) (reg == t.hid_descriptor_reg) _ _ (untouched _ d refl refl refl) (
            if-Holds (KeepsPair d) (reg == report_descriptor_register) _ _
              (untouched _ d refl refl refl) (unmoved false d)))
          (if-Holds (KeepsPair d) (ltb 2 n && (reg == command_register)) _ _
            (get_command-Keeps (t.buffer + 2) (n - 2) d) (unmoved false d)))

  -- What a fallible operation returns, if it returns.
  record KeepsIf (d : Device E) (o : Option (Bool × Device E)) : Type 0 where
    result : (r : Bool × Device E) → o ≡ some r → Keeps d r.1

  returned : (d : Device E) (a : Bool × Device E) → KeepsPair d a → KeepsIf d (some a)
  returned d a h = record { result = λ r e. rw (sym (some-injective e)) h.after }

  bind-Keeps :
      {A : Type 0} (d : Device E) (o : Option A) (g : A → Option (Bool × Device E))
      → ((a : A) → KeepsIf d (g a))
      → KeepsIf d (o >>= g)
  bind-Keeps d none g h = record { result = λ r e. absurd (cc) }
  bind-Keeps d (some a) g h = h a

  set_report-Keeps : (type p size : ℕ) (d : Device E) → KeepsIf d (set_report c t type p size d)
  unfolding set_report
  set_report-Keeps type p size d =
      let out = rx_buffer c type d in
      let len = get_u16 d.mem p in
      if-Holds (KeepsIf d) ((size == len) && leb (less_two len) out.len) _ _
        (bind-Keeps d _ _ (λ moved. bind-Keeps d (copy_report t p size out moved) _ (λ mem.
          let d' = set_rx_buffer c type empty_span (record d { mem = mem }) in
          let report : Span = record { ptr = out.ptr; len = less_two len } in
          let b =
            Keeps-Keeps d (record d { mem = mem }) d' (record { same = refl; informs = λ h. h })
              (set_rx_buffer-Keeps c type empty_span (record d { mem = mem })) in
          returned d _ (
            case-Holds (KeepsPair d) (false, d') _ d'.session (record { after = b })
              (λ s. record {
                after = Keeps-Keeps d d' _ b (Uses-Keeps c d' _ (k.on_set type report s d'));
              })))))
        (returned d (false, d) (unmoved false d))

  set_optional-Keeps : (p size : ℕ) (d : Device E) → KeepsPair d (set_optional c t p size d)
  unfolding set_optional
  set_optional-Keeps p size d =
      let n = command_size d.mem p in
      let value = get_u16 d.mem (p + n + 2 + 2) in
      if-Holds (KeepsPair d)
        (not (size == n + 6)
          || not (get_u16 d.mem (p + n) == data_register)
          || not (get_u16 d.mem (p + n + 2) == 4))
        _ _ (unmoved false d)
        (if-Holds (KeepsPair d) (opcode d.mem p == set_idle_code) _ _
          (case-Holds (KeepsPair d) (false, d) _ d.session (unmoved false d)
            (λ s. untouched _ d refl refl refl))
          (if-Holds (KeepsPair d)
            ((opcode d.mem p == set_protocol_code) && not (t.boot_mode == 0) && c.is_protocol value)
            _ _ (record { after = transport_start-Keeps t.boot_mode d }) (unmoved false d)))

  set_command-Keeps : (p size : ℕ) (d : Device E) → KeepsIf d (set_command c t p size d)
  unfolding set_command
  set_command-Keeps p size d =
      let n = command_size d.mem p in
      let type = report_type d.mem p in
      if-Holds (KeepsIf d) (opcode d.mem p == reset_code) _ _
        (returned d _ (
          if-Holds (KeepsPair d) (size == n) (true, link_reset c d) (false, d)
            (record { after = link_reset-Keeps d }) (unmoved false d)))
        (if-Holds (KeepsIf d) (opcode d.mem p == set_power_code) _ _
          (returned d _ (
            if-Holds (KeepsPair d) (size == n) (true, set_power c t (not (sleep d.mem p)) d)
              (false, d) (record { after = set_power-Keeps (not (sleep d.mem p)) d })
              (unmoved false d)))
          (if-Holds (KeepsIf d) (opcode d.mem p == set_report_code) _ _
            (if-Holds (KeepsIf d)
              (leb size (n + 2)
                || not (get_u16 d.mem (p + n) == data_register)
                || (not (type == c.type_feature) && not (type == c.type_output)))
              _ _ (returned d (false, d) (unmoved false d))
              (set_report-Keeps type (p + n + 2) (size - (n + 2)) d))
            (returned d _ (
              if-Holds (KeepsPair d) t.full_command_support (set_optional c t p size d) (false, d)
                (set_optional-Keeps p size d) (unmoved false d)))))

  pub process_write-Keeps : (n : ℕ) (d d' : Device E) → process_write c t n d ≡ some d' → Keeps d d'
  unfolding process_write
  process_write-Keeps n d d' e =
      write_cases (set_report c t c.type_output (t.buffer + 2) (n - 2) d)
        (set_command c t (t.buffer + 2) (n - 2) d) (ltb n 2)
        (get_u16 d.mem t.buffer == output_report_register)
        (get_u16 d.mem t.buffer == command_register)
        (set_report-Keeps c.type_output (t.buffer + 2) (n - 2) d)
        (set_command-Keeps (t.buffer + 2) (n - 2) d) e
    where
      write_cases :
          (a b : Option (Bool × Device E)) (short output command : Bool)
          → KeepsIf d a
          → KeepsIf d b
          → (if short
              then none
              else if output
              then (a >>= λ r. some r.1)
              else if command
              then (b >>= λ r. some r.1)
              else some d)
            ≡ some d'
          → Keeps d d'
      write_cases a b true x y ka kb e = absurd (cc)
      write_cases none b false true y ka kb e = absurd (cc)
      write_cases (some r) b false true y ka kb e = rw (sym (some-injective e)) (ka.result r refl)
      write_cases a none false false true ka kb e = absurd (cc)
      write_cases a (some r) false false true ka kb e =
          rw (sym (some-injective e)) (kb.result r refl)
      write_cases a b false false false ka kb e = rw (sym (some-injective e)) (kept d)

  pub process_reply_complete-Keeps : (d : Device E) → Keeps d (process_reply_complete c t d)
  unfolding process_reply_complete
  process_reply_complete-Keeps d =
      if-Holds (Keeps d)
        (t.full_command_support && (get_u16 d.mem t.buffer == report_descriptor_register)) _ d
        (transport_start-Keeps c.mode_none d) (kept d)
