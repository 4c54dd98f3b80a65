-- ===== src/I2c/Reads.antt =====
-- c2usb/i2c/hid/device.cpp: what the host reads, the input reports and the replies to commands.
use c2usb.Base.{ℕ, ◌+◌, ◌-◌, ◌%◌, ◌^◌, Bool, true, false, not, ◌&&◌, ◌||◌, none}
use c2usb.Base.{List, ◌∷◌, leb, ltb, ◌==◌, if◌then◌else◌, option_case}
use c2usb.Hid.{get_idle}
use c2usb.Message.Reply.{le_bytes}
use c2usb.Message.Transfer.{Span, empty_span}
use c2usb.I2c.Command.{
  get_u16, report_descriptor_register, command_register, data_register, get_report_code,
  get_idle_code, get_protocol_code, opcode, command_size, report_type, report_id,
}
use c2usb.I2c.Descriptor.{
  descriptor_size, report_length_size, reset, set_protocol, set_product_info, set_registers, bytes,
}
use c2usb.I2c.State.{
  Device, Setup, Clients, set_pin_interrupt, send, buffer_span, write_buffer, protocol,
  transport_start,
}

-- The first `n` bytes of `buffer_`.
unfoldable pub value_span : Setup → ℕ → Span
value_span t n = record { ptr = t.buffer; len = n }

module _ {E : Type 0} (c : Clients E) (t : Setup) where
  unfoldable pub hid_descriptor : List ℕ
  hid_descriptor = bytes (
      set_product_info c.vendor_id c.product_id c.product_version (
        set_protocol c.report_descriptor.len c.max_input_size c.max_output_size
          (set_registers reset)))

  unfoldable pub get_report : ℕ → ℕ → Device E → Bool × Device E
  get_report type id d =
      option_case d.session (false, d)
        (λ s.
          let room : Span = record {
            ptr = t.buffer + report_length_size;
            len = descriptor_size - report_length_size;
          } in
          let (report, d') = c.get_report type id room s d in
          if report.len == 0
          then (false, d')
          else (true, send (value_span t 2) report (write_buffer t (le_bytes 2 report.len) d')))

  unfoldable pub send_short_data : ℕ → Device E → Device E
  send_short_data value d =
      send (value_span t 4) empty_span (write_buffer t (4 ∷ 0 ∷ le_bytes 2 value) d)

  -- The commands that are only there with the full command support.
  unfoldable pub get_optional : ℕ → ℕ → Device E → Bool × Device E
  get_optional code id d =
      if t.full_command_support && (code == get_idle_code)
      then option_case d.session (false, d)
          (λ s. (true, send_short_data (get_idle id s % 2 ^ 16) d))
      else if t.full_command_support && (code == get_protocol_code)
      then option_case d.session (false, d) (λ s. (true, send_short_data (protocol c s) d))
      else (false, d)

  -- The command's bytes, by their address and number.
  unfoldable pub get_command : ℕ → ℕ → Device E → Bool × Device E
  get_command p size d =
      let cmd_size = command_size d.mem p in
      if not (size == cmd_size + 2) || not (get_u16 d.mem (p + cmd_size) == data_register)
      then (false, d)
      else if opcode d.mem p == get_report_code
      then (if c.is_report_type (report_type d.mem p)
          then get_report (report_type d.mem p) (report_id d.mem p) d
          else (false, d))
      else get_optional (opcode d.mem p) (report_id d.mem p) d

  unfoldable pub reply_request : ℕ → Device E → Bool × Device E
  reply_request data_length d =
      let reg = get_u16 d.mem t.buffer in
      if data_length == 2
      then (if reg == t.hid_descriptor_reg
          then (true, send (buffer_span t) empty_span (write_buffer t hid_descriptor d))
          else if reg == report_descriptor_register
          then (true, send c.report_descriptor empty_span d)
          else (false, d))
      else if ltb 2 data_length && (reg == command_register)
      then get_command (t.buffer + 2) (data_length - 2) d
      else (false, d)

  -- The reset response, or an answer to a host that checks the device's presence.
  unfoldable pub send_sentinel : Device E → Device E
  send_sentinel d = send (value_span t 2) empty_span (write_buffer t (le_bytes 2 0) d)

  unfoldable pub send_input : Span → Device E → Device E
  send_input s d = send (value_span t 2) s (write_buffer t (le_bytes 2 s.len) d)

  unfoldable pub get_input : Device E → Bool × Device E
  get_input d = (
    true,
    set_pin_interrupt false (
        option_case d.in_queue (send_sentinel d)
          (λ s. if s.len == 0 then send_sentinel d else send_input s d)),
  )

  unfoldable pub process_input_complete : ℕ → Device E → Device E
  process_input_complete data_length d = option_case d.in_queue d (λ s.
      if leb (report_length_size + s.len) data_length
      then (let d' = record d { in_queue = none } in
          if s.len == 0
          then (if t.full_command_support then d' else transport_start c c.mode_none d')
          else option_case d'.session d' (λ se. c.report_sent s se d'))
      else set_pin_interrupt true d)

  unfoldable pub process_reply_complete : Device E → Device E
  process_reply_complete d =
      if t.full_command_support && (get_u16 d.mem t.buffer == report_descriptor_register)
      then transport_start c c.mode_none d
      else d
