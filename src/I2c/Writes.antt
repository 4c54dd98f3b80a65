-- ===== src/I2c/Writes.antt =====
-- c2usb/i2c/hid/device.cpp: what the host writes, the output reports and the commands.
use c2usb.Base.{ℕ, ◌+◌, ◌-◌, ◌%◌, ◌^◌, Bool, true, false, not, ◌&&◌, ◌||◌, Option, none, some}
use c2usb.Base.{leb, ltb, ◌==◌, if◌then◌else◌, ◌>>=◌, option_case}
use c2usb.Hid.{set_idle}
use c2usb.Message.Transfer.{Span, empty_span}
use c2usb.Serial.Memory.{Memory, load, store}
use c2usb.I2c.Command.{
  get_u16, command_register, data_register, output_report_register, reset_code, set_report_code,
  set_idle_code, set_protocol_code, set_power_code, opcode, command_size, report_type, report_id,
  sleep,
}
use c2usb.I2c.Descriptor.{descriptor_size}
use c2usb.I2c.State.{Device, Setup, Clients, rx_buffer, set_rx_buffer, transport_start, link_reset}

-- Subtraction of two in `size_t`, of 32 bits.
unfoldable pub less_two : ℕ → ℕ
less_two n = (n + 2 ^ 32 - 2) % 2 ^ 32

-- `std::move_backward` of the first bytes of a buffer, to end where `offset` bytes of it do; `none` is a write in
-- front of the buffer.
unfoldable pub move_backward : Span → ℕ → ℕ → Memory → Option Memory
move_backward out count offset mem =
    if leb count offset
    then some (store mem (out.ptr + offset - count) (load mem out.ptr count))
    else none

-- `std::copy` of all but the first two of some bytes; `none` is a read outside of `buffer_`.
unfoldable pub copy_report : Setup → ℕ → ℕ → Span → Memory → Option Memory
copy_report t p size out mem =
    if leb 2 size && leb (p + size) (t.buffer + descriptor_size)
    then some (store mem out.ptr (load mem (p + 2) (size - 2)))
    else none

module _ {E : Type 0} (c : Clients E) (t : Setup) where
  unfoldable pub set_power : Bool → Device E → Device E
  set_power on d =
      let changed = if d.powered then not on else on in
      if changed then c.power_event (record d { powered = on }) else d

  -- The bytes are given by their address and number, `none` is an access outside of a buffer.
  unfoldable pub set_report : ℕ → ℕ → ℕ → Device E → Option (Bool × Device E)
  set_report type p size d =
      let len = get_u16 d.mem p in
      let report_length = less_two len in
      let out = rx_buffer c type d in
      let offset = descriptor_size - (p - t.buffer + 2) in
      if (size == len) && leb report_length out.len
      then ((if ltb offset report_length
            then move_backward out (report_length - offset) offset d.mem
            else some d.mem)
          >>= λ moved. copy_report t p size out moved >>= λ mem.
              let d' = set_rx_buffer c type empty_span (record d { mem = mem }) in
              let report : Span = record { ptr = out.ptr; len = report_length } in
              some
                (option_case d'.session (false, d') (λ s. (true, c.set_report type report s d'))))
      else some (false, d)

  -- The commands that are only there with the full command support, with the boot mode for the last one.
  unfoldable pub set_optional : ℕ → ℕ → Device E → Bool × Device E
  set_optional p size d =
      let cmd_size = command_size d.mem p in
      let at = p + cmd_size + 2 in
      let value = get_u16 d.mem (at + 2) in
      if not (size == cmd_size + 6)
        || not (get_u16 d.mem (p + cmd_size) == data_register)
        || not (get_u16 d.mem at == 4)
      then (false, d)
      else if opcode d.mem p == set_idle_code
      then option_case d.session (false, d)
          (λ s.
            let (accepted, s') = set_idle (report_id d.mem p) value s in
            (accepted, record d { session = some s' }))
      else if (opcode d.mem p == set_protocol_code) && not (t.boot_mode == 0) && c.is_protocol value
      then (true, transport_start c t.boot_mode d)
      else (false, d)

  unfoldable pub set_command : ℕ → ℕ → Device E → Option (Bool × Device E)
  set_command p size d =
      let cmd_size = command_size d.mem p in
      let type = report_type d.mem p in
      if opcode d.mem p == reset_code
      then some (if size == cmd_size then (true, link_reset c d) else (false, d))
      else if opcode d.mem p == set_power_code
      then some (if size == cmd_size then (true, set_power (not (sleep d.mem p)) d) else (false, d))
      else if opcode d.mem p == set_report_code
      then (if leb size (cmd_size + 2)
            || not (get_u16 d.mem (p + cmd_size) == data_register)
            || (not (type == c.type_feature) && not (type == c.type_output))
          then some (false, d)
          else set_report type (p + cmd_size + 2) (size - (cmd_size + 2)) d)
      else some (if t.full_command_support then set_optional p size d else (false, d))

  -- `none` is a write of less than a register, for which `subspan` has no result, or a fault of the report.
  unfoldable pub process_write : ℕ → Device E → Option (Device E)
  process_write data_length d =
      let reg = get_u16 d.mem t.buffer in
      if ltb data_length 2
      then none
      else if reg == output_report_register
      then (set_report c.type_output (t.buffer + 2) (data_length - 2) d >>= λ r. some r.1)
      else if reg == command_register
      then (set_command (t.buffer + 2) (data_length - 2) d >>= λ r. some r.1)
      else some d
