-- ===== src/Tests/I2c.antt =====
-- The HID over I2C device at fixed states.
use c2usb.Base.{ℕ, ◌+◌, ◌-◌, ◌≡◌, refl, arith, true, false, none, some, List, [], ◌∷◌, length, ltb}
use c2usb.Hid.{Session}
use c2usb.Message.Reply.{le_bytes}
use c2usb.Message.Transfer.{Span, empty_span}
use c2usb.Serial.Memory.{load, store}
use c2usb.I2c.Command.{
  get_u16, opcode, command_size, report_type, report_id, report_command, command_register,
  reset_code,
}
use c2usb.I2c.Descriptor.{bytes, set_product_info, set_protocol, set_registers, reset}
use c2usb.I2c.State.{
  Device, Setup, Clients, rx_buffer, send_report, set_pin_interrupt, send, write_buffer,
}
use c2usb.I2c.Reads.{value_span, hid_descriptor, send_input, get_input}
use c2usb.I2c.Writes.{set_report}
use c2usb.I2c.Bus.{read, write, on_start, on_stop}
use c2usb.I2c.Reports.{set_report-Delivers, set_report-send_input, Lost, send_report-Lost}
use c2usb.I2c.Reset.{IsReset, IsReset-starts}
use c2usb.I2c.RoundTrip.{report_command_lem}

abbrev clients : Clients ℕ
clients = record {
  type_output = 2;
  type_feature = 3;
  is_report_type = λ t. ltb 0 t;
  protocol_boot = 0;
  protocol_report = 1;
  is_protocol = λ p. ltb p 2;
  mode_none = 0;
  report_descriptor = record { ptr = 8192; len = 63 };
  max_input_size = 8;
  max_output_size = 40;
  vendor_id = 0x1234;
  product_id = 0x5678;
  product_version = 0x0100;
  start = λ mode d. (record { boot_mode = mode; idle_rate = 0 }, d);
  stop = λ s d. d;
  get_report = λ type id s se d. (s, d);
  set_report = λ type r s d. d;
  report_sent = λ r s d. d;
  power_event = λ d. d;
}

-- The buffer has the address 1000, and the application's buffer 2000.
abbrev setup : Setup
setup = record {
  asserts = true;
  full_command_support = false;
  boot_mode = 0;
  buffer = 1000;
  hid_descriptor_reg = 0x48;
}

abbrev session : Session
session = record { boot_mode = 0; idle_rate = 0 }

-- A device with some bytes in its buffer.
abbrev device : ℕ → List ℕ → Device ℕ
device stage bytes = record {
  session = some session;
  rx_feature = empty_span;
  rx_output = record { ptr = 2000; len = 40 };
  stage = stage;
  powered = true;
  in_queue = none;
  mem = store (λ a. 0) 1000 bytes;
  slave = record { listening = true; pin = false; tx = []; rx = [] };
  env = 0;
}

abbrev report : Span
report = record { ptr = 3000; len = 8 }

abbrev waiting : Device ℕ
waiting = record (device 0 []) { in_queue = some report }

abbrev asking : Device ℕ
asking = (send_report report (device 0 [])).1

-- The host stops the read at once, so the report still waits.
abbrev unread : Device ℕ
unread = record (set_pin_interrupt true (get_input clients setup asking).1) { stage = 0 }

-- The output report of the bytes 7 and 9.
abbrev written : Device ℕ
written = device 1 (b'O' ∷ b'R' ∷ 4 ∷ 0 ∷ 7 ∷ 9 ∷ [])

size_of_written : get_u16 written.mem 1002 ≡ 4
unfolding get_u16 store
size_of_written = refl

set_report-Delivers_example :
    let out = rx_buffer clients 2 written in
    (d' : Device ℕ) × (set_report clients setup 2 1002 4 written
      ≡ some (true, clients.set_report 2 (record { ptr = out.ptr; len = 4 - 2 }) session d'))
    × (load d'.mem out.ptr (4 - 2) ≡ load written.mem (1002 + 2) (4 - 2))
    × (rx_buffer clients 2 d' ≡ empty_span)
    × (d'.session ≡ some session)
unfolding rx_buffer
set_report-Delivers_example =
    set_report-Delivers clients setup 2 1002 4 written session (omega arith) (omega arith)
      size_of_written (omega arith) (omega arith) refl

framed :
    get_u16 (device 1 (b'O' ∷ b'R' ∷ 8 ∷ 0 ∷ [])).mem 1002
    ≡ get_u16 (send_input clients setup report (device 0 [])).mem setup.buffer
unfolding get_u16 store send_input send write_buffer le_bytes
framed = refl

set_report-send_input_example :
    set_report clients setup 2 1002 (2 + 8) (device 1 (b'O' ∷ b'R' ∷ 8 ∷ 0 ∷ []))
    ≡ some (false, device 1 (b'O' ∷ b'R' ∷ 8 ∷ 0 ∷ []))
set_report-send_input_example =
    set_report-send_input clients setup 2 1002 report (device 0 [])
      (device 1 (b'O' ∷ b'R' ∷ 8 ∷ 0 ∷ [])) (omega arith) framed

send_report-Lost_example :
    Lost clients setup report report session waiting (get_input clients setup waiting).1
send_report-Lost_example =
    send_report-Lost clients setup report report session waiting refl refl refl (omega arith)
      (omega arith)

abbrev resetting : Device ℕ
resetting = device 1 (b'C' ∷ b'M' ∷ 0 ∷ 1 ∷ [])

resetting_lem :
    (get_u16 resetting.mem setup.buffer ≡ command_register)
    × (resetting.mem (setup.buffer + 3) ≡ reset_code)
unfolding get_u16 store
resetting_lem = (refl, refl)

IsReset-starts_example :
    (d1 : Device ℕ) × (on_stop clients setup write 4 resetting ≡ some d1)
    × IsReset clients setup d1
    × (d2 : Device ℕ) × (on_start clients setup read 0 d1 ≡ some (true, d2))
    × (d2.slave.tx ≡ (value_span setup 2, empty_span) ∷ d1.slave.tx)
    × (get_u16 d2.mem setup.buffer ≡ 0)
    × (d2.slave.pin ≡ false)
    × (d3 : Device ℕ) × (on_stop clients setup read 2 d2 ≡ some d3)
    × (s : Session) × (d3.session ≡ some s)
    × (s.boot_mode ≡ clients.mode_none)
IsReset-starts_example =
    IsReset-starts clients setup resetting (λ mode d. refl) refl resetting_lem.0 resetting_lem.1

report_command_lem_example :
    let m = store (λ a. 0) 1002 (report_command 200 3 2) in
    (opcode m 1002 ≡ 3)
    × (command_size m 1002 ≡ length (report_command 200 3 2))
    × (report_type m 1002 ≡ 2)
    × (report_id m 1002 ≡ 200)
report_command_lem_example =
    report_command_lem (λ a. 0) 1002 200 3 2 (omega arith) (omega arith) (omega arith)

-- The descriptor that the host reads: its length and the registers.
hid_descriptor_bytes :
    hid_descriptor clients setup
    ≡ 30 ∷ 0 ∷ 0 ∷ 1 ∷ 63 ∷ 0 ∷ 82 ∷ 68 ∷ 73 ∷ 82 ∷ 10 ∷ 0 ∷ 79 ∷ 82 ∷ 42 ∷ 0 ∷ 67 ∷ 77 ∷ 68 ∷ 84
      ∷ 0x34 ∷ 0x12 ∷ 0x78 ∷ 0x56 ∷ 0 ∷ 1 ∷ 0 ∷ 0 ∷ 0 ∷ 0 ∷ []
unfolding hid_descriptor bytes set_product_info set_protocol set_registers reset le_bytes
hid_descriptor_bytes = refl
