-- ===== src/I2c/State.antt =====
-- c2usb/i2c/hid/device.hpp, with c2usb/hid/transport.hpp: the state of the device, what it calls, and its session.
use c2usb.Base.{ℕ, Bool, true, false, ◌||◌, Option, none, some}
use c2usb.Base.{List, ◌∷◌, ltb, ◌==◌, if◌then◌else◌, option_case}
use c2usb.Hid.{Session}
use c2usb.Message.Transfer.{Span, empty_span}
use c2usb.Serial.Memory.{Memory, store}
use c2usb.I2c.Descriptor.{descriptor_size}

-- What the slave driver was told: whether to listen, the interrupt line, and the spans to send and to receive to, the
-- latest first.
pub record Slave : Type 0 where
  pub listening : Bool
  pub pin : Bool
  pub tx : List (Span × Span)
  pub rx : List (Span × Span)

-- The members of `device` that change, over its surroundings `env`. The memory holds `buffer_` and the buffers that
-- the application gives.
pub record Device (E : Type 0) : Type 0 where
  pub session : Option Session
  pub rx_feature : Span
  pub rx_output : Span
  pub stage : ℕ
  pub powered : Bool
  pub in_queue : Option Span
  pub mem : Memory
  pub slave : Slave
  pub env : E

-- What does not change: the build's options (boot_mode is 0 where it is not defined), the address of `buffer_`, and
-- the descriptor's register.
pub record Setup : Type 0 where
  pub asserts : Bool
  pub full_command_support : Bool
  pub boot_mode : ℕ
  pub buffer : ℕ
  pub hid_descriptor_reg : ℕ

-- What the device is a client of: the values of the library hid-rp, the report protocol and the product's numbers, the
-- application's methods, which may call back into the device, and the delegate for power events.
pub record Clients (E : Type 0) : Type 0 where
  pub type_output : ℕ
  pub type_feature : ℕ
  pub is_report_type : ℕ → Bool
  pub protocol_boot : ℕ
  pub protocol_report : ℕ
  pub is_protocol : ℕ → Bool
  pub mode_none : ℕ
  pub report_descriptor : Span
  pub max_input_size : ℕ
  pub max_output_size : ℕ
  pub vendor_id : ℕ
  pub product_id : ℕ
  pub product_version : ℕ
  pub start : ℕ → Device E → Session × Device E
  pub stop : Session → Device E → Device E
  pub get_report : ℕ → ℕ → Span → Session → Device E → Span × Device E
  pub set_report : ℕ → Span → Session → Device E → Device E
  pub report_sent : Span → Session → Device E → Device E
  pub power_event : Device E → Device E

pub data ReportResult : Type 0 where
  ok device_or_resource_busy : ReportResult

-- The whole of `buffer_`.
unfoldable pub buffer_span : Setup → Span
buffer_span t = record { ptr = t.buffer; len = descriptor_size }

module _ {E : Type 0} where
  unfoldable pub set_pin_interrupt : Bool → Device E → Device E
  set_pin_interrupt asserted d = record d { slave = record d.slave { pin = asserted } }

  -- `slave::send`; a single span is followed by an empty one.
  unfoldable pub send : Span → Span → Device E → Device E
  send a b d = record d { slave = record d.slave { tx = (a, b) ∷ d.slave.tx } }

  unfoldable pub receive : Span → Span → Device E → Device E
  receive a b d = record d { slave = record d.slave { rx = (a, b) ∷ d.slave.rx } }

  -- A value at the start of `buffer_`.
  unfoldable pub write_buffer : Setup → List ℕ → Device E → Device E
  write_buffer t bytes d = record d { mem = store d.mem t.buffer bytes }

  unfoldable pub queue_input_report : Span → Device E → Bool × Device E
  queue_input_report s d = (true, record (set_pin_interrupt true d) { in_queue = some s })

  unfoldable pub send_report : Span → Device E → ReportResult × Device E
  send_report s d =
      let (queued, d') = queue_input_report s d in
      (if queued then ok else device_or_resource_busy, d')

  -- `reports_receiver::largest`
  unfoldable pub largest : Device E → Span
  largest d = if ltb d.rx_output.len d.rx_feature.len then d.rx_feature else d.rx_output

module _ {E : Type 0} (c : Clients E) where
  -- `reports_receiver::operator[]` of the types FEATURE and OUTPUT.
  unfoldable pub rx_buffer : ℕ → Device E → Span
  rx_buffer type d = if type == c.type_feature then d.rx_feature else d.rx_output

  unfoldable pub set_rx_buffer : ℕ → Span → Device E → Device E
  set_rx_buffer type s d =
      if type == c.type_feature then record d { rx_feature = s } else record d { rx_output = s }

  -- `none` is the type INPUT, for which there is no buffer.
  unfoldable pub receive_report : Span → ℕ → Device E → Option (ReportResult × Device E)
  receive_report s type d =
      if (type == c.type_feature) || (type == c.type_output)
      then (if ((rx_buffer type d).len == 0) || (d.stage == 0)
          then some (ok, set_rx_buffer type s d)
          else some (device_or_resource_busy, d))
      else none

  -- `session::protocol`
  unfoldable pub protocol : Session → ℕ
  protocol s = if s.boot_mode == c.mode_none then c.protocol_report else c.protocol_boot

  -- `transport::stop`
  unfoldable pub transport_stop : Device E → Device E
  transport_stop d = option_case d.session d (λ s. record (c.stop s d) { session = none })

  -- `transport::start`
  unfoldable pub transport_start : ℕ → Device E → Device E
  transport_start mode d =
      let fresh =
        λ (d' : Device E). (let (s, d'') = c.start mode d' in record d'' { session = some s }) in
      option_case d.session (fresh d) (λ s. if s.boot_mode == mode then d else fresh (c.stop s d))

  unfoldable pub link_reset : Device E → Device E
  link_reset d =
      let d' = record (transport_stop d) {
        in_queue = none;
        rx_feature = empty_span;
        rx_output = empty_span;
      } in
      (queue_input_report empty_span d').1

  -- The destructor.
  unfoldable pub destroy : Device E → Device E
  destroy d =
      let d' = transport_stop (record (set_pin_interrupt false d) {
        slave = record (set_pin_interrupt false d).slave { listening = false };
      }) in
      record d' { in_queue = none; rx_feature = empty_span; rx_output = empty_span }
