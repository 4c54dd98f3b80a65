-- ===== src/Device/Descriptors.antt =====
-- c2usb/usb/df/device.cpp: the device's descriptors, written into the control buffer.
pub mod Laws
use c2usb.Base.{
  ℕ, ◌+◌, ◌%◌, ◌^◌, Bool, true, false, Option, none, some, List, [], ◌∷◌, ◌++◌, if◌then◌else◌, ◌==◌,
  ◌>>=◌, ◌&&◌, length,
}
use c2usb.Config.Element.{Interface, desc_max_power, desc_attributes}
use c2usb.Config.Views.{View, valid, interfaces}
use c2usb.Core.{Drivers, Settings, Device, no_serial, serial_text, serial_bytes}
use c2usb.Device.Configuration.{configs_by_speed, nth_view}
use c2usb.Device.Strings.{
  config_name, config_istring, istr_vendor_name, istr_product_name, istr_serial_number,
  get_string_descriptor,
}
use c2usb.Mac.{config_power}
use c2usb.Message.Buffer.{Buffer, append, write_bytes}
use c2usb.Message.Reply.{Message, le_bytes, send_buffer, reject, assert_then}
use c2usb.Usb.Control.{high_byte, low_byte}
use c2usb.Usb.Speed.{Speed, full, high, control, packet_size_limit, includes}

-- `usb_spec_version()`, the version "2.0.1".
abbrev pub usb_spec_version : ℕ
usb_spec_version = 0x0201

-- The number of configurations of a speed, `view_list::size()`, as uint8_t.
abbrev pub view_count : List View → ℕ
view_count views = length views % 2 ^ 8

-- Bytes are written over at an offset, through a descriptor's pointer.
abbrev pub patch : ℕ → List ℕ → Buffer → Buffer
patch offset bytes b = record b { mem = write_bytes offset bytes b.mem }

abbrev pub is_set {ℓ} : {A : Type ℓ} → Option A → Bool
is_set (some _) = true
is_set none = false

-- A descriptor is allocated at the front of the buffer, which a pending message has empty.
abbrev pub send_descriptor : List ℕ → Message → Option Message
send_descriptor bytes m = append bytes m.buffer >>= λ b. send_buffer (record m { buffer = b })

module _ {S : Type 0} (d : Drivers S) (c : Settings) where
  -- The loop over the interfaces: the number of interfaces, a uint8_t, and the buffer.
  unfoldable pub describe_interfaces : List (ℕ × Interface) → S → ℕ × Buffer → Option (ℕ × Buffer)
  describe_interfaces [] s (n, b) = some (n, b)
  describe_interfaces ((_, i) ∷ r) s (n, b) =
      d.describe_config i n b s >>= λ b'. describe_interfaces r s ((n + 1) % 2 ^ 8, b')

  -- The nine bytes of the configuration descriptor, before the total length and the count are known.
  unfoldable pub configuration_bytes : View → ℕ → Message → Speed → List ℕ
  configuration_bytes v config_index m s =
      9
      ∷ high_byte m.request.w_value
      ∷ 0
      ∷ 0
      ∷ 0
      ∷ ((1 + config_index) % 2 ^ 8)
      ∷ (elim (config_name v) [ some _ ↦ config_istring c config_index s | none ↦ 0 ])
      ∷ desc_attributes (config_power v)
      ∷ desc_max_power (config_power v)
      ∷ []

  unfoldable pub get_config_descriptor : Message → Speed → Device S → Option Message
  get_config_descriptor m s dev =
      let config_index = low_byte m.request.w_value in
      let v = nth_view (configs_by_speed d c dev s) config_index in
      if valid v
      then (append (configuration_bytes v config_index m s) m.buffer >>= λ b.
          describe_interfaces (interfaces v) dev.env (0, b) >>= λ r. send_buffer (record m {
            buffer =
                patch (m.buffer.used_length + 2) (le_bytes 2 (r.1.used_length) ++ r.0 ∷ []) r.1;
          }))
      else reject m

  -- The index of the serial number, 0 where it is empty.
  abbrev pub serial_istring : ℕ
  serial_istring = elim c.product.serial_number [
    | no_serial ↦ 0
    | serial_text units ↦ if length units == 0 then 0 else istr_serial_number
    | serial_bytes bytes ↦ if length bytes == 0 then 0 else istr_serial_number
  ]

  unfoldable pub device_bytes : Device S → List ℕ
  device_bytes dev =
      18 ∷ 1 ∷ le_bytes 2 usb_spec_version
      ++ 0 ∷ 0 ∷ 0 ∷ packet_size_limit control dev.mac.speed ∷ []
      ++ le_bytes 2 c.product.vendor_id
      ++ le_bytes 2 c.product.product_id
      ++ le_bytes 2 c.product.product_version
      ++ istr_vendor_name
        ∷ istr_product_name
        ∷ serial_istring
        ∷ view_count (configs_by_speed d c dev dev.mac.speed)
        ∷ []

  unfoldable pub get_device_descriptor : Message → Device S → Option Message
  get_device_descriptor m dev =
      assert_then m (is_set c.product.vendor_name && is_set c.product.product_name)
        (send_descriptor (device_bytes dev) m)

  unfoldable pub get_device_qualifier_descriptor : Message → Speed → Device S → Option Message
  get_device_qualifier_descriptor m s dev =
      send_descriptor
        (10 ∷ 6 ∷ le_bytes 2 usb_spec_version
          ++ 0
            ∷ 0
            ∷ 0
            ∷ packet_size_limit control s
            ∷ view_count (configs_by_speed d c dev s)
            ∷ 0
            ∷ [])
        m

  -- The binary object store of five bytes, the USB 2.0 extension of seven, and the extension's own.
  unfoldable pub get_bos_descriptor : Message → Device S → Option Message
  get_bos_descriptor m dev = append (5 ∷ 15 ∷ 0 ∷ 0 ∷ 0 ∷ []) m.buffer >>= λ b.
      append (7 ∷ 16 ∷ 2 ∷ le_bytes 4 d.lpm_support) b >>= λ b'.
      d.extension_bos_capabilities b' dev.env >>= λ r. send_buffer (record m {
        buffer =
            patch (m.buffer.used_length + 2)
              (le_bytes 2 r.1.used_length ++ ((1 + r.0) % 2 ^ 8) ∷ []) r.1;
      })

  -- `device::get_descriptor`, by the descriptor's type code.
  unfoldable pub get_basic_descriptor : Message → Device S → Option Message
  get_basic_descriptor m dev =
      let kind = high_byte m.request.w_value in
      if kind == 1
      then get_device_descriptor m dev
      else if kind == 2
      then get_config_descriptor m dev.mac.speed dev
      else if kind == 3
      then get_string_descriptor d c m dev
      else if kind == 15
      then get_bos_descriptor m dev
      else reject m

  abbrev pub alternative_speed : Speed → Speed
  alternative_speed s = elim s [ high ↦ full | _ ↦ high ]

  unfoldable pub get_descriptor_dual_speed : Message → Device S → Option Message
  get_descriptor_dual_speed m dev =
      let kind = high_byte m.request.w_value in
      let alternative = alternative_speed dev.mac.speed in
      if kind == 6
      then get_device_qualifier_descriptor m alternative dev
      else if kind == 7
      then get_config_descriptor m alternative dev
      else get_basic_descriptor m dev

  -- `device_instance::get_descriptor`
  unfoldable pub get_descriptor : Message → Device S → Option Message
  get_descriptor m dev =
      if includes c.speeds full && includes c.speeds high
      then get_descriptor_dual_speed m dev
      else get_basic_descriptor m dev
