-- ===== src/Device/Requests.antt =====
-- c2usb/usb/df/device.cpp: the control requests, in the setup stage and after the data stage.
pub mod Laws
pub mod Served
use c2usb.Base.{
  ℕ, ◌+◌, ◌-◌, ◌/◌, ◌%◌, ◌^◌, Bool, true, false, not, ◌&&◌, Option, none, some, if◌then◌else◌, ◌==◌,
  ltb, ◌>>=◌,
}
use c2usb.Config.Element.{Interface}
use c2usb.Config.Lookup.{interface_at, endpoint_at, interface_of}
use c2usb.Core.{Drivers, Settings, Device, with_device, with_env}
use c2usb.Device.Configuration.{set_configuration, get_configuration}
use c2usb.Device.Descriptors.{get_descriptor}
use c2usb.Function.{handle_control_setup, handle_control_data, endpoint_control_setup}
use c2usb.Mac.{configured, std_status, set_remote_wakeup}
use c2usb.Message.Reply.{Message, confirm, reject, set_accept, send_value}
use c2usb.Usb.Control.{
  is_standard, id_recipient, id_type, low_byte, high_byte, to_device, to_interface, to_endpoint,
  recipient_code, standard, type_code, get_descriptor_code, set_address_code,
  set_configuration_code, get_configuration_code, get_status_code, set_feature_code,
  clear_feature_code,
}
use c2usb.Usb.EndpointAddress.{dir_in, dir_out}
use c2usb.Usb.Speed.{Speed, high, includes}

module _ {S : Type 0} (d : Drivers S) (c : Settings) where
  unfoldable pub set_address : Message → Device S → Option Message
  set_address m dev =
      if not (configured dev.mac)
        && (m.request.w_index == 0)
        && (m.request.w_length == 0)
        && ltb (low_byte m.request.w_value) 0x80
      then confirm m
      else reject m

  -- `bus_speed() == speed::HIGH`
  abbrev pub is_high_speed : Speed → Bool
  is_high_speed high = true
  is_high_speed _ = false

  -- Whether the request is a test mode of a device that includes high speed, as by
  -- `set_speed_dependent_feature` and the guard of `set_hs_feature`; feature::TEST_MODE is 2.
  unfoldable pub is_hs_feature : Message → Device S → Bool
  is_hs_feature m dev =
      includes c.speeds high
      && ((m.request.w_value == 2)
          && is_high_speed dev.mac.speed
          && (low_byte m.request.w_index == 0))

  unfoldable pub set_hs_feature : Message → Device S → Option (Message × Device S)
  set_hs_feature m dev =
      let (accept, env) = d.setup_test_mode (high_byte m.request.w_index) dev.env in
      with_device (record dev { env = env }) (set_accept accept m)

  -- The case of CLEAR_FEATURE, into which SET_FEATURE falls; feature::REMOTE_WAKEUP is 1.
  unfoldable pub change_feature : Bool → Message → Device S → Option (Message × Device S)
  change_feature enabled m dev =
      if m.request.w_value == 1
      then with_device (record dev { mac = set_remote_wakeup enabled dev.mac }) (confirm m)
      else with_device dev (reject m)

  unfoldable pub standard_device_request : Message → Device S → Option (Message × Device S)
  standard_device_request m dev =
      let r = m.request in
      if is_standard r dir_in to_device get_descriptor_code
      then with_device dev (get_descriptor d c m dev)
      else if is_standard r dir_out to_device set_address_code
      then with_device dev (set_address m dev)
      else if is_standard r dir_out to_device set_configuration_code
      then set_configuration d c m dev
      else if is_standard r dir_in to_device get_configuration_code
      then with_device dev (get_configuration d c m dev)
      else if is_standard r dir_in to_device get_status_code
      then with_device dev (send_value 2 (std_status dev.mac) m)
      else if is_standard r dir_out to_device set_feature_code
      then (if is_hs_feature m dev then set_hs_feature m dev else change_feature true m dev)
      else if is_standard r dir_out to_device clear_feature_code
      then change_feature false m dev
      else with_device dev (reject m)

  -- What the extension answers, or a rejection of the message that it leaves.
  abbrev pub or_reject : Device S → Option (Bool × (Message × S)) → Option (Message × Device S)
  or_reject dev o = o >>= λ r.
      let dev' = record dev { env = r.1.1 } in
      if r.0 then some (r.1.0, dev') else with_device dev' (reject r.1.0)

  unfoldable pub device_setup_request : Message → Device S → Option (Message × Device S)
  device_setup_request m dev =
      if id_type m.request.id == type_code standard
      then standard_device_request m dev
      else or_reject dev (d.extension_control_setup m dev.env)

  -- `interface_control` with the handler of a function.
  unfoldable pub interface_control :
      (Interface → Message → Device S → Option (Message × Device S))
      → Message
      → Device S
      → Option (Message × Device S)
  interface_control handler m dev =
      elim (interface_at dev.mac.active_config (low_byte m.request.w_index)) [
        | some (_, i) ↦ handler i m dev
        | none ↦ with_device dev (reject m)
      ]

  -- `none` where the search for the endpoint's interface leaves the array.
  unfoldable pub endpoint_setup_request : Message → Device S → Option (Message × Device S)
  endpoint_setup_request m dev =
      let v = dev.mac.active_config in
      elim (endpoint_at v (low_byte m.request.w_index)) [
        | some (p, ep) ↦ interface_of v p >>= λ i.
            endpoint_control_setup d i.1.function (d.ep_config_to_handle v (p, ep)) m dev
        | none ↦ with_device dev (reject m)
      ]

  unfoldable pub on_control_setup : Message → Device S → Option (Message × Device S)
  on_control_setup m dev =
      let to = id_recipient m.request.id in
      if to == recipient_code to_device
      then device_setup_request m dev
      else if to == recipient_code to_interface
      then interface_control (handle_control_setup d) m dev
      else if to == recipient_code to_endpoint
      then endpoint_setup_request m dev
      else with_device dev (reject m)

  unfoldable pub on_control_data : Message → Device S → Option (Message × Device S)
  on_control_data m dev =
      let to = id_recipient m.request.id in
      if to == recipient_code to_device
      then (if id_type m.request.id == type_code standard
          then with_device dev (confirm m)
          else or_reject dev (d.extension_control_data m dev.env))
      else if to == recipient_code to_interface
      then interface_control (handle_control_data d) m dev
      else with_device dev (confirm m)
