-- ===== src/Device/Configuration.antt =====
-- c2usb/usb/df/device.hpp and device.cpp: the configuration lists, and selecting a configuration.
pub mod Laws
pub mod Bound
use c2usb.Base.{
  ℕ, ◌+◌, ◌-◌, ◌%◌, ◌^◌, Bool, true, false, not, ◌||◌, Option, none, some, List, [], ◌∷◌,
  if◌then◌else◌, ◌==◌, get_or,
}
use c2usb.Config.Element.{Interface}
use c2usb.Config.Views.{View, null_view, valid, interfaces}
use c2usb.Config.Reverse.{reverse_interfaces}
use c2usb.Core.{Drivers, Settings, Event, Mac, Device, with_device}
use c2usb.Function.{init, deinit, update}
use c2usb.Mac.{configured, set_config}
use c2usb.Message.Reply.{Message, assert_then, confirm, reject, send_value}
use c2usb.Usb.Control.{low_byte}
use c2usb.Usb.Speed.{Speed, offset}

-- `view_list::operator[]`, of the array up to its terminating null: past the end it is the null view.
abbrev pub nth_view : List View → ℕ → View
nth_view views n = get_or views n null_view

-- The loop of `get_configuration`: the number of the configuration at the address, counted as uint8_t.
unfoldable pub config_number : List View → ℕ → ℕ → Option ℕ
config_number [] ptr index = none
config_number (v ∷ r) ptr index =
    let rest = config_number r ptr ((index + 1) % 2 ^ 8) in
    if v.ptr == ptr then some ((index + 1) % 2 ^ 8) else rest

abbrev pub event_or : Event → Event → Event
event_or a b = record {
  power_state_change = a.power_state_change || b.power_state_change;
  configuration_change = a.configuration_change || b.configuration_change;
}

abbrev pub no_event : Event
no_event = record { power_state_change = false; configuration_change = false }

abbrev pub power_event : Event
power_event = record { power_state_change = true; configuration_change = false }

abbrev pub configuration_event : Event
configuration_event = record { power_state_change = false; configuration_change = true }

module _ {S : Type 0} (d : Drivers S) (c : Settings) where
  -- `device_instance::configs_by_speed`: the extension's list comes before the device's own.
  unfoldable pub configs_by_speed : Device S → Speed → List View
  configs_by_speed dev s = elim (d.extension_configs s) [
    | [] ↦ dev.configs_store (offset c.speeds s)
    | v ∷ r ↦ v ∷ r
  ]

  unfoldable pub deinit_all : List (ℕ × Interface) → Device S → Device S
  deinit_all [] dev = dev
  deinit_all ((_, i) ∷ r) dev = deinit_all r (deinit d i dev)

  unfoldable pub init_all : List (ℕ × Interface) → Device S → Device S
  init_all [] dev = dev
  init_all ((_, i) ∷ r) dev = init_all r (init d i dev)

  abbrev pub delegate_power_event : Event → Device S → Device S
  delegate_power_event ev dev = record dev { env = d.power_event ev dev.env }

  -- `set_configuration(config::view, event)`
  unfoldable pub select_configuration : View → Event → Device S → Device S
  select_configuration v ev dev =
      let stopped = deinit_all (reverse_interfaces dev.mac.active_config) dev in
      let selected =
        delegate_power_event (event_or ev configuration_event) (set_config d v stopped) in
      init_all (interfaces selected.mac.active_config) selected

  -- `set_configuration(message&)`
  unfoldable pub set_configuration : Message → Device S → Option (Message × Device S)
  set_configuration m dev =
      let config_index = low_byte m.request.w_value in
      let chosen = nth_view (configs_by_speed dev dev.mac.speed) (config_index - 1) in
      if config_index == 0
      then with_device (select_configuration null_view configuration_event dev) (confirm m)
      else if valid chosen
      then with_device (select_configuration chosen configuration_event dev) (confirm m)
      else with_device dev (reject m)

  unfoldable pub get_configuration : Message → Device S → Option Message
  get_configuration m dev =
      if configured dev.mac
      then elim (config_number (configs_by_speed dev dev.mac.speed) dev.mac.active_config.ptr 0) [
        | some n ↦ send_value 1 n m
        | none ↦ assert_then m false (send_value 4 0 m)
      ]
      else send_value 4 0 m
