-- ===== src/Mac.antt =====
-- c2usb/usb/df/mac.hpp and mac.cpp: the mac's operations on its own state and on the controller.
pub mod Laws
use c2usb.Base.{
  ℕ, ◌+◌, ◌*◌, ◌/◌, ◌%◌, ◌^◌, Bool, true, false, not, ◌&&◌, Option, none, some, List, [], ◌∷◌,
  if◌then◌else◌, ◌==◌, ltb,
}
use c2usb.Config.Element.{
  PowerSource, bus, source_code, source_of_code, Power, Interface, max_power, bit,
}
use c2usb.Config.Element.{element_at, header}
use c2usb.Config.Views.{View, valid, interfaces, active_endpoints}
use c2usb.Config.Lookup.{endpoint_at, count}
use c2usb.Core.{
  PowerState, l3_off, l2_suspend, l1_sleep, l0_on, Result, operation_not_permitted,
  already_connected, not_connected, Drivers, Mac, Device,
}
use c2usb.Message.Transfer.{Transfer, is_empty}
use c2usb.Usb.Control.{Request, is_standard, set_address_code, set_feature_code, to_device}
use c2usb.Usb.EndpointAddress.{dir_out}
use c2usb.Usb.Speed.{control, packet_size_limit}

abbrev pub configured : Mac → Bool
configured m = valid m.active_config

-- `active_config().info()`, as a power word; the footer of no configuration is all zeros.
unfoldable pub config_power : View → Power
config_power v = elim (element_at v.elements 0) [ header h ↦ h.power | _ ↦ record { value = 0 } ]

unfoldable pub granted_bus_current : Mac → ℕ
unfolding max_power config_power
granted_bus_current m = elim m.power_state [
  | l3_off ↦ 0
  | l2_suspend ↦ 2500
  | _ ↦ if configured m then max_power (config_power m.active_config) * 1000 else 100000
]

unfoldable pub set_power_source : PowerSource → Mac → Mac
set_power_source src m = record m { self_powered = source_code src == source_code bus }

-- `device::power_source()`
unfoldable pub reported_power_source : Mac → PowerSource
reported_power_source m = source_of_code (bit m.self_powered)

unfoldable pub set_remote_wakeup : Bool → Mac → Mac
set_remote_wakeup enabled m = record m { remote_wakeup = enabled }

-- The bits of `standard::device::status`.
unfoldable pub std_status : Mac → ℕ
std_status m = bit m.self_powered + 2 * bit m.remote_wakeup

unfoldable pub is_power_state : PowerState → PowerState → Bool
is_power_state l3_off l3_off = true
is_power_state l2_suspend l2_suspend = true
is_power_state l1_sleep l1_sleep = true
is_power_state l0_on l0_on = true
is_power_state _ _ = false

unfoldable pub is_set_address_message : Request → Bool
is_set_address_message r = is_standard r dir_out to_device set_address_code

-- feature::TEST_MODE is 2.
unfoldable pub is_test_mode_message : Request → Bool
is_test_mode_message r = is_standard r dir_out to_device set_feature_code && (r.w_value == 2)

-- A controller whose control packets have the default size.
unfoldable pub control_in_zlp : Request → Transfer → Mac → Bool
control_in_zlp r t m = ltb t.size r.w_length && (t.size % packet_size_limit control m.speed == 0)

module _ {S : Type 0} (d : Drivers S) where
  unfoldable pub start : Device S → Device S
  start dev =
      if dev.mac.active
      then dev
      else record dev { env = d.set_attached true dev.env; mac = record dev.mac { active = true } }

  unfoldable pub stop : Device S → Device S
  stop dev =
      if dev.mac.active
      then record dev {
        env = d.set_attached false dev.env;
        mac = record dev.mac { active = false };
      }
      else dev

  unfoldable pub set_config : View → Device S → Device S
  set_config v dev =
      let notify_sof = ltb 0 (count (λ i. i.sof_notify) (interfaces v)) in
      record dev {
        env = d.allocate_endpoints (active_endpoints v) notify_sof dev.env;
        mac = record dev.mac { active_config = v };
      }

  unfoldable pub remote_wakeup : Device S → Result × Device S
  remote_wakeup dev =
      if not dev.mac.remote_wakeup
      then (operation_not_permitted, dev)
      else if is_power_state dev.mac.power_state l0_on
      then (already_connected, dev)
      else if is_power_state dev.mac.power_state l3_off
      then (not_connected, dev)
      else (let (res, env) = d.signal_remote_wakeup dev.env in (res, record dev { env = env }))

  -- The loop of `sof_trigger`.
  unfoldable pub sof_loop : List (ℕ × Interface) → S → S
  sof_loop [] s = s
  sof_loop ((_, i) ∷ r) s = sof_loop r (if i.sof_notify then d.sof_callback i s else s)

  unfoldable pub sof_trigger : Device S → Device S
  sof_trigger dev = record dev { env = sof_loop (interfaces dev.mac.active_config) dev.env }

-- `index_handle_mac` and `address_handle_mac`: the handle of an endpoint address, 0 if there is none.
unfoldable pub index_handle : Mac → ℕ → ℕ
index_handle m addr = elim (endpoint_at m.active_config addr) [ some (p, _) ↦ p % 2 ^ 8 | none ↦ 0 ]

unfoldable pub address_handle : Mac → ℕ → ℕ
address_handle m addr = if configured m then addr else 0
