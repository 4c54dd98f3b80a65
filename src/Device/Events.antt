-- ===== src/Device/Events.antt =====
-- c2usb/usb/df/device.cpp and mac.cpp: what the bus does to the device, and a control transfer whole.
pub mod Laws
use c2usb.Base.{
  ℕ, Bool, true, false, not, ◌&&◌, ◌||◌, Option, none, some, List, [], ◌∷◌, if◌then◌else◌, ◌==◌,
  ◌>>=◌,
}
use c2usb.Config.Element.{Interface, primary}
use c2usb.Config.Views.{null_view, interfaces}
use c2usb.Core.{PowerState, l3_off, l0_on, Drivers, Settings, Event, Device}
use c2usb.Device.Configuration.{select_configuration, delegate_power_event, no_event, power_event}
use c2usb.Device.Requests.{on_control_setup, on_control_data}
use c2usb.Mac.{configured, is_power_state}
use c2usb.Message.Reply.{Message, set_pending, assert_then}
use c2usb.Message.Transfer.{Transfer, no_transfer, is_empty, stalled}
use c2usb.Usb.Control.{id_direction}
use c2usb.Usb.EndpointAddress.{Direction, direction_code}

module _ {S : Type 0} (d : Drivers S) (c : Settings) where
  -- The primary interfaces' functions are told the new state.
  unfoldable pub notify_power : List (ℕ × Interface) → PowerState → Bool → S → S
  notify_power [] state wake s = s
  notify_power ((_, i) ∷ r) state wake s =
      notify_power r state wake
        (if primary i then d.power_state_change i.function state wake s else s)

  unfoldable pub on_power_state_change : PowerState → Device S → Device S
  on_power_state_change state dev =
      if is_power_state state l3_off && configured dev.mac
      then select_configuration d c null_view power_event dev
      else delegate_power_event d c power_event (record dev {
        env = notify_power (interfaces dev.mac.active_config) state dev.mac.remote_wakeup dev.env;
      })

  -- `mac::set_power_state`, of a mac that has its device.
  unfoldable pub set_power_state : PowerState → Device S → Device S
  set_power_state state dev =
      if is_power_state state dev.mac.power_state
      then dev
      else on_power_state_change state (record dev { mac = record dev.mac { power_state = state } })

  unfoldable pub on_bus_reset : Event → Device S → Device S
  on_bus_reset ev dev =
      let reset =
        if configured dev.mac
        then select_configuration d c null_view ev dev
        else if ev.power_state_change || ev.configuration_change
        then delegate_power_event d c ev dev
        else dev in
      record reset { env = d.extension_bus_reset reset.env }

  -- `mac::bus_reset`
  unfoldable pub bus_reset : Device S → Device S
  bus_reset dev =
      let ev = if is_power_state dev.mac.power_state l0_on then no_event else power_event in
      let after =
        on_bus_reset ev
          (record dev { mac = record dev.mac { remote_wakeup = false; power_state = l0_on } }) in
      record after { env = d.allocate_endpoints [] false after.env }

  -- `mac::control_ep_setup`: the message's data transfer is the result. The last assertion is on the
  -- message's pending flag.
  unfoldable pub control_ep_setup : Message → Device S → Option (Message × Device S)
  control_ep_setup m dev = on_control_setup d c (set_pending no_transfer m) dev >>= λ r.
      assert_then r.0 (not r.0.pending) (some r)

  -- `mac::control_ep_data`: the result, the message and the device.
  unfoldable pub control_ep_data :
      Direction → Transfer → Message → Device S → Option (Bool × (Message × Device S))
  control_ep_data ep_dir t m dev =
      if not (same_direction ep_dir (id_direction m.request.id))
      then some (false, (m, dev))
      else if is_empty t
      then some (true, (m, dev))
      else (on_control_data d c (set_pending t m) dev >>= λ r.
          assert_then r.0 (not r.0.pending) (some (not (stalled r.0.data_xfer), r)))
    where
      same_direction : Direction → Direction → Bool
      same_direction a b = direction_code a == direction_code b
