-- ===== src/Device/Events/Laws.antt =====
-- What a bus reset and the loss of power leave behind.
use c2usb.Base.{
  ◌<◌, ◌≤◌, ◌^◌, ◌≡◌, arith, refl, Bool, true, false, ◌||◌, Ensures, Bool-cases, inl, inr,
  if◌then◌else◌,
}
use c2usb.Config.Views.{View, null_view, valid}
use c2usb.Core.{l3_off, l0_on, Drivers, Settings, Event, Mac, Device}
use c2usb.Device.Configuration.{select_configuration, delegate_power_event}
use c2usb.Device.Configuration.Laws.{select_configuration-kept}
use c2usb.Device.Events.{
  on_power_state_change, set_power_state, on_bus_reset, bus_reset, control_ep_setup,
}
use c2usb.Device.Requests.{set_address}
use c2usb.Mac.{configured, is_power_state}
use c2usb.Message.Reply.{Message, confirm, set_pending}
use c2usb.Message.Reply.Laws.{IsReply, confirm-Answers}
use c2usb.Usb.Control.{low_byte, is_standard, to_device, get_descriptor_code}
use c2usb.Usb.EndpointAddress.{dir_in}
use c2usb.Function.Laws.{OverridesReply, IsFresh, Replies}
use c2usb.Device.Requests.Laws.{ExtensionReplies, IsServed, on_control_setup-Replies}
use c2usb.Message.Buffer.{clear}
use c2usb.Message.Buffer.Laws.{IsValid}
use c2usb.Message.Transfer.{no_transfer}

null_invalid : valid null_view ≡ false
unfolding valid
null_invalid = refl

-- The second mac has no configuration, and is the first one but for that.
abbrev pub Unconfigured : Mac → Mac → Type 0
Unconfigured m m' = (v : View) × (valid v ≡ false) × (m' ≡ record m { active_config = v })

module _ {S : Type 0} (d : Drivers S) (c : Settings) where
  clears :
      (ev : Event) (dev : Device S)
      → Unconfigured dev.mac (select_configuration d c null_view ev dev).mac
  clears ev dev = (null_view, null_invalid, (select_configuration-kept d c null_view ev dev).0)

  on_bus_reset-mac :
      (ev : Event) (dev : Device S) → Unconfigured dev.mac (on_bus_reset d c ev dev).mac
  unfolding on_bus_reset
  on_bus_reset-mac ev dev = elim (Bool-cases (configured dev.mac)) [
    | inl on ↦ rw (on_bus_reset, on) (clears ev dev)
    | inr off ↦ (
      dev.mac.active_config,
      off,
      rw (on_bus_reset, off) (same (ev.power_state_change || ev.configuration_change)),
    )
  ]
    where
      same : (b : Bool) → (if b then delegate_power_event d c ev dev else dev).mac ≡ dev.mac
      same true = refl
      same false = refl

  -- After a bus reset no configuration is active, remote wakeup is disabled and the bus is on; the rest of the mac
  -- is as it was.
  pub bus_reset_lem :
      (dev : Device S)
      → Unconfigured
          (record dev.mac { remote_wakeup = false; power_state = l0_on })
          (bus_reset d c dev).mac
  unfolding bus_reset
  bus_reset_lem dev = on_bus_reset-mac _ _

  -- After a bus reset the device confirms a pending SET_ADDRESS with index and length 0, for each
  -- address below 128.
  pub bus_reset-set_address :
      (m : Message) (dev : Device S)
      → m.pending ≡ true
      → m.request.w_index ≡ 0
      → m.request.w_length ≡ 0
      → low_byte m.request.w_value < 128
      → (set_address d c m (bus_reset d c dev) ≡ confirm m) × Ensures (IsReply m) (confirm m)
  unfolding set_address
  bus_reset-set_address m dev p wi wl addr =
      let (v, off, mac) = bus_reset_lem dev in
      (rw (mac, off, wi, wl) (ground arith), (confirm-Answers true m p).0)

  -- When the bus loses power in another power state, the configuration is cleared and the state is off.
  pub set_power_state-off :
      (dev : Device S)
      → is_power_state l3_off dev.mac.power_state ≡ false
      → Unconfigured (record dev.mac { power_state = l3_off }) (set_power_state d c l3_off dev).mac
  unfolding set_power_state on_power_state_change is_power_state
  set_power_state-off dev on = elim (Bool-cases (configured dev.mac)) [
    | inl was ↦ rw (on, was) (clears _ _)
    | inr was ↦ rw (on, was) (dev.mac.active_config, was, refl)
  ]

  -- A whole setup stage: under the same conditions on the overrides, the extension and the device, and
  -- whatever state the last transfer left the message in, a request other than GET_DESCRIPTOR gets an
  -- answer with a buffer of at least eight bytes, and no assertion fails, that of the mac included.
  pub control_ep_setup-Replies :
      (m : Message) (dev : Device S)
      → is_standard m.request dir_in to_device get_descriptor_code ≡ false
      → OverridesReply d
      → ExtensionReplies d
      → IsValid m.buffer
      → m.buffer.size < 2 ^ 16
      → 8 ≤ m.buffer.size
      → IsServed d c dev
      → Replies (set_pending no_transfer m) (control_ep_setup d c m dev)
  unfolding control_ep_setup set_pending clear
  control_ep_setup-Replies m dev other overrides extension whole small room served =
      let fresh : IsFresh (set_pending no_transfer m) = record {
        pending = refl;
        buffer = record { present = whole.present; room = whole.room; within = omega arith };
        unused = refl;
        small = small;
        room = room;
      } in
      let ((m', dev'), e, reply) =
        on_control_setup-Replies d c (set_pending no_transfer m) dev other overrides extension fresh
          served in
      ((m', dev'), rw (e, reply.answered) refl, reply)
