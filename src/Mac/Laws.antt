-- ===== src/Mac/Laws.antt =====
-- What the mac reports and grants.
use c2usb.Base.{
  ◌*◌, ◌≡◌, refl, ◌∙◌, arith, true, false, ◌⊎◌, inl, inr, Bool-cases, if◌then◌else◌, List, ◌∷◌,
}
use c2usb.Config.Element.{bus, device, max_power, element_at, header, Header, Element}
use c2usb.Config.Views.{View, null_view, valid}
use c2usb.Config.WellFormed.{IsConfig, config_size-of_IsConfig}
use c2usb.Core.{
  PowerState, l3_off, l2_suspend, l1_sleep, l0_on, operation_not_permitted, Drivers, Mac, Device,
}
use c2usb.Mac.{
  configured, config_power, granted_bus_current, set_power_source, reported_power_source,
  is_power_state, remote_wakeup,
}

-- The power source that the device reports after it is set is the other one.
pub reported_power_source-set :
    (m : Mac)
    → (reported_power_source (set_power_source bus m) ≡ device)
      × (reported_power_source (set_power_source device m) ≡ bus)
unfolding reported_power_source set_power_source
reported_power_source-set m = (refl, refl)

power_of_elements :
    (es : List Element) {h : Header} {r : List Element}
    → es ≡ header h ∷ r
    → (elim (element_at es 0) [ header h ↦ h.power | _ ↦ record { value = 0 } ]) ≡ h.power
power_of_elements es e = rw e

config_power-of_IsConfig :
    {v : View} {h : Header} {body : List Element} → IsConfig v h body → config_power v ≡ h.power
unfolding config_power
config_power-of_IsConfig c = power_of_elements _ c.layout

valid-of_IsConfig :
    {v : View} {h : Header} {body : List Element} → IsConfig v h body → valid v ≡ true
unfolding valid
valid-of_IsConfig c = ground (arith, config_size-of_IsConfig c)

null_invalid : valid null_view ≡ false
unfolding valid
null_invalid = refl

granted_while_on :
    (m : Mac) (s : PowerState)
    → (s ≡ l0_on) ⊎ (s ≡ l1_sleep)
    → m.power_state ≡ s
    → granted_bus_current m
      ≡ (if configured m then max_power (config_power m.active_config) * 1000 else 100000)
unfolding granted_bus_current
granted_while_on m s (inl on) e = rw (e, on) refl
granted_while_on m s (inr asleep) e = rw (e, asleep) refl

-- While on or asleep the device may draw the maximum of its active configuration, in microamperes, and 100 mA
-- without a configuration; suspended it may draw 2.5 mA with either, and nothing when off.
pub granted_bus_current_lem :
    (m : Mac) {h : Header} {body : List Element}
    → IsConfig m.active_config h body
    → ((m.power_state ≡ l0_on) ⊎ (m.power_state ≡ l1_sleep)
        → (granted_bus_current m ≡ max_power h.power * 1000)
          × (granted_bus_current (record m { active_config = null_view }) ≡ 100000))
      × (m.power_state ≡ l2_suspend
          → (granted_bus_current m ≡ 2500)
            × (granted_bus_current (record m { active_config = null_view }) ≡ 2500))
      × (m.power_state ≡ l3_off → granted_bus_current m ≡ 0)
unfolding granted_bus_current
granted_bus_current_lem m c = (
  λ on. (
    granted_while_on m m.power_state on refl
        ∙ rw (valid-of_IsConfig c, config_power-of_IsConfig c) refl,
    granted_while_on (record m { active_config = null_view }) m.power_state on refl
        ∙ rw null_invalid refl,
  ),
  λ e. (rw e refl, rw e refl),
  λ e. rw e refl,
)

module _ {S : Type 0} (d : Drivers S) where
  -- What the outcome has to be for each setting of the flag and each power state.
  pub Signals : Device S → Type 0
  Signals dev =
      ((dev.mac.power_state ≡ l2_suspend) ⊎ (dev.mac.power_state ≡ l1_sleep))
      × (remote_wakeup d dev ≡ (
        (d.signal_remote_wakeup dev.env).0,
        record dev { env = (d.signal_remote_wakeup dev.env).1 },
      ))

  pub Refuses : Device S → Type 0
  Refuses dev =
      ((remote_wakeup d dev).1 ≡ dev)
      × ((dev.mac.power_state ≡ l0_on) ⊎ (dev.mac.power_state ≡ l3_off))

  remote_wakeup_state :
      (dev : Device S) (s : PowerState)
      → dev.mac.remote_wakeup ≡ true
      → dev.mac.power_state ≡ s
      → Signals dev ⊎ Refuses dev
  unfolding remote_wakeup is_power_state Signals Refuses
  remote_wakeup_state dev l3_off w e = inr (rw (w, e) refl, inr e)
  remote_wakeup_state dev l2_suspend w e = inl (inl e, rw (w, e) refl)
  remote_wakeup_state dev l1_sleep w e = inl (inr e, rw (w, e) refl)
  remote_wakeup_state dev l0_on w e = inr (rw (w, e) refl, inl e)

  -- If the host enabled remote wakeup, the controller signals it where the bus is suspended or asleep, and nothing
  -- changes where it is on or off; if the host did not, nothing changes and the error is "operation not permitted".
  pub remote_wakeup_lem :
      (dev : Device S)
      → ((dev.mac.remote_wakeup ≡ true) × (Signals dev ⊎ Refuses dev))
        ⊎ ((dev.mac.remote_wakeup ≡ false) × (remote_wakeup d dev ≡ (operation_not_permitted, dev)))
  unfolding remote_wakeup
  remote_wakeup_lem dev = elim (Bool-cases dev.mac.remote_wakeup) [
    | inl w ↦ inl (w, remote_wakeup_state dev dev.mac.power_state w refl)
    | inr w ↦ inr (w, rw w refl)
  ]
