-- ===== src/Device/Requests/Served.antt =====
-- Selecting a configuration leaves a device that can serve the requests for it.
use mathlib.Core.Path.{subst}
use c2usb.Base.{
  ℕ, zero, suc, ◌+◌, ◌≡◌, sym, ap, ap₂, ◌∙◌, arith, true, some, List, [], ◌∷◌, All, Ensures,
  some-injective,
}
use c2usb.Config.Element.{Interface}
use c2usb.Config.Lookup.{interface_at, interface_from, interface_of}
use c2usb.Config.Views.{View, interfaces, endpoints}
use c2usb.Core.{Drivers, Settings, Event, Device}
use c2usb.Device.Configuration.{configs_by_speed, nth_view, config_number, select_configuration}
use c2usb.Device.Configuration.Bound.{select_configuration-bound}
use c2usb.Device.Configuration.Laws.{
  IsSelectable, config_number-nth, configs_by_speed-kept, select_configuration-kept,
}
use c2usb.Device.Requests.Laws.{IsServed}

-- The search for an endpoint's interface ends at one of the view's interfaces.
abbrev pub HasInterfaces : View → Type 0
HasInterfaces v =
    All (λ x. Ensures (λ i. (k : ℕ) × (interface_at v k ≡ some i)) (interface_of v x.0))
      (endpoints v)

interface_from-All {ℓ} :
    (P : ℕ × Interface → Type ℓ) (l : List (ℕ × Interface)) (k : ℕ) (x : ℕ × Interface)
    → All P l
    → interface_from l k ≡ some x
    → P x
unfolding interface_from
interface_from-All P [] k x h e = absurd (cc e)
interface_from-All P (y ∷ l) zero x h e = subst P (some-injective e) h.0
interface_from-All P (y ∷ l) (suc k) x h e = interface_from-All P l k x h.1 e

All-map {ℓ κ μ} :
    {A : Type ℓ} (P : A → Type κ) (Q : A → Type μ) (l : List A)
    → ((x : A) → P x → Q x)
    → All P l
    → All Q l
All-map P Q [] f h = tt
All-map P Q (x ∷ l) f h = (f x h.0, All-map P Q l f h.1)

module _ {S : Type 0} (d : Drivers S) (c : Settings) where
  -- Once a configuration of the current speed is selected, whose endpoints all stand behind an interface of it, the
  -- device serves the requests for it: the endpoints' functions are bound and the configuration's number is known.
  pub select_configuration-IsServed :
      (n : ℕ) (ev : Event) (dev : Device S)
      → let v = nth_view (configs_by_speed d c dev dev.mac.speed) n in
        IsSelectable (configs_by_speed d c dev dev.mac.speed) n
        → HasInterfaces v
        → IsServed d c (select_configuration d c v ev dev)
  unfolding interface_at
  select_configuration-IsServed n ev dev ok own =
      let views = configs_by_speed d c dev dev.mac.speed in
      let v = nth_view views n in
      let dev' = select_configuration d c v ev dev in
      let (mac, store) = select_configuration-kept d c v ev dev in
      let active : dev'.mac.active_config ≡ v = ap (λ x. x.active_config) mac in
      record {
        endpoints_bound =
            subst
              (λ w.
                All (λ x. Ensures (λ i. dev'.bound i.1.function ≡ true) (interface_of w x.0))
                  (endpoints w))
              (sym active)
              (All-map _ _ (endpoints v)
                (λ x (i, at, (k, e)). (
                  i,
                  at,
                  interface_from-All (λ i. dev'.bound i.1.function ≡ true) (interfaces v) k i
                      (select_configuration-bound d c v ev dev) e,
                ))
                own);
        config_known = λ _. (
          n + 0 + 1,
          ap₂ (λ l w. config_number l w.ptr 0) (configs_by_speed-kept d c dev dev' mac store) active
              ∙ config_number-nth views n 0 ok.in_list (omega (arith, ok.small)) ok.first,
          omega (arith, ok.small),
        );
      }
