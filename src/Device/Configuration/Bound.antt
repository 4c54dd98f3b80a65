-- ===== src/Device/Configuration/Bound.antt =====
-- Which functions are bound to the mac once a configuration is selected.
use c2usb.Base.{
  ℕ, ◌≡◌, refl, Bool, true, false, List, [], ◌∷◌, ◌==◌, ==_iff, All, Bool-cases, inl, inr,
}
use c2usb.Config.Element.{Interface, primary}
use c2usb.Config.Reverse.{reverse_interfaces}
use c2usb.Config.Views.{View, null_view, interfaces}
use c2usb.Core.{Drivers, Settings, Event, Device}
use c2usb.Device.Configuration.{deinit_all, init_all, select_configuration}
use c2usb.Function.{init, deinit, update}
use c2usb.Mac.{set_config}

update_keeps : (f g : ℕ) (x : Bool) (bound : ℕ → Bool) → bound g ≡ x → update f x bound g ≡ x
update_keeps f g x bound h = elim (Bool-cases (g == f)) [ inl e ↦ rw e refl | inr e ↦ rw e h ]

update_self : (f : ℕ) (x : Bool) (bound : ℕ → Bool) → update f x bound f ≡ x
update_self f x bound = rw ((==_iff f f).1 refl) refl

module _ {S : Type 0} (d : Drivers S) (c : Settings) where
  init_all-keeps :
      (l : List (ℕ × Interface)) (dev : Device S) (f : ℕ)
      → dev.bound f ≡ true
      → (init_all d c l dev).bound f ≡ true
  unfolding init_all init
  init_all-keeps [] dev f h = h
  init_all-keeps ((p, i) ∷ l) dev f h =
      init_all-keeps l (init d i dev) f (update_keeps i.function f true dev.bound h)

  init_all-bound :
      (l : List (ℕ × Interface)) (dev : Device S)
      → All (λ x. (init_all d c l dev).bound x.1.function ≡ true) l
  unfolding init_all init
  init_all-bound [] dev = tt
  init_all-bound ((p, i) ∷ l) dev = (
    init_all-keeps l (init d i dev) i.function (update_self i.function true dev.bound),
    init_all-bound l (init d i dev),
  )

  -- Once a configuration is selected, the functions of all of its interfaces are bound to the mac.
  pub select_configuration-bound :
      (v : View) (ev : Event) (dev : Device S)
      → All (λ x. (select_configuration d c v ev dev).bound x.1.function ≡ true) (interfaces v)
  unfolding select_configuration set_config
  select_configuration-bound v ev dev = init_all-bound (interfaces v) _

  deinit-unbinds :
      (i : Interface) (dev : Device S) (f : ℕ)
      → (dev.bound f ≡ false → (deinit d i dev).bound f ≡ false)
        × (primary i ≡ true → (deinit d i dev).bound i.function ≡ false)
  unfolding deinit
  deinit-unbinds i dev f = (
    λ h. elim (Bool-cases (primary i)) [
      | inl e ↦ rw e (update_keeps i.function f false dev.bound h)
      | inr e ↦ rw e h
    ],
    λ e. rw e (update_self i.function false dev.bound),
  )

  deinit_all-keeps :
      (l : List (ℕ × Interface)) (dev : Device S) (f : ℕ)
      → dev.bound f ≡ false
      → (deinit_all d c l dev).bound f ≡ false
  unfolding deinit_all
  deinit_all-keeps [] dev f h = h
  deinit_all-keeps ((p, i) ∷ l) dev f h =
      deinit_all-keeps l (deinit d i dev) f ((deinit-unbinds i dev f).0 h)

  deinit_all-unbound :
      (l : List (ℕ × Interface)) (dev : Device S)
      → All (λ x. primary x.1 ≡ true → (deinit_all d c l dev).bound x.1.function ≡ false) l
  unfolding deinit_all
  deinit_all-unbound [] dev = tt
  deinit_all-unbound ((p, i) ∷ l) dev = (
    λ first.
        deinit_all-keeps l (deinit d i dev) i.function ((deinit-unbinds i dev i.function).1 first),
    deinit_all-unbound l (deinit d i dev),
  )

  -- Once the configuration is cleared, a function with a primary interface in the configuration that
  -- was active is bound no more.
  pub select_configuration-unbound :
      (ev : Event) (dev : Device S)
      → All
          (λ x.
            primary x.1 ≡ true
            → (select_configuration d c null_view ev dev).bound x.1.function ≡ false)
          (reverse_interfaces dev.mac.active_config)
  unfolding select_configuration set_config init_all interfaces
  select_configuration-unbound ev dev =
      deinit_all-unbound (reverse_interfaces dev.mac.active_config) dev
