-- ===== src/Device/Configuration/Laws.antt =====
-- Selecting a configuration: the number that the host reads back, and which functions are active.
use c2usb.Base.{
  ℕ, zero, suc, ◌+◌, ◌-◌, ◌%◌, ◌^◌, ◌<◌, ◌≡◌, refl, ap, ◌∙◌, arith, Bool, true, not, ◌&&◌, some,
  List, [], ◌∷◌, ◌==◌, length, Bool-cases, inl, inr,
}
use c2usb.Config.Element.{Interface, primary}
use c2usb.Config.Views.{View, valid, interfaces}
use c2usb.Config.Reverse.{reverse_interfaces}
use c2usb.Core.{Drivers, Settings, Event, Mac, Device}
use c2usb.Device.Configuration.{
  nth_view, config_number, configs_by_speed, deinit_all, init_all, select_configuration,
}
use c2usb.Function.{init, deinit}
use c2usb.Mac.{set_config}
use c2usb.Message.Reply.{Message}

-- No view before number `n` has the address of view `n`.
unfoldable pub is_first : List View → ℕ → Bool
is_first [] n = true
is_first (v ∷ r) zero = true
is_first (v ∷ r) (suc n) = not (v.ptr == (nth_view r n).ptr) && is_first r n

pub config_number-nth :
    (views : List View) (n index : ℕ)
    → n < length views
    → n + index + 1 < 2 ^ 8
    → is_first views n ≡ true
    → config_number views (nth_view views n).ptr index ≡ some (n + index + 1)
unfolding config_number is_first
config_number-nth [] n index h b f = absurd (omega arith)
config_number-nth (v ∷ r) zero index h b f = ground arith
config_number-nth (v ∷ r) (suc n) index h b f =
    ground (arith, config_number-nth r n ((index + 1) % 2 ^ 8))

-- The configuration with number `n`, counted from 0, can be told from those before it by its address,
-- and its number from 1 on is a byte.
pub record IsSelectable (views : List View) (n : ℕ) : Type 0 where
  pub in_list : n < length views
  pub small : n < 2 ^ 8 - 1
  pub first : is_first views n ≡ true
  pub is_config : valid (nth_view views n) ≡ true

module _ {S : Type 0} (d : Drivers S) (c : Settings) where
  deinit-kept :
      (i : Interface) (dev : Device S)
      → ((deinit d i dev).mac ≡ dev.mac) × ((deinit d i dev).configs_store ≡ dev.configs_store)
  unfolding deinit
  deinit-kept i dev = elim (Bool-cases (primary i)) [
    | inl first ↦ rw first (refl, refl)
    | inr later ↦ rw later (refl, refl)
  ]

  deinit_all-kept :
      (l : List (ℕ × Interface)) (dev : Device S)
      → ((deinit_all d c l dev).mac ≡ dev.mac)
        × ((deinit_all d c l dev).configs_store ≡ dev.configs_store)
  unfolding deinit_all
  deinit_all-kept [] dev = (refl, refl)
  deinit_all-kept ((p, i) ∷ l) dev =
      let (rest_mac, rest_store) = deinit_all-kept l (deinit d i dev) in
      let (mac, store) = deinit-kept i dev in (rest_mac ∙ mac, rest_store ∙ store)

  init_all-kept :
      (l : List (ℕ × Interface)) (dev : Device S)
      → ((init_all d c l dev).mac ≡ dev.mac)
        × ((init_all d c l dev).configs_store ≡ dev.configs_store)
  unfolding init_all init
  init_all-kept [] dev = (refl, refl)
  init_all-kept ((p, i) ∷ l) dev = init_all-kept l (init d i dev)

  -- Selecting a configuration changes nothing else of the mac, nor the lists of configurations.
  pub select_configuration-kept :
      (v : View) (ev : Event) (dev : Device S)
      → let dev' = select_configuration d c v ev dev in
        (dev'.mac ≡ record dev.mac { active_config = v }) × (dev'.configs_store ≡ dev.configs_store)
  unfolding select_configuration set_config
  select_configuration-kept v ev dev =
      let (mac, store) = deinit_all-kept (reverse_interfaces dev.mac.active_config) dev in
      let (mac', store') = init_all-kept (interfaces v) _ in (mac' ∙ ap select mac, store' ∙ store)
    where
      select : Mac → Mac
      select m = record m { active_config = v }

  pub configs_by_speed-kept :
      (dev dev' : Device S) {v : View}
      → dev'.mac ≡ record dev.mac { active_config = v }
      → dev'.configs_store ≡ dev.configs_store
      → configs_by_speed d c dev' dev'.mac.speed ≡ configs_by_speed d c dev dev.mac.speed
  unfolding configs_by_speed
  configs_by_speed-kept dev dev' mac store = rw (store, ap (λ x. x.speed) mac) refl
