-- ===== src/Config/Reverse.antt =====
-- c2usb/usb/df/config.hpp, `view_base::reverse_view`: iteration from the footer back to the header.
pub mod Laws
use c2usb.Base.{
  ℕ, zero, suc, Bool, true, false, Option, none, some, List, [], ◌∷◌, if◌then◌else◌, ◌==◌,
}
use c2usb.Config.Element.{Element, Interface, is_interface, is_valid, element_at}
use c2usb.Config.Views.{View, config_size}

module _ {ℓ} {T : Type ℓ} (test : Element → Option T) where
  -- `skip_position` until it fails: the position stays above the header while it is not valid.
  unfoldable pub skip_back : View → ℕ → ℕ
  skip_back v zero = zero
  skip_back v (suc p) =
      let before = skip_back v p in
      if is_valid (test (element_at v.elements (suc p))) then suc p else before

  -- The iterator's constructor, at the footer.
  unfoldable pub rbegin : View → ℕ
  unfolding skip_back
  rbegin v = skip_back v (config_size v)

  -- `operator++`: one step back, then on to a valid position.
  unfoldable pub rnext : View → ℕ → ℕ
  unfolding skip_back
  rnext v zero = zero
  rnext v (suc p) = skip_back v p

  -- The loop until the header, with fuel.
  unfoldable pub ritems_from : View → ℕ → ℕ → List (ℕ × T)
  unfolding rnext
  ritems_from v zero p = []
  ritems_from v (suc fuel) p =
      let rest = ritems_from v fuel (rnext v p) in
      if p == 0
      then []
      else elim (test (element_at v.elements p)) [ some x ↦ (p, x) ∷ rest | none ↦ rest ]

  unfoldable pub ritems : View → List (ℕ × T)
  unfolding rbegin ritems_from
  ritems v = ritems_from v (suc (config_size v)) (rbegin v)

-- `interfaces().reverse()`.
unfoldable pub reverse_interfaces : View → List (ℕ × Interface)
unfolding ritems is_interface
reverse_interfaces v = ritems is_interface v
