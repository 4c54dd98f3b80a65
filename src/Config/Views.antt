-- ===== src/Config/Views.antt =====
-- c2usb/usb/df/config.hpp, `view_base` and the views over it: iteration from the header on.
use c2usb.Base.{
  ℕ, zero, suc, Bool, true, false, not, ◌||◌, Option, none, some, List, [], ◌∷◌, if◌then◌else◌,
  ◌==◌, drop, length,
}
use c2usb.Config.Element.{
  Element, Interface, Endpoint, header, is_interface, is_endpoint, is_active_endpoint, is_footer,
  is_valid, element_at,
}

-- `view`: the address of the array, by which views are compared, and its elements. The null view has
-- address 0 and no elements.
pub record View : Type 0 where
  pub ptr : ℕ
  pub elements : List Element

abbrev pub null_view : View
null_view = record { ptr = 0; elements = [] }

-- `info().config_size()`; the footer that the null view reads is all zeros.
unfoldable pub config_size : View → ℕ
config_size v = elim (element_at v.elements 0) [ header h ↦ h.config_size | _ ↦ 0 ]

unfoldable pub valid : View → Bool
unfolding config_size
valid v = not (config_size v == 0)

-- A forward iterator: the number of its element, and the elements from there on.
pub record Iterator : Type 0 where
  pub pos : ℕ
  pub rest : List Element

abbrev pub at_footer : List Element → Bool
at_footer [] = true
at_footer (e ∷ _) = is_footer e

module _ {ℓ} {T : Type ℓ} (test : Element → Option T) where
  -- The loop that skips positions that are neither valid nor the footer.
  unfoldable pub skip : ℕ → List Element → Iterator
  skip p [] = record { pos = p; rest = [] }
  skip p (e ∷ r) = elim (is_valid (test e) || is_footer e) [
    | true ↦ record { pos = p; rest = e ∷ r }
    | false ↦ skip (suc p) r
  ]

  unfoldable pub begin : View → Iterator
  unfolding skip
  begin v = skip 1 (drop 1 v.elements)

  -- `operator++` where CONTINUE_ON_INVALID.
  unfoldable pub next : Iterator → Iterator
  unfolding skip
  next it = skip (suc it.pos) (drop 1 it.rest)

  -- `operator*`: the element as the view's type, with its number as its address.
  abbrev pub deref : ℕ → List Element → List (ℕ × T) → List (ℕ × T)
  deref p [] items = items
  deref p (e ∷ r) items = elim (test e) [ some x ↦ (p, x) ∷ items | none ↦ items ]

  -- The range-based for loop over the view, with fuel.
  unfoldable pub items_from : ℕ → Iterator → List (ℕ × T)
  unfolding next
  items_from zero it = []
  items_from (suc fuel) it =
      let rest = items_from fuel (next it) in
      if at_footer it.rest then [] else deref it.pos it.rest rest

  -- A loop makes at most one round for each element.
  unfoldable pub items : View → List (ℕ × T)
  unfolding begin items_from
  items v = items_from (length v.elements) (begin v)

-- `interfaces()`, `endpoints()` and `active_endpoints()`.
unfoldable pub interfaces : View → List (ℕ × Interface)
unfolding items is_interface is_footer
interfaces v = items is_interface v

unfoldable pub endpoints : View → List (ℕ × Endpoint)
unfolding items is_endpoint is_footer
endpoints v = items is_endpoint v

unfoldable pub active_endpoints : View → List (ℕ × Endpoint)
unfolding items is_active_endpoint is_footer
active_endpoints v = items is_active_endpoint v
