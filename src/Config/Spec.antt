-- ===== src/Config/Spec.antt =====
-- What a view shows: the elements between the header and the footer that pass its test, in order,
-- each with its number.
use c2usb.Base.{
  ℕ, zero, suc, ◌≤◌, ◌≡◌, refl, Option, List, [], ◌∷◌, arith, if◌then◌else◌, length, length-drop,
  drop,
}
use c2usb.Config.Element.{Element, is_footer}
use c2usb.Config.Views.{View, skip, begin, next, deref, items_from, items}

module _ {ℓ} {T : Type ℓ} (test : Element → Option T) where
  unfoldable pub within : ℕ → List Element → List (ℕ × T)
  within p [] = []
  within p (e ∷ r) =
      let rest = within (suc p) r in if is_footer e then [] else deref test p (e ∷ r) rest

  items_from-within :
      (fuel p : ℕ) (r : List Element)
      → length r ≤ fuel
      → items_from test fuel (skip test p r) ≡ within p r
  unfolding items_from skip within next
  items_from-within zero p [] h = refl
  items_from-within (suc f) p [] h = refl
  items_from-within zero p (e ∷ r) h = absurd (omega arith)
  items_from-within (suc f) p (e ∷ r) h =
      ground (arith, items_from-within f (suc p) r, items_from-within (suc f) (suc p) r)

  -- Iterating over a view from `begin()` to `end()` visits the elements behind the header up to the first
  -- footer that pass the view's test: each once, in order, with its position.
  pub items-eq-within : (v : View) → items test v ≡ within 1 (drop 1 v.elements)
  unfolding items begin
  items-eq-within v =
      items_from-within (length v.elements) 1 (drop 1 v.elements)
        (omega (arith, length-drop 1 v.elements))
