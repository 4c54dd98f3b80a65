-- ===== src/Config/Reverse/Laws.antt =====
-- The reverse iteration against the forward one.
use mathlib.Core.List.{append_assoc, append-nil, reverse-cons}
use native.Mathlib.Nat.{add-zero, add-suc, suc-add}
use c2usb.Base.{
  ℕ, zero, suc, ◌+◌, ◌<◌, ◌≡◌, refl, Option, none, some, List, [], ◌∷◌, ◌++◌, arith, length, drop,
  drop-suc, get_or-of_drop, All, reverse, false, get_or, ap, ◌∙◌, sym, inl, inr, Option-cases,
}
use c2usb.Config.Element.{
  Element, Header, header, interface, endpoint, footer, is_footer, is_interface, element_at,
}
use c2usb.Config.Views.{View, items, interfaces, config_size, deref}
use c2usb.Config.Spec.{within, items-eq-within}
use c2usb.Config.WellFormed.{IsItem, IsConfig, config_size-of_IsConfig}
use c2usb.Config.Reverse.{skip_back, rbegin, rnext, ritems_from, ritems, reverse_interfaces}

not_footer : (e : Element) → IsItem e → is_footer e ≡ false
unfolding is_footer
not_footer (interface i) h = refl
not_footer (endpoint e) h = refl
not_footer (header x) h = absurd h
not_footer footer h = absurd h

get_or-append_footer :
    (body : List Element) → get_or (body ++ footer ∷ []) (length body) footer ≡ footer
get_or-append_footer [] = refl
get_or-append_footer (e ∷ r) = get_or-append_footer r

module _ {ℓ} {T : Type ℓ} (test : Element → Option T) where
  -- The valid elements from number `p` down to the first behind the header.
  down : List Element → ℕ → List (ℕ × T)
  down es zero = []
  down es (suc p) =
      let rest = down es p in
      elim (test (element_at es (suc p))) [ some x ↦ (suc p, x) ∷ rest | none ↦ rest ]

  ritems_from-down :
      (v : View) (fuel p : ℕ)
      → p < fuel
      → ritems_from test v fuel (skip_back test v p) ≡ down v.elements p
  unfolding ritems_from rnext skip_back down
  ritems_from-down v zero p h = absurd (omega arith)
  ritems_from-down v (suc f) zero h = refl
  ritems_from-down v (suc f) (suc p) h =
      ground (arith, ritems_from-down v f p, ritems_from-down v (suc f) p)

  within-append_footer :
      (p : ℕ) (body : List Element)
      → test footer ≡ none
      → within test p (body ++ footer ∷ []) ≡ within test p body
  unfolding within is_footer
  within-append_footer p [] t = refl
  within-append_footer p (e ∷ r) t = ground (arith, within-append_footer (suc p) r t)

  down-cons :
      (es : List Element) (p : ℕ) (e : Element) (w : List (ℕ × T))
      → element_at es (suc p) ≡ e
      → reverse w ++ down es (suc p) ≡ reverse (deref test (suc p) (e ∷ []) w) ++ down es p
  unfolding down
  down-cons es p e w h = elim (Option-cases (test e)) [
    | inl off ↦ ground arith
    | inr on ↦ ground (
      arith,
      reverse-cons (suc p, on.0) w,
      append_assoc (reverse w) ((suc p, on.0) ∷ []) (down es p),
    )
  ]

  down-reverse_within :
      (es : List Element) (p : ℕ) (r t : List Element)
      → drop (suc p) es ≡ r ++ t
      → All IsItem r
      → down es (p + length r) ≡ reverse (within test (suc p) r) ++ down es p
  unfolding within
  down-reverse_within es p [] t h ok = rw add-zero
  down-reverse_within es p (e ∷ r) t h ok =
      let ih = down-reverse_within es (suc p) r t (drop-suc (suc p) es (r ++ t) h) ok.1 in
      let same =
        down-cons es p e (within test (suc (suc p)) r)
          (get_or-of_drop (suc p) es (r ++ t) footer h) in
      rw (not_footer e ok.0, add-suc, ← suc-add) (ih ∙ same)

  ritems-eq-down : (v : View) → ritems test v ≡ down v.elements (config_size v)
  unfolding ritems rbegin
  ritems-eq-down v = ritems_from-down v (suc (config_size v)) (config_size v) (omega arith)

  items-of_layout :
      (v : View) {h : Header} (body : List Element)
      → test footer ≡ none
      → v.elements ≡ header h ∷ (body ++ footer ∷ [])
      → items test v ≡ within test 1 body
  items-of_layout v body t e =
      items-eq-within test v
      ∙ ap (λ es. within test 1 (drop 1 es)) e
      ∙ within-append_footer 1 body t

  down-footer :
      (es : List Element) (p : ℕ)
      → test footer ≡ none
      → element_at es (suc p) ≡ footer
      → down es (suc p) ≡ down es p
  unfolding down
  down-footer es p t e = ground arith

  -- The footer is not valid, so the loop starts at the last element before it.
  down-of_layout :
      (es : List Element) {h : Header} (body : List Element)
      → test footer ≡ none
      → es ≡ header h ∷ (body ++ footer ∷ [])
      → All IsItem body
      → down es (suc (length body)) ≡ reverse (within test 1 body)
  unfolding down
  down-of_layout es {h} body t e ok =
      down-footer es (length body) t (e' ∙ get_or-append_footer body)
      ∙ ap (down es) (omega arith)
      ∙ down-reverse_within es 0 body (footer ∷ []) (ap (drop 1) e) ok
      ∙ append-nil (reverse (within test 1 body))
    where
      e' : element_at es (suc (length body)) ≡ get_or (body ++ footer ∷ []) (length body) footer
      e' = ap (λ xs. element_at xs (suc (length body))) e

  pub ritems-reverse-items :
      (v : View) {h : Header} {body : List Element}
      → test footer ≡ none
      → IsConfig v h body
      → ritems test v ≡ reverse (items test v)
  ritems-reverse-items v {body = body} t c =
      ritems-eq-down v
      ∙ ap (down v.elements) (config_size-of_IsConfig c)
      ∙ down-of_layout v.elements body t c.layout c.body_items
      ∙ sym (ap reverse (items-of_layout v body t c.layout))

-- In a configuration of the factories' shape the reverse view lists the interfaces of the forward
-- view in the opposite order: each once, with the same positions.
pub reverse_interfaces-reverse :
    (v : View) {h : Header} {body : List Element}
    → IsConfig v h body
    → reverse_interfaces v ≡ reverse (interfaces v)
unfolding reverse_interfaces interfaces is_interface
reverse_interfaces-reverse v c = ritems-reverse-items is_interface v refl c
