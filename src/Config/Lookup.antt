-- ===== src/Config/Lookup.antt =====
-- c2usb/usb/df/config.hpp and config.cpp: looking elements up through the views, and the steps from an
-- interface to its endpoints and from an endpoint back to its interface.
pub mod Laws
use c2usb.Base.{
  ℕ, zero, suc, ◌+◌, ◌-◌, ◌%◌, ◌^◌, Bool, true, false, Option, none, some, List, [], ◌∷◌,
  if◌then◌else◌, ◌==◌, length, drop,
}
use c2usb.Config.Element.{
  Element, Interface, Endpoint, is_interface, is_endpoint, is_footer, is_valid, element_at,
}
use c2usb.Config.Views.{View, interfaces, endpoints}

-- `count(p)`, a loop over a view.
unfoldable pub count {ℓ} : {T : Type ℓ} → (T → Bool) → List (ℕ × T) → ℕ
count p [] = 0
count p ((_, x) ∷ r) = (if p x then 1 else 0) + count p r

-- The loop of `interface_view::operator[]`; `none` is the footer.
unfoldable pub interface_from : List (ℕ × Interface) → ℕ → Option (ℕ × Interface)
interface_from [] n = none
interface_from (i ∷ r) zero = some i
interface_from (i ∷ r) (suc n) = interface_from r n

unfoldable pub interface_at : View → ℕ → Option (ℕ × Interface)
unfolding interface_from
interface_at v n = interface_from (interfaces v) n

-- The loop of `endpoint_view_base::at`; `none` is the footer.
unfoldable pub endpoint_from : List (ℕ × Endpoint) → ℕ → Option (ℕ × Endpoint)
endpoint_from [] addr = none
endpoint_from ((p, ep) ∷ r) addr = if ep.address == addr then some (p, ep) else endpoint_from r addr

unfoldable pub endpoint_at : View → ℕ → Option (ℕ × Endpoint)
unfolding endpoint_from
endpoint_at v addr = endpoint_from (endpoints v) addr

-- `endpoint_view_base::indexof`: an endpoint's distance from the header, as endpoint::index.
unfoldable pub indexof : ℕ × Endpoint → ℕ
indexof (p, _) = p % 2 ^ 8

-- `endpoint_view_base::operator[]`; `none` where the assertion fails.
unfoldable pub endpoint_by_index : View → ℕ → Option Endpoint
endpoint_by_index v n = is_endpoint (element_at v.elements n)

-- `operator++` where not CONTINUE_ON_INVALID, from the element at `p` on.
unfoldable pub endpoints_from : ℕ → List Element → List (ℕ × Endpoint)
endpoints_from p [] = []
endpoints_from p (e ∷ r) =
    let rest = endpoints_from (suc p) r in
    elim (is_endpoint e) [ some ep ↦ (p, ep) ∷ rest | none ↦ [] ]

-- The iteration over `interface::endpoints()`, for the interface at `p`: the iterator's constructor
-- steps on by one where the first element is neither valid nor the footer.
unfoldable pub first_endpoints : ℕ → List Element → List (ℕ × Endpoint)
first_endpoints p [] = []
first_endpoints p (e ∷ r) = elim (is_endpoint e) [
  | some _ ↦ endpoints_from p (e ∷ r)
  | none ↦ if is_footer e then [] else endpoints_from (suc p) r
]

unfoldable pub interface_endpoints : View → ℕ → List (ℕ × Endpoint)
unfolding first_endpoints endpoints_from
interface_endpoints v p = first_endpoints (suc p) (drop (suc p) v.elements)

-- `endpoint::interface()` of the endpoint at `p`: the loop steps back to the nearest interface, and
-- `none` is a step before the array.
unfoldable pub interface_of : View → ℕ → Option (ℕ × Interface)
interface_of v zero = none
interface_of v (suc p) = elim (is_interface (element_at v.elements p)) [
  | some i ↦ some (p, i)
  | none ↦ interface_of v p
]
