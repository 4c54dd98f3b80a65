-- ===== src/Config/Lookup/Laws.antt =====
-- What the lookups find: an interface's own endpoints, an endpoint's own interface, and endpoints by
-- address and by index.
use native.Mathlib.Nat.{zero-add, add-zero, suc-add, add-suc}
use c2usb.Base.{
  ℕ, zero, suc, ◌+◌, ◌≤◌, ◌<◌, ◌≡◌, ◌≢◌, refl, ap, ◌∙◌, Option, none, some, List, [], ◌∷◌, ◌++◌,
  map, arith, length, drop, drop-suc, get_or-of_drop, All, false, get_or, ◌==◌, ◌⊎◌, inl, inr,
  Bool-cases, ==_iff, Option-cases,
}
use c2usb.Config.Element.{
  Element, Interface, Endpoint, interface, endpoint, footer, is_endpoint, is_interface, is_footer,
  element_at,
}
use c2usb.Config.Views.{View, endpoints, deref}
use c2usb.Config.Spec.{within, items-eq-within}
use c2usb.Config.Lookup.{
  endpoints_from, first_endpoints, interface_endpoints, interface_of, endpoint_from,
  endpoint_by_index,
}

-- What may follow the endpoints of an interface: anything but an endpoint.
abbrev pub Stops : List Element → Type 0
Stops [] = Unit
Stops (e ∷ _) = is_endpoint e ≡ none

-- Endpoints with consecutive numbers.
unfoldable pub number : ℕ → List Endpoint → List (ℕ × Endpoint)
number p [] = []
number p (e ∷ es) = (p, e) ∷ number (suc p) es

endpoints_from-number :
    (p : ℕ) (es : List Endpoint) (t : List Element)
    → Stops t
    → endpoints_from p (map endpoint es ++ t) ≡ number p es
unfolding endpoints_from number is_endpoint
endpoints_from-number p [] [] h = refl
endpoints_from-number p [] (e ∷ t) h = ground arith
endpoints_from-number p (e ∷ es) t h = ap ((p, e) ∷◌) (endpoints_from-number (suc p) es t h)

drop-append {ℓ} : {A : Type ℓ} (pre t : List A) (x : A) → drop (suc (length pre)) (pre ++ x ∷ t) ≡ t
drop-append [] t x = refl
drop-append (y ∷ pre) t x = drop-append pre t x

drop_layout :
    (v : View) (pre t : List Element) (x : Element)
    → v.elements ≡ pre ++ x ∷ t
    → drop (suc (length pre)) v.elements ≡ t
drop_layout v pre t x e = ap (drop (suc (length pre))) e ∙ drop-append pre t x

first_endpoints-number :
    (p : ℕ) (e : Endpoint) (es : List Endpoint) (t : List Element)
    → Stops t
    → first_endpoints p (map endpoint (e ∷ es) ++ t) ≡ number p (e ∷ es)
unfolding first_endpoints is_endpoint
first_endpoints-number p e es t h = endpoints_from-number p (e ∷ es) t h

-- From an interface with at least one endpoint the view lists exactly that interface's endpoints, in
-- order, with their positions.
pub interface_endpoints-own :
    (v : View) (pre t : List Element) (i : Interface) (e : Endpoint) (es : List Endpoint)
    → v.elements ≡ pre ++ interface i ∷ (map endpoint (e ∷ es) ++ t)
    → Stops t
    → interface_endpoints v (length pre) ≡ number (suc (length pre)) (e ∷ es)
unfolding interface_endpoints
interface_endpoints-own v pre t i e es h stop =
    ap (first_endpoints (suc (length pre))) (drop_layout v pre _ (interface i) h)
    ∙ first_endpoints-number (suc (length pre)) e es t stop

-- From an interface without endpoints that another interface follows, the view lists the endpoints of
-- that other interface.
pub interface_endpoints-next :
    (v : View) (pre t : List Element) (i j : Interface) (es : List Endpoint)
    → v.elements ≡ pre ++ interface i ∷ interface j ∷ (map endpoint es ++ t)
    → Stops t
    → interface_endpoints v (length pre) ≡ number (suc (suc (length pre))) es
unfolding interface_endpoints first_endpoints is_endpoint is_footer
interface_endpoints-next v pre t i j es h stop =
    ap (first_endpoints (suc (length pre))) (drop_layout v pre _ (interface i) h)
    ∙ endpoints_from-number (suc (suc (length pre))) es t stop

get_or-append_suc {ℓ} :
    {A : Type ℓ} (pre t : List A) (x d : A) (k : ℕ)
    → get_or (pre ++ x ∷ t) (suc (length pre + k)) d ≡ get_or t k d
get_or-append_suc [] t x d k = rw zero-add
get_or-append_suc (y ∷ pre) t x d k = rw suc-add (get_or-append_suc pre t x d k)

get_or-append_self {ℓ} :
    {A : Type ℓ} (pre t : List A) (x d : A) → get_or (pre ++ x ∷ t) (length pre) d ≡ x
get_or-append_self [] t x d = refl
get_or-append_self (y ∷ pre) t x d = get_or-append_self pre t x d

endpoint_in_layout :
    (es : List Endpoint) (t : List Element) (k : ℕ)
    → k < length es
    → is_interface (get_or (map endpoint es ++ t) k footer) ≡ none
unfolding is_interface
endpoint_in_layout [] t k h = absurd (omega arith)
endpoint_in_layout (e ∷ es) t zero h = refl
endpoint_in_layout (e ∷ es) t (suc k) h = endpoint_in_layout es t k (omega arith)

interface_of-here :
    (v : View) (p : ℕ) (i : Interface)
    → element_at v.elements p ≡ interface i
    → interface_of v (suc p) ≡ some (p, i)
unfolding interface_of is_interface
interface_of-here v p i e = ground arith

interface_of-skip :
    (v : View) (p : ℕ)
    → is_interface (element_at v.elements p) ≡ none
    → interface_of v (suc p) ≡ interface_of v p
unfolding interface_of
interface_of-skip v p e = ground arith

-- The k-th endpoint behind an interface walks back to that interface.
pub interface_of_layout :
    (v : View) (pre t : List Element) (i : Interface) (es : List Endpoint) (k : ℕ)
    → v.elements ≡ pre ++ interface i ∷ (map endpoint es ++ t)
    → k ≤ length es
    → interface_of v (suc (length pre + k)) ≡ some (length pre, i)
interface_of_layout v pre t i es zero h le =
    ap (λ n. interface_of v (suc n)) (add-zero (length pre))
    ∙ interface_of-here v (length pre) i
        (ap (λ xs. element_at xs (length pre)) h ∙ get_or-append_self pre _ (interface i) footer)
interface_of_layout v pre t i es (suc k) h le =
    ap (λ n. interface_of v (suc n)) (add-suc (length pre) k)
    ∙ interface_of-skip v (suc (length pre + k)) (
        ap (λ xs. is_interface (element_at xs (suc (length pre + k)))) h
        ∙ ap is_interface (get_or-append_suc pre _ (interface i) footer k)
        ∙ endpoint_in_layout es t k (omega arith))
    ∙ interface_of_layout v pre t i es k h (omega arith)

-- The elements that a view lists stand at their positions.
within-element_at :
    {T : Type 0} (test : Element → Option T) (es : List Element) (p : ℕ) (r : List Element)
    → drop p es ≡ r
    → All (λ x. test (element_at es x.0) ≡ some x.1) (within test p r)
unfolding within
within-element_at test es p [] h = tt
within-element_at test es p (e ∷ r) h =
    let ih = within-element_at test es (suc p) r (drop-suc p es r h) in
    let here = get_or-of_drop p es r footer h in
    elim (Bool-cases (is_footer e)) [
      | inl end ↦ rw end tt
      | inr more ↦ elim (Option-cases (test e)) [
        | inl off ↦ rw (more, off, deref) ih
        | inr on ↦ rw (more, on.1, deref) (ap test here ∙ on.1, ih)
      ]
    ]

endpoints_in_place : (v : View) → All (λ x. endpoint_by_index v x.0 ≡ some x.1) (endpoints v)
unfolding endpoint_by_index endpoints
endpoints_in_place v =
    rw (items-eq-within is_endpoint v)
      (within-element_at is_endpoint v.elements 1 (drop 1 v.elements) refl)

-- A list of endpoints searched for an address.
abbrev pub Found : View → ℕ → List (ℕ × Endpoint) → Type 0
Found v addr l =
    ((found : ℕ × Endpoint) × (endpoint_from l addr ≡ some found)
      × (found.1.address ≡ addr)
      × (endpoint_by_index v found.0 ≡ some found.1))
    ⊎ ((endpoint_from l addr ≡ none) × All (λ x. x.1.address ≢ addr) l)

ne_of_test : (a b : ℕ) → (a == b) ≡ false → a ≢ b
ne_of_test a b h = ground arith

endpoint_from_lem :
    (v : View) (addr : ℕ) (l : List (ℕ × Endpoint))
    → All (λ x. endpoint_by_index v x.0 ≡ some x.1) l
    → Found v addr l
unfolding endpoint_from
endpoint_from_lem v addr [] ok = inr (refl, tt)
endpoint_from_lem v addr ((p, ep) ∷ l) ok = elim (Bool-cases (ep.address == addr)) [
  | inl same ↦ inl ((p, ep), rw same refl, (==_iff _ _).0 same, ok.0)
  | inr other ↦ rw other (elim (endpoint_from_lem v addr l ok.1) [
    | inl found ↦ inl found
    | inr missing ↦ inr (missing.0, (ne_of_test _ _ other, missing.1))
  ])
]

-- An endpoint found by its address has that address and stands at its index; if none is found, no
-- endpoint of the view has the address.
pub endpoint_at_lem : (v : View) (addr : ℕ) → Found v addr (endpoints v)
endpoint_at_lem v addr = endpoint_from_lem v addr (endpoints v) (endpoints_in_place v)
