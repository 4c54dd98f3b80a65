-- ===== src/Config/Factory/Laws.antt =====
-- The arrays that the factories and the builder make have the shape that the views expect.
use mathlib.Core.List.{append_assoc}
use native.Mathlib.Nat.{sub_self}
use c2usb.Base.{
  ℕ, suc, ◌+◌, ◌-◌, ◌≤◌, ◌≡◌, ◌≢◌, refl, ap, ◌∙◌, none, some, List, [], ◌∷◌, ◌++◌, map, arith,
  length, length-append, take-append_self, drop-append_self, drop, All, All-append, true, ==_iff,
}
use c2usb.Config.Element.{
  Element, Header, Interface, Endpoint, header, interface, endpoint, footer, primary, is_interface,
  is_endpoint, is_footer,
}
use c2usb.Config.Views.{View, interfaces}
use c2usb.Config.WellFormed.{IsItem, IsConfig}
use c2usb.Config.Spec.{within, items-eq-within}
use c2usb.Config.Lookup.{interface_endpoints, count}
use c2usb.Config.Lookup.Laws.{number, interface_endpoints-own}
use c2usb.Config.Factory.{
  remove_loop, join_elements, set_size, total_size, make_config, update_config_size, builder,
  append, clear, remove,
}

pub flatten : List (List Element) → List Element
flatten [] = []
flatten (c ∷ cs) = c ++ flatten cs

join_elements-flatten :
    (cs : List (List Element)) → All (λ c. length c ≢ 0) cs → join_elements cs ≡ flatten cs
unfolding join_elements flatten
join_elements-flatten [] h = refl
join_elements-flatten (c ∷ cs) h = ground (arith, join_elements-flatten cs h.1, h.0)

length-flatten : (cs : List (List Element)) → length (flatten cs) ≡ total_size cs
unfolding flatten total_size
length-flatten [] = refl
length-flatten (c ∷ cs) = omega (arith, length-append c (flatten cs), length-flatten cs)

All-flatten : (cs : List (List Element)) → All (All IsItem) cs → All IsItem (flatten cs)
unfolding flatten
All-flatten [] h = h
All-flatten (c ∷ cs) h = All-append IsItem c (flatten cs) h.0 (All-flatten cs h.1)

-- From non-empty chunks of interfaces and endpoints, at most 253 elements together, `make_config`
-- makes a configuration of the shape that the views expect, whose elements are the chunks' in order.
pub make_config-IsConfig :
    (ptr : ℕ) (info : Header) (chunks : List (List Element))
    → All (λ c. length c ≢ 0) chunks
    → All (All IsItem) chunks
    → total_size chunks ≤ 253
    → IsConfig
        (record { ptr = ptr; elements = make_config info chunks })
        (set_size info (1 + total_size chunks))
        (flatten chunks)
unfolding make_config
make_config-IsConfig ptr info chunks full ok fits =
    let joined = join_elements-flatten chunks full in
    let size = length-flatten chunks in
    record {
      layout = rw (joined, size, sub_self) refl;
      size = omega arith;
      body_items = All-flatten chunks ok;
    }

abbrev storage_of : Header → List Element → List Element
storage_of h body = header (set_size h (suc (length body))) ∷ (body ++ footer ∷ [])

pub builder_lem : (h : Header) → builder h ≡ storage_of h []
unfolding builder update_config_size
builder_lem h = refl

length-snoc : (xs : List Element) → length (xs ++ footer ∷ []) ≡ suc (length xs)
length-snoc xs = omega (arith, length-append xs (footer ∷ []))

-- The last element of the storage is its footer.
last_of_storage :
    (h : Header) (body : List Element) → length (storage_of h body) - 1 ≡ suc (length body)
last_of_storage h body = omega (arith, length-append body (footer ∷ []))

-- `append` puts the elements behind those that are there, `clear` takes all of them out, and both
-- leave an array of the shape that the views expect.
pub append-clear :
    (h : Header) (body elems : List Element)
    → (append elems (storage_of h body) ≡ storage_of h (body ++ elems))
      × (clear (storage_of h body) ≡ storage_of h [])
unfolding append clear update_config_size
append-clear h body elems =
    let last = last_of_storage h body in
    let front = take-append_self body (footer ∷ []) in
    let back = drop-append_self body (footer ∷ []) in
    (
      rw (last, front, back, ← append_assoc body elems (footer ∷ []), length-snoc (body ++ elems))
          refl,
      rw (last, back) refl,
    )

interfaces_of_endpoints :
    (p : ℕ) (es : List Endpoint) → within is_interface p (map endpoint es ++ footer ∷ []) ≡ []
unfolding within is_interface is_footer
interfaces_of_endpoints p [] = refl
interfaces_of_endpoints p (e ∷ es) = interfaces_of_endpoints (suc p) es

sole_interface :
    (v : View) (h : Header) (i : Interface) (es : List Endpoint)
    → v.elements ≡ header h ∷ interface i ∷ (map endpoint es ++ footer ∷ [])
    → interfaces v ≡ (1, i) ∷ []
unfolding interfaces within is_interface is_footer
sole_interface v h i es e =
    items-eq-within is_interface v
    ∙ ap (λ xs. within is_interface 1 (drop 1 xs)) e
    ∙ ap ((1, i) ∷◌) (interfaces_of_endpoints 2 es)

count-number : (p : ℕ) (es : List Endpoint) → count (λ _. true) (number p es) ≡ length es
unfolding count number
count-number p [] = refl
count-number p (e ∷ es) = omega (arith, count-number (suc p) es)

endpoints_of_sole :
    (v : View) (h : Header) (i : Interface) (es : List Endpoint) (e : Endpoint)
    → v.elements ≡ header h ∷ interface i ∷ (map endpoint (es ++ e ∷ []) ++ footer ∷ [])
    → interface_endpoints v 1 ≡ number 2 (es ++ e ∷ [])
unfolding is_endpoint
endpoints_of_sole v h i [] e l =
    interface_endpoints-own v (header h ∷ []) (footer ∷ []) i e [] l refl
endpoints_of_sole v h i (x ∷ es) e l =
    interface_endpoints-own v (header h ∷ []) (footer ∷ []) i x (es ++ e ∷ []) l refl

drop-but_last :
    (es : List Endpoint) (e : Endpoint)
    → drop (length es) (map endpoint (es ++ e ∷ []) ++ footer ∷ []) ≡ endpoint e ∷ footer ∷ []
drop-but_last [] e = refl
drop-but_last (x ∷ es) e = drop-but_last es e

remove_loop_of_sole :
    (v : View) (i : Interface) (es : List Endpoint) (e : Endpoint) (last : ℕ)
    → primary i ≡ true
    → interface_endpoints v 1 ≡ number 2 (es ++ e ∷ [])
    → remove_loop v i.function ((1, i) ∷ []) (record { first = none; last = last })
      ≡ some (record { first = some 1; last = suc (suc (length es)) })
unfolding remove_loop
remove_loop_of_sole v i es e last prim own =
    let n : count (λ _. true) (interface_endpoints v 1) ≡ suc (length es) =
      ap (count (λ _. true)) own
      ∙ count-number 2 (es ++ e ∷ [])
      ∙ omega (arith, length-append es (e ∷ [])) in
    rw ((==_iff i.function i.function).1 refl, prim, n) (ground arith)

-- A function that is alone in its configuration, with one primary interface and at least one
-- endpoint, is not removed whole: `remove` reports success and leaves its last endpoint behind.
pub remove-sole_function :
    (h : Header) (i : Interface) (es : List Endpoint) (e : Endpoint)
    → primary i ≡ true
    → remove i.function (storage_of h (interface i ∷ map endpoint (es ++ e ∷ [])))
      ≡ some (storage_of h (endpoint e ∷ []), true)
unfolding remove
remove-sole_function h i es e prim =
    let v : View = record {
      ptr = 1;
      elements = storage_of h (interface i ∷ map endpoint (es ++ e ∷ []));
    } in
    rw
      (
        sole_interface v _ i (es ++ e ∷ []) refl,
        remove_loop_of_sole v i es e _ prim (endpoints_of_sole v _ i es e refl),
        drop-but_last es e,
      )
      refl
