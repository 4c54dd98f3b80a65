-- ===== src/Config/Factory.antt =====
-- c2usb/usb/df/config_factory.hpp: the functions that make configuration arrays, and the builder that
-- changes one in place.
pub mod Laws
use c2usb.Base.{
  ℕ, zero, suc, ◌+◌, ◌-◌, ◌%◌, ◌^◌, Bool, true, false, not, ◌&&◌, Option, none, some, List, [], ◌∷◌,
  ◌++◌, if◌then◌else◌, ◌==◌, leb, length, take, drop, replicate, ◌>>=◌,
}
use c2usb.Config.Element.{Element, Header, Interface, header, footer, primary}
use c2usb.Config.Views.{View, interfaces}
use c2usb.Config.Lookup.{interface_endpoints, count}

-- `detail::join_elements`: the chunk sizes end with a zero, so an empty chunk ends the loop.
unfoldable pub join_elements : List (List Element) → List Element
join_elements [] = []
join_elements (c ∷ cs) = let rest = join_elements cs in if length c == 0 then [] else c ++ rest

abbrev pub set_size : Header → ℕ → Header
set_size h n = record h { config_size = n % 2 ^ 8 }

-- The sum of the chunks' sizes, which is the room of the array.
unfoldable pub total_size : List (List Element) → ℕ
total_size [] = 0
total_size (c ∷ cs) = length c + total_size cs

-- `make_config` with `assign_element_array`. What is not assigned keeps its initial zeros.
unfoldable pub make_config : Header → List (List Element) → List Element
unfolding join_elements total_size
make_config info chunks =
    let items = join_elements chunks in
    header (set_size info (1 + length items))
    ∷ (items ++ footer ∷ replicate (total_size chunks - length items) footer)

-- The storage of `builder`.
unfoldable pub update_config_size : List Element → List Element
update_config_size [] = []
update_config_size (header h ∷ r) = header (set_size h (length r)) ∷ r
update_config_size (e ∷ r) = e ∷ r

unfoldable pub builder : Header → List Element
unfolding update_config_size
builder info = update_config_size (header info ∷ footer ∷ [])

unfoldable pub empty : List Element → Bool
empty storage = leb (length storage) 2

-- Insertion before the last element.
unfoldable pub append : List Element → List Element → List Element
unfolding update_config_size
append elems storage =
    let last = length storage - 1 in
    update_config_size (take last storage ++ (elems ++ drop last storage))

unfoldable pub clear : List Element → List Element
unfolding update_config_size
clear storage =
    let last = length storage - 1 in update_config_size (take 1 storage ++ drop last storage)

-- What the loop of `remove` has found: the start of the function, and the end of what is erased.
pub record Range : Type 0 where
  pub first : Option ℕ
  pub last : ℕ

abbrev pub is_some : Option ℕ → Bool
is_some (some _) = true
is_some none = false

-- One round; `none` is the failed assertion that the function has one primary interface.
unfoldable pub remove_step : View → ℕ → ℕ × Interface → Range → Option Range
remove_step v func (p, i) r =
    let found = i.function == func && primary i in
    let last = p + count (λ _. true) (interface_endpoints v p) in
    if found && is_some r.first
    then none
    else some (record { first = if found then some p else r.first; last = last })

unfoldable pub remove_loop : View → ℕ → List (ℕ × Interface) → Range → Option Range
unfolding remove_step
remove_loop v func [] r = some r
remove_loop v func (i ∷ is) r = remove_step v func i r >>= remove_loop v func is

abbrev pub erase : ℕ → ℕ → List Element → List Element
erase first last storage = take first storage ++ drop last storage

abbrev pub erase_range : Range → List Element → List Element × Bool
erase_range r storage = elim r.first [
  | some first ↦ (update_config_size (erase first r.last storage), true)
  | none ↦ (storage, false)
]

unfoldable pub remove : ℕ → List Element → Option (List Element × Bool)
unfolding remove_loop update_config_size primary
remove func storage =
    let v : View = record { ptr = 1; elements = storage } in
    remove_loop v func (interfaces v) (record { first = none; last = length storage }) >>= λ r.
    some (erase_range r storage)
