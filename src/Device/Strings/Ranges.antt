-- ===== src/Device/Strings/Ranges.antt =====
-- The ranges of string indices that are given to the functions do not overlap.
use c2usb.Base.{
  ℕ, ◌+◌, ◌%◌, ◌^◌, ◌≤◌, ◌<◌, ◌≡◌, ◌≢◌, arith, ◌&&◌, List, [], ◌∷◌, ◌⊎◌, inl, inr, ◌==◌, ltb,
  Bool-cases, Ensures,
}
use c2usb.Config.Element.{Interface}
use c2usb.Core.{Drivers, Settings, Device}
use c2usb.Device.Strings.{
  allocate_all, free_all, functions_of_speeds, assign_function_istrings, istr_config_base,
}
use c2usb.Usb.Speed.{speeds_list}
use c2usb.Function.{update, free_string_index, allocate_string_index}

-- What is handed out so far: the ranges end before the next free index, and they are apart.
pub record IsAssigned (count : ℕ → ℕ) (bases : ℕ → ℕ) (index : ℕ) : Type 0 where
  pub below : (f : ℕ) → (bases f ≡ 0) ⊎ (bases f + count f ≤ index)
  pub apart :
      (f g : ℕ)
      → f ≢ g
      → bases f ≢ 0
      → bases g ≢ 0
      → (bases f + count f ≤ bases g) ⊎ (bases g + count g ≤ bases f)

update_below :
    (count bases : ℕ → ℕ) (index f g : ℕ)
    → IsAssigned count bases index
    → (update f index bases g ≡ 0) ⊎ (update f index bases g + count g ≤ index + count f)
update_below count bases index f g inv = ground (arith, inv.below g)

update_apart :
    (count bases : ℕ → ℕ) (index f g h : ℕ)
    → IsAssigned count bases index
    → g ≢ h
    → update f index bases g ≢ 0
    → update f index bases h ≢ 0
    → (update f index bases g + count g ≤ update f index bases h)
      ⊎ (update f index bases h + count h ≤ update f index bases g)
update_apart count bases index f g h inv ne =
    ground (arith, inv.below g, inv.below h, inv.apart g h)

base-byte : (c : Settings) → istr_config_base c < 2 ^ 8
unfolding istr_config_base
base-byte c = omega arith

-- No function has a range yet.
free-IsAssigned :
    (count bases : ℕ → ℕ) (index : ℕ) → ((f : ℕ) → bases f ≡ 0) → IsAssigned count bases index
free-IsAssigned count bases index free = record {
  below = λ f. inl (free f);
  apart = λ f g ne some_f some_g. absurd (some_f (free f));
}

-- The indices that the functions of a list ask for, a function of two interfaces counted twice.
unfoldable pub demand : (ℕ → ℕ) → List (ℕ × Interface) → ℕ
demand count [] = 0
demand count ((_, i) ∷ r) = count i.function + demand count r

allocate_step :
    (count bases : ℕ → ℕ) (index f : ℕ)
    → index + count f < 2 ^ 8
    → IsAssigned count bases index
    → let (bases', index') = allocate_string_index count f (bases, index) in
      IsAssigned count bases' index' × (index' ≤ index + count f)
unfolding allocate_string_index
allocate_step count bases index f room inv = elim (Bool-cases ((bases f == 0) && ltb 0 (count f))) [
  | inl fresh ↦
      let sum : (index + count f) % 2 ^ 8 ≡ index + count f = omega arith in
      rw (fresh, sum)
        (
          record {
            below = λ g. update_below count bases index f g inv;
            apart = λ g h ne. update_apart count bases index f g h inv ne;
          },
          omega arith,
        )
  | inr done ↦ rw done (inv, omega arith)
]

weaken :
    (count bases : ℕ → ℕ) (index limit : ℕ)
    → index ≤ limit
    → IsAssigned count bases index
    → IsAssigned count bases limit
weaken count bases index limit le inv = record {
  below = λ f. ground (arith, inv.below f);
  apart = inv.apart;
}

module _ {S : Type 0} (d : Drivers S) (c : Settings) where
  allocate_all-IsAssigned :
      (l : List (ℕ × Interface)) (bases : ℕ → ℕ) (index : ℕ)
      → index + demand d.istr_count l < 2 ^ 8
      → IsAssigned d.istr_count bases index
      → let (bases', index') = allocate_all d c l (bases, index) in
        IsAssigned d.istr_count bases' index' × (index' ≤ index + demand d.istr_count l)
  unfolding allocate_all demand
  allocate_all-IsAssigned [] bases index room inv = (inv, omega arith)
  allocate_all-IsAssigned ((p, i) ∷ l) bases index room inv =
      let (bases', index') = allocate_string_index d.istr_count i.function (bases, index) in
      let (here, le) = allocate_step d.istr_count bases index i.function (omega arith) inv in
      let (rest, le') = allocate_all-IsAssigned l bases' index' (omega arith) here in
      (rest, omega arith)

  -- If the functions of all configurations are free before, and the indices that they ask for fit between the
  -- extension's and the configurations', the assignment succeeds: the ranges of two functions that got one do not
  -- overlap, and all end before the configurations' indices.
  pub assign_function_istrings-IsAssigned :
      (dev : Device S)
      → let functions = functions_of_speeds d c (speeds_list c.speeds) dev in
        ((f : ℕ) → free_all d c functions dev.istr_base f ≡ 0)
        → d.extension_assign_istrings 1 dev.env + demand d.istr_count functions < istr_config_base c
        → Ensures
            (λ dev'. IsAssigned d.istr_count dev'.istr_base (istr_config_base c))
            (assign_function_istrings d c dev)
  unfolding assign_function_istrings
  assign_function_istrings-IsAssigned dev free room =
      let functions = functions_of_speeds d c (speeds_list c.speeds) dev in
      let first = d.extension_assign_istrings 1 dev.env in
      let bases = free_all d c functions dev.istr_base in
      let (bases', index') = allocate_all d c functions (bases, first) in
      let small = base-byte c in
      let (inv, le) =
        allocate_all-IsAssigned functions bases first (omega arith)
          (free-IsAssigned d.istr_count bases first free) in
      (
        record dev { istr_base = bases' },
        ground arith,
        weaken d.istr_count bases' index' (istr_config_base c) (omega arith) inv,
      )

  -- Freeing functions leaves those free that were.
  pub free_all-zero :
      (l : List (ℕ × Interface)) (bases : ℕ → ℕ)
      → ((f : ℕ) → bases f ≡ 0)
      → (f : ℕ) → free_all d c l bases f ≡ 0
  unfolding free_all free_string_index
  free_all-zero [] bases zeros f = zeros f
  free_all-zero ((p, i) ∷ l) bases zeros f =
      free_all-zero l (update i.function 0 bases) (λ g. ground (arith, zeros g)) f
