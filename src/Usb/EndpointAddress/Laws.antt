-- ===== src/Usb/EndpointAddress/Laws.antt =====
-- Endpoint addresses and polling intervals.
use c2usb.Base.{ℕ, ◌<◌, ◌+◌, ◌^◌, ◌≡◌, refl, Bool, true, not, ◌&&◌, ◌||◌, ltb, ◌==◌, ==_iff, arith}
use c2usb.Base.Bits.{every, every_at}
use c2usb.Usb.EndpointAddress.{
  Direction, dir_out, dir_in, direction_code, address, address_number, address_valid,
  address_direction, from_microframes, bitpos,
}

abbrev is_field : Direction → ℕ → Bool
is_field dir n =
    (address_number (address dir n) == n)
    && (direction_code (address_direction (address dir n)) == direction_code dir)
    && address_valid (address dir n)
    && ltb (address dir n) (2 ^ 8)

field_table : (dir : Direction) → every (is_field dir) 16 ≡ true
unfolding every address_number address_direction address_valid address
field_table dir_out = refl
field_table dir_in = refl

direction_code-injective : (a b : Direction) → direction_code a ≡ direction_code b → a ≡ b
direction_code-injective dir_out dir_out h = refl
direction_code-injective dir_out dir_in h = cc
direction_code-injective dir_in dir_out h = cc
direction_code-injective dir_in dir_in h = refl

-- The constructor keeps the direction and the low four bits of the number, and the address is valid.
pub address_fields :
    (dir : Direction) (number : ℕ)
    → number < 16
    → (address_number (address dir number) ≡ number)
      × (address_direction (address dir number) ≡ dir)
      × (address_valid (address dir number) ≡ true)
      × (address dir number < 2 ^ 8)
address_fields dir number h = ground (
  arith,
  every_at (is_field dir) 16 number h (field_table dir),
  direction_code-injective (address_direction (address dir number)) dir,
)

-- A power of two from 1 to 32768 microframes has the interval that it is two to the power of, plus one.
pub from_microframes-pow : (k : ℕ) → k < 16 → from_microframes (2 ^ k) ≡ k + 1
unfolding from_microframes every
from_microframes-pow k h =
    (==_iff _ _).0 (every_at (λ k. from_microframes (2 ^ k) == k + 1) 16 k h refl)

abbrev separate : ℕ → ℕ → Bool
separate a b = not (bitpos a == bitpos b) || not (address_valid a && address_valid b) || a == b

bitpos-table : every (λ a. every (separate a) 256) 256 ≡ true
unfolding every bitpos address_valid
bitpos-table = refl

-- Two valid endpoint addresses that share a flag bit are the same.
pub bitpos-injective :
    (a b : ℕ)
    → a < 2 ^ 8
    → b < 2 ^ 8
    → address_valid a ≡ true
    → address_valid b ≡ true
    → bitpos a ≡ bitpos b
    → a ≡ b
bitpos-injective a b ha hb va vb same = ground (
  arith,
  every_at (separate a) 256 b hb (every_at (λ a. every (separate a) 256) 256 a ha bitpos-table),
)
