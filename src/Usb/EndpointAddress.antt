-- ===== src/Usb/EndpointAddress.antt =====
-- c2usb/usb/endpoint.hpp, `address` and `interval`, and the endpoint flags of c2usb/usb/df/ep_flags.hpp.
pub mod Laws
use c2usb.Base.{
  ℕ, zero, suc, ◌+◌, ◌-◌, ◌*◌, ◌/◌, ◌%◌, ◌^◌, max, bit_and, bit_or, bit_xor, Bool, true, false, not,
  ◌||◌, if◌then◌else◌, ◌==◌,
}
use c2usb.Usb.Speed.{Speed, no_speed, low, full, high}

pub data Direction : Type 0 where
  dir_out dir_in : Direction

abbrev pub direction_code : Direction → ℕ
direction_code dir_out = 0
direction_code dir_in = 1

abbrev pub direction_of_code : ℕ → Direction
direction_of_code n = if n == 0 then dir_out else dir_in

unfoldable pub opposite_direction : Direction → Direction
opposite_direction d = direction_of_code (1 - direction_code d)

-- An address is its byte.
unfoldable pub address : Direction → ℕ → ℕ
address dir number = bit_or (direction_code dir * 2 ^ 7) (bit_and number 0xF)

unfoldable pub address_number : ℕ → ℕ
address_number value = bit_and value 0xF

unfoldable pub address_valid : ℕ → Bool
address_valid value = bit_and value 0x70 == 0

unfoldable pub address_direction : ℕ → Direction
address_direction value = direction_of_code (value / 2 ^ 7)

abbrev pub invalid_address : ℕ
invalid_address = 0x70

-- std::countl_zero of a uint16_t, by the bits that are left to look at.
unfoldable pub countl_zero : ℕ → ℕ → ℕ
countl_zero zero x = 0
countl_zero (suc bits) x =
    let rest = countl_zero bits x in if x / 2 ^ bits == 0 then suc rest else 0

-- `interval::from_microframes`; 0 is the invalid result.
unfoldable pub from_microframes : ℕ → ℕ
unfolding countl_zero
from_microframes microframes =
    if microframes == 0 || not (bit_and microframes (microframes - 1) == 0)
    then 0
    else (16 - countl_zero 16 microframes)

-- `interval::from_rate`, with the period in microseconds.
unfoldable pub from_rate : Speed → ℕ → ℕ
unfolding from_microframes
from_rate full period = period / 1000 % 2 ^ 8
from_rate high period = from_microframes (period / 125 % 2 ^ 16)
from_rate low period = max 10 (period / 1000 % 2 ^ 8)
from_rate no_speed period = 0

-- The flag word of `ep_flags`, a uint32_t with a bit for each address.
unfoldable pub bitpos : ℕ → ℕ
unfolding address_direction address_number
bitpos addr = direction_code (address_direction addr) * 16 + address_number addr

unfoldable pub flag_test : ℕ → ℕ → Bool
unfolding bitpos
flag_test word addr = not (bit_and (word / 2 ^ bitpos addr) 1 == 0)

-- The new word and the flag's value before.
unfoldable pub flag_test_and_set : ℕ → ℕ → ℕ × Bool
unfolding flag_test
flag_test_and_set word addr = (bit_or word (2 ^ bitpos addr), flag_test word addr)

unfoldable pub flag_clear : ℕ → ℕ → ℕ
unfolding bitpos
flag_clear word addr = bit_and word (bit_xor (2 ^ 32 - 1) (2 ^ bitpos addr))
