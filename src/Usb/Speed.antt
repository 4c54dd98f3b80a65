-- ===== src/Usb/Speed.antt =====
-- c2usb/usb/base.hpp, `speed`, and c2usb/usb/speeds.hpp, a range of speeds; the packet size limits of
-- c2usb/usb/endpoint.hpp.
pub mod Laws
use c2usb.Base.{
  ℕ, zero, suc, ◌+◌, ◌-◌, ◌%◌, ◌^◌, Bool, true, false, ◌&&◌, leb, List, [], ◌∷◌, if◌then◌else◌,
  ◌==◌,
}

-- `no_speed` is speed::NONE.
pub data Speed : Type 0 where
  no_speed low full high : Speed

abbrev pub speed_code : Speed → ℕ
speed_code no_speed = 0
speed_code low = 1
speed_code full = 2
speed_code high = 3

-- static_cast<speed>, for the codes of the enumeration; another code stands for no speed.
abbrev pub speed_of_code : ℕ → Speed
speed_of_code n = if n == 1 then low else if n == 2 then full else if n == 3 then high else no_speed

unfoldable pub speed_to_bitrate : Speed → ℕ
speed_to_bitrate low = 1500000
speed_to_bitrate full = 12000000
speed_to_bitrate high = 480000000
speed_to_bitrate no_speed = 0

pub record Speeds : Type 0 where
  pub min_speed : Speed
  pub max_speed : Speed

-- The constructor's assertions.
unfoldable pub speeds_valid : Speeds → Bool
speeds_valid ss =
    leb (speed_code ss.min_speed) (speed_code ss.max_speed) && leb 1 (speed_code ss.min_speed)

unfoldable pub includes : Speeds → Speed → Bool
includes ss s =
    leb (speed_code ss.min_speed) (speed_code s) && leb (speed_code s) (speed_code ss.max_speed)

unfoldable pub speeds_count : Speeds → ℕ
speeds_count ss = 1 + speed_code ss.max_speed - speed_code ss.min_speed

-- A size_t difference, which wraps below zero.
unfoldable pub offset : Speeds → Speed → ℕ
offset ss s = (2 ^ 64 + speed_code s - speed_code ss.min_speed) % 2 ^ 64

unfoldable pub speed_at : Speeds → ℕ → Speed
speed_at ss index = speed_of_code ((speed_code ss.min_speed + index % 2 ^ 8) % 2 ^ 8)

-- The range-based for loop from `begin()` to `end()`, with the rounds left: the iterator counts the
-- code up from the smallest speed to one past the largest.
unfoldable pub speeds_from : ℕ → ℕ → List Speed
speeds_from zero code = []
speeds_from (suc rounds) code = speed_of_code code ∷ speeds_from rounds (suc code)

unfoldable pub speeds_list : Speeds → List Speed
unfolding speeds_from speeds_count
speeds_list ss = speeds_from (speeds_count ss) (speed_code ss.min_speed)

-- usb::endpoint::type
pub data TransferType : Type 0 where
  control isochronous bulk interrupt : TransferType

-- The table of `packet_size_limit`.
unfoldable pub packet_size_limit : TransferType → Speed → ℕ
packet_size_limit _ no_speed = 0
packet_size_limit control low = 8
packet_size_limit control full = 64
packet_size_limit control high = 64
packet_size_limit isochronous low = 0
packet_size_limit isochronous full = 1023
packet_size_limit isochronous high = 1024
packet_size_limit bulk low = 0
packet_size_limit bulk full = 64
packet_size_limit bulk high = 512
packet_size_limit interrupt low = 8
packet_size_limit interrupt full = 64
packet_size_limit interrupt high = 1024
