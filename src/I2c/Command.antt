-- ===== src/I2c/Command.antt =====
-- c2usb/i2c/hid/standard.hpp: the commands, and the registers of device.hpp.
use c2usb.Base.{ℕ, ◌+◌, ◌*◌, ◌/◌, ◌%◌, ◌^◌, min, bit_and, bit_or, Bool, not, ◌&&◌}
use c2usb.Base.{List, [], ◌∷◌, leb, ◌==◌, if◌then◌else◌}
use c2usb.Serial.Memory.{Memory}

-- A packed little-endian number of two bytes, read without a check of the bounds.
unfoldable pub get_u16 : Memory → ℕ → ℕ
get_u16 mem p = mem p + mem (p + 1) * 2 ^ 8

-- `pack_str<uint16_t>`: the first two characters, the first one lowest.
abbrev pub pack_str : List ℕ → ℕ
pack_str [] = 0
pack_str (a ∷ []) = a % 2 ^ 16
pack_str (a ∷ (b ∷ r)) = bit_or (a % 2 ^ 16) (b * 2 ^ 8 % 2 ^ 16)

-- `device::registers`, but for the descriptor's, which the constructor is given.
abbrev pub report_descriptor_register : ℕ
report_descriptor_register = pack_str (b'R' ∷ b'D' ∷ [])

abbrev pub command_register : ℕ
command_register = pack_str (b'C' ∷ b'M' ∷ [])

abbrev pub data_register : ℕ
data_register = pack_str (b'D' ∷ b'T' ∷ [])

abbrev pub input_report_register : ℕ
input_report_register = pack_str (b'I' ∷ b'R' ∷ [])

abbrev pub output_report_register : ℕ
output_report_register = pack_str (b'O' ∷ b'R' ∷ [])

-- `opcode`
abbrev pub reset_code : ℕ
reset_code = 1

abbrev pub get_report_code : ℕ
get_report_code = 2

abbrev pub set_report_code : ℕ
set_report_code = 3

abbrev pub get_idle_code : ℕ
get_idle_code = 4

abbrev pub set_idle_code : ℕ
set_idle_code = 5

abbrev pub get_protocol_code : ℕ
get_protocol_code = 6

abbrev pub set_protocol_code : ℕ
set_protocol_code = 7

abbrev pub set_power_code : ℕ
set_power_code = 8

abbrev pub short_report_id_limit : ℕ
short_report_id_limit = 0xf

-- `command_view` over the memory at an address.
unfoldable pub opcode : Memory → ℕ → ℕ
opcode mem p = mem (p + 1)

unfoldable pub is_extended : Memory → ℕ → Bool
is_extended mem p =
    leb get_report_code (opcode mem p)
    && leb (opcode mem p) set_idle_code
    && (bit_and (mem p) short_report_id_limit == short_report_id_limit)

unfoldable pub command_size : Memory → ℕ → ℕ
command_size mem p = if is_extended mem p then 3 else 2

unfoldable pub report_type : Memory → ℕ → ℕ
report_type mem p = bit_and (mem p / 2 ^ 4) 0x3

unfoldable pub report_id : Memory → ℕ → ℕ
report_id mem p = if is_extended mem p then mem (p + 2) else bit_and (mem p) short_report_id_limit

unfoldable pub sleep : Memory → ℕ → Bool
sleep mem p = not (bit_and (mem p) 1 == 0)

-- The bytes of a `command` that is built from an opcode and a sleep flag.
unfoldable pub flag_command : ℕ → Bool → List ℕ
flag_command code sleeps = (if sleeps then 1 else 0) ∷ code ∷ []

-- The bytes of a `command<id>` that is built from an opcode and a report type.
unfoldable pub report_command : ℕ → ℕ → ℕ → List ℕ
report_command id code type =
    (bit_or (type * 2 ^ 4) (min id short_report_id_limit) % 2 ^ 8)
    ∷ code
    ∷ (if leb short_report_id_limit id then id ∷ [] else [])
