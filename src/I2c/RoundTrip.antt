-- ===== src/I2c/RoundTrip.antt =====
-- The bytes of a command, read back by the command's view.
use c2usb.Base.{ℕ, ◌+◌, ◌*◌, ◌/◌, ◌%◌, ◌^◌, ◌≤◌, ◌<◌, ◌≡◌, refl, min, bit_and, bit_or, arith}
use c2usb.Base.{Bool, true, ◌&&◌, length, ◌==◌}
use c2usb.Base.Bits.{every, every_at}
use c2usb.Serial.Memory.{Memory, store}
use c2usb.I2c.Command.{
  short_report_id_limit, opcode, is_extended, command_size, report_type, report_id, report_command,
}

-- The first byte, at each type and each short number, keeps both.
packs : ℕ → Bool
packs n =
    let byte = bit_or (n / 16 * 2 ^ 4) (n % 16) % 2 ^ 8 in
    (bit_and (byte / 2 ^ 4) 3 == n / 16) && (bit_and byte 15 == n % 16)

packs_all : every packs 64 ≡ true
unfolding every packs
packs_all = refl

packs_lem :
    (n : ℕ)
    → packs n ≡ true
    → (bit_and (bit_or (n / 16 * 2 ^ 4) (n % 16) % 2 ^ 8 / 2 ^ 4) 3 ≡ n / 16)
      × (bit_and (bit_or (n / 16 * 2 ^ 4) (n % 16) % 2 ^ 8) 15 ≡ n % 16)
unfolding packs
packs_lem n h = ground arith

first_byte :
    (type short : ℕ)
    → type < 4
    → short < 16
    → (bit_and (bit_or (type * 2 ^ 4) short % 2 ^ 8 / 2 ^ 4) 3 ≡ type)
      × (bit_and (bit_or (type * 2 ^ 4) short % 2 ^ 8) 15 ≡ short)
unfolding packs
first_byte type short ht hs =
    let table = every_at packs 64 (type * 16 + short) (omega arith) packs_all in
    let high : (type * 16 + short) / 16 ≡ type = omega arith in
    let low : (type * 16 + short) % 16 ≡ short = omega arith in
    rw (high, low) at (packs_lem (type * 16 + short) table)

-- What the view of a memory shows that starts with a command's bytes.
viewed :
    (m : Memory) (p id code type : ℕ)
    → 2 ≤ code
    → code ≤ 5
    → type < 4
    → m p ≡ bit_or (type * 2 ^ 4) (min id short_report_id_limit) % 2 ^ 8
    → m (p + 1) ≡ code
    → (15 ≤ id → m (p + 2) ≡ id)
    → (command_size m p ≡ length (report_command id code type))
      × (report_type m p ≡ type)
      × (report_id m p ≡ id)
unfolding opcode command_size is_extended report_type report_id report_command
viewed m p id code type lo hi ht h0 h1 h2 =
    let (high, low) = first_byte type (min id 15) ht (omega arith) in
    let long : bit_and (m p) 15 ≡ min id 15 = rw h0 low in (ground arith, rw h0 high, ground arith)

-- A command for a report, of a type of two bits, is read back as it was built: the opcode, the type and the report's
-- number, with the size of its bytes, which has one more for the numbers from 15 on.
pub report_command_lem :
    (mem : Memory) (p id code type : ℕ)
    → 2 ≤ code
    → code ≤ 5
    → type < 4
    → let m = store mem p (report_command id code type) in
      (opcode m p ≡ code)
      × (command_size m p ≡ length (report_command id code type))
      × (report_type m p ≡ type)
      × (report_id m p ≡ id)
unfolding opcode report_command store
report_command_lem mem p id code type lo hi ht =
    let m = store mem p (report_command id code type) in
    let second : m (p + 1) ≡ code = ground arith in
    let (size, kind, number) =
      viewed m p id code type lo hi ht (ground arith) second (λ h. ground arith) in
    (second, size, kind, number)
