-- ===== src/Message/Text/Laws.antt =====
-- String descriptors as they reach the host, and the hexadecimal form of a byte string.
use c2usb.Base.{
  ℕ, ◌+◌, ◌-◌, ◌*◌, ◌/◌, ◌≤◌, ◌<◌, ◌%◌, ◌^◌, ◌≡◌, ◌≢◌, refl, ap, ap₂, sym, ◌∙◌, true, some, List,
  [], ◌∷◌, ◌++◌, arith, min, length, take, get_or, All, Ensures, if◌then◌else◌, ◌==◌, ==_iff, ltb,
  bit_and,
}
use c2usb.Base.Bits.{every, every_at}
use c2usb.Message.Buffer.{Buffer, allocate, write_bytes}
use c2usb.Message.Buffer.Laws.{
  IsValid, contents, contents_of_unused, Appended, length-write_bytes, take-write_bytes,
}
use c2usb.Message.Reply.{Message, is_in, send_buffer}
use c2usb.Message.Reply.Laws.{Sends, send-Appended}
use c2usb.Message.Text.{
  string_type, allocate_string, safe_allocate, le_units, send_string, convert, hex_digits,
  raw_to_hex_string, write_at,
}

pub length-le_units : (us : List ℕ) → length (le_units us) ≡ 2 * length us
unfolding le_units
length-le_units [] = refl
length-le_units (u ∷ us) = omega (arith, length-le_units us)

take_all {ℓ} : {A : Type ℓ} (xs : List A) → take (length xs) xs ≡ xs
take_all [] = refl
take_all (x ∷ xs) = ap (x ∷◌) (take_all xs)

-- The descriptor of `n` code units with the given payload.
pub string_descriptor : ℕ → List ℕ → List ℕ
string_descriptor n payload = ((2 + 2 * n) % 2 ^ 8) ∷ string_type ∷ payload

-- The buffer in which the descriptor was written in two steps.
abbrev written : Buffer → ℕ → List ℕ → Buffer
written b n payload = record b {
  used_length = 2 + 2 * n;
  mem = write_bytes 2 payload (write_bytes 0 (((2 + 2 * n) % 2 ^ 8) ∷ string_type ∷ []) b.mem);
}

written-Appended :
    (b : Buffer) (n : ℕ) (payload : List ℕ)
    → IsValid b
    → b.used_length ≡ 0
    → length payload ≡ 2 * n
    → 2 + 2 * n ≤ b.size
    → Appended b (string_descriptor n payload) (written b n payload)
unfolding contents string_descriptor
written-Appended b n payload v u l fits =
    let head : List ℕ = ((2 + 2 * n) % 2 ^ 8) ∷ string_type ∷ [] in
    let inner = length-write_bytes 0 head b.mem in
    let outer = length-write_bytes 2 payload (write_bytes 0 head b.mem) in
    record {
      valid = record { present = v.present; room = omega arith; within = fits };
      grown =
          take-write_bytes (2 + 2 * n) 2 payload (write_bytes 0 head b.mem) (omega arith)
            (omega arith)
          ∙ ap (λ xs. xs ++ payload) (take-write_bytes 2 0 head b.mem refl (omega arith))
          ∙ ap (λ xs. xs ++ (head ++ payload)) (sym (contents_of_unused b u));
      used = omega arith;
      same_size = refl;
      same_ptr = refl;
    }

-- A size that fits is allocated behind nothing, and the header written at the start.
allocate_string-eq :
    (n ratio : ℕ) (m : Message)
    → m.buffer.data_ptr ≢ 0
    → m.buffer.used_length ≡ 0
    → 2 + n * ratio ≤ m.buffer.size
    → m.buffer.size < 2 ^ 16
    → allocate_string n ratio m
      ≡ some (record {
        size = n;
        offset = 0;
        message =
            write_at 0
              (((2 + n * ratio) % 2 ^ 8) ∷ string_type ∷ [])
              (record m { buffer = record m.buffer { used_length = 2 + n * ratio } });
      })
unfolding allocate_string allocate
allocate_string-eq n ratio m present u fits small = ground arith

safe_allocate-eq :
    (n : ℕ) (m : Message)
    → 2 + 2 * n ≤ m.buffer.size
    → m.buffer.size < 2 ^ 16
    → safe_allocate n 1 m ≡ allocate_string n 2 m
unfolding safe_allocate
safe_allocate-eq n m fits small = ground arith

send_string-eq :
    (units : List ℕ) (m : Message)
    → m.buffer.data_ptr ≢ 0
    → m.buffer.used_length ≡ 0
    → 2 + 2 * length units ≤ m.buffer.size
    → m.buffer.size < 2 ^ 16
    → send_string units m
      ≡ send_buffer (record m { buffer = written m.buffer (length units) (le_units units) })
unfolding send_string
send_string-eq units m present u fits small =
    let n = length units in
    let twice : n * 2 ≡ 2 * n = omega arith in
    rw
      (
        safe_allocate-eq n m fits small,
        allocate_string-eq n 2 m present u (omega arith) small,
        take_all,
        twice,
      )
      refl

-- A string that fits the empty control buffer is sent as a string descriptor: the length byte, the
-- type, and the code units in little-endian order, cut to the length that the host asked for.
pub send_string-Sends :
    (units : List ℕ) (m : Message)
    → m.pending ≡ true
    → is_in m ≡ true
    → IsValid m.buffer
    → m.buffer.size < 2 ^ 16
    → m.buffer.used_length ≡ 0
    → 2 + 2 * length units ≤ m.buffer.size
    → Ensures (Sends (string_descriptor (length units) (le_units units)) m) (send_string units m)
send_string-Sends units m p i v small u fits =
    let n = length units in
    let (m', sent, sends) =
      send-Appended (string_descriptor n (le_units units)) m (written m.buffer n (le_units units)) p
        i small u (written-Appended m.buffer n (le_units units) v u (length-le_units units) fits) in
    (m', send_string-eq units m v.present u fits small ∙ sent, sends)

length_byte :
    (units : List ℕ)
    → let d = string_descriptor (length units) (le_units units) in
      (length units ≤ 126 → get_or d 0 0 ≡ length d)
      × (126 < length units → get_or d 0 0 < length d)
unfolding string_descriptor
length_byte units =
    (λ short. omega (arith, length-le_units units), λ long. omega (arith, length-le_units units))

-- The length byte of the descriptor that is sent counts all of its bytes where the string has at most
-- 126 code units; for a longer string that fits the buffer it is smaller than the descriptor.
pub send_string-length_byte :
    (units : List ℕ) (m : Message)
    → m.pending ≡ true
    → is_in m ≡ true
    → IsValid m.buffer
    → m.buffer.size < 2 ^ 16
    → m.buffer.used_length ≡ 0
    → 2 + 2 * length units ≤ m.buffer.size
    → Ensures
        (λ m'.
          let sent = contents m'.buffer in
          (length units ≤ 126 → get_or sent 0 0 ≡ length sent)
          × (126 < length units → get_or sent 0 0 < length sent))
        (send_string units m)
send_string-length_byte units m p i v small u fits =
    let (m', sent, sends) = send_string-Sends units m p i v small u fits in
    (m', sent, rw sends.1 (length_byte units))

digit_value : ℕ → ℕ
digit_value d = if ltb d 65 then d - 48 else (d - 55)

-- Reading hexadecimal digits back, two to a byte.
pub from_hex : List ℕ → List ℕ
from_hex [] = []
from_hex (a ∷ []) = []
from_hex (a ∷ b ∷ rest) = (digit_value a * 16 + digit_value b) ∷ from_hex rest

hex_table :
    every
      (λ x. digit_value (convert (x / 2 ^ 4)) * 16 + digit_value (convert (bit_and x 0xF)) == x)
      256
    ≡ true
unfolding every digit_value convert
hex_table = refl

from_hex-hex_digits :
    (bytes : List ℕ) → All (λ x. x < 2 ^ 8) bytes → from_hex (hex_digits bytes) ≡ bytes
unfolding from_hex hex_digits
from_hex-hex_digits [] h = refl
from_hex-hex_digits (x ∷ xs) h =
    ap₂ ◌∷◌ ((==_iff _ x).0 (every_at _ 256 x h.0 hex_table)) (from_hex-hex_digits xs h.1)

-- The hexadecimal digits of a byte string in a buffer with room for them give the bytes back.
pub from_hex-raw_to_hex_string :
    (bytes : List ℕ) (room : ℕ)
    → All (λ x. x < 2 ^ 8) bytes
    → 2 * length bytes ≤ room
    → from_hex (raw_to_hex_string bytes room) ≡ bytes
unfolding raw_to_hex_string
from_hex-raw_to_hex_string bytes room h fits =
    let whole : min (length bytes) (room / 2) ≡ length bytes = omega arith in
    rw (whole, take_all) (from_hex-hex_digits bytes h)
