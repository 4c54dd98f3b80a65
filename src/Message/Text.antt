-- ===== src/Message/Text.antt =====
-- c2usb/usb/df/message.hpp and message.cpp: string descriptors, and c2usb/raw_to_hex_string.hpp.
-- A string is the list of its code units, each already a uint16_t.
pub mod Laws
use c2usb.Base.{
  ℕ, ◌+◌, ◌-◌, ◌*◌, ◌/◌, ◌%◌, ◌^◌, min, bit_and, Option, none, some, List, [], ◌∷◌, if◌then◌else◌,
  ltb, length, take, ◌>>=◌, false,
}
use c2usb.Message.Buffer.{Buffer, allocate, write_bytes}
use c2usb.Message.Reply.{Message, send_buffer, assert_then}

-- A string descriptor's type code, usb::standard::descriptor::type::STRING.
abbrev pub string_type : ℕ
string_type = 3

-- sizeof(usb::standard::descriptor::string), the two bytes of the descriptor's header.
abbrev pub string_header_size : ℕ
string_header_size = 2

-- What `safe_allocate` gives: the size cut to the room, the descriptor's offset and the message.
pub record Allocated : Type 0 where
  pub size : ℕ
  pub offset : ℕ
  pub message : Message

abbrev pub write_at : ℕ → List ℕ → Message → Message
write_at offset bytes m = record m {
  buffer = record m.buffer { mem = write_bytes offset bytes m.buffer.mem };
}

-- The allocation, and the constructor of the descriptor in its place with a uint8_t length.
unfoldable pub allocate_string : ℕ → ℕ → Message → Option Allocated
allocate_string size ratio m =
    allocate ((string_header_size + size * ratio) % 2 ^ 16) m.buffer >>= λ r. some (record {
      size = size;
      offset = r.0;
      message =
          write_at r.0 ((r.1.used_length % 2 ^ 8) ∷ string_type ∷ []) (record m { buffer = r.1 });
    })

unfoldable pub safe_allocate : ℕ → ℕ → Message → Option Allocated
unfolding allocate_string
safe_allocate size char_ratio m =
    let ratio = char_ratio * 2 in
    let max_size = (2 ^ 64 + m.buffer.size - string_header_size) % 2 ^ 64 / ratio in
    if ltb max_size size
    then assert_then m false (allocate_string max_size ratio m)
    else allocate_string size ratio m

-- The code units as little-endian words.
unfoldable pub le_units : List ℕ → List ℕ
le_units [] = []
le_units (u ∷ us) = (u % 2 ^ 8) ∷ (u / 2 ^ 8 % 2 ^ 8) ∷ le_units us

unfoldable pub send_string : List ℕ → Message → Option Message
unfolding le_units
send_string units m = safe_allocate (length units) 1 m >>= λ a.
    send_buffer (write_at (a.offset + string_header_size) (le_units (take a.size units)) a.message)

-- The digit of a value below 16.
unfoldable pub convert : ℕ → ℕ
convert v = if ltb v 10 then 48 + v else (65 + v - 10)

unfoldable pub hex_digits : List ℕ → List ℕ
unfolding convert
hex_digits [] = []
hex_digits (byte ∷ rest) = convert (byte / 2 ^ 4) ∷ convert (bit_and byte 0xF) ∷ hex_digits rest

-- The units written into a buffer of `room` units.
unfoldable pub raw_to_hex_string : List ℕ → ℕ → List ℕ
unfolding hex_digits
raw_to_hex_string data_bytes room =
    hex_digits (take (min (length data_bytes) (room / 2)) data_bytes)

unfoldable pub send_as_hex_string : List ℕ → Message → Option Message
unfolding le_units
send_as_hex_string data_bytes m = safe_allocate (length data_bytes) 2 m >>= λ a. send_buffer (
    write_at (a.offset + string_header_size) (le_units (raw_to_hex_string data_bytes (a.size * 2)))
      a.message)
