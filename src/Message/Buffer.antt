-- ===== src/Message/Buffer.antt =====
-- c2usb/usb/df/message.hpp and message.cpp, `buffer`: the control buffer, filled from its start.
pub mod Laws
use c2usb.Base.{
  ℕ, zero, suc, ◌+◌, ◌-◌, Bool, true, false, not, ◌&&◌, Option, none, some, List, [], ◌∷◌, ◌++◌,
  if◌then◌else◌, ◌==◌, leb, length, take, drop, ◌>>=◌,
}

pub record Buffer : Type 0 where
  pub data_ptr : ℕ
  pub size : ℕ
  pub used_length : ℕ
  pub mem : List ℕ

-- `assign`: the bytes at the span come with it.
unfoldable pub assign : ℕ → List ℕ → Buffer
assign ptr bytes = record { data_ptr = ptr; size = length bytes; used_length = 0; mem = bytes }

unfoldable pub clear : Buffer → Buffer
clear b = record b { used_length = 0 }

-- The offset that is allocated, and the buffer.
unfoldable pub allocate : ℕ → Buffer → Option (ℕ × Buffer)
allocate n b =
    if not (b.data_ptr == 0) && leb (b.used_length + n) b.size
    then some (b.used_length, record b { used_length = b.used_length + n })
    else none

unfoldable pub free : ℕ → Buffer → Option Buffer
free n b = if leb n b.used_length then some (record b { used_length = b.used_length - n }) else none

-- The bytes from `offset` on are overwritten.
unfoldable pub write_bytes : ℕ → List ℕ → List ℕ → List ℕ
write_bytes zero [] mem = mem
write_bytes zero (x ∷ xs) [] = []
write_bytes zero (x ∷ xs) (m ∷ mem) = x ∷ write_bytes zero xs mem
write_bytes (suc offset) xs [] = []
write_bytes (suc offset) xs (m ∷ mem) = m ∷ write_bytes offset xs mem

-- `append`: the bytes of a value behind what is used.
unfoldable pub append : List ℕ → Buffer → Option Buffer
unfolding allocate write_bytes
append bytes b =
    allocate (length bytes) b >>= λ r. some (record r.1 { mem = write_bytes r.0 bytes b.mem })
