-- ===== src/Message/Buffer/Laws.antt =====
-- The control buffer stays within its bounds and keeps what was put in before.

use c2usb.Base.{
  ℕ, zero, suc, ◌+◌, ◌≤◌, ◌<◌, ◌≡◌, ◌≢◌, refl, ap, none, List, [], ◌∷◌, ◌++◌, arith, length, take,
  Ensures,
}
use c2usb.Message.Buffer.{Buffer, write_bytes, append}

pub record IsValid (b : Buffer) : Type 0 where
  pub present : b.data_ptr ≢ 0
  pub room : length b.mem ≡ b.size
  pub within : b.used_length ≤ b.size

-- The bytes in use.
unfoldable pub contents : Buffer → List ℕ
contents b = take b.used_length b.mem

pub length-write_bytes :
    (offset : ℕ) (xs mem : List ℕ) → length (write_bytes offset xs mem) ≡ length mem
unfolding write_bytes
length-write_bytes zero [] mem = refl
length-write_bytes zero (x ∷ xs) [] = refl
length-write_bytes zero (x ∷ xs) (m ∷ mem) = ap suc (length-write_bytes zero xs mem)
length-write_bytes (suc offset) xs [] = refl
length-write_bytes (suc offset) xs (m ∷ mem) = ap suc (length-write_bytes offset xs mem)

pub take-write_bytes :
    (n offset : ℕ) (xs mem : List ℕ)
    → n ≡ offset + length xs
    → n ≤ length mem
    → take n (write_bytes offset xs mem) ≡ take offset mem ++ xs
unfolding write_bytes
take-write_bytes zero zero [] mem e h = refl
take-write_bytes zero zero (x ∷ xs) mem e h = absurd (omega arith)
take-write_bytes zero (suc offset) xs mem e h = absurd (omega arith)
take-write_bytes (suc n) zero [] mem e h = absurd (omega arith)
take-write_bytes (suc n) zero (x ∷ xs) [] e h = absurd (omega arith)
take-write_bytes (suc n) zero (x ∷ xs) (m ∷ mem) e h =
    ap (x ∷◌) (take-write_bytes n zero xs mem (omega arith) (omega arith))
take-write_bytes (suc n) (suc offset) xs [] e h = absurd (omega arith)
take-write_bytes (suc n) (suc offset) xs (m ∷ mem) e h =
    ap (m ∷◌) (take-write_bytes n offset xs mem (omega arith) (omega arith))

-- The buffer after `bytes` were put behind what is in use.
pub record Appended (b : Buffer) (bytes : List ℕ) (b' : Buffer) : Type 0 where
  pub valid : IsValid b'
  pub grown : contents b' ≡ contents b ++ bytes
  pub used : b'.used_length ≡ b.used_length + length bytes
  pub same_size : b'.size ≡ b.size
  pub same_ptr : b'.data_ptr ≡ b.data_ptr

-- Bytes that fit are put behind those in use, which stay as they were; the buffer stays valid. Bytes
-- that do not fit are a fault.
pub append_lem :
    (bytes : List ℕ) (b : Buffer)
    → IsValid b
    → (b.used_length + length bytes ≤ b.size → Ensures (Appended b bytes) (append bytes b))
      × (b.size < b.used_length + length bytes → append bytes b ≡ none)
unfolding append contents
append_lem bytes b v = (
  λ fits. (
    record b {
      used_length = b.used_length + length bytes;
      mem = write_bytes b.used_length bytes b.mem;
    },
    ground arith,
    record {
      valid = ground (arith, length-write_bytes b.used_length bytes b.mem);
      grown =
          take-write_bytes (b.used_length + length bytes) b.used_length bytes b.mem refl
            (omega arith);
      used = refl;
      same_size = refl;
      same_ptr = refl;
    },
  ),
  λ over. ground arith,
)

pub contents_of_unused : (b : Buffer) → b.used_length ≡ 0 → contents b ≡ []
unfolding contents
contents_of_unused b u = rw u
