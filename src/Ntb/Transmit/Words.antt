-- ===== src/Ntb/Transmit/Words.antt =====
-- Words of two bytes in the memory, and what the copies leave of them.
use c2usb.Base.{ℕ, ◌+◌, ◌/◌, ◌^◌, ◌≤◌, ◌<◌, ◌≡◌, refl, ◌⊎◌, inl, inr, arith}
use c2usb.Base.{List, length}
use c2usb.Message.Reply.{le_bytes}
use c2usb.Serial.Memory.{Memory, load, store, store-outside}
use c2usb.Ntb.Transmit.{word}

pub word_cong : (m m' : Memory) (a : ℕ) → m' a ≡ m a → m' (a + 1) ≡ m (a + 1) → word m' a ≡ word m a
unfolding word
word_cong m m' a e e' = rw (e, e') refl

pub length-le_bytes : (n v : ℕ) → length (le_bytes n v) ≡ n
unfolding le_bytes
length-le_bytes ℕ.zero v = refl
length-le_bytes (ℕ.suc n) v = omega (arith, length-le_bytes n (v / 2 ^ 8))

-- A word that was written is read back.
pub word-store : (m : Memory) (a v : ℕ) → v < 2 ^ 16 → word (store m a (le_bytes 2 v)) a ≡ v
unfolding word store le_bytes
word-store m a v h = ground arith

pub word-store_outside :
    (m : Memory) (off : ℕ) (bs : List ℕ) (a : ℕ)
    → (a + 2 ≤ off) ⊎ (off + length bs ≤ a)
    → word (store m off bs) a ≡ word m a
word-store_outside m off bs a (inl h) =
    word_cong m (store m off bs) a (store-outside m off bs a (inl (omega arith)))
      (store-outside m off bs (a + 1) (inl (omega arith)))
word-store_outside m off bs a (inr h) =
    word_cong m (store m off bs) a (store-outside m off bs a (inr h))
      (store-outside m off bs (a + 1) (inr (omega arith)))

-- A word that was copied is the word at its source.
pub word-store-load : (m : Memory) (a b : ℕ) → word (store m a (load m b 2)) a ≡ word m b
unfolding word store load
word-store-load m a b = ground arith
