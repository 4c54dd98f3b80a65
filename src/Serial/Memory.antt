-- ===== src/Serial/Memory.antt =====
-- The memory behind a buffer's pointers: a byte for each offset from its start.
use c2usb.Base.{ℕ, zero, suc, ◌+◌, ◌≤◌, ◌<◌, ◌≡◌, refl, sym, ap, ap₂, ◌∙◌, ◌⊎◌, inl, inr}
use c2usb.Base.{List, [], ◌∷◌, ◌++◌, length, ◌==◌, if◌then◌else◌, arith}

-- The bytes of an object: an address counts from the start of the object.
abbrev pub Memory : Type 0
Memory = ℕ → ℕ

-- `std::copy_n` into the memory, at an offset.
unfoldable pub store : Memory → ℕ → List ℕ → Memory
store mem off [] a = mem a
store mem off (b ∷ bs) a = if a == off then b else store mem (suc off) bs a

-- The bytes of a span.
unfoldable pub load : Memory → ℕ → ℕ → List ℕ
load mem off zero = []
load mem off (suc n) = mem off ∷ load mem (suc off) n

pub length-load : (mem : Memory) (off n : ℕ) → length (load mem off n) ≡ n
unfolding load
length-load mem off zero = refl
length-load mem off (suc n) = ap suc (length-load mem (suc off) n)

pub load_cong :
    (mem mem' : Memory) (off n : ℕ)
    → ((a : ℕ) → off ≤ a → a < off + n → mem a ≡ mem' a)
    → load mem off n ≡ load mem' off n
unfolding load
load_cong mem mem' off zero h = refl
load_cong mem mem' off (suc n) h =
    ap₂ ◌∷◌ (h off (omega arith) (omega arith))
      (load_cong mem mem' (suc off) n (λ a lo hi. h a (omega arith) (omega arith)))

pub load-add :
    (mem : Memory) (off m n : ℕ) → load mem off (m + n) ≡ load mem off m ++ load mem (off + m) n
unfolding load
load-add mem off zero n = grind arith
load-add mem off (suc m) n = grind (arith, load-add mem (suc off) m n)

-- A copy leaves the bytes outside of it.
pub store-outside :
    (mem : Memory) (off : ℕ) (bs : List ℕ) (a : ℕ)
    → (a < off) ⊎ (off + length bs ≤ a)
    → store mem off bs a ≡ mem a
unfolding store
store-outside mem off [] a h = refl
store-outside mem off (b ∷ bs) a h = ground (arith, store-outside mem (suc off) bs a)

pub load-store_outside :
    (mem : Memory) (off : ℕ) (bs : List ℕ) (at n : ℕ)
    → (at + n ≤ off) ⊎ (off + length bs ≤ at)
    → load (store mem off bs) at n ≡ load mem at n
load-store_outside mem off bs at n (inl h) =
    load_cong _ _ at n (λ a lo hi. store-outside mem off bs a (inl (omega arith)))
load-store_outside mem off bs at n (inr h) =
    load_cong _ _ at n (λ a lo hi. store-outside mem off bs a (inr (omega arith)))

store-beyond :
    (mem : Memory) (off : ℕ) (b : ℕ) (bs : List ℕ) (a : ℕ)
    → off < a
    → store mem off (b ∷ bs) a ≡ store mem (suc off) bs a
unfolding store
store-beyond mem off b bs a h = ground arith

store-head : (mem : Memory) (off b : ℕ) (bs : List ℕ) → store mem off (b ∷ bs) off ≡ b
unfolding store
store-head mem off b bs = ground arith

-- The bytes copied are the bytes read back.
pub load-store :
    (mem : Memory) (off : ℕ) (bs : List ℕ) → load (store mem off bs) off (length bs) ≡ bs
unfolding load
load-store mem off [] = refl
load-store mem off (b ∷ bs) = ap₂ ◌∷◌ (store-head mem off b bs) (
    load_cong _ _ (suc off) (length bs) (λ a lo hi. store-beyond mem off b bs a (omega arith))
    ∙ load-store mem (suc off) bs)

pub load-store-length :
    (mem : Memory) (off : ℕ) (bs : List ℕ) (n : ℕ)
    → length bs ≡ n
    → load (store mem off bs) off n ≡ bs
load-store-length mem off bs n e = rw (sym e) (load-store mem off bs)
