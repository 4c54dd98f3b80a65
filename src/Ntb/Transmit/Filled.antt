-- ===== src/Ntb/Transmit/Filled.antt =====
-- What a context holds that datagrams were appended to.
use c2usb.Base.{ℕ, suc, ◌+◌, ◌-◌, ◌*◌, ◌%◌, ◌^◌, min, ◌≤◌, ◌<◌, ◌≡◌, refl, ◌∙◌}
use c2usb.Base.{List, [], ◌∷◌, ◌++◌, length, All, arith}
use c2usb.Serial.Memory.{Memory, load, load_cong}
use c2usb.Ntb.Transmit.{TxCtx, aligned_size, word, base, last_slot}
use c2usb.Ntb.Transmit.Words.{word_cong}

-- The end of the datagrams that stand one behind the other from an offset on.
abbrev pub end_of : ℕ → List (List ℕ) → ℕ
end_of off [] = off
end_of off (d ∷ ds) = end_of (off + aligned_size (length d)) ds

-- The bytes of the datagrams, counted from an address.
abbrev pub Stored : Memory → ℕ → ℕ → List (List ℕ) → Type 0
Stored m at off [] = Unit
Stored m at off (d ∷ ds) =
    (load m (at + off) (length d) ≡ d) × Stored m at (off + aligned_size (length d)) ds

-- Their lengths, in the slots from the datagram `i` on.
abbrev pub Slots : Memory → ℕ → ℕ → List (List ℕ) → Type 0
Slots m slot i [] = Unit
Slots m slot i (d ∷ ds) = (word m (slot - 4 * i) ≡ length d) × Slots m slot (suc i) ds

pub le-end_of : (off : ℕ) (ds : List (List ℕ)) → off ≤ end_of off ds
le-end_of off [] = omega arith
le-end_of off (d ∷ ds) = omega (arith, le-end_of (off + aligned_size (length d)) ds)

pub end_of-append :
    (off : ℕ) (ds : List (List ℕ)) (d : List ℕ)
    → end_of off (ds ++ (d ∷ [])) ≡ end_of off ds + aligned_size (length d)
end_of-append off [] d = refl
end_of-append off (e ∷ ds) d = end_of-append (off + aligned_size (length e)) ds d

-- The padding keeps the offsets on multiples of four.
pub end_of_aligned : (off : ℕ) (ds : List (List ℕ)) → off % 4 ≡ 0 → end_of off ds % 4 ≡ 0
end_of_aligned off [] h = h
end_of_aligned off (d ∷ ds) h = end_of_aligned (off + aligned_size (length d)) ds (omega arith)

-- Both views depend on their bytes only.
pub Stored-cong :
    (m m' : Memory) (at off : ℕ) (ds : List (List ℕ))
    → ((a : ℕ) → at + off ≤ a → a < at + end_of off ds → m' a ≡ m a)
    → Stored m at off ds
    → Stored m' at off ds
Stored-cong m m' at off [] same h = tt
Stored-cong m m' at off (d ∷ ds) same (h, hs) =
    let next = off + aligned_size (length d) in
    let le = le-end_of next ds in
    (
      load_cong m' m (at + off) (length d) (λ a lo hi. same a lo (omega arith)) ∙ h,
      Stored-cong m m' at next ds (λ a lo hi. same a (omega arith) hi) hs,
    )

pub Slots-cong :
    (m m' : Memory) (slot i : ℕ) (ds : List (List ℕ))
    → 4 * (i + length ds) ≤ slot + 4
    → ((a : ℕ) → slot + 4 ≤ a + 4 * (i + length ds) → a < slot + 2 → m' a ≡ m a)
    → Slots m slot i ds
    → Slots m' slot i ds
Slots-cong m m' slot i [] room same h = tt
Slots-cong m m' slot i (d ∷ ds) room same (h, hs) = (
  word_cong m m' (slot - 4 * i) (same (slot - 4 * i) (omega arith) (omega arith))
        (same (slot - 4 * i + 1) (omega arith) (omega arith))
      ∙ h,
  Slots-cong m m' slot (suc i) ds (omega arith) (λ a lo hi. same a (omega arith) hi) hs,
)

pub Stored-append :
    (m : Memory) (at off : ℕ) (ds : List (List ℕ)) (d : List ℕ)
    → Stored m at off ds
    → load m (at + end_of off ds) (length d) ≡ d
    → Stored m at off (ds ++ (d ∷ []))
Stored-append m at off [] d hs h = (h, tt)
Stored-append m at off (e ∷ ds) d (he, hs) h =
    (he, Stored-append m at (off + aligned_size (length e)) ds d hs h)

pub Slots-append :
    (m : Memory) (slot i : ℕ) (ds : List (List ℕ)) (d : List ℕ)
    → Slots m slot i ds
    → word m (slot - 4 * (i + length ds)) ≡ length d
    → Slots m slot i (ds ++ (d ∷ []))
Slots-append m slot i [] d hs h = (rw (plus_zero i) at h, tt)
  where
    plus_zero : (i : ℕ) → i + 0 ≡ i
    plus_zero i = omega arith
Slots-append m slot i (e ∷ ds) d (he, hs) h =
    (he, Slots-append m slot (suc i) ds d hs (rw (plus_suc i (length ds)) at h))
  where
    plus_suc : (i n : ℕ) → i + suc n ≡ suc i + n
    plus_suc i n = omega arith

-- The context: pages of whole words, and the datagrams behind the header with their lengths from the page's end on. The
-- count and the index have not wrapped.
pub record IsFilled (c : TxCtx) (ds : List (List ℕ)) : Type 0 where
  pub aligned : (c.buf % 4 ≡ 0) × (c.size % 4 ≡ 0)
  pub small : c.size < 2 ^ 16
  pub page_is : c.page ≤ 1
  pub count : c.dg_count ≡ length ds
  pub index_is : c.index ≡ end_of 12 ds
  pub room : c.index + 12 + 4 * length ds + c.rem_size ≡ min c.size c.max_size
  pub stored : Stored c.memory (base c) 12 ds
  pub slots : Slots c.memory (last_slot c) 0 ds
  pub long : All (λ (d : List ℕ). 14 ≤ length d) ds
