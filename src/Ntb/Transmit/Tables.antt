-- ===== src/Ntb/Transmit/Tables.antt =====
-- The two loops that write the pointer table over the lengths' slots.
use c2usb.Base.{ℕ, zero, suc, ◌+◌, ◌-◌, ◌*◌, ◌%◌, ◌^◌, ◌≤◌, ◌<◌, ◌≡◌, refl, ◌∙◌, ◌⊎◌, inl, inr}
use c2usb.Base.{List, [], ◌∷◌, length, arith}
use c2usb.Message.Reply.{le_bytes}
use c2usb.Serial.Memory.{Memory, load, store, store-outside, length-load}
use c2usb.Ntb.Transmit.{aligned_size, word, copy_lengths, fill_indices}
use c2usb.Ntb.Transmit.Words.{word_cong, word-store, word-store-load, length-le_bytes}
use c2usb.Ntb.Transmit.Filled.{end_of, le-end_of, Slots}

-- The lengths in the table's rows from the row `i` on, and the whole rows.
abbrev pub Lengths : Memory → ℕ → ℕ → List (List ℕ) → Type 0
Lengths m dpt i [] = Unit
Lengths m dpt i (d ∷ ds) = (word m (dpt + 8 + 4 * i + 2) ≡ length d) × Lengths m dpt (suc i) ds

abbrev pub Rows : Memory → ℕ → ℕ → ℕ → List (List ℕ) → Type 0
Rows m dpt i off [] = Unit
Rows m dpt i off (d ∷ ds) =
    (word m (dpt + 8 + 4 * i) ≡ off)
    × (word m (dpt + 8 + 4 * i + 2) ≡ length d)
    × Rows m dpt (suc i) (off + aligned_size (length d)) ds

pub Rows-cong :
    (m m' : Memory) (dpt i off : ℕ) (ds : List (List ℕ))
    → ((a : ℕ) → a < dpt + 8 + 4 * (i + length ds) → dpt ≤ a → m' a ≡ m a)
    → Rows m dpt i off ds
    → Rows m' dpt i off ds
Rows-cong m m' dpt i off [] same h = tt
Rows-cong m m' dpt i off (d ∷ ds) same (o, l, r) =
    let at = dpt + 8 + 4 * i in
    (
      word_cong m m' at (same at (omega arith) (omega arith))
            (same (at + 1) (omega arith) (omega arith))
          ∙ o,
      word_cong m m' (at + 2) (same (at + 2) (omega arith) (omega arith))
            (same (at + 2 + 1) (omega arith) (omega arith))
          ∙ l,
      Rows-cong m m' dpt (suc i) (off + aligned_size (length d)) ds
          (λ a hi lo. same a (omega arith) lo) r,
    )

-- An upper half word and a lower one do not meet.
pub outside_lower : (w a : ℕ) → w % 4 ≡ 0 → 2 ≤ a % 4 → (a < w) ⊎ (w + 2 ≤ a)
outside_lower w a h k = ground arith

outside_upper : (w a : ℕ) → w % 4 ≡ 2 → a % 4 < 2 → (a < w) ⊎ (w + 2 ≤ a)
outside_upper w a h k = ground arith

pub store_word :
    (m : Memory) (w : ℕ) (bs : List ℕ) (a : ℕ)
    → length bs ≡ 2
    → (a < w) ⊎ (w + 2 ≤ a)
    → store m w bs a ≡ m a
store_word m w bs a e (inl h) = store-outside m w bs a (inl h)
store_word m w bs a e (inr h) = store-outside m w bs a (inr (omega arith))

module _ (dpt slot : ℕ) (dpt_aligned : dpt % 4 ≡ 0) (slot_aligned : slot % 4 ≡ 0) where
  -- The first loop leaves the lower halves, and what stands in front of its rows.
  pub copy_lower : (n i : ℕ) (m : Memory) (a : ℕ) → a % 4 < 2 → copy_lengths dpt slot n i m a ≡ m a
  unfolding copy_lengths
  copy_lower zero i m a h = refl
  copy_lower (suc n) i m a h =
      copy_lower n (suc i) _ a h
      ∙ store_word m (dpt + 8 + 4 * i + 2) _ a (length-load m (slot - 4 * i) 2)
          (outside_upper (dpt + 8 + 4 * i + 2) a (omega arith) h)

  pub copy_before :
      (n i : ℕ) (m : Memory) (a : ℕ) → a < dpt + 8 + 4 * i + 2 → copy_lengths dpt slot n i m a ≡ m a
  unfolding copy_lengths
  copy_before zero i m a h = refl
  copy_before (suc n) i m a h =
      copy_before n (suc i) _ a (omega arith)
      ∙ store_word m (dpt + 8 + 4 * i + 2) _ a (length-load m (slot - 4 * i) 2) (inl h)

  Slots-lower :
      (m m' : Memory) (i : ℕ) (ds : List (List ℕ))
      → 4 * (i + length ds) ≤ slot + 4
      → ((a : ℕ) → a % 4 < 2 → m' a ≡ m a)
      → Slots m slot i ds
      → Slots m' slot i ds
  Slots-lower m m' i [] room same h = tt
  Slots-lower m m' i (d ∷ ds) room same (h, hs) = (
    word_cong m m' (slot - 4 * i) (same (slot - 4 * i) (omega arith))
          (same (slot - 4 * i + 1) (omega arith))
        ∙ h,
    Slots-lower m m' (suc i) ds (omega arith) same hs,
  )

  -- The first loop moves the lengths from the slots to the rows, though the rows may overlap the slots.
  pub Lengths-copy_lengths :
      (ds : List (List ℕ)) (i : ℕ) (m : Memory)
      → 4 * (i + length ds) ≤ slot + 4
      → Slots m slot i ds
      → Lengths (copy_lengths dpt slot (length ds) i m) dpt i ds
  unfolding copy_lengths
  Lengths-copy_lengths [] i m room h = tt
  Lengths-copy_lengths (d ∷ ds) i m room (h, hs) =
      let at = dpt + 8 + 4 * i + 2 in
      let m1 = store m at (load m (slot - 4 * i) 2) in
      let same = λ (a : ℕ) (low : a % 4 < 2).
        (store_word m at (load m (slot - 4 * i) 2) a (length-load m (slot - 4 * i) 2)
          (outside_upper at a (omega arith) low)) in
      (
        word_cong m1 (copy_lengths dpt slot (length ds) (suc i) m1) at
              (copy_before (length ds) (suc i) m1 at (omega arith))
              (copy_before (length ds) (suc i) m1 (at + 1) (omega arith))
            ∙ (word-store-load m at (slot - 4 * i) ∙ h),
        Lengths-copy_lengths ds (suc i) m1 (omega arith)
            (Slots-lower m m1 (suc i) ds (omega arith) same hs),
      )

  -- The second loop leaves what stands in front of its rows.
  fill_before :
      (n i : ℕ) (m : Memory) (a : ℕ) → a < dpt + 8 + 4 * suc i → fill_indices dpt n i m a ≡ m a
  unfolding fill_indices
  fill_before zero i m a h = refl
  fill_before (suc n) i m a h =
      fill_before n (suc i) _ a (omega arith)
      ∙ store_word m (dpt + 8 + 4 * suc i) _ a (length-le_bytes 2 _) (inl h)

  pub Lengths-upper :
      (m m' : Memory) (i : ℕ) (ds : List (List ℕ))
      → ((a : ℕ) → 2 ≤ a % 4 → m' a ≡ m a)
      → Lengths m dpt i ds
      → Lengths m' dpt i ds
  Lengths-upper m m' i [] same h = tt
  Lengths-upper m m' i (d ∷ ds) same (h, hs) =
      let at = dpt + 8 + 4 * i + 2 in
      (
        word_cong m m' at (same at (omega arith)) (same (at + 1) (omega arith)) ∙ h,
        Lengths-upper m m' (suc i) ds same hs,
      )

  -- The second loop completes the rows of a table whose lengths and first index are in place.
  pub Rows-fill_indices :
      (d : List ℕ) (ds : List (List ℕ)) (i off : ℕ) (m : Memory)
      → off % 4 ≡ 0
      → end_of off (d ∷ ds) < 2 ^ 16
      → word m (dpt + 8 + 4 * i) ≡ off
      → Lengths m dpt i (d ∷ ds)
      → Rows (fill_indices dpt (length ds) i m) dpt i off (d ∷ ds)
  unfolding fill_indices
  Rows-fill_indices d [] i off m al small h (l, ls) = (h, l, tt)
  Rows-fill_indices d (e ∷ ds) i off m al small h (l, ls) =
      let at = dpt + 8 + 4 * i in
      let next = aligned_size (word m at + word m (at + 2)) in
      let off' = off + aligned_size (length d) in
      let next_off : next ≡ off' = omega (arith, h, l) in
      let bound = le-end_of off' (e ∷ ds) in
      let w = dpt + 8 + 4 * suc i in
      let m1 = store m w (le_bytes 2 next) in
      let same = λ (a : ℕ) (up : 2 ≤ a % 4).
        (store_word m w (le_bytes 2 next) a (length-le_bytes 2 next)
          (outside_lower w a (omega arith) up)) in
      let m2 = fill_indices dpt (length ds) (suc i) m1 in
      let kept = λ (a : ℕ) (lo : a < w).
        (fill_before (length ds) (suc i) m1 a (omega arith)
          ∙ store_word m w (le_bytes 2 next) a (length-le_bytes 2 next) (inl lo)) in
      (
        word_cong m m2 at (kept at (omega arith)) (kept (at + 1) (omega arith)) ∙ h,
        word_cong m m2 (at + 2) (kept (at + 2) (omega arith)) (kept (at + 2 + 1) (omega arith)) ∙ l,
        Rows-fill_indices e ds (suc i) off' m1 (omega arith) small
            (word-store m w next (omega arith) ∙ next_off)
            (Lengths-upper m m1 (suc i) (e ∷ ds) same ls),
      )

  pub fill_front : (n : ℕ) (m : Memory) (a : ℕ) → a < dpt + 12 → fill_indices dpt n 0 m a ≡ m a
  fill_front n m a h = fill_before n 0 m a (omega arith)
