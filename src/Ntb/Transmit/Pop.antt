-- ===== src/Ntb/Transmit/Pop.antt =====
-- The writes of `pop_ntb`, seen from the parts of the block.
use mathlib.Core.Path.{subst}
use c2usb.Base.{ℕ, zero, suc, ◌+◌, ◌-◌, ◌*◌, ◌%◌, ◌^◌, ◌≤◌, ◌<◌, ◌≡◌, refl, sym, ◌∙◌, ◌⊎◌, inl, inr}
use c2usb.Base.{List, ◌∷◌, ◌++◌, length, arith}
use c2usb.Message.Reply.{le_bytes}
use c2usb.Serial.Memory.{Memory, store, store-outside}
use c2usb.Ntb.{header_size, header_signature, table_signature}
use c2usb.Ntb.Transmit.{
  TxCtx, word, base, tail, last_slot, copy_lengths, fill_indices, write_table, write_header,
  write_pointers,
}
use c2usb.Ntb.Transmit.Words.{word-store, length-le_bytes}
use c2usb.Ntb.Transmit.Filled.{
  end_of, le-end_of, end_of_aligned, Stored, Stored-cong, Slots, Slots-cong, IsFilled,
}
use c2usb.Ntb.Transmit.Tables.{
  Lengths, Rows, copy_before, Lengths-copy_lengths, Lengths-upper, Rows-fill_indices, fill_front,
  Rows-cong, outside_lower, store_word,
}

-- The eight bytes in front of the rows, and the header.
pub table_words :
    (m : Memory) (at n : ℕ)
    → n < 2 ^ 16
    → let m' = store m at (le_bytes 4 table_signature ++ (le_bytes 2 n ++ le_bytes 2 0)) in
      (word m' at ≡ 0x434e)
      × (word m' (at + 2) ≡ 0x304d)
      × (word m' (at + 4) ≡ n)
      × (word m' (at + 6) ≡ 0)
unfolding word store le_bytes
table_words m at n h = (ground arith, ground arith, ground arith, ground arith)

pub header_words :
    (m : Memory) (at n i : ℕ)
    → n < 2 ^ 16
    → i < 2 ^ 16
    → let m' =
        store
          (store m at (le_bytes 4 header_signature ++ le_bytes 2 header_size))
          (at + 8)
          (le_bytes 2 n ++ le_bytes 2 i) in
      (word m' at ≡ 0x434e)
      × (word m' (at + 2) ≡ 0x484d)
      × (word m' (at + 4) ≡ 12)
      × (word m' (at + 8) ≡ n)
      × (word m' (at + 10) ≡ i)
unfolding word store le_bytes
header_words m at n i hn hi = (ground arith, ground arith, ground arith, ground arith, ground arith)

zero_words :
    (m : Memory) (at : ℕ)
    → (word (store m at (le_bytes 4 0)) at ≡ 0) × (word (store m at (le_bytes 4 0)) (at + 2) ≡ 0)
unfolding word store le_bytes
zero_words m at = (ground arith, ground arith)

-- The pages' addresses.
pub page_cases :
    (p s : ℕ) → p ≤ 1 → ((p * s ≡ 0) × ((1 - p) * s ≡ s)) ⊎ ((p * s ≡ s) × ((1 - p) * s ≡ 0))
page_cases zero s h = inl (omega arith, omega arith)
page_cases (suc zero) s h = inr (omega arith, omega arith)
page_cases (suc (suc p)) s h = absurd (omega arith)

module _ (c : TxCtx) (d : List ℕ) (es : List (List ℕ)) (f : IsFilled c (d ∷ es)) where
  abbrev pub ds : List (List ℕ)
  ds = d ∷ es

  pub base_aligned : base c % 4 ≡ 0
  unfolding base
  base_aligned = elim (page_cases c.page c.size f.page_is) [
    | inl (e, _) ↦ omega (arith, e, f.aligned.0)
    | inr (e, _) ↦ omega (arith, e, f.aligned.0, f.aligned.1)
  ]

  -- The block and the slots lie within the page.
  pub fits_page :
      (c.index + 12 + 4 * c.dg_count ≤ c.size)
      × (12 ≤ c.index)
      × (c.index % 4 ≡ 0)
      × (c.dg_count ≡ suc (length es))
      × (c.index + 12 + 4 * c.dg_count < 2 ^ 16)
  fits_page =
      let r = f.room in
      let n = f.count in
      let s = f.small in
      let i = f.index_is in
      (
        omega arith,
        omega (arith, le-end_of 12 (d ∷ es)),
        omega (arith, end_of_aligned 12 (d ∷ es) refl),
        n,
        omega arith,
      )

  tail_aligned : tail c % 4 ≡ 0
  unfolding tail
  tail_aligned = let (_, _, al, _, _) = fits_page in omega (arith, base_aligned)

  slot_aligned : last_slot c % 4 ≡ 0
  unfolding last_slot
  slot_aligned = let (room, _, _, n, _) = fits_page in omega (arith, base_aligned, f.aligned.1)

  abbrev pub framed : Memory
  framed = write_header c (write_table c c.memory)

  -- Between the header and the table, and behind the table's first part, the memory is what it was.
  framed_kept :
      (a : ℕ) → ((base c + 12 ≤ a) × (a < tail c)) ⊎ (tail c + 8 ≤ a) → framed a ≡ c.memory a
  unfolding write_header write_table tail le_bytes
  framed_kept a h =
      let (_, low, _, _, _) = fits_page in
      elim h [
        | inl (lo, hi) ↦
            store-outside _ (base c + 8) _ a (inr (omega arith))
            ∙ store-outside _ (base c) _ a (inr (omega arith))
            ∙ store-outside c.memory (base c + c.index) _ a (inl (omega arith))
        | inr lo ↦
            store-outside _ (base c + 8) _ a (inr (omega arith))
            ∙ store-outside _ (base c) _ a (inr (omega arith))
            ∙ store-outside c.memory (base c + c.index) _ a (inr (omega arith))
      ]

  abbrev pub complete : Memory
  complete = write_pointers c framed

  pub complete_front : (a : ℕ) → a < tail c + 8 → complete a ≡ framed a
  unfolding write_pointers
  complete_front a h =
      store-outside _ (tail c + 8 + 4 * c.dg_count) _ a (inl (omega arith))
      ∙ fill_front (tail c) (last_slot c) tail_aligned slot_aligned (c.dg_count - 1) _ a
          (omega arith)
      ∙ store-outside _ (tail c + 8) _ a (inl h)
      ∙ copy_before (tail c) (last_slot c) tail_aligned slot_aligned c.dg_count 0 framed a
          (omega arith)

  slots_room : 4 * (0 + length ds) ≤ last_slot c + 4
  unfolding last_slot
  slots_room = let (room, _, _, n, _) = fits_page in omega arith

  framed-Slots : Slots framed (last_slot c) 0 ds
  unfolding last_slot tail
  framed-Slots =
      let (room, _, _, n, _) = fits_page in
      Slots-cong c.memory framed (last_slot c) 0 ds slots_room
        (λ a lo hi. framed_kept a (inr (omega arith))) f.slots

  -- The rows of the table, and the null pointer behind them.
  pub complete-Rows : Rows complete (tail c) 0 12 ds
  unfolding write_pointers
  complete-Rows =
      let t = tail c in
      let s = last_slot c in
      let (_, _, _, n, _) = fits_page in
      let m3 = copy_lengths t s c.dg_count 0 framed in
      let m4 = store m3 (t + 8) (le_bytes 2 header_size) in
      let m5 = fill_indices t (c.dg_count - 1) 0 m4 in
      let lengths : Lengths m3 t 0 ds =
        subst (λ z. Lengths (copy_lengths t s z 0 framed) t 0 ds) (sym n)
          (Lengths-copy_lengths t s tail_aligned slot_aligned ds 0 framed slots_room
            framed-Slots) in
      let upper =
        Lengths-upper t s tail_aligned slot_aligned m3 m4 0 ds
          (λ a up.
            store_word m3 (t + 8) (le_bytes 2 header_size) a (length-le_bytes 2 header_size)
              (outside_lower (t + 8) a (omega (arith, tail_aligned)) up))
          lengths in
      let first : word m4 (t + 8 + 4 * 0) ≡ 12 =
        rw (plus_zero (t + 8)) (word-store m3 (t + 8) header_size (omega arith)) in
      let small : end_of 12 ds < 2 ^ 16 = omega (arith, f.index_is, fits_page.4) in
      let one_less : length es ≡ c.dg_count - 1 = omega arith in
      let rows : Rows m5 t 0 12 ds =
        subst (λ z. Rows (fill_indices t z 0 m4) t 0 12 ds) one_less
          (Rows-fill_indices t s tail_aligned slot_aligned d es 0 12 m4 refl small first upper) in
      Rows-cong m5 complete t 0 12 ds
        (λ a hi lo. store-outside m5 (t + 8 + 4 * c.dg_count) _ a (inl (omega arith))) rows
    where
      plus_zero : (x : ℕ) → x + 4 * 0 ≡ x
      plus_zero x = omega arith

  pub complete_null :
      (word complete (tail c + 8 + 4 * c.dg_count) ≡ 0)
      × (word complete (tail c + 8 + 4 * c.dg_count + 2) ≡ 0)
  unfolding write_pointers
  complete_null = zero_words _ (tail c + 8 + 4 * c.dg_count)

  pub complete-Stored : Stored complete (base c) 12 ds
  unfolding tail
  complete-Stored =
      let i = f.index_is in
      Stored-cong c.memory complete (base c) 12 ds
        (λ a lo hi. complete_front a (omega arith) ∙ framed_kept a (inl (lo, omega arith))) f.stored
