-- ===== src/Ntb/Transmit/Append.antt =====
-- Appending datagrams keeps the context filled.
use c2usb.Base.{ℕ, suc, ◌+◌, ◌-◌, ◌*◌, ◌%◌, ◌^◌, min, ◌≤◌, ◌<◌, ◌≡◌, refl, ◌∙◌, ◌⊎◌, inl, inr}
use c2usb.Base.{List, [], ◌∷◌, ◌++◌, length, All-append, length-append, arith}
use c2usb.Base.{true}
use c2usb.Message.Reply.{le_bytes}
use c2usb.Serial.Memory.{Memory, store, store-outside, load-store, load-store_outside}
use c2usb.Ntb.Transmit.{
  TxCtx, add_size, base, tail, last_slot, size_slot, init, fits, account, append_datagram,
}
use c2usb.Ntb.Transmit.Words.{word-store, length-le_bytes}
use c2usb.Ntb.Transmit.Filled.{
  end_of, Stored, Slots, end_of-append, Stored-cong, Slots-cong, Stored-append, Slots-append,
  IsFilled,
}

-- What the test of the code grants.
pub fits_lem : (sz : ℕ) (c : TxCtx) → fits sz c ≡ true → (14 ≤ sz) × (add_size sz ≤ c.rem_size)
unfolding fits
fits_lem sz c h = (ground arith, ground arith)

-- The two writes of an accepted datagram: its bytes behind the others, its length in front of the other lengths.
module _ (m : Memory) (at size : ℕ) (ds : List (List ℕ)) (d : List ℕ)
    (room : end_of 12 ds + 12 + 4 * length ds + add_size (length d) ≤ size)
    (short : length d < 2 ^ 16) where
  abbrev with_bytes : Memory
  with_bytes = store m (at + end_of 12 ds) d

  abbrev slot_at : ℕ
  slot_at = at + size - 4 * suc (length ds)

  abbrev written : Memory
  written = store with_bytes slot_at (le_bytes 2 (length d))

  unchanged : (a : ℕ) → (a < at + end_of 12 ds) ⊎ (slot_at + 2 ≤ a) → written a ≡ m a
  unchanged a (inl h) =
      store-outside with_bytes slot_at (le_bytes 2 (length d)) a (inl (omega arith))
      ∙ store-outside m (at + end_of 12 ds) d a (inl h)
  unchanged a (inr h) =
      store-outside with_bytes slot_at (le_bytes 2 (length d)) a
        (inr (omega (arith, length-le_bytes 2 (length d))))
      ∙ store-outside m (at + end_of 12 ds) d a (inr (omega arith))

  stored_lem : Stored m at 12 ds → Stored written at 12 (ds ++ (d ∷ []))
  stored_lem s =
      Stored-append written at 12 ds d
        (Stored-cong m written at 12 ds (λ a lo hi. unchanged a (inl hi)) s)
        (load-store_outside with_bytes slot_at (le_bytes 2 (length d)) (at + end_of 12 ds)
            (length d) (inl (omega arith))
          ∙ load-store m (at + end_of 12 ds) d)

  slots_lem : Slots m (at + size - 4) 0 ds → Slots written (at + size - 4) 0 (ds ++ (d ∷ []))
  slots_lem s =
      let place : at + size - 4 - 4 * (0 + length ds) ≡ slot_at = omega arith in
      Slots-append written (at + size - 4) 0 ds d
        (Slots-cong m written (at + size - 4) 0 ds (omega arith)
          (λ a lo hi. unchanged a (inr (omega arith))) s)
        (rw place (word-store with_bytes slot_at (length d) short))

pub init-IsFilled :
    (c : TxCtx)
    → c.buf % 4 ≡ 0
    → c.size % 4 ≡ 0
    → c.size < 2 ^ 16
    → c.page ≤ 1
    → 24 ≤ min c.size c.max_size
    → IsFilled (init c) []
unfolding init
init-IsFilled c a b small page big = record {
  page_is = page;
  aligned = (a, b);
  small = small;
  count = refl;
  index_is = refl;
  room = omega arith;
  stored = tt;
  slots = tt;
  long = tt;
}

-- An accepted datagram stands behind the ones before it, as long as the count of 8 bits does not wrap.
pub append-IsFilled :
    (c : TxCtx) (ds : List (List ℕ)) (d : List ℕ)
    → IsFilled c ds
    → length ds < 255
    → fits (length d) c ≡ true
    → IsFilled (append_datagram d c).1 (ds ++ (d ∷ []))
unfolding append_datagram account tail base size_slot last_slot
append-IsFilled c ds d f few ok =
    let (long, granted) = fits_lem (length d) c ok in
    let idx = f.index_is in
    let n = f.count in
    let r = f.room in
    let len = length-append ds (d ∷ []) in
    let at = c.buf + c.page * c.size in
    let least : min c.size c.max_size ≤ c.size = omega arith in
    let inside : end_of 12 ds + 12 + 4 * length ds + add_size (length d) ≤ c.size = omega arith in
    let short : length d < 2 ^ 16 = omega (arith, f.small) in
    let at_tail : at + c.index ≡ at + end_of 12 ds = omega arith in
    let at_slot : at + c.size - 4 * ((c.dg_count + 1) % 2 ^ 8) ≡ at + c.size - 4 * suc (length ds) =
      omega arith in
    rw ok (record {
      aligned = f.aligned;
      small = f.small;
      page_is = f.page_is;
      count = omega arith;
      index_is = omega (arith, end_of-append 12 ds d, f.small);
      room = omega (arith, f.small);
      stored = rw (at_tail, at_slot) (stored_lem c.memory at c.size ds d inside short f.stored);
      slots = rw (at_tail, at_slot) (slots_lem c.memory at c.size ds d inside short f.slots);
      long = All-append _ ds (d ∷ []) f.long (long, tt);
    })
