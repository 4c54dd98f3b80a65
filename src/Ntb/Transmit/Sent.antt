-- ===== src/Ntb/Transmit/Sent.antt =====
-- The fields of the block that `pop_ntb` returns.
use mathlib.Core.Path.{subst}
use c2usb.Base.{ℕ, suc, ◌+◌, ◌-◌, ◌*◌, ◌≤◌, ◌<◌, ◌≡◌, refl, sym, ap, ◌∙◌, inl, inr}
use c2usb.Base.{List, [], ◌∷◌, length, All, arith, false, some, ◌==◌}
use c2usb.Message.Reply.{le_bytes}
use c2usb.Message.Transfer.{Span}
use c2usb.Serial.Memory.{Memory, store, store-outside}
use c2usb.Ntb.{
  Bytes, le_uint16, le_uint32, block_length, ndp_index, next_ndp_index, datagram_index,
  datagram_length,
}
use c2usb.Ntb.Layout.{Pointers, no_more, pointer}
use c2usb.Ntb.Transmit.{
  TxCtx, aligned_size, word, base, tail, block_size, table_length, write_table, write_header,
  pop_ntb, init, fits,
}
use c2usb.Ntb.Transmit.Words.{word_cong, word-store_outside}
use c2usb.Ntb.Transmit.Append.{init-IsFilled}
use c2usb.Ntb.Transmit.Filled.{end_of, le-end_of, Stored, Stored-cong, IsFilled}
use c2usb.Ntb.Transmit.Tables.{Rows, Rows-cong}
use c2usb.Ntb.Transmit.Block.{placed, IsBlock}
use c2usb.Ntb.Transmit.Pop.{
  fits_page, framed, complete, complete_front, complete-Rows, complete_null, complete-Stored,
  page_cases, table_words, header_words,
}

plus_zero : (x : ℕ) → x + 0 ≡ x
plus_zero x = omega arith

le_uint16-word :
    (b : Bytes) (off v : ℕ)
    → off + 2 ≤ b.size
    → word b.memory (b.start + off) ≡ v
    → le_uint16 b off ≡ some v
unfolding le_uint16 word
le_uint16-word b off v h e = ground arith

le_uint32_words :
    (b : Bytes) (off low high : ℕ)
    → off + 4 ≤ b.size
    → word b.memory (b.start + off) ≡ low
    → word b.memory (b.start + off + 2) ≡ high
    → le_uint32 b off ≡ some (low + 65536 * high)
unfolding le_uint32
le_uint32_words b off low high h l u =
    let next : b.start + (off + 2) ≡ b.start + off + 2 = omega arith in
    let el = le_uint16-word b off low (omega arith) l in
    let eh = le_uint16-word b (off + 2) high (omega arith) (ap (word b.memory) next ∙ u) in
    rw (el, eh) refl

Pointers-Rows :
    (b : Bytes) (ndp i off : ℕ) (ds : List (List ℕ))
    → Rows b.memory (b.start + ndp) i off ds
    → All (λ (d : List ℕ). 14 ≤ length d) ds
    → 12 ≤ off
    → end_of off ds ≤ b.size
    → ndp + 8 + 4 * (i + length ds) ≤ b.size
    → Pointers b ndp i (placed off ds)
unfolding datagram_index datagram_length
Pointers-Rows b ndp i off [] r long low fits room = no_more
Pointers-Rows b ndp i off (d ∷ ds) (o, l, r) (l14, long) low fits room =
    let row : b.start + (ndp + 8 + 4 * i) ≡ b.start + ndp + 8 + 4 * i = omega arith in
    let row' : b.start + (ndp + 8 + 4 * i + 2) ≡ b.start + ndp + 8 + 4 * i + 2 = omega arith in
    let next = le-end_of (off + aligned_size (length d)) ds in
    pointer (le_uint16-word b (ndp + 8 + 4 * i) off (omega arith) (ap (word b.memory) row ∙ o))
      (le_uint16-word b (ndp + 8 + 4 * i + 2) (length d) (omega arith)
        (ap (word b.memory) row' ∙ l))
      (record { after_header = low; in_block = omega arith; long_enough = l14 })
      (Pointers-Rows b ndp (suc i) (off + aligned_size (length d)) ds r long (omega arith) fits
        (omega arith))

-- The block that `pop_ntb` returns, in the memory that it leaves.
abbrev pub block_of : Span × TxCtx → Bytes
block_of (s, c) = record { memory = c.memory; start = s.ptr; size = s.len }

module _ (c : TxCtx) (d : List ℕ) (es : List (List ℕ)) (f : IsFilled c (d ∷ es)) where
  abbrev pub final : Memory
  final =
      store (complete c d es f) (base (record c { page = 1 - c.page }) + 6)
        (le_bytes 2 (word (complete c d es f) (base c + 6) + 1))

  abbrev pub next_page : TxCtx
  next_page = init (record c { page = 1 - c.page; memory = final })

  abbrev pub sent : Span
  sent = record { ptr = base c; len = block_size c }

  pub pop_lem : pop_ntb c ≡ (sent, next_page)
  unfolding pop_ntb
  pop_lem =
      let (_, _, _, n, _) = fits_page c d es f in
      let some_datagram : (c.dg_count == 0) ≡ false = ground arith in rw some_datagram refl

  pub size_lem : block_size c ≡ c.index + 12 + 4 * c.dg_count
  size_lem = let (_, _, _, n, small) = fits_page c d es f in omega arith

  -- The sequence number of the other page lies outside of this one.
  final_page : (a : ℕ) → base c ≤ a → a < base c + c.size → final a ≡ complete c d es f a
  unfolding base le_bytes
  final_page a lo hi =
      let (room, low, _, n, _) = fits_page c d es f in
      elim (page_cases c.page c.size f.page_is) [
        | inl (e, e') ↦ store-outside _ _ _ a (inl (omega arith))
        | inr (e, e') ↦ store-outside _ _ _ a (inr (omega arith))
      ]

  final-word :
      (off v : ℕ)
      → off + 2 ≤ c.size
      → word (complete c d es f) (base c + off) ≡ v
      → word final (base c + off) ≡ v
  final-word off v h e =
      word_cong (complete c d es f) final (base c + off)
        (final_page (base c + off) (omega arith) (omega arith))
        (final_page (base c + off + 1) (omega arith) (omega arith))
      ∙ e

  abbrev pub block : Bytes
  block = block_of (sent, next_page)

  -- A word in front of the rows.
  front_word :
      (off v : ℕ)
      → off + 2 ≤ c.index + 8
      → word (framed c d es f) (base c + off) ≡ v
      → word final (base c + off) ≡ v
  unfolding tail
  front_word off v h e =
      let (room, _, _, n, _) = fits_page c d es f in
      final-word off v (omega arith) (
        word_cong (framed c d es f) (complete c d es f) (base c + off)
          (complete_front c d es f (base c + off) (omega arith))
          (complete_front c d es f (base c + off + 1) (omega arith))
        ∙ e)

  rows : Rows final (base c + c.index) 0 12 (d ∷ es)
  unfolding tail
  rows =
      let (room, low, _, n, _) = fits_page c d es f in
      Rows-cong (complete c d es f) final (base c + c.index) 0 12 (d ∷ es)
        (λ a hi lo. final_page a (omega arith) (omega arith)) (complete-Rows c d es f)

  stored : Stored final (base c) 12 (d ∷ es)
  stored =
      let (room, low, _, n, _) = fits_page c d es f in
      let i = f.index_is in
      Stored-cong (complete c d es f) final (base c) 12 (d ∷ es)
        (λ a lo hi. final_page a (omega arith) (omega arith)) (complete-Stored c d es f)

  -- The words of the header and of the table's first part, counted from the page.
  header_lem :
      (word (framed c d es f) (base c) ≡ 0x434e)
      × (word (framed c d es f) (base c + 2) ≡ 0x484d)
      × (word (framed c d es f) (base c + 4) ≡ 12)
      × (word (framed c d es f) (base c + 8) ≡ block_size c)
      × (word (framed c d es f) (base c + 10) ≡ c.index)
  unfolding write_header
  header_lem =
      let (room, low, _, n, small) = fits_page c d es f in
      header_words (write_table c c.memory) (base c) (block_size c) c.index
        (omega (arith, size_lem)) (omega arith)

  under_header :
      (off v : ℕ)
      → 12 ≤ off
      → word (write_table c c.memory) (base c + off) ≡ v
      → word (framed c d es f) (base c + off) ≡ v
  unfolding write_header le_bytes
  under_header off v h e =
      word-store_outside _ (base c + 8) _ (base c + off) (inr (omega arith))
      ∙ word-store_outside (write_table c c.memory) (base c) _ (base c + off) (inr (omega arith))
      ∙ e

  table_lem :
      (word (write_table c c.memory) (base c + c.index) ≡ 0x434e)
      × (word (write_table c c.memory) (base c + c.index + 2) ≡ 0x304d)
      × (word (write_table c c.memory) (base c + c.index + 4) ≡ table_length c)
      × (word (write_table c c.memory) (base c + c.index + 6) ≡ 0)
  unfolding write_table tail
  table_lem =
      let (room, low, _, n, small) = fits_page c d es f in
      table_words c.memory (base c + c.index) (table_length c) (omega arith)

  field16 :
      (off v : ℕ)
      → off + 2 ≤ c.index + 8
      → word (framed c d es f) (base c + off) ≡ v
      → le_uint16 block off ≡ some v
  unfolding init
  field16 off v h e =
      let (room, low, _, n, small) = fits_page c d es f in
      le_uint16-word block off v (omega (arith, size_lem)) (front_word off v h e)

  field32 :
      (off low high : ℕ)
      → off + 4 ≤ c.index + 8
      → word (framed c d es f) (base c + off) ≡ low
      → word (framed c d es f) (base c + off + 2) ≡ high
      → le_uint32 block off ≡ some (low + 65536 * high)
  unfolding le_uint32
  field32 off low high h l u =
      let next : base c + (off + 2) ≡ base c + off + 2 = omega arith in
      let el = field16 off low (omega arith) l in
      let eh = field16 (off + 2) high (omega arith) (ap (word (framed c d es f)) next ∙ u) in
      rw (el, eh) refl

  null_word :
      (k : ℕ)
      → k + 2 ≤ 4
      → word (complete c d es f) (tail c + 8 + 4 * c.dg_count + k) ≡ 0
      → le_uint16 block (c.index + 8 + 4 * length (d ∷ es) + k) ≡ some 0
  unfolding init tail
  null_word k h e =
      let (room, low, _, n, small) = fits_page c d es f in
      let at : base c + (c.index + 8 + 4 * length (d ∷ es) + k)
          ≡ base c + c.index + 8 + 4 * c.dg_count + k =
        omega arith in
      le_uint16-word block (c.index + 8 + 4 * length (d ∷ es) + k) 0 (omega (arith, size_lem)) (
        final-word (c.index + 8 + 4 * length (d ∷ es) + k) 0 (omega arith)
          (ap (word (complete c d es f)) at ∙ e))

  pub block-IsBlock : IsBlock block c.index (d ∷ es)
  unfolding init block_length ndp_index next_ndp_index datagram_index datagram_length
  block-IsBlock =
      let (room, low, _, n, small) = fits_page c d es f in
      let size = size_lem in
      let (h0, h2, h4, h8, h10) = header_lem in
      let (t0, t2, t4, t6) = table_lem in
      let w = word (framed c d es f) in
      let zero_off : base c + 0 ≡ base c = omega arith in
      let two : base c + 0 + 2 ≡ base c + 2 = omega arith in
      let at2 : base c + (c.index + 2) ≡ base c + c.index + 2 = omega arith in
      let at4 : base c + (c.index + 4) ≡ base c + c.index + 4 = omega arith in
      let at6 : base c + (c.index + 6) ≡ base c + c.index + 6 = omega arith in
      let wt = word (write_table c c.memory) in
      let long : table_length c ≡ 12 + 4 * length (d ∷ es) = omega arith in
      let (z0, z2) = complete_null c d es f in
      record {
        signature = field32 0 0x434e 0x484d (omega arith) (ap w zero_off ∙ h0) (ap w two ∙ h2);
        header_length = field16 4 12 (omega arith) h4;
        block = field16 8 (block_size c) (omega arith) h8;
        first = field16 10 c.index (omega arith) h10;
        table_sign =
            field32 c.index 0x434e 0x304d (omega arith) (under_header c.index _ low t0)
              (ap w (sym at2) ∙ under_header (c.index + 2) _ (omega arith) (ap wt at2 ∙ t2));
        table_length =
            field16 (c.index + 4) _ (omega arith)
              (under_header (c.index + 4) _ (omega arith) (ap wt at4 ∙ (t4 ∙ long)));
        no_next =
            field16 (c.index + 6) 0 (omega arith)
              (under_header (c.index + 6) 0 (omega arith) (ap wt at6 ∙ t6));
        pointers =
            Pointers-Rows block c.index 0 12 (d ∷ es) rows f.long (omega arith)
              (omega (arith, f.index_is)) (omega arith);
        null_index =
            subst (λ z. le_uint16 block z ≡ some 0) (plus_zero _)
              (null_word 0 (omega arith)
                (ap (word (complete c d es f)) (plus_zero (tail c + 8 + 4 * c.dg_count)) ∙ z0));
        null_length = null_word 2 (omega arith) z2;
        stored = stored;
        size_is = omega arith;
        ndp_is = f.index_is;
        nonempty = omega arith;
        long = f.long;
      }

  -- The other page is ready for the next datagrams.
  pub next-IsFilled : IsFilled next_page []
  next-IsFilled =
      let r = f.room in
      let low = fits_page c d es f in
      init-IsFilled (record c { page = 1 - c.page; memory = final }) f.aligned.0 f.aligned.1 f.small
        (omega arith) (omega (arith, low.1))
