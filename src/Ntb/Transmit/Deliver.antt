-- ===== src/Ntb/Transmit/Deliver.antt =====
-- From `append_datagram` to `pop_datagram`: what is sent, received into a page of the same bytes.

use c2usb.Base.{ℕ, zero, suc, ◌+◌, ◌*◌, ◌≤◌, ◌<◌, ◌≡◌, refl, sym, ap, ap₂, ◌∙◌}
use c2usb.Base.{Bool-cases, inl, inr}
use c2usb.Base.{Option, none, some, List, [], ◌∷◌, length, map, leb, arith}
use c2usb.Message.Transfer.{Span}
use c2usb.Serial.Memory.{Memory, load}
use c2usb.Ntb.{Bytes, le_uint16, pass, ◌>>>◌, datagram_index, datagram_length}
use c2usb.Ntb.{ndp_index, next_ndp_index}
use c2usb.Ntb.Layout.{
  Datagram, Pointers, no_more, pointer, Table, Tables, last_table, then_table, Holds,
}
use c2usb.Ntb.Receive.{RxCtx, received, set_header, pop_datagrams}
use c2usb.Ntb.Receive.Walk.{spans, pop_datagrams-of_Holds}
use c2usb.Ntb.Transmit.{TxCtx, aligned_size, pop_ntb}
use c2usb.Ntb.Transmit.Filled.{Stored, end_of, le-end_of}
use c2usb.Ntb.Transmit.Block.{placed, length-placed, block-Holds}
use c2usb.Ntb.Transmit.RoundTrip.{Assembles, pop_ntb-IsBlock}
use c2usb.Ntb.Transmit.Sent.{block_of}

-- The same bytes, at another place.
pub record IsCopy (b b' : Bytes) : Type 0 where
  pub same_size : b'.size ≡ b.size
  pub same_bytes : (a : ℕ) → a < b.size → b'.memory (b'.start + a) ≡ b.memory (b.start + a)

load-copy :
    (m m' : Memory) (at at' off n size : ℕ)
    → off + n ≤ size
    → ((a : ℕ) → a < size → m' (at' + a) ≡ m (at + a))
    → load m' (at' + off) n ≡ load m (at + off) n
unfolding load
load-copy m m' at at' off zero size h same = refl
load-copy m m' at at' off (suc n) size h same =
    let e : suc (at + off) ≡ at + suc off = omega arith in
    let e' : suc (at' + off) ≡ at' + suc off = omega arith in
    ap₂ ◌∷◌ (same off (omega arith)) (
      ap (λ (a : ℕ). load m' a n) e'
      ∙ load-copy m m' at at' (suc off) n size (omega arith) same
      ∙ ap (λ (a : ℕ). load m a n) (sym e))

module _ (b b' : Bytes) (k : IsCopy b b') where
  word-copy : (off : ℕ) → le_uint16 b' off ≡ le_uint16 b off
  unfolding le_uint16
  word-copy off =
      let size = k.same_size in
      elim (Bool-cases (leb (off + 2) b.size)) [
        | inl inside ↦
            let low = k.same_bytes off (ground arith) in
            let next : b'.start + (off + 1) ≡ b'.start + off + 1 = omega arith in
            let next' : b.start + (off + 1) ≡ b.start + off + 1 = omega arith in
            let high =
              ap b'.memory (sym next) ∙ k.same_bytes (off + 1) (ground arith) ∙ ap b.memory next' in
            rw (size, inside, low, high) refl
        | inr outside ↦ rw (size, outside) refl
      ]

  field-copy : (off : ℕ) (v : Option ℕ) → le_uint16 b off ≡ v → le_uint16 b' off ≡ v
  field-copy off v e = word-copy off ∙ e

  Pointers-copy : (ndp i : ℕ) (ds : List Datagram) → Pointers b ndp i ds → Pointers b' ndp i ds
  unfolding datagram_index datagram_length
  Pointers-copy ndp i [] no_more = no_more
  Pointers-copy ndp i ((index, len) ∷ ds) (pointer ei el w ps) =
      let size = k.same_size in
      let inside = w.in_block in
      pointer (field-copy (ndp + 8 + 4 * i) (some index) ei)
        (field-copy (ndp + 8 + 4 * i + 2) (some len) el)
        (record {
          after_header = w.after_header;
          in_block = omega arith;
          long_enough = w.long_enough;
        })
        (Pointers-copy ndp (suc i) ds ps)

  Table-copy : (ndp next : ℕ) (ds : List Datagram) → Table b ndp next ds → Table b' ndp next ds
  unfolding datagram_index datagram_length next_ndp_index le_uint16
  Table-copy ndp next ds t = record {
    pointers = Pointers-copy ndp 0 ds t.pointers;
    some_datagram = t.some_datagram;
    null_index = field-copy _ (some 0) t.null_index;
    null_length = field-copy _ (some 0) t.null_length;
    next_index = field-copy _ (some next) t.next_index;
  }

  Tables-copy : (ndp : ℕ) (ds : List Datagram) → Tables b ndp ds → Tables b' ndp ds
  Tables-copy ndp ds (last_table t) = last_table (Table-copy ndp 0 ds t)
  Tables-copy ndp _ (then_table {next = next} {ds = ds} {rest = rest} t ne ts) =
      then_table (Table-copy ndp next ds t) ne (Tables-copy next rest ts)

  Holds-copy : (ndp : ℕ) (ds : List Datagram) → Holds b ndp ds → Holds b' ndp ds
  unfolding ndp_index
  Holds-copy ndp ds h =
      let size = k.same_size in
      record {
        first_table = field-copy 10 (some ndp) h.first_table;
        tables = Tables-copy ndp ds h.tables;
        count = rw size h.count;
      }

  Stored-copy :
      (off : ℕ) (ds : List (List ℕ))
      → end_of off ds ≤ b.size
      → Stored b.memory b.start off ds
      → Stored b'.memory b'.start off ds
  Stored-copy off [] fits h = tt
  Stored-copy off (d ∷ ds) fits (h, hs) =
      let next = le-end_of (off + aligned_size (length d)) ds in
      (
        load-copy b.memory b'.memory b.start b'.start off (length d) b.size (omega arith)
              k.same_bytes
            ∙ h,
        Stored-copy (off + aligned_size (length d)) ds fits hs,
      )

-- The bytes of a span of a page.
abbrev pub bytes_of : RxCtx → Option Span → List ℕ
bytes_of r none = []
bytes_of r (some s) = load r.memory s.ptr s.len

spans-Stored :
    (r : RxCtx) (off : ℕ) (ds : List (List ℕ))
    → Stored r.memory (r.page * r.size) off ds
    → map (bytes_of r) (spans r (placed off ds)) ≡ ds
spans-Stored r off [] h = refl
spans-Stored r off (d ∷ ds) (h, hs) =
    ap₂ ◌∷◌ h (spans-Stored r (off + aligned_size (length d)) ds hs)

-- Datagrams that a context of whole words accepts, from its initialisation on and at most 255 of them, arrive at a
-- receiver as they are, where a page has less than 2 ^ 16 bytes and a block may have 24 or more: if the block that `pop_ntb` returns is received as a page with the same bytes, then after
-- `set_header` as many calls of `pop_datagram` return spans with the bytes of the datagrams, in the order in which they
-- were appended.
pub pop_datagrams-pop_ntb :
    (c c' : TxCtx) (d : List ℕ) (ds : List (List ℕ)) (r : RxCtx)
    → Assembles c c' d ds
    → IsCopy (block_of (pop_ntb c')) (received r)
    → (r' : RxCtx) × (found : List (Option Span)) × ((set_header 0 r
          >>> pop_datagrams (length (d ∷ ds)))
        ≡ pass (found, r'))
      × (map (bytes_of r) found ≡ d ∷ ds)
unfolding received
pop_datagrams-pop_ntb c c' d ds r h copy =
    let (k, _, small, _) = pop_ntb-IsBlock c c' d ds h in
    let b = block_of (pop_ntb c') in
    let size = copy.same_size in
    let ends = k.ndp_is in
    let whole = k.size_is in
    let holds =
      Holds-copy b (received r) copy c'.index (placed 12 (d ∷ ds))
        (block-Holds b c'.index (d ∷ ds) k) in
    let (r', run, _) = pop_datagrams-of_Holds r c'.index (placed 12 (d ∷ ds)) (omega arith) holds in
    (
      r',
      spans r (placed 12 (d ∷ ds)),
      rw (length-placed 12 (d ∷ ds)) at run,
      spans-Stored r 12 (d ∷ ds)
          (Stored-copy b (received r) copy 12 (d ∷ ds) (omega arith) k.stored),
    )
