-- ===== src/Ntb/Receive/Walk.antt =====
-- Popping the datagrams of an accepted block.

use c2usb.Base.{ℕ, suc, ◌+◌, ◌*◌, ◌%◌, ◌≤◌, ◌<◌, ◌≡◌, ◌≢◌, refl, map}
use c2usb.Base.{true, false, ◌==◌, List, [], ◌∷◌, ◌++◌, length, length-append, Option, some, arith}
use c2usb.Message.Transfer.{Span}
use c2usb.Ntb.{
  is_valid_ntb, ndp_index, pass, ◌>>>◌, field, datagram_index, datagram_length, next_ndp_index,
}
use c2usb.Ntb.Layout.{Datagram, Pointers, no_more, pointer, Tables, last_table, then_table, Holds}
use c2usb.Ntb.Sound.{is_valid_ntb-Holds}
use c2usb.Ntb.Receive.{
  set_header, RxCtx, received, page_length, advance_block, index_at, length_at, advance_datagram,
  current_datagram, pop_datagram, pop_datagrams,
}

-- Where a datagram stands in the buffer.
abbrev pub span_of : RxCtx → Datagram → Span
span_of c (index, len) = record { ptr = c.page * c.size + index; len = len }

-- The context at a table and an index of it.
abbrev pub at : RxCtx → ℕ → ℕ → RxCtx
at c ndp i = record c { dpt = ndp; table_index = i }

not_zero : (n : ℕ) → 12 ≤ n → (n == 0) ≡ false
not_zero n h = ground arith

-- The next pointer of a table.
pop_pointer :
    (c : RxCtx) (ndp t i index len : ℕ)
    → (t + 1) % 65536 ≡ i
    → datagram_index (received c) ndp i ≡ some index
    → datagram_length (received c) ndp i ≡ some len
    → 12 ≤ index
    → pop_datagram (at c ndp t) ≡ pass (some (span_of c (index, len)), at c ndp i)
unfolding pop_datagram advance_datagram index_at length_at current_datagram datagram_index
    datagram_length received page_length field ◌>>>◌
pop_pointer c ndp t i index len e ei el h = rw (e, ei, not_zero index h, ei, el) refl

-- The first pointer of the next table.
pop_table :
    (c : RxCtx) (ndp t n next index len : ℕ)
    → c.hdr ≡ 0
    → (t + 1) % 65536 ≡ n
    → datagram_index (received c) ndp n ≡ some 0
    → next_ndp_index (received c) ndp ≡ some next
    → next ≢ 0
    → datagram_index (received c) next 0 ≡ some index
    → datagram_length (received c) next 0 ≡ some len
    → pop_datagram (at c ndp t) ≡ pass (some (span_of c (index, len)), at c next 0)
unfolding pop_datagram advance_datagram index_at length_at current_datagram datagram_index
    datagram_length next_ndp_index received page_length field ◌>>>◌
pop_table c ndp t n next index len hz e ez en ne ei el =
    let nz : (next == 0) ≡ false = ground arith in
    let z : 0 + next ≡ next = omega arith in rw (e, ez, en, nz, hz, z, ei, el) refl

-- No pointer left in the last table.
at_end :
    (c : RxCtx) (ndp t n : ℕ)
    → (t + 1) % 65536 ≡ n
    → datagram_index (received c) ndp n ≡ some 0
    → next_ndp_index (received c) ndp ≡ some 0
    → advance_datagram (at c ndp t) ≡ advance_block (at c ndp t)
unfolding advance_datagram index_at datagram_index next_ndp_index received page_length field ◌>>>◌
at_end c ndp t n e ez en = rw (e, ez, en) refl

pops_cons :
    (n : ℕ) (c c1 c2 : RxCtx) (s : Option Span) (ss : List (Option Span))
    → pop_datagram c ≡ pass (s, c1)
    → pop_datagrams n c1 ≡ pass (ss, c2)
    → pop_datagrams (suc n) c ≡ pass (s ∷ ss, c2)
unfolding pop_datagrams ◌>>>◌
pops_cons n c c1 c2 s ss e e' = rw (e, e') refl

-- What popping the datagrams `ds` returns.
abbrev pub spans : RxCtx → List Datagram → List (Option Span)
spans c ds = map (λ d. some (span_of c d)) ds

-- Pops that return the datagrams one by one.
data Pops (b : RxCtx) : RxCtx → List Datagram → RxCtx → Type 0 where
  popped_all : {c : RxCtx} → Pops b c [] c
  popped :
      {c c1 c2 : RxCtx} {d : Datagram} {ds : List Datagram}
      → pop_datagram c ≡ pass (some (span_of b d), c1)
      → Pops b c1 ds c2
      → Pops b c (d ∷ ds) c2

Pops-append :
    {b c c1 c2 : RxCtx} {ds rest : List Datagram}
    → Pops b c ds c1
    → Pops b c1 rest c2
    → Pops b c (ds ++ rest) c2
Pops-append popped_all q = q
Pops-append (popped e p) q = popped e (Pops-append p q)

pop_datagrams_lem :
    {b c c' : RxCtx} {ds : List Datagram}
    → Pops b c ds c'
    → pop_datagrams (length ds) c ≡ pass (spans b ds, c')
unfolding pop_datagrams
pop_datagrams_lem popped_all = refl
pop_datagrams_lem {ds = d ∷ ds} (popped {c = c} {c1 = c1} {c2 = c2} e p) =
    pops_cons (length ds) c c1 c2 _ _ e (pop_datagrams_lem p)

-- A context that stands before the pointer `i` of a table.
Before : ℕ → ℕ → Type 0
Before t i = (t + 1) % 65536 ≡ i

Pops-Pointers :
    (c : RxCtx) (ndp i t : ℕ) (ds : List Datagram)
    → Pointers (received c) ndp i ds
    → Before t i
    → i + length ds ≤ 65535
    → (t' : ℕ) × Before t' (i + length ds) × Pops c (at c ndp t) ds (at c ndp t')
unfolding Before
Pops-Pointers c ndp i t [] no_more e le = (t, omega arith, popped_all)
Pops-Pointers c ndp i t ((index, len) ∷ ds) (pointer ei el w ps) e le =
    let (t', e', r) = Pops-Pointers c ndp (suc i) i ds ps (omega arith) (omega arith) in
    let far : 12 ≤ index = w.after_header in
    (t', omega arith, popped (pop_pointer c ndp t i index len e ei el far) r)

-- A state whose next pop enters a table at its first pointer.
abbrev Enters : RxCtx → RxCtx → ℕ → Type 0
Enters c from ndp =
    (index len : ℕ)
    → datagram_index (received c) ndp 0 ≡ some index
    → datagram_length (received c) ndp 0 ≡ some len
    → 12 ≤ index
    → pop_datagram from ≡ pass (some (span_of c (index, len)), at c ndp 0)

Pops-table :
    (c from : RxCtx) (ndp : ℕ) (ds : List Datagram)
    → Enters c from ndp
    → Pointers (received c) ndp 0 ds
    → 0 < length ds
    → length ds ≤ 65535
    → (t : ℕ) × Before t (length ds) × Pops c from ds (at c ndp t)
unfolding Before
Pops-table c from ndp [] enter ps pos le = absurd (omega arith)
Pops-table c from ndp ((index, len) ∷ ds) enter (pointer ei el w ps) pos le =
    let far : 12 ≤ index = w.after_header in
    let (t, e, r) = Pops-Pointers c ndp 1 0 ds ps refl (omega arith) in
    (t, omega arith, popped (enter index len ei el far) r)

Pops-Tables :
    (c from : RxCtx) (ndp : ℕ) (ds : List Datagram)
    → c.hdr ≡ 0
    → Enters c from ndp
    → Tables (received c) ndp ds
    → length ds ≤ 65535
    → (c' : RxCtx) × Pops c from ds c' × (advance_datagram c' ≡ advance_block c')
unfolding Before
Pops-Tables c from ndp ds hz enter (last_table t) le =
    let (i, e, r) = Pops-table c from ndp ds enter t.pointers t.some_datagram le in
    (at c ndp i, r, at_end c ndp i (length ds) e t.null_index t.next_index)
Pops-Tables c from ndp all hz enter (then_table {next = next} {ds = ds} {rest = rest} t ne ts) le =
    let sz = length-append ds rest in
    let (i, e, r) = Pops-table c from ndp ds enter t.pointers t.some_datagram (omega arith) in
    let (c', r', end) =
      Pops-Tables c (at c ndp i) next rest hz
        (λ index len ei el far.
          pop_table c ndp i (length ds) next index len hz e t.null_index t.next_index ne ei el)
        ts (omega arith) in
    (c', Pops-append r r', end)

-- The context after `set_header` at the start of the page.
abbrev first_of : RxCtx → ℕ → RxCtx
first_of c ndp = record c { hdr = 0; dpt = ndp; table_index = 65535 }

set_header_lem :
    (c : RxCtx) (ndp : ℕ)
    → ndp_index (received c) ≡ some ndp
    → set_header 0 c ≡ pass (first_of c ndp)
unfolding set_header ndp_index received page_length field ◌>>>◌
set_header_lem c ndp e = let z : 0 + ndp ≡ ndp = omega arith in rw (e, z) refl

-- The datagrams of a page that has a block, after `set_header` at its start.
pub pop_datagrams-of_Holds :
    (c : RxCtx) (ndp : ℕ) (ds : List Datagram)
    → page_length c ≤ 65535
    → Holds (received c) ndp ds
    → (c' : RxCtx) × ((set_header 0 c >>> pop_datagrams (length ds)) ≡ pass (spans c ds, c'))
      × (advance_datagram c' ≡ advance_block c')
unfolding received page_length ◌>>>◌
pop_datagrams-of_Holds c ndp ds le h =
    let b = first_of c ndp in
    let few = h.count in
    let (c', r, end) =
      Pops-Tables b b ndp ds refl
        (λ index len ei el far. pop_pointer b ndp 65535 0 index len refl ei el far) h.tables
        (omega arith) in
    (c', rw (set_header_lem c ndp h.first_table) (pop_datagrams_lem r), end)

-- A page that `is_valid_ntb` accepts has a block of datagrams, and after `set_header` as many calls of
-- `pop_datagram` return them in the order of the tables, each as a span within the page. They read nothing outside
-- of the page, and the next call then leaves the block.
pub pop_datagrams-Holds :
    (c : RxCtx)
    → page_length c ≤ 65535
    → is_valid_ntb (received c) ≡ some true
    → (ndp : ℕ) × (ds : List Datagram) × (c' : RxCtx) × Holds (received c) ndp ds
      × ((set_header 0 c >>> pop_datagrams (length ds)) ≡ pass (spans c ds, c'))
      × (advance_datagram c' ≡ advance_block c')
pop_datagrams-Holds c le v =
    let (ndp, ds, h) = is_valid_ntb-Holds (received c) v in
    let (c', run, end) = pop_datagrams-of_Holds c ndp ds le h in (ndp, ds, c', h, run, end)
