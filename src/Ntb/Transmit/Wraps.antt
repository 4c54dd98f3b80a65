-- ===== src/Ntb/Transmit/Wraps.antt =====
-- The count of the datagrams in a block, of eight bits, at its largest.
use mathlib.Core.Path.{subst}
use c2usb.Base.{ℕ, ◌+◌, ◌-◌, ◌*◌, ◌%◌, ◌^◌, min, ◌≤◌, ◌<◌, ◌≡◌, refl, ◌∙◌, arith}
use c2usb.Base.{true, some, List, [], ◌∷◌, length, All}
use c2usb.Message.Transfer.{empty_span}
use c2usb.Ntb.Transmit.{TxCtx, word, base, size_slot, fits, account, append_datagram, pop_ntb, init}
use c2usb.Ntb.Transmit.Words.{word-store}
use c2usb.Ntb.Transmit.RoundTrip.{append_all}

-- Datagrams of the least length.
abbrev pub Least : List (List ℕ) → Type 0
Least ds = All (λ (d : List ℕ). length d ≡ 14) ds

-- What appending `n` of them leaves: the same page, with less room.
record Follows (c : TxCtx) (n : ℕ) (c' : TxCtx) : Type 0 where
  same_page : (c'.buf ≡ c.buf) × (c'.size ≡ c.size) × (c'.page ≡ c.page)
  same_limit : c'.dg_max_limit ≡ c.dg_max_limit
  count : c'.dg_count ≡ c.dg_count + n
  room : c'.rem_size + 20 * n ≡ c.rem_size

fits_least :
    (c : TxCtx) (d : List ℕ)
    → length d ≡ 14
    → c.dg_max_limit ≡ 0
    → 20 ≤ c.rem_size
    → fits (length d) c ≡ true
unfolding fits
fits_least c d len free room = rw (len, free) (ground arith)

append_one :
    (c : TxCtx) (d : List ℕ)
    → length d ≡ 14
    → c.dg_max_limit ≡ 0
    → c.rem_size < 2 ^ 16
    → 20 ≤ c.rem_size
    → c.dg_count < 255
    → ((append_datagram d c).0 ≡ true) × Follows c 1 (append_datagram d c).1
unfolding append_datagram account
append_one c d len free small room few =
    let ok = fits_least c d len free room in
    rw ok (
      refl,
      record {
        same_page = (refl, refl, refl);
        same_limit = refl;
        count = omega arith;
        room = rw len (omega arith);
      },
    )

append_all-Follows :
    (c : TxCtx) (ds : List (List ℕ))
    → Least ds
    → c.dg_max_limit ≡ 0
    → c.rem_size < 2 ^ 16
    → 20 * length ds ≤ c.rem_size
    → c.dg_count + length ds ≤ 255
    → (c' : TxCtx) × (append_all ds c ≡ some c') × Follows c (length ds) c'
append_all-Follows c [] least free small room few = (
  c,
  refl,
  record {
    same_page = (refl, refl, refl);
    same_limit = refl;
    count = omega arith;
    room = omega arith;
  },
)
append_all-Follows c (d ∷ ds) (len, least) free small room few =
    let (taken, f) = append_one c d len free small (omega arith) (omega arith) in
    let next = (append_datagram d c).1 in
    let one = f.room in
    let counted = f.count in
    let (c', run, g) =
      append_all-Follows next ds least (f.same_limit ∙ free) (omega arith) (omega arith)
        (omega arith) in
    let left = g.room in
    let total = g.count in
    (
      c',
      rw taken run,
      record {
        same_page = (
          g.same_page.0 ∙ f.same_page.0,
          g.same_page.1 ∙ f.same_page.1,
          g.same_page.2 ∙ f.same_page.2,
        );
        same_limit = g.same_limit ∙ f.same_limit;
        count = omega arith;
        room = omega arith;
      },
    )

-- With the count at zero, the slot of the length is the first address behind the page.
last_length :
    (c : TxCtx) (d : List ℕ) (behind : ℕ)
    → fits (length d) c ≡ true
    → length d ≡ 14
    → c.dg_count ≡ 255
    → behind ≡ base c + c.size
    → word (append_datagram d c).1.memory behind ≡ 14
unfolding append_datagram account size_slot base
last_length c d behind ok len full at =
    let slot : c.buf + c.page * c.size + c.size - 4 * ((c.dg_count + 1) % 2 ^ 8) ≡ behind =
      omega arith in
    rw (ok, slot, len) (word-store _ behind 14 (omega arith))

one_more :
    (c c1 : TxCtx) (d : List ℕ)
    → length d ≡ 14
    → c.dg_max_limit ≡ 0
    → c.dg_count ≡ 0
    → 5120 ≤ c.rem_size
    → Follows c 255 c1
    → (c1.dg_count ≡ 255)
      × ((append_datagram d c1).0 ≡ true)
      × (word (append_datagram d c1).1.memory (base c + c.size) ≡ 14)
      × (pop_ntb (append_datagram d c1).1 ≡ (empty_span, (append_datagram d c1).1))
unfolding append_datagram account pop_ntb base
one_more c c1 d len free empty room f =
    let (b, s, p) = f.same_page in
    let count : c1.dg_count ≡ 255 = omega (arith, f.count) in
    let ok = fits_least c1 d len (f.same_limit ∙ free) (omega (arith, f.room)) in
    let wraps : (c1.dg_count + 1) % 2 ^ 8 ≡ 0 = omega arith in
    let page : c.buf + c.page * c.size + c.size ≡ c1.buf + c1.page * c1.size + c1.size =
      rw (b, s, p) refl in
    (
      count,
      rw ok refl,
      last_length c1 d (c.buf + c.page * c.size + c.size) ok len count page,
      rw (ok, wraps) refl,
    )

-- A host that allows blocks of 5144 bytes or more, and sets no limit on their datagrams, lets a new block take 255
-- datagrams of the least length and one more. The one more is accepted too, but wraps the count to zero: its length is
-- written right behind the page, and `pop_ntb` then finds nothing to send, so that all 256 of them are lost.
pub append_all-wraps :
    (c : TxCtx) (ds : List (List ℕ)) (d : List ℕ)
    → c.size < 2 ^ 16
    → 5144 ≤ min c.size c.max_size
    → c.dg_max_limit ≡ 0
    → length ds ≡ 255
    → Least (d ∷ ds)
    → (c1 : TxCtx) × (append_all ds (init c) ≡ some c1)
      × (c1.dg_count ≡ 255)
      × ((append_datagram d c1).0 ≡ true)
      × (word (append_datagram d c1).1.memory (base c + c.size) ≡ 14)
      × (pop_ntb (append_datagram d c1).1 ≡ (empty_span, (append_datagram d c1).1))
unfolding init base
append_all-wraps c ds d small large free n (len, least) =
    let (c1, run, f) =
      append_all-Follows (init c) ds least free (omega arith) (omega arith) (omega arith) in
    let (full, taken, behind, lost) =
      one_more (init c) c1 d len free refl (omega arith) (subst (λ k. Follows (init c) k c1) n f) in
    (c1, run, full, taken, behind, lost)
