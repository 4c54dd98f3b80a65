-- ===== src/Ntb/Transmit/RoundTrip.antt =====
-- What `pop_ntb` sends is a valid block with the datagrams that were appended.
use mathlib.Core.Path.{subst}
use c2usb.Base.{ℕ, ◌+◌, ◌%◌, ◌^◌, min, ◌≤◌, ◌<◌, ◌≡◌, refl, sym}
use mathlib.Core.List.{append-nil, append_assoc}
use c2usb.Base.{Bool, none, Option, some-injective, length-append}
use c2usb.Base.{List, [], ◌∷◌, ◌++◌, length, arith, true, false, some, if◌then◌else◌}
use c2usb.Message.Transfer.{Span}
use c2usb.Ntb.{is_valid_ntb}
use c2usb.Ntb.Layout.{Holds}
use c2usb.Ntb.Transmit.{TxCtx, pop_ntb, init, fits, append_datagram}
use c2usb.Ntb.Transmit.Append.{init-IsFilled, append-IsFilled}
use c2usb.Ntb.Transmit.Filled.{Stored, IsFilled}
use c2usb.Ntb.Transmit.Block.{placed, IsBlock, block-Holds, block-valid}
use c2usb.Ntb.Transmit.Pop.{fits_page}
use c2usb.Ntb.Transmit.Sent.{size_lem, block_of, pop_lem, block-IsBlock, next-IsFilled}

-- `append_datagram` for each of some datagrams, all of which must be accepted.
abbrev pub append_all : List (List ℕ) → TxCtx → Option TxCtx
append_all [] c = some c
append_all (d ∷ ds) c =
    let rest = append_all ds (append_datagram d c).1 in
    if (append_datagram d c).0 then rest else none

taken_lem :
    (b : Bool) (o : Option TxCtx) (c' : TxCtx)
    → (if b then o else none) ≡ some c'
    → (b ≡ true) × (o ≡ some c')
taken_lem true o c' e = (refl, e)
taken_lem false o c' e = absurd (cc)

fits_of_taken : (d : List ℕ) (c : TxCtx) → (append_datagram d c).0 ≡ true → fits (length d) c ≡ true
unfolding append_datagram
fits_of_taken d c e = ground arith

append_all-IsFilled :
    (c c' : TxCtx) (before ds : List (List ℕ))
    → IsFilled c before
    → length before + length ds ≤ 255
    → append_all ds c ≡ some c'
    → IsFilled c' (before ++ ds)
append_all-IsFilled c c' before [] f few e =
    subst (λ x. IsFilled x (before ++ [])) (some-injective e)
      (subst (IsFilled c) (sym (append-nil before)) f)
append_all-IsFilled c c' before (d ∷ ds) f few e =
    let (taken, rest) =
      taken_lem (append_datagram d c).0 (append_all ds (append_datagram d c).1) c' e in
    let f' = append-IsFilled c before d f (omega arith) (fits_of_taken d c taken) in
    subst (IsFilled c') (append_assoc before (d ∷ []) ds) (
      append_all-IsFilled (append_datagram d c).1 c' (before ++ (d ∷ [])) ds f'
        (omega (arith, length-append before (d ∷ []))) rest)

-- The hypotheses of the two theorems below: a context whose pages are of whole words, to whose block the datagrams are
-- appended from its initialisation on, each of them accepted, and at most 255 of them.
pub record Assembles (c c' : TxCtx) (d : List ℕ) (ds : List (List ℕ)) : Type 0 where
  pub buf_aligned : c.buf % 4 ≡ 0
  pub size_aligned : c.size % 4 ≡ 0
  pub size_small : c.size < 2 ^ 16
  pub page_is : c.page ≤ 1
  pub has_room : 24 ≤ min c.size c.max_size
  pub at_most : length ds < 255
  pub accepted : append_all (d ∷ ds) (init c) ≡ some c'

pub pop_ntb-IsBlock :
    (c c' : TxCtx) (d : List ℕ) (ds : List (List ℕ))
    → Assembles c c' d ds
    → let b = block_of (pop_ntb c') in
      IsBlock b c'.index (d ∷ ds)
      × (b.size ≤ min c'.size c'.max_size)
      × (b.size < 2 ^ 16)
      × IsFilled (pop_ntb c').1 []
pop_ntb-IsBlock c c' d ds h =
    let start = init-IsFilled c h.buf_aligned h.size_aligned h.size_small h.page_is h.has_room in
    let few = h.at_most in
    let f = append_all-IsFilled (init c) c' [] (d ∷ ds) start (omega arith) h.accepted in
    let (room, _, _, n, small) = fits_page c' d ds f in
    let limit = f.room in
    let count = f.count in
    let size = size_lem c' d ds f in
    subst
      (λ (x : Span × TxCtx).
        IsBlock (block_of x) c'.index (d ∷ ds)
        × (x.0.len ≤ min c'.size c'.max_size)
        × (x.0.len < 2 ^ 16)
        × IsFilled x.1 [])
      (sym (pop_lem c' d ds f))
      (block-IsBlock c' d ds f, omega arith, omega arith, next-IsFilled c' d ds f)

-- From the initialisation of a context of whole words, whose pages have less than 2 ^ 16 bytes and whose blocks may have
-- 24 or more, some datagrams are appended, at most 255 of them and each of them accepted. `pop_ntb` then returns a block that `is_valid_ntb` accepts and that is not larger than the host allows; its
-- table lists the datagrams in their order, and it has the bytes of each where the table says. The other page is then
-- ready for more.
pub pop_ntb-Holds :
    (c c' : TxCtx) (d : List ℕ) (ds : List (List ℕ))
    → Assembles c c' d ds
    → let b = block_of (pop_ntb c') in
      (is_valid_ntb b ≡ some true)
      × (b.size ≤ min c'.size c'.max_size)
      × Holds b c'.index (placed 12 (d ∷ ds))
      × Stored b.memory b.start 12 (d ∷ ds)
      × IsFilled (pop_ntb c').1 []
pop_ntb-Holds c c' d ds h =
    let (k, limit, _, ready) = pop_ntb-IsBlock c c' d ds h in
    let b = block_of (pop_ntb c') in
    (block-valid b c'.index (d ∷ ds) k, limit, block-Holds b c'.index (d ∷ ds) k, k.stored, ready)
