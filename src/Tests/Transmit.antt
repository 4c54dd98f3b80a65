-- ===== src/Tests/Transmit.antt =====
-- The context that assembles transfer blocks, at fixed inputs.
use c2usb.Base.{
  ℕ, zero, suc, ap, ◌+◌, ◌≤◌, ◌≡◌, refl, arith, ◌⊎◌, true, false, some, Option, map, List, [], ◌∷◌,
  length, min,
}
use c2usb.Message.Reply.{le_bytes}
use c2usb.Message.Transfer.{Span, empty_span}
use c2usb.Serial.Memory.{Memory, store}
use c2usb.Ntb.{pass, ◌>>>◌, is_valid_ntb}
use c2usb.Ntb.Layout.{Holds}
use c2usb.Ntb.Receive.{RxCtx, received, page_length, set_header, pop_datagrams}
use c2usb.Ntb.Transmit.{
  TxCtx, word, base, init, fits, account, append_datagram, pop_ntb, set_input_size,
}
use c2usb.Ntb.Transmit.Filled.{Stored, IsFilled}
use c2usb.Ntb.Transmit.Block.{placed}
use c2usb.Ntb.Transmit.Sent.{block_of}
use c2usb.Ntb.Transmit.RoundTrip.{append_all, Assembles, pop_ntb-Holds}
use c2usb.Ntb.Transmit.Deliver.{IsCopy, bytes_of, pop_datagrams-pop_ntb}
use c2usb.Ntb.Transmit.Limits.{IsAsked, Room, set_input_size_lem}
use c2usb.Ntb.Transmit.Wraps.{Least, append_all-wraps}

abbrev fresh : TxCtx
fresh = record {
  memory = λ a. 0;
  buf = 0;
  size = 256;
  page = 0;
  max_size = 128;
  rem_size = 0;
  index = 0;
  dg_count = 0;
  dg_max_limit = 0;
}

abbrev first : List ℕ
first = 1 ∷ 2 ∷ 3 ∷ 4 ∷ 5 ∷ 6 ∷ 7 ∷ 8 ∷ 9 ∷ 10 ∷ 11 ∷ 12 ∷ 13 ∷ 14 ∷ []

abbrev second : List ℕ
second = 15 ∷ first

-- The context after both.
abbrev assembled : TxCtx
assembled = (append_datagram second (append_datagram first (init fresh)).1).1

assembled-Assembles : Assembles fresh assembled first (second ∷ [])
unfolding append_datagram fits account init
assembled-Assembles = record {
  buf_aligned = refl;
  size_aligned = refl;
  size_small = omega arith;
  page_is = omega arith;
  has_room = omega arith;
  at_most = omega arith;
  accepted = refl;
}

pop_ntb-Holds_example :
    let b = block_of (pop_ntb assembled) in
    (is_valid_ntb b ≡ some true)
    × (b.size ≤ min assembled.size assembled.max_size)
    × Holds b assembled.index (placed 12 (first ∷ (second ∷ [])))
    × Stored b.memory b.start 12 (first ∷ (second ∷ []))
    × IsFilled (pop_ntb assembled).1 []
pop_ntb-Holds_example = pop_ntb-Holds fresh assembled first (second ∷ []) assembled-Assembles

-- A receiver whose first page has the block.
abbrev receiver : RxCtx
receiver = record {
  memory = (pop_ntb assembled).1.memory;
  size = 256;
  page = 0;
  length_0 = (pop_ntb assembled).0.len;
  length_1 = 0;
  hdr = 0;
  dpt = 0;
  table_index = 0;
}

receiver-IsCopy : IsCopy (block_of (pop_ntb assembled)) (received receiver)
unfolding received page_length pop_ntb base append_datagram account init fits
receiver-IsCopy = record { same_size = refl; same_bytes = λ a h. refl }

pop_datagrams-pop_ntb_example :
    (r' : RxCtx) × (found : List (Option Span)) × ((set_header 0 receiver >>> pop_datagrams 2)
      ≡ pass (found, r'))
    × (map (bytes_of receiver) found ≡ first ∷ (second ∷ []))
pop_datagrams-pop_ntb_example =
    pop_datagrams-pop_ntb fresh assembled first (second ∷ []) receiver assembled-Assembles
      receiver-IsCopy

abbrev request : Memory
request = store (λ a. 0) 0 (le_bytes 2 200)

set_input_size_lem_example :
    let (accepted, c') = set_input_size false request 0 4 fresh in
    (IsAsked false 4 200 fresh
      × (accepted ≡ true)
      × (c' ≡ record fresh { max_size = 200; dg_max_limit = 0 })
      × Room 200 c')
    ⊎ ((¬ IsAsked false 4 200 fresh) × (accepted ≡ false) × (c' ≡ fresh))
unfolding word store le_bytes
set_input_size_lem_example = set_input_size_lem false request 0 4 fresh (omega arith)

-- A page of 8192 bytes, and as many datagrams of the least length as asked for.
abbrev large : TxCtx
large = record fresh { size = 8192; max_size = 8192 }

abbrev copies : ℕ → List (List ℕ)
copies zero = []
copies (suc n) = first ∷ copies n

length-copies : (n : ℕ) → length (copies n) ≡ n
length-copies zero = refl
length-copies (suc n) = ap suc (length-copies n)

copies-Least : (n : ℕ) → Least (copies n)
copies-Least zero = tt
copies-Least (suc n) = (refl, copies-Least n)

append_all-wraps_example :
    (c1 : TxCtx) × (append_all (copies 255) (init large) ≡ some c1)
    × (c1.dg_count ≡ 255)
    × ((append_datagram first c1).0 ≡ true)
    × (word (append_datagram first c1).1.memory (base large + large.size) ≡ 14)
    × (pop_ntb (append_datagram first c1).1 ≡ (empty_span, (append_datagram first c1).1))
append_all-wraps_example =
    append_all-wraps large (copies 255) first (omega arith) (omega arith) refl (length-copies 255)
      (refl, copies-Least 255)
