-- ===== src/Ntb/Transmit/Limits.antt =====
-- The size that the host sets for the blocks.
use c2usb.Base.{ℕ, ◌+◌, ◌*◌, ◌^◌, min, ◌≤◌, ◌<◌, ◌≡◌, refl, ◌⊎◌, inl, inr, arith}
use c2usb.Base.{Bool, true, false, not, ◌&&◌, ◌||◌, leb, ltb, ◌==◌, if◌then◌else◌, Bool-cases}
use c2usb.Serial.Memory.{Memory}
use c2usb.Ntb.{header_size, table_size, datagram_min_length}
use c2usb.Ntb.Transmit.{TxCtx, word, fits, set_input_size, init}

-- A request that sets a size: of four bytes or, where the number of datagrams can be limited, of eight, with a size that
-- is more than a header, a table and the least datagram have, and not more than a page.
abbrev pub IsAsked : Bool → ℕ → ℕ → TxCtx → Type 0
IsAsked limits n size c = ((n ≡ 4) ⊎ ((limits ≡ true) × (n ≡ 8))) × (38 < size) × (size ≤ c.size)

-- What a new block has room for: with its padding and its pointer, the least datagram takes twenty bytes.
abbrev pub Room : ℕ → TxCtx → Type 0
Room size c =
    ((44 ≤ size) × (fits datagram_min_length (init c) ≡ true))
    ⊎ ((size < 44) × ((sz : ℕ) → fits sz (init c) ≡ false))

Room-set : (c : TxCtx) → c.size < 2 ^ 16 → 38 < c.max_size → c.max_size ≤ c.size → Room c.max_size c
unfolding fits init
Room-set c small more within = elim (Bool-cases (leb 44 c.max_size)) [
  | inl e ↦ inl (ground arith, ground arith)
  | inr e ↦ inr (ground arith, λ sz. ground arith)
]

-- Of the two tests of the code: a refused message is not one that asks for a size, and an accepted one is.
taken_lem :
    (limits : Bool) (n : ℕ)
    → (not (n == 4) && not (limits && (n == 8))) ≡ false
    → (n ≡ 4) ⊎ ((limits ≡ true) × (n ≡ 8))
taken_lem limits n e = elim (Bool-cases (n == 4)) [
  | inl four ↦ inl (ground arith)
  | inr other ↦ inr (ground arith, ground arith)
]

wrong_length :
    (limits : Bool) (n : ℕ)
    → (not (n == 4) && not (limits && (n == 8))) ≡ true
    → ¬ ((n ≡ 4) ⊎ ((limits ≡ true) × (n ≡ 8)))
wrong_length limits n e (inl four) = ground arith
wrong_length limits n e (inr (on, eight)) = ground arith

limit_lem :
    (limits : Bool) (n a b : ℕ)
    → (n ≡ 4) ⊎ ((limits ≡ true) × (n ≡ 8))
    → (if limits && (n == 8) then a else b) ≡ (if n == 8 then a else b)
limit_lem limits n a b (inl four) = rw four (ground arith)
limit_lem limits n a b (inr (on, eight)) = rw (on, eight) refl

-- SET_NTB_INPUT_SIZE, for a page of less than 2 ^ 16 bytes. It is accepted exactly for a message of four bytes or, where
-- the number of datagrams can be limited, of eight, with a size of more than 38 bytes that fits the page. The context
-- then has this size, with eight bytes also the limit on the datagrams cut to a byte, and nothing else changes; a refused
-- message changes nothing. A block of the new size has room for a datagram of the least length from 44 bytes on, while
-- with the smaller sizes that are accepted as well no datagram of any length fits.
pub set_input_size_lem :
    (limits : Bool) (msg : Memory) (at n : ℕ) (c : TxCtx)
    → c.size < 2 ^ 16
    → let size = word msg at + 65536 * word msg (at + 2) in
      let limit = if n == 8 then min 255 (word msg (at + 4)) else c.dg_max_limit in
      let (accepted, c') = set_input_size limits msg at n c in
      (IsAsked limits n size c
        × (accepted ≡ true)
        × (c' ≡ record c { max_size = size; dg_max_limit = limit })
        × Room size c')
      ⊎ ((¬ IsAsked limits n size c) × (accepted ≡ false) × (c' ≡ c))
unfolding set_input_size
set_input_size_lem limits msg at n c small =
    let size = word msg at + 65536 * word msg (at + 2) in
    elim (Bool-cases (not (n == 4) && not (limits && (n == 8)))) [
      | inl refused ↦
          inr ((λ a. wrong_length limits n refused a.0), rw refused refl, rw refused refl)
      | inr taken ↦
          elim (Bool-cases
            (leb size (header_size + table_size + datagram_min_length) || ltb c.size size)) [
              | inl refused ↦ inr (
                (λ (_, more, within). ground arith),
                rw (taken, refused) refl,
                rw (taken, refused) refl,
              )
              | inr fitting ↦
                  let right = taken_lem limits n taken in
                  let more : 38 < size = ground arith in
                  let within : size ≤ c.size = ground arith in
                  let same =
                    limit_lem limits n (min 255 (word msg (at + 4))) c.dg_max_limit right in
                  inl (
                    (right, more, within),
                    rw (taken, fitting) refl,
                    rw (taken, fitting, same) refl,
                    rw (taken, fitting) (Room-set _ small more within),
                  )
            ]
    ]
