-- ===== src/Ntb/Sound.antt =====
-- `is_valid_ntb` answers on every input, reads nothing outside of it, and accepts only well-formed blocks.
use mathlib.Core.Path.{subst}
use c2usb.Base.{ℕ, zero, suc, ◌+◌, ◌*◌, ◌/◌, ◌%◌, ◌≤◌, ◌<◌, ◌≡◌, ◌≢◌, refl, ap, ◌∙◌}
use c2usb.Base.{Bool, true, false, not, ◌&&◌, ◌||◌, leb, ltb, ◌==◌}
use c2usb.Base.{List, ◌++◌, length, length-append, some, arith}
use c2usb.Ntb.{Bytes, le_uint16, Check, fault, refuse, pass, field}
use c2usb.Ntb.{block_length, ndp_index, next_ndp_index, datagram_index, datagram_length}
use c2usb.Ntb.{check_table_bounds, check_last_pointer, check_table, check_tables, check_header}
use c2usb.Ntb.{
  max_dg_count_of, check_ntb, answer, is_valid_ntb, header_size, table_size, pointer_size, min_size,
}
use c2usb.Ntb.{datagram_min_length, header_signature, table_signature}
use c2usb.Ntb.Layout.{Table, Tables, last_table, then_table, Holds}
use c2usb.Ntb.Valid.{Passes, Passes-bind, Passes-if, Passes-field, Passes-map, Passes-read, IsRead}
use c2usb.Ntb.Valid.{
  le_uint16-IsRead, le_uint32-IsRead, index-IsRead, length-IsRead, Checked, check_datagrams_lem,
}

-- What the outer loop's conditions say of a table with `n` datagrams.
abbrev InBounds : Bytes → ℕ → ℕ → Type 0
InBounds b ndp n = (1 ≤ n) × (ndp + 12 + 4 * n ≤ b.size)

check_table_bounds_lem : (b : Bytes) (ndp : ℕ) → Passes (InBounds b ndp) (check_table_bounds b ndp)
unfolding check_table_bounds
check_table_bounds_lem b ndp =
    Passes-if (InBounds b ndp) (leb header_size ndp && ltb (ndp + table_size) b.size) _ refuse
      (λ inside. Passes-field _ _ _ (le_uint32-IsRead b ndp (ground arith)) (λ signature es.
        Passes-if (InBounds b ndp) (signature == table_signature) _ refuse
          (λ signed. Passes-field _ _ _ (le_uint16-IsRead b (ndp + 4) (ground arith)) (λ len el.
            Passes-if (InBounds b ndp)
              (leb (table_size + pointer_size) len && leb (ndp + len) b.size) _ refuse
              (λ fits. (ground arith, ground arith)) (λ _. tt)))
          (λ _. tt)))
      (λ _. tt)

next-IsRead : (b : Bytes) (ndp : ℕ) → ndp + 8 ≤ b.size → IsRead (next_ndp_index b ndp)
unfolding next_ndp_index
next-IsRead b ndp h = le_uint16-IsRead b (ndp + 6) (omega arith)

abbrev Ended : Bytes → ℕ → ℕ → ℕ → Type 0
Ended b ndp n next =
    (datagram_index b ndp n ≡ some 0)
    × (datagram_length b ndp n ≡ some 0)
    × (next_ndp_index b ndp ≡ some next)

check_last_pointer_lem :
    (b : Bytes) (ndp n : ℕ)
    → ndp + 12 + 4 * n ≤ b.size
    → Passes (Ended b ndp n) (check_last_pointer b ndp n)
unfolding check_last_pointer
check_last_pointer_lem b ndp n h =
    Passes-field _ _ _ (index-IsRead b ndp n (omega arith)) (λ index ei.
      Passes-field _ _ _ (length-IsRead b ndp n (omega arith)) (λ len el.
        Passes-if (Ended b ndp n) ((index == 0) && (len == 0)) (field (next_ndp_index b ndp)) refuse
          (λ null.
            Passes-map (λ next. next_ndp_index b ndp ≡ some next) (Ended b ndp n)
              (field (next_ndp_index b ndp))
              (λ next en.
                let (zi, zl) = both_null index len null in (ei ∙ ap some zi, el ∙ ap some zl, en))
              (Passes-read _ (next-IsRead b ndp (omega arith))))
          (λ _. tt)))
  where
    both_null : (index len : ℕ) → ((index == 0) && (len == 0)) ≡ true → (index ≡ 0) × (len ≡ 0)
    both_null index len e = (ground arith, ground arith)

-- What a round of the outer loop passes.
abbrev Round : Bytes → ℕ → ℕ → ℕ → ℕ × ℕ → Type 0
Round b max_dg_count ndp dg_count (next, dg_count') =
    (ds : List (ℕ × ℕ)) × Table b ndp next ds
    × (dg_count' ≡ dg_count + length ds)
    × (dg_count' ≤ max_dg_count)

Round-of :
    (b : Bytes) (m ndp c n c' next : ℕ)
    → InBounds b ndp n
    → Checked b ndp m n 0 c c'
    → Ended b ndp n next
    → Round b m ndp c (next, c')
Round-of b m ndp c n c' next (one, fits) k (null, empty, en) =
    let (ds, ps, e) = k.found in
    let eq : c' ≡ c + n = k.new_count in
    (
      ds,
      record {
        pointers = ps;
        some_datagram = omega arith;
        null_index = rw e null;
        null_length = rw e empty;
        next_index = en;
      },
      omega arith,
      k.bounded one,
    )

check_table_lem : (b : Bytes) (m ndp c : ℕ) → Passes (Round b m ndp c) (check_table b m ndp c)
unfolding check_table
check_table_lem b m ndp c = Passes-bind _ _ _ _ (check_table_bounds_lem b ndp) (λ n (one, fits).
    Passes-bind _ _ _ _ (check_datagrams_lem b ndp m n 0 c (omega arith)) (λ c' k.
      Passes-bind _ _ _ _ (check_last_pointer_lem b ndp n fits)
        (λ next e. Round-of b m ndp c n c' next (one, fits) k e)))

-- The tables from `ndp` on, when the outer loop passes them.
abbrev Walked : Bytes → ℕ → ℕ → ℕ → ℕ → Type 0
Walked b max_dg_count ndp dg_count dg_count' =
    (ds : List (ℕ × ℕ)) × Tables b ndp ds
    × (dg_count' ≡ dg_count + length ds)
    × (dg_count' ≤ max_dg_count)

Walked-more :
    (b : Bytes) (m ndp c next c' c'' : ℕ) (ds : List (ℕ × ℕ))
    → Table b ndp next ds
    → next ≢ 0
    → c' ≡ c + length ds
    → Walked b m next c' c''
    → Walked b m ndp c c''
Walked-more b m ndp c next c' c'' ds t ne e (rest, ts, e', le) =
    (ds ++ rest, then_table t ne ts, omega (arith, length-append ds rest), le)

zero_next :
    (b : Bytes) (m ndp next : ℕ) (ds : List (ℕ × ℕ))
    → (next == 0) ≡ true
    → Table b ndp next ds
    → Table b ndp 0 ds
zero_next b m ndp next ds z t = let e : next ≡ 0 = ground arith in subst (λ x. Table b ndp x ds) e t

-- Enough fuel: each round counts a datagram, and counts stay below the bound.
check_tables_lem :
    (fuel : ℕ) (b : Bytes) (m ndp c : ℕ)
    → c ≤ m
    → m < c + fuel
    → Passes (Walked b m ndp c) (check_tables fuel b m ndp c)
unfolding check_tables
check_tables_lem zero b m ndp c le h = absurd (omega arith)
check_tables_lem (suc fuel) b m ndp c le h =
    Passes-bind (Round b m ndp c) (Walked b m ndp c) _ _ (check_table_lem b m ndp c)
      (λ (next, c') (ds, t, e, le').
        Passes-if (Walked b m ndp c) (next == 0) (pass c') _
          (λ z. (ds, last_table (zero_next b m ndp next ds z t), e, le'))
          (λ nz.
            Passes-map (Walked b m next c') (Walked b m ndp c) _
              (λ c'' w. Walked-more b m ndp c next c' c'' ds t (ground arith) e w)
              (check_tables_lem fuel b m next c' le' (let p = t.some_datagram in omega arith))))

check_header_lem : (b : Bytes) → Passes (λ ndp. ndp_index b ≡ some ndp) (check_header b)
unfolding check_header block_length ndp_index
check_header_lem b =
    Passes-if (λ ndp. le_uint16 b 10 ≡ some ndp) (ltb b.size min_size) refuse _ (λ _. tt)
      (λ big. Passes-field _ _ _ (le_uint32-IsRead b 0 (ground arith)) (λ signature es.
        Passes-field _ _ _ (le_uint16-IsRead b 8 (ground arith)) (λ block eb.
          Passes-field _ _ _ (le_uint16-IsRead b 4 (ground arith)) (λ len el.
            Passes-if (λ ndp. le_uint16 b 10 ≡ some ndp)
              (not (signature == header_signature)
                || (ltb b.size block || (not (len == header_size) || not (block % 4 == 0))))
              refuse _ (λ _. tt) (λ _. Passes-read _ (le_uint16-IsRead b 10 (ground arith)))))))

-- A block and its datagrams.
abbrev pub Datagrams : Bytes → ℕ → Type 0
Datagrams b count = (ndp : ℕ) × (ds : List (ℕ × ℕ)) × Holds b ndp ds × (count ≡ length ds)

check_ntb_lem : (b : Bytes) → Passes (Datagrams b) (check_ntb b)
unfolding check_ntb max_dg_count_of
check_ntb_lem b =
    Passes-bind (λ ndp. ndp_index b ≡ some ndp) (Datagrams b) _ _ (check_header_lem b)
      (λ ndp e.
        Passes-map (Walked b (b.size / datagram_min_length) ndp 0) (Datagrams b) _
          (λ c (ds, ts, ec, le).
            (ndp, ds, record { first_table = e; tables = ts; count = omega arith }, omega arith))
          (check_tables_lem (suc (b.size / datagram_min_length)) b (b.size / datagram_min_length)
            ndp 0 (omega arith) (omega arith)))

answer_lem : (b : Bytes) (m : Check ℕ) → Passes (Datagrams b) m → (v : Bool) × (answer m ≡ some v)
unfolding answer
answer_lem b refuse h = (false, refl)
answer_lem b (pass n) h = (true, refl)
answer_lem b fault h = absurd h

-- `is_valid_ntb` answers for every span of bytes: both its loops end, whatever tables the bytes link to each other,
-- and each field that it reads lies within the span.
pub is_valid_ntb-answers : (b : Bytes) → (v : Bool) × (is_valid_ntb b ≡ some v)
unfolding is_valid_ntb
is_valid_ntb-answers b = answer_lem b (check_ntb b) (check_ntb_lem b)

accepted_lem :
    (b : Bytes) (m : Check ℕ)
    → Passes (Datagrams b) m
    → answer m ≡ some true
    → (ndp : ℕ) × (ds : List (ℕ × ℕ)) × Holds b ndp ds
unfolding answer
accepted_lem b refuse h e = absurd (cc)
accepted_lem b (pass n) (ndp, ds, k, _) e = (ndp, ds, k)
accepted_lem b fault h e = absurd h

-- A span of bytes that `is_valid_ntb` accepts is a chain of pointer tables from the one that the header names, each
-- ended by a null pointer and with at least one datagram; every datagram lies behind the header and within the span,
-- has the minimum length, and there are no more of them than the span has room for.
pub is_valid_ntb-Holds :
    (b : Bytes) → is_valid_ntb b ≡ some true → (ndp : ℕ) × (ds : List (ℕ × ℕ)) × Holds b ndp ds
unfolding is_valid_ntb
is_valid_ntb-Holds b e = accepted_lem b (check_ntb b) (check_ntb_lem b) e
