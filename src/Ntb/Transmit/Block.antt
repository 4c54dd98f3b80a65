-- ===== src/Ntb/Transmit/Block.antt =====
-- A complete block: its fields, one table, and the datagrams; it passes `is_valid_ntb`.
use c2usb.Base.{ℕ, suc, ◌+◌, ◌-◌, ◌*◌, ◌/◌, ◌%◌, ◌≤◌, ◌<◌, ◌≡◌, refl, ap}
use c2usb.Base.{true, false, not, ◌&&◌, ◌||◌, leb, ltb, ◌==◌}
use c2usb.Base.{some, List, [], ◌∷◌, length, All, arith}
use c2usb.Ntb.{
  Bytes, le_uint16, le_uint32, header_size, table_size, pointer_size, datagram_min_length,
  header_signature, table_signature, block_length, ndp_index, next_ndp_index, datagram_index,
  datagram_length, pass, ◌>>>◌, field, check_datagrams, check_table_bounds, check_last_pointer,
  check_table, check_tables, check_header, max_dg_count_of, check_ntb, answer, is_valid_ntb,
  min_size,
}
use c2usb.Ntb.Layout.{Datagram, Pointers, pointer, last_table, Holds}
use c2usb.Ntb.Transmit.{aligned_size}
use c2usb.Ntb.Transmit.Filled.{end_of, Stored, end_of_aligned}

-- The offsets and lengths of datagrams that stand one behind the other.
abbrev pub placed : ℕ → List (List ℕ) → List Datagram
placed off [] = []
placed off (d ∷ ds) = (off, length d) ∷ placed (off + aligned_size (length d)) ds

pub length-placed : (off : ℕ) (ds : List (List ℕ)) → length (placed off ds) ≡ length ds
length-placed off [] = refl
length-placed off (d ∷ ds) = ap suc (length-placed (off + aligned_size (length d)) ds)

pub record IsBlock (b : Bytes) (ndp : ℕ) (ds : List (List ℕ)) : Type 0 where
  pub signature : le_uint32 b 0 ≡ some header_signature
  pub header_length : le_uint16 b 4 ≡ some 12
  pub block : block_length b ≡ some b.size
  pub first : ndp_index b ≡ some ndp
  pub table_sign : le_uint32 b ndp ≡ some table_signature
  pub table_length : le_uint16 b (ndp + 4) ≡ some (12 + 4 * length ds)
  pub no_next : next_ndp_index b ndp ≡ some 0
  pub pointers : Pointers b ndp 0 (placed 12 ds)
  pub null_index : datagram_index b ndp (length ds) ≡ some 0
  pub null_length : datagram_length b ndp (length ds) ≡ some 0
  pub stored : Stored b.memory b.start 12 ds
  pub size_is : b.size ≡ ndp + 12 + 4 * length ds
  pub ndp_is : ndp ≡ end_of 12 ds
  pub nonempty : 0 < length ds
  pub long : All (λ (d : List ℕ). 14 ≤ length d) ds

-- Each datagram takes sixteen bytes at least.
pub room_of :
    (off : ℕ) (ds : List (List ℕ))
    → All (λ (d : List ℕ). 14 ≤ length d) ds
    → off + 16 * length ds ≤ end_of off ds
room_of off [] h = omega arith
room_of off (d ∷ ds) (h, hs) = omega (arith, room_of (off + aligned_size (length d)) ds hs)

check_datagrams_pass :
    (b : Bytes) (ndp top i count : ℕ) (ds : List Datagram)
    → Pointers b ndp i ds
    → count + length ds ≤ top
    → check_datagrams b ndp top (length ds) i count ≡ pass (count + length ds)
unfolding check_datagrams field ◌>>>◌
check_datagrams_pass b ndp top i count [] p le =
    let z : count ≡ count + 0 = omega arith in ap pass z
check_datagrams_pass b ndp top i count ((index, len) ∷ ds) (pointer ei el w ps) le =
    let lower = w.after_header in
    let upper = w.in_block in
    let enough = w.long_enough in
    let fits : (ltb index header_size || (ltb b.size (index + len) || ltb len datagram_min_length))
        ≡ false =
      ground arith in
    let counted : ltb top (suc count) ≡ false = ground arith in
    let rest = check_datagrams_pass b ndp top (suc i) (suc count) ds ps (omega arith) in
    let z : suc count + length ds ≡ count + suc (length ds) = omega arith in
    rw (ei, el, fits, counted, rest, z) refl

module _ (b : Bytes) (ndp : ℕ) (ds : List (List ℕ)) (k : IsBlock b ndp ds) where
  few : length ds ≤ max_dg_count_of b
  unfolding max_dg_count_of
  few = omega (arith, room_of 12 ds k.long, k.size_is, k.ndp_is)

  pub block-Holds : Holds b ndp (placed 12 ds)
  unfolding max_dg_count_of
  block-Holds =
      let n = length-placed 12 ds in
      let some_datagram = k.nonempty in
      record {
        first_table = k.first;
        tables = last_table (record {
          pointers = k.pointers;
          some_datagram = omega arith;
          null_index = rw n k.null_index;
          null_length = rw n k.null_length;
          next_index = k.no_next;
        });
        count = omega (arith, few);
      }

  header_pass : check_header b ≡ pass ndp
  unfolding check_header field ◌>>>◌
  header_pass =
      let size = k.size_is in
      let at = k.ndp_is in
      let room = room_of 12 ds k.long in
      let some_datagram = k.nonempty in
      let big : ltb b.size min_size ≡ false = ground arith in
      let words : b.size % 4 ≡ 0 = omega (arith, end_of_aligned 12 ds refl) in
      let good : (not (header_signature == header_signature)
            || (ltb b.size b.size || (not (12 == header_size) || not (b.size % 4 == 0))))
          ≡ false =
        ground arith in
      rw (big, k.signature, k.block, k.header_length, good, k.first) refl

  bounds_pass : check_table_bounds b ndp ≡ pass (length ds)
  unfolding check_table_bounds field ◌>>>◌
  bounds_pass =
      let size = k.size_is in
      let at = k.ndp_is in
      let room = room_of 12 ds k.long in
      let some_datagram = k.nonempty in
      let inside : (leb header_size ndp && ltb (ndp + table_size) b.size) ≡ true = ground arith in
      let long : (leb (table_size + pointer_size) (12 + 4 * length ds)
            && leb (ndp + (12 + 4 * length ds)) b.size)
          ≡ true =
        ground arith in
      let n : (12 + 4 * length ds - table_size) / pointer_size ≡ length ds = omega arith in
      rw (inside, k.table_sign, k.table_length, long, n) refl

  table_pass : check_table b (max_dg_count_of b) ndp 0 ≡ pass (0, length ds)
  unfolding check_table check_last_pointer field ◌>>>◌
  table_pass =
      let n = length-placed 12 ds in
      let all =
        check_datagrams_pass b ndp (max_dg_count_of b) 0 0 (placed 12 ds) k.pointers
          (omega (arith, few)) in
      let z : 0 + length ds ≡ length ds = omega arith in
      rw (bounds_pass, rw n at all, k.null_index, k.null_length, k.no_next, z) refl

  pub block-valid : is_valid_ntb b ≡ some true
  unfolding is_valid_ntb check_ntb check_tables answer ◌>>>◌
  block-valid = rw (header_pass, table_pass) refl
