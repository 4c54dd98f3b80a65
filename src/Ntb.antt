-- ===== src/Ntb.antt =====
-- c2usb/usb/class/cdc.hpp and cdc_ncm_ntb.hpp: CDC NCM transfer blocks of the 16 bit format.
pub mod Valid
pub mod Layout
pub mod Sound
pub mod Receive
pub mod Transmit
use c2usb.Base.{ℕ, zero, suc, ◌+◌, ◌-◌, ◌*◌, ◌/◌, ◌%◌, Bool, true, false, not, ◌&&◌, ◌||◌}
use c2usb.Base.{Option, none, some, leb, ltb, ◌==◌, if◌then◌else◌, ◌>>=◌}
use c2usb.Serial.Memory.{Memory}

-- A span of bytes in a memory.
pub record Bytes : Type 0 where
  pub memory : Memory
  pub start : ℕ
  pub size : ℕ

-- A little-endian field of a structure laid over the bytes; `none` is a read outside of them.
unfoldable pub le_uint16 : Bytes → ℕ → Option ℕ
le_uint16 b off =
    if leb (off + 2) b.size
    then some (b.memory (b.start + off) + 256 * b.memory (b.start + off + 1))
    else none

unfoldable pub le_uint32 : Bytes → ℕ → Option ℕ
le_uint32 b off =
    le_uint16 b off >>= λ low. le_uint16 b (off + 2) >>= λ high. some (low + 65536 * high)

abbrev pub datagram_min_length : ℕ
datagram_min_length = 14

-- `sizeof` of `header<16>`, `datagram_pointer_table<16>` and `datagram_ptr<16>`.
abbrev pub header_size : ℕ
header_size = 12

abbrev pub table_size : ℕ
table_size = 12

abbrev pub pointer_size : ℕ
pointer_size = 4

abbrev pub min_size : ℕ
min_size = header_size + table_size + pointer_size + datagram_min_length

-- "NCMH" and "NCM0".
abbrev pub header_signature : ℕ
header_signature = 0x484d434e

abbrev pub table_signature : ℕ
table_signature = 0x304d434e

-- The fields of the header and of a pointer table at `ndp`.
unfoldable pub block_length : Bytes → Option ℕ
block_length b = le_uint16 b 8

unfoldable pub ndp_index : Bytes → Option ℕ
ndp_index b = le_uint16 b 10

unfoldable pub next_ndp_index : Bytes → ℕ → Option ℕ
next_ndp_index b ndp = le_uint16 b (ndp + 6)

unfoldable pub datagram_index : Bytes → ℕ → ℕ → Option ℕ
datagram_index b ndp i = le_uint16 b (ndp + 8 + 4 * i)

unfoldable pub datagram_length : Bytes → ℕ → ℕ → Option ℕ
datagram_length b ndp i = le_uint16 b (ndp + 8 + 4 * i + 2)

-- The outcome of a check: a read outside of the bytes, the code's `return false`, or a value to go on with.
pub data Check (A : Type 0) : Type 0 where
  fault : Check A
  refuse : Check A
  pass : A → Check A

infixl 5 ◌>>>◌
unfoldable pub ◌>>>◌ : {A B : Type 0} → Check A → (A → Check B) → Check B
fault >>> f = fault
refuse >>> f = refuse
pass a >>> f = f a

unfoldable pub field : Option ℕ → Check ℕ
field none = fault
field (some v) = pass v

-- The loop over a table's datagrams, with `left` to go; it passes the new count.
unfoldable pub check_datagrams : Bytes → ℕ → ℕ → ℕ → ℕ → ℕ → Check ℕ
check_datagrams b ndp max_dg_count zero dg_idx dg_count = pass dg_count
check_datagrams b ndp max_dg_count (suc left) dg_idx dg_count =
    let rest = check_datagrams b ndp max_dg_count left (suc dg_idx) (suc dg_count) in
    field (datagram_index b ndp dg_idx) >>> λ index.
    field (datagram_length b ndp dg_idx) >>> λ length.
    if ltb index header_size || (ltb b.size (index + length) || ltb length datagram_min_length)
    then refuse
    else if ltb max_dg_count (suc dg_count)
    then refuse
    else rest

-- The conditions of the outer loop, in their order: a field is read once the ones before it hold. It passes the
-- number of datagrams of the table.
unfoldable pub check_table_bounds : Bytes → ℕ → Check ℕ
check_table_bounds b ndp =
    if leb header_size ndp && ltb (ndp + table_size) b.size
    then (field (le_uint32 b ndp) >>> λ signature.
        if signature == table_signature
        then (field (le_uint16 b (ndp + 4)) >>> λ length.
            if leb (table_size + pointer_size) length && leb (ndp + length) b.size
            then pass ((length - table_size) / pointer_size)
            else refuse)
        else refuse)
    else refuse

-- The last datagram pointer must be null; it passes the next table's index.
unfoldable pub check_last_pointer : Bytes → ℕ → ℕ → Check ℕ
check_last_pointer b ndp dg_idx = field (datagram_index b ndp dg_idx) >>> λ index.
    field (datagram_length b ndp dg_idx) >>> λ length.
    if (index == 0) && (length == 0) then field (next_ndp_index b ndp) else refuse

-- One round of the outer loop: the next table's index and the count.
unfoldable pub check_table : Bytes → ℕ → ℕ → ℕ → Check (ℕ × ℕ)
check_table b max_dg_count ndp dg_count = check_table_bounds b ndp >>> λ n.
    check_datagrams b ndp max_dg_count n 0 dg_count >>> λ dg_count'.
    check_last_pointer b ndp n >>> λ next. pass (next, dg_count')

-- The outer loop, on fuel; spent fuel is a fault.
unfoldable pub check_tables : ℕ → Bytes → ℕ → ℕ → ℕ → Check ℕ
check_tables zero b max_dg_count ndp dg_count = fault
check_tables (suc fuel) b max_dg_count ndp dg_count =
    check_table b max_dg_count ndp dg_count >>> λ (next, dg_count').
    if next == 0 then pass dg_count' else check_tables fuel b max_dg_count next dg_count'

-- The conditions on the header; it passes the first table's index.
unfoldable pub check_header : Bytes → Check ℕ
check_header b =
    if ltb b.size min_size
    then refuse
    else (field (le_uint32 b 0) >>> λ signature. field (block_length b) >>> λ block.
        field (le_uint16 b 4) >>> λ length.
        if not (signature == header_signature)
          || (ltb b.size block || (not (length == header_size) || not (block % 4 == 0)))
        then refuse
        else field (ndp_index b))

unfoldable pub max_dg_count_of : Bytes → ℕ
max_dg_count_of b = b.size / datagram_min_length

-- `is_valid_ntb`; every round of the outer loop counts a datagram, so the count bounds the rounds.
unfoldable pub check_ntb : Bytes → Check ℕ
check_ntb b =
    check_header b >>> λ ndp. check_tables (suc (max_dg_count_of b)) b (max_dg_count_of b) ndp 0

unfoldable pub answer : Check ℕ → Option Bool
answer fault = none
answer refuse = some false
answer (pass n) = some true

unfoldable pub is_valid_ntb : Bytes → Option Bool
is_valid_ntb b = answer (check_ntb b)
