-- ===== src/Ntb/Transmit.antt =====
-- c2usb/usb/class/cdc_ncm_ntb.hpp: the context that assembles the blocks to send.
pub mod Words
pub mod Filled
pub mod Append
pub mod Tables
pub mod Block
pub mod Pop
pub mod Sent
pub mod RoundTrip
pub mod Deliver
pub mod Limits
pub mod Wraps
use c2usb.Base.{ℕ, zero, suc, ◌+◌, ◌-◌, ◌*◌, ◌/◌, ◌%◌, ◌^◌, min, Bool, true, false, not, ◌&&◌, ◌||◌}
use c2usb.Base.{Option, none, some, List, [], ◌∷◌, ◌++◌, length, leb, ltb, ◌==◌, if◌then◌else◌}
use c2usb.Message.Reply.{le_bytes}
use c2usb.Message.Transfer.{Span, empty_span}
use c2usb.Serial.Memory.{Memory, load, store}
use c2usb.Ntb.{
  header_size, table_size, pointer_size, datagram_min_length, header_signature, table_signature,
}

-- `ntb_tx_ctx<16>`: the two pages stand one behind the other from `buf` on. Without CONFIG_C2USB_NTB_IN_MAX_DG the
-- limit is 0, which is none.
pub record TxCtx : Type 0 where
  pub memory : Memory
  pub buf : ℕ
  pub size : ℕ
  pub page : ℕ
  pub max_size : ℕ
  pub rem_size : ℕ
  pub index : ℕ
  pub dg_count : ℕ
  pub dg_max_limit : ℕ

-- `aligned_size<uint32_t>`
abbrev pub aligned_size : ℕ → ℕ
aligned_size n = (n + 3) / 4 * 4

-- A little-endian number of two bytes.
unfoldable pub word : Memory → ℕ → ℕ
word m a = m a + 256 * m (a + 1)

-- `data(page)`
unfoldable pub base : TxCtx → ℕ
base c = c.buf + c.page * c.size

unfoldable pub tail : TxCtx → ℕ
tail c = base c + c.index

-- `dg_size_ptr`
unfoldable pub size_slot : TxCtx → ℕ
size_slot c = base c + c.size - pointer_size * c.dg_count

-- `dg_size_end_ptr`
unfoldable pub last_slot : TxCtx → ℕ
last_slot c = base c + c.size - pointer_size

unfoldable pub init : TxCtx → TxCtx
init c = record c {
  dg_count = 0;
  index = header_size;
  rem_size = (min c.size c.max_size + 2 ^ 32 - header_size - table_size) % 2 ^ 16;
}

-- The room that a datagram takes, with its pointer.
abbrev pub add_size : ℕ → ℕ
add_size sz = aligned_size sz + pointer_size

unfoldable pub fits : ℕ → TxCtx → Bool
fits sz c =
    leb datagram_min_length sz
    && leb (add_size sz) c.rem_size
    && ((c.dg_max_limit == 0) || ltb c.dg_count c.dg_max_limit)

-- The bookkeeping of a datagram whose bytes are in place.
unfoldable pub account : ℕ → TxCtx → TxCtx
account sz c =
    let c' = record c {
      index = (c.index + aligned_size sz) % 2 ^ 16;
      rem_size = (c.rem_size + 2 ^ 16 - add_size sz % 2 ^ 16) % 2 ^ 16;
      dg_count = (c.dg_count + 1) % 2 ^ 8;
    } in
    record c' { memory = store c'.memory (size_slot c') (le_bytes 2 sz) }

unfoldable pub append_datagram : List ℕ → TxCtx → Bool × TxCtx
append_datagram bytes c =
    if fits (length bytes) c
    then (true, account (length bytes) (record c { memory = store c.memory (tail c) bytes }))
    else (false, c)

unfoldable pub allocate_datagram : ℕ → TxCtx → Span
allocate_datagram sz c = if fits sz c then record { ptr = tail c; len = sz } else empty_span

-- `none` is a failed assertion.
unfoldable pub commit_datagram : Bool → Span → TxCtx → Option TxCtx
commit_datagram asserts dg c =
    if asserts && not (fits dg.len c && (dg.ptr == tail c)) then none else some (account dg.len c)

-- The first loop, from the datagram `i` on: the lengths move from their slots to the table.
unfoldable pub copy_lengths : ℕ → ℕ → ℕ → ℕ → Memory → Memory
copy_lengths dpt slot zero i m = m
copy_lengths dpt slot (suc n) i m =
    copy_lengths dpt slot n (suc i) (store m (dpt + 8 + 4 * i + 2) (load m (slot - 4 * i) 2))

-- The second loop: each index follows from the datagram before.
unfoldable pub fill_indices : ℕ → ℕ → ℕ → Memory → Memory
fill_indices dpt zero i m = m
fill_indices dpt (suc n) i m = fill_indices dpt n (suc i) (
    store m (dpt + 8 + 4 * suc i)
      (le_bytes 2 (aligned_size (word m (dpt + 8 + 4 * i) + word m (dpt + 8 + 4 * i + 2)))))

-- `dpt->Length`
abbrev pub table_length : TxCtx → ℕ
table_length c = (table_size + pointer_size * c.dg_count) % 2 ^ 16

-- `hdr->BlockLength`
abbrev pub block_size : TxCtx → ℕ
block_size c = (c.index + table_length c) % 2 ^ 16

unfoldable pub write_table : TxCtx → Memory → Memory
write_table c m =
    store m (tail c) (le_bytes 4 table_signature ++ (le_bytes 2 (table_length c) ++ le_bytes 2 0))

-- The header but for its sequence number.
unfoldable pub write_header : TxCtx → Memory → Memory
write_header c m =
    store (store m (base c) (le_bytes 4 header_signature ++ le_bytes 2 header_size)) (base c + 8)
      (le_bytes 2 (block_size c) ++ le_bytes 2 c.index)

unfoldable pub write_pointers : TxCtx → Memory → Memory
write_pointers c m =
    let lengths = copy_lengths (tail c) (last_slot c) c.dg_count 0 m in
    let first = store lengths (tail c + 8) (le_bytes 2 header_size) in
    let indices = fill_indices (tail c) (c.dg_count - 1) 0 first in
    store indices (tail c + 8 + 4 * c.dg_count) (le_bytes 4 0)

-- The block is complete, and the other page gets the next sequence number.
unfoldable pub pop_ntb : TxCtx → Span × TxCtx
pop_ntb c =
    if c.dg_count == 0
    then (empty_span, c)
    else (let m = write_pointers c (write_header c (write_table c c.memory)) in
        let c' = record c { page = 1 - c.page } in
        (
          record { ptr = base c; len = block_size c },
          init
              (record c' { memory = store m (base c' + 6) (le_bytes 2 (word m (base c + 6) + 1)) }),
        ))

-- The request SET_NTB_INPUT_SIZE, with the bytes of its message by their address and number.
unfoldable pub set_input_size : Bool → Memory → ℕ → ℕ → TxCtx → Bool × TxCtx
set_input_size limits msg at n c =
    let in_max_size = word msg at + 65536 * word msg (at + 2) in
    let in_max_datagrams = word msg (at + 4) in
    let limit = if limits && (n == 8) then min 255 in_max_datagrams else c.dg_max_limit in
    if not (n == 4) && not (limits && (n == 8))
    then (false, c)
    else if leb in_max_size (header_size + table_size + datagram_min_length)
        || ltb c.size in_max_size
    then (false, c)
    else (true, record c { max_size = in_max_size; dg_max_limit = limit })
