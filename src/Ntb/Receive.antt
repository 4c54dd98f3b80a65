-- ===== src/Ntb/Receive.antt =====
-- c2usb/usb/class/cdc_ncm_ntb.hpp: the context of the blocks that were received.
pub mod Walk
pub mod NextBlock
use c2usb.Base.{ℕ, zero, suc, ◌+◌, ◌-◌, ◌*◌, ◌%◌, Bool, true, false, not, ◌&&◌, List, [], ◌∷◌}
use c2usb.Base.{Option, none, some, leb, ◌==◌, if◌then◌else◌}
use c2usb.Message.Transfer.{Span}
use c2usb.Serial.Memory.{Memory}
use c2usb.Ntb.{Bytes, le_uint16, Check, fault, refuse, pass, ◌>>>◌, field, is_valid_ntb, min_size}

-- `ntb_rx_ctx<16>`: the two pages stand one behind the other; `hdr` and `dpt` count from `data(page)`.
pub record RxCtx : Type 0 where
  pub memory : Memory
  pub size : ℕ
  pub page : ℕ
  pub length_0 : ℕ
  pub length_1 : ℕ
  pub hdr : ℕ
  pub dpt : ℕ
  pub table_index : ℕ

unfoldable pub page_length : RxCtx → ℕ
page_length c = if c.page == 0 then c.length_0 else c.length_1

-- `span(page)`: what the current page received.
unfoldable pub received : RxCtx → Bytes
received c = record { memory = c.memory; start = c.page * c.size; size = page_length c }

-- The bytes behind an offset of the page.
unfoldable pub received_from : ℕ → RxCtx → Bytes
received_from off c = record {
  memory = c.memory;
  start = c.page * c.size + off;
  size = page_length c - off;
}

-- The index starts at the type's maximum.
unfoldable pub set_header : ℕ → RxCtx → Check RxCtx
set_header off c = field (le_uint16 (received c) (off + 10)) >>> λ ndp.
    pass (record c { hdr = off; dpt = off + ndp; table_index = 65535 })

unfoldable pub index_at : RxCtx → ℕ → Check ℕ
index_at c i = field (le_uint16 (received c) (c.dpt + 8 + 4 * i))

unfoldable pub length_at : RxCtx → ℕ → Check ℕ
length_at c i = field (le_uint16 (received c) (c.dpt + 8 + 4 * i + 2))

-- `is_valid_ntb`, called on the rest of the page.
unfoldable pub valid_from : ℕ → RxCtx → Check Bool
valid_from off c = answered (is_valid_ntb (received_from off c))
  where
    answered : Option Bool → Check Bool
    answered none = fault
    answered (some v) = pass v

-- The last part of `advance_datagram`: to the next block in the page.
unfoldable pub advance_block : RxCtx → Check (Bool × RxCtx)
advance_block c = field (le_uint16 (received c) (c.hdr + 8)) >>> λ block.
    if leb min_size block && leb (c.hdr + block + min_size) (page_length c)
    then (valid_from (c.hdr + block) c >>> λ valid.
        if valid then (set_header (c.hdr + block) c >>> λ c'. pass (true, c')) else pass (false, c))
    else pass (false, c)

unfoldable pub advance_datagram : RxCtx → Check (Bool × RxCtx)
advance_datagram c =
    let next_index = (c.table_index + 1) % 65536 in
    index_at c next_index >>> λ index.
    if not (index == 0)
    then pass (true, record c { table_index = next_index })
    else (field (le_uint16 (received c) (c.dpt + 6)) >>> λ ndp.
        if not (ndp == 0)
        then pass (true, record c { dpt = c.hdr + ndp; table_index = 0 })
        else advance_block c)

-- The datagram that the context stands at.
unfoldable pub current_datagram : RxCtx → Check Span
current_datagram c = index_at c c.table_index >>> λ index.
    length_at c c.table_index >>> λ len. pass (record { ptr = c.page * c.size + index; len = len })

unfoldable pub pop_datagram : RxCtx → Check (Option Span × RxCtx)
pop_datagram c = advance_datagram c >>> λ (found, c').
    if found then (current_datagram c' >>> λ s. pass (some s, c')) else pass (none, c')

-- Several calls of `pop_datagram`, with what each returned.
unfoldable pub pop_datagrams : ℕ → RxCtx → Check (List (Option Span) × RxCtx)
pop_datagrams zero c = pass ([], c)
pop_datagrams (suc n) c =
    pop_datagram c >>> λ (s, c'). pop_datagrams n c' >>> λ (rest, c''). pass (s ∷ rest, c'')
