-- ===== src/Tests/Ntb.antt =====
-- Transfer blocks at fixed bytes.
use c2usb.Base.{
  ℕ, ◌+◌, ◌≤◌, ◌≡◌, refl, Bool, true, List, [], ◌∷◌, ◌++◌, length, get_or, some, arith,
}
use c2usb.Ntb.{
  Bytes, le_uint16, le_uint32, is_valid_ntb, pass, fault, ◌>>>◌, field, answer, check_ntb,
  check_header,
}
use c2usb.Ntb.{
  check_tables, check_table, check_table_bounds, check_datagrams, check_last_pointer,
  max_dg_count_of,
}
use c2usb.Ntb.{block_length, ndp_index, next_ndp_index, datagram_index, datagram_length}
use c2usb.Ntb.Layout.{Datagram, Holds}
use c2usb.Ntb.Sound.{is_valid_ntb-Holds, is_valid_ntb-answers}
use c2usb.Ntb.Receive.{
  RxCtx, received, received_from, page_length, set_header, advance_datagram, advance_block,
  pop_datagram, pop_datagrams, index_at,
}
use c2usb.Ntb.Receive.Walk.{spans, pop_datagrams-Holds}
use c2usb.Ntb.Receive.NextBlock.{pop_datagram-next_block}

-- A block with one datagram of 14 bytes.
abbrev block_bytes : List ℕ
block_bytes =
    0x4e ∷ 0x43 ∷ 0x4d ∷ 0x48 ∷ 12 ∷ 0 ∷ 0 ∷ 0 ∷ 44 ∷ 0 ∷ 28 ∷ 0 ∷ 1 ∷ 2 ∷ 3 ∷ 4 ∷ 5 ∷ 6 ∷ 7 ∷ 8 ∷ 9
    ∷ 10 ∷ 11 ∷ 12 ∷ 13 ∷ 14 ∷ 0 ∷ 0 ∷ 0x4e ∷ 0x43 ∷ 0x4d ∷ 0x30 ∷ 16 ∷ 0 ∷ 0 ∷ 0 ∷ 12 ∷ 0 ∷ 14 ∷ 0
    ∷ 0 ∷ 0 ∷ 0 ∷ 0 ∷ []

abbrev one_block : Bytes
one_block = record { memory = λ a. get_or block_bytes a 0; start = 0; size = 44 }

one_block_valid : is_valid_ntb one_block ≡ some true
unfolding is_valid_ntb answer check_ntb check_header check_tables check_table check_table_bounds
    check_datagrams check_last_pointer max_dg_count_of le_uint16 le_uint32 block_length ndp_index
    next_ndp_index datagram_index datagram_length field ◌>>>◌
one_block_valid = refl

is_valid_ntb-Holds_example : (ndp : ℕ) × (ds : List (ℕ × ℕ)) × Holds one_block ndp ds
is_valid_ntb-Holds_example = is_valid_ntb-Holds one_block one_block_valid

-- The same block twice in a page.
abbrev two_blocks : RxCtx
two_blocks = record {
  memory = λ a. get_or (block_bytes ++ block_bytes) a 0;
  size = 128;
  page = 0;
  length_0 = 88;
  length_1 = 0;
  hdr = 0;
  dpt = 28;
  table_index = 0;
}

two_blocks_valid : is_valid_ntb (received two_blocks) ≡ some true
unfolding received page_length is_valid_ntb answer check_ntb check_header check_tables check_table
    check_table_bounds check_datagrams check_last_pointer max_dg_count_of le_uint16 le_uint32
    block_length ndp_index next_ndp_index datagram_index datagram_length field ◌>>>◌
two_blocks_valid = refl

rest_valid : is_valid_ntb (received_from (0 + 44) two_blocks) ≡ some true
unfolding received_from page_length is_valid_ntb answer check_ntb check_header check_tables
    check_table check_table_bounds check_datagrams check_last_pointer max_dg_count_of le_uint16
    le_uint32 block_length ndp_index next_ndp_index datagram_index datagram_length field ◌>>>◌
rest_valid = refl

at_end : advance_datagram two_blocks ≡ advance_block two_blocks
unfolding advance_datagram index_at received page_length le_uint16 field ◌>>>◌
at_end = refl

block_field : le_uint16 (received two_blocks) (0 + 8) ≡ some 44
unfolding received page_length le_uint16
block_field = refl

small_page : page_length two_blocks ≤ 65535
unfolding page_length
small_page = omega arith

room : 0 + 44 + 42 ≤ page_length two_blocks
unfolding page_length
room = omega arith

pop_datagrams-Holds_example :
    (ndp : ℕ) × (ds : List Datagram) × (c' : RxCtx) × Holds (received two_blocks) ndp ds
    × ((set_header 0 two_blocks >>> pop_datagrams (length ds)) ≡ pass (spans two_blocks ds, c'))
    × (advance_datagram c' ≡ advance_block c')
pop_datagrams-Holds_example = pop_datagrams-Holds two_blocks small_page two_blocks_valid

pop_datagram-next_block_example : pop_datagram two_blocks ≡ fault
pop_datagram-next_block_example =
    pop_datagram-next_block two_blocks 44 small_page at_end block_field (omega arith) room
      rest_valid

is_valid_ntb-answers_example : (v : Bool) × (is_valid_ntb one_block ≡ some v)
is_valid_ntb-answers_example = is_valid_ntb-answers one_block
