-- ===== src/Ntb/Receive/NextBlock.antt =====
-- Popping past the last datagram of a block that another block follows in the page.
use c2usb.Base.{
  ℕ, ◌+◌, ◌*◌, ◌≤◌, ◌≡◌, refl, true, ◌&&◌, leb, none, some, Option-cases, inl, inr, arith,
}
use c2usb.Ntb.{Bytes, le_uint16, fault, ◌>>>◌, field, is_valid_ntb, min_size}
use c2usb.Ntb.Receive.{
  RxCtx, received, received_from, page_length, set_header, valid_from, index_at, current_datagram,
}
use c2usb.Ntb.Receive.{advance_block, advance_datagram, pop_datagram}

far_field :
    (b : Bytes) (dpt i : ℕ) → b.size ≤ 65535 → i ≡ 65535 → le_uint16 b (dpt + 8 + 4 * i) ≡ none
unfolding le_uint16
far_field b dpt i le e = ground arith

-- A pointer with the largest index lies outside of every page.
far_pointer :
    (c : RxCtx) → page_length c ≤ 65535 → c.table_index ≡ 65535 → current_datagram c ≡ fault
unfolding current_datagram index_at received field ◌>>>◌
far_pointer c le e = rw (far_field (received c) c.dpt c.table_index le e) refl

-- When the current block has no more datagrams and the rest of the page is a valid block, `pop_datagram` steps to
-- that block with the index that is to overflow on the next increment, and reads the pointer at this index, which
-- lies outside of the page: no datagram of the second block is returned.
pub pop_datagram-next_block :
    (c : RxCtx) (block : ℕ)
    → page_length c ≤ 65535
    → advance_datagram c ≡ advance_block c
    → le_uint16 (received c) (c.hdr + 8) ≡ some block
    → min_size ≤ block
    → c.hdr + block + min_size ≤ page_length c
    → is_valid_ntb (received_from (c.hdr + block) c) ≡ some true
    → pop_datagram c ≡ fault
unfolding pop_datagram advance_block valid_from set_header page_length field ◌>>>◌
pop_datagram-next_block c block le end eb big room v =
    let fits : (leb min_size block && leb (c.hdr + block + min_size) (page_length c)) ≡ true =
      ground arith in
    elim (Option-cases (le_uint16 (received c) (c.hdr + block + 10))) [
      | inl e ↦ rw (end, eb, fits, v, e) refl
      | inr (ndp, e) ↦
          let c' : RxCtx = record c {
            hdr = c.hdr + block;
            dpt = c.hdr + block + ndp;
            table_index = 65535;
          } in
          rw (end, eb, fits, v, e, far_pointer c' le refl) refl
    ]
