-- ===== src/Ntb/Layout.antt =====
-- The format of a transfer block, described apart from the code that checks it.
use c2usb.Base.{ℕ, suc, ◌+◌, ◌/◌, ◌≤◌, ◌<◌, ◌≡◌, ◌≢◌, List, [], ◌∷◌, ◌++◌, length, some}
use c2usb.Ntb.{
  Bytes, header_size, datagram_min_length, datagram_index, datagram_length, next_ndp_index,
  ndp_index,
}

-- A datagram, by its offset and its length.
abbrev pub Datagram : Type 0
Datagram = ℕ × ℕ

-- A datagram behind the header and within the bytes.
pub record Within (b : Bytes) (d : Datagram) : Type 0 where
  pub after_header : header_size ≤ d.0
  pub in_block : d.0 + d.1 ≤ b.size
  pub long_enough : datagram_min_length ≤ d.1

-- The pointers of the table at `ndp`, from the one numbered `i` on.
pub data Pointers (b : Bytes) (ndp : ℕ) : ℕ → List Datagram → Type 0 where
  no_more : {i : ℕ} → Pointers b ndp i []
  pointer :
      {i index len : ℕ} {ds : List Datagram}
      → datagram_index b ndp i ≡ some index
      → datagram_length b ndp i ≡ some len
      → Within b (index, len)
      → Pointers b ndp (suc i) ds
      → Pointers b ndp i ((index, len) ∷ ds)

-- A table with at least one datagram, ended by a null pointer.
pub record Table (b : Bytes) (ndp next : ℕ) (ds : List Datagram) : Type 0 where
  pub pointers : Pointers b ndp 0 ds
  pub some_datagram : 0 < length ds
  pub null_index : datagram_index b ndp (length ds) ≡ some 0
  pub null_length : datagram_length b ndp (length ds) ≡ some 0
  pub next_index : next_ndp_index b ndp ≡ some next

-- The tables from `ndp` on, and their datagrams in order.
pub data Tables (b : Bytes) : ℕ → List Datagram → Type 0 where
  last_table : {ndp : ℕ} {ds : List Datagram} → Table b ndp 0 ds → Tables b ndp ds
  then_table :
      {ndp next : ℕ} {ds rest : List Datagram}
      → Table b ndp next ds
      → next ≢ 0
      → Tables b next rest
      → Tables b ndp (ds ++ rest)

-- A block's datagrams: its tables, from the one that the header names, with no more datagrams than fit.
pub record Holds (b : Bytes) (ndp : ℕ) (ds : List Datagram) : Type 0 where
  pub first_table : ndp_index b ≡ some ndp
  pub tables : Tables b ndp ds
  pub count : length ds ≤ b.size / datagram_min_length
