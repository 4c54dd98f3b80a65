-- ===== src/Serial/Transmit/Invariant.antt =====
-- The invariant of the transmit buffer with its writer and its endpoint.
use c2usb.Base.{ℕ, ◌+◌, ◌≤◌, ◌<◌, ◌≡◌, ◌≢◌, refl, ◌⊎◌}
use c2usb.Base.{Bool, true, false, not, List, ◌++◌, take, Option, none, some, arith}
use c2usb.Message.Transfer.{Span}
use c2usb.Serial.Memory.{load}
use c2usb.Serial.Transmit.{
  TxBuffer, consuming_flag, Writer, start, loaded, copied, published, claiming, returned,
}
use c2usb.Serial.Transmit.{
  pos_of, set_pos, buffer_of, side_of, is_consuming, set_flag, compare_exchange,
}

-- What the two sides hold, by the accepted and the carried bytes: nothing; bytes that the writer has yet to claim;
-- or a span on its way, with the bytes behind it on the other side.
pub data Phase (t : TxBuffer) (in_flight : Option Span) (written sent : List ℕ) : Type 0 where
  quiet :
      in_flight ≡ none → t.pos_0 ≡ 0 → t.pos_1 ≡ 0 → written ≡ sent → Phase t in_flight written sent
  fresh :
      (idx : Bool) (n : ℕ)
      → in_flight ≡ none
      → pos_of idx t ≡ n
      → 0 < n
      → n ≤ t.size
      → pos_of (not idx) t ≡ 0
      → written ≡ sent ++ load t.memory (buffer_of idx t) n
      → Phase t in_flight written sent
  busy :
      (idx : Bool) (n m : ℕ) (x : Span)
      → in_flight ≡ some x
      → pos_of idx t ≡ n + consuming_flag
      → 0 < n
      → n ≤ t.size
      → pos_of (not idx) t ≡ m
      → m ≤ t.size
      → side_of x t ≡ idx
      → buffer_of idx t ≤ x.ptr
      → x.ptr + x.len ≡ buffer_of idx t + n
      → written ≡ sent ++ (load t.memory x.ptr x.len ++ load t.memory (buffer_of (not idx) t) m)
      → Phase t in_flight written sent

-- While nothing is on its way, both sides are empty.
abbrev pub Calm : TxBuffer → Option Span → Type 0
Calm t f = f ≡ none → (t.pos_0 ≡ 0) × (t.pos_1 ≡ 0)

-- A position that the writer has seen: still there, or being sent, or sent.
abbrev pub Seen : Bool → ℕ → TxBuffer → Type 0
Seen idx pos t = (pos_of idx t ≡ pos) ⊎ ((pos_of idx t ≡ pos + consuming_flag) ⊎ (pos_of idx t ≡ 0))

-- What the writer relies on at each of its operations.
unfoldable pub Relies : List ℕ → Writer → TxBuffer → Option Span → Type 0
Relies bytes start t f = Calm t f
Relies bytes (loaded idx pos) t f =
    Calm t f × (pos < consuming_flag → (pos ≤ t.size) × Seen idx pos t)
Relies bytes (copied idx pos new_pos w) t f =
    Calm t f
    × Seen idx pos t
    × (new_pos ≡ pos + w)
    × (0 < w)
    × (new_pos ≤ t.size)
    × (load t.memory (buffer_of idx t + pos) w ≡ take w bytes)
Relies bytes (published idx new_pos w) t f =
    Seen idx new_pos t × (0 < new_pos) × (new_pos ≤ t.size) × (f ≡ none → pos_of (not idx) t ≡ 0)
Relies bytes (claiming idx new_pos w) t f =
    Seen idx new_pos t
    × (0 < new_pos)
    × (new_pos ≤ t.size)
    × (f ≡ none → pos_of (not idx) t ≡ 0)
    × (pos_of idx t ≡ new_pos → (f ≡ none) × (pos_of (not idx) t ≡ 0))
Relies bytes (returned n r) t f = Calm t f

pub set_flag_low : (p : ℕ) → p < consuming_flag → set_flag p ≡ p + consuming_flag
unfolding set_flag is_consuming
set_flag_low p h = ground arith

pub exchange_expected :
    (idx : Bool) (e d : ℕ) (t : TxBuffer)
    → pos_of idx t ≡ e
    → compare_exchange idx e d t ≡ (true, set_pos idx d t)
unfolding compare_exchange
exchange_expected idx e d t h = ground arith

pub exchange_changed :
    (idx : Bool) (e d : ℕ) (t : TxBuffer)
    → pos_of idx t ≢ e
    → compare_exchange idx e d t ≡ (false, t)
unfolding compare_exchange
exchange_changed idx e d t h = ground arith

pub pos_of-set_pos_other :
    (idx : Bool) (p : ℕ) (t : TxBuffer) → pos_of (not idx) (set_pos idx p t) ≡ pos_of (not idx) t
unfolding pos_of set_pos
pos_of-set_pos_other false p t = refl
pos_of-set_pos_other true p t = refl
