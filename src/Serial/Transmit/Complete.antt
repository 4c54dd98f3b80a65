-- ===== src/Serial/Transmit/Complete.antt =====
-- The completion of a transfer keeps the invariant of the transmit buffer.
use c2usb.Base.{ℕ, zero, suc, ◌+◌, ◌≤◌, ◌<◌, ◌≡◌, ◌≢◌, refl, ◌∙◌, sym}
use c2usb.Base.{Bool, true, false, not, List, [], ◌++◌, none, some, some-injective, arith}
use mathlib.Core.List.{append-nil, append_assoc}
use mathlib.Core.Option.{some-ne-none}
use c2usb.Message.Transfer.{Span}
use c2usb.Serial.Memory.{load}
use c2usb.Serial.Transmit.{TxBuffer, consuming_flag}
use c2usb.Serial.Transmit.{pos_of, set_pos, buffer_of, side_of, end_of, advance}
use c2usb.Serial.Transmit.Invariant.{Phase, quiet, fresh, busy}
use c2usb.Serial.Transmit.Invariant.{exchange_expected, pos_of-set_pos_other, set_flag_low}

pub end_of_lem :
    (x : Span) (t : TxBuffer) (idx : Bool) (n : ℕ)
    → side_of x t ≡ idx
    → buffer_of idx t ≤ x.ptr
    → x.ptr + x.len ≡ buffer_of idx t + n
    → end_of x t ≡ n
unfolding end_of
end_of_lem x t idx n s lo en = rw s (omega arith)

-- A completion, by what the other side holds.
pub advance_zlp :
    (t : TxBuffer) (x : Span) (idx : Bool)
    → side_of x t ≡ idx
    → pos_of (not idx) t ≡ 0
    → advance x true t ≡ (some (record { ptr = x.ptr + x.len; len = 0 }), t)
unfolding advance
advance_zlp t x idx s q = rw (s, q) refl

pub advance_last :
    (t : TxBuffer) (x : Span) (idx : Bool) (n : ℕ)
    → n < consuming_flag
    → side_of x t ≡ idx
    → end_of x t ≡ n
    → pos_of idx t ≡ n + consuming_flag
    → pos_of (not idx) t ≡ 0
    → advance x false t ≡ (none, set_pos idx 0 t)
unfolding advance
advance_last t x idx n b s en p q =
    rw (s, q, en, set_flag_low n b, exchange_expected idx (n + consuming_flag) 0 t p) refl

pub advance_next :
    (t : TxBuffer) (x : Span) (zlp : Bool) (idx : Bool) (n m : ℕ)
    → n < consuming_flag
    → suc m < consuming_flag
    → side_of x t ≡ idx
    → end_of x t ≡ n
    → pos_of idx t ≡ n + consuming_flag
    → pos_of (not idx) t ≡ suc m
    → advance x zlp t ≡ (
      some (record { ptr = buffer_of (not idx) t; len = suc m }),
      set_pos (not idx) (suc m + consuming_flag) (set_pos idx 0 t),
    )
unfolding advance
advance_next t x zlp idx n m b bm s en p q =
    rw
      (
        s,
        q,
        en,
        set_flag_low n b,
        set_flag_low (suc m) bm,
        exchange_expected idx (n + consuming_flag) 0 t p,
        exchange_expected (not idx) (suc m) (suc m + consuming_flag) (set_pos idx 0 t)
            (pos_of-set_pos_other idx 0 t ∙ q),
      )
      (ground arith)

append-nil_nil :
    (written sent xs ys : List ℕ) → ys ≡ [] → written ≡ sent ++ (xs ++ ys) → written ≡ sent ++ xs
append-nil_nil written sent xs ys e h = rw (e, append-nil xs) at h

regroup :
    (written sent xs ys : List ℕ)
    → written ≡ sent ++ (xs ++ ys)
    → written ≡ (sent ++ xs) ++ (ys ++ [])
regroup written sent xs ys h = rw (append_assoc sent xs (ys ++ []), append-nil ys) h

module _ (t : TxBuffer) (x : Span) (written sent : List ℕ) (n : ℕ) (b : t.size < consuming_flag)
    (le : n ≤ t.size) where
  zlp-Phase :
      (idx : Bool)
      → pos_of idx t ≡ n + consuming_flag
      → 0 < n
      → pos_of (not idx) t ≡ 0
      → side_of x t ≡ idx
      → buffer_of idx t ≤ x.ptr
      → x.ptr + x.len ≡ buffer_of idx t + n
      → x.ptr + x.len ≢ t.size
      → written ≡ sent ++ (load t.memory x.ptr x.len ++ load t.memory (buffer_of (not idx) t) 0)
      → Phase t
          (some (record { ptr = x.ptr + x.len; len = 0 }))
          written
          (sent ++ load t.memory x.ptr x.len)
  unfolding load side_of buffer_of
  zlp-Phase false p pos q s lo en ne h =
      busy false n 0 _ refl p pos le q (omega arith) (ground arith) (omega arith) (omega arith)
        (h ∙ sym (append_assoc sent (load t.memory x.ptr x.len) []))
  zlp-Phase true p pos q s lo en ne h =
      busy true n 0 _ refl p pos le q (omega arith) (ground arith) (omega arith) (omega arith)
        (h ∙ sym (append_assoc sent (load t.memory x.ptr x.len) []))

  last-Phase :
      (idx : Bool)
      → pos_of (not idx) t ≡ 0
      → written ≡ sent ++ (load t.memory x.ptr x.len ++ load t.memory (buffer_of (not idx) t) 0)
      → Phase (set_pos idx 0 t) none written (sent ++ load t.memory x.ptr x.len)
  unfolding load pos_of set_pos
  last-Phase false q h = quiet refl refl q (append-nil_nil _ _ _ _ refl h)
  last-Phase true q h = quiet refl q refl (append-nil_nil _ _ _ _ refl h)

  next-Phase :
      (idx : Bool) (m : ℕ)
      → pos_of (not idx) t ≡ suc m
      → suc m ≤ t.size
      → written
        ≡ sent ++ (load t.memory x.ptr x.len ++ load t.memory (buffer_of (not idx) t) (suc m))
      → Phase
          (set_pos (not idx) (suc m + consuming_flag) (set_pos idx 0 t))
          (some (record { ptr = buffer_of (not idx) t; len = suc m }))
          written
          (sent ++ load t.memory x.ptr x.len)
  unfolding load pos_of set_pos side_of buffer_of
  next-Phase false m q ml h =
      busy true (suc m) 0 _ refl refl (omega arith) ml refl (omega arith) (ground arith)
        (omega arith) (omega arith)
        (regroup written sent (load t.memory x.ptr x.len)
          (load t.memory (buffer_of (not false) t) (suc m)) h)
  next-Phase true m q ml h =
      busy false (suc m) 0 _ refl refl (omega arith) ml refl (omega arith) (ground arith)
        (omega arith) (omega arith)
        (regroup written sent (load t.memory x.ptr x.len)
          (load t.memory (buffer_of (not true) t) (suc m)) h)

-- What the completion leaves of a span on its way.
busy_next :
    (t : TxBuffer) (x : Span) (zlp : Bool) (written sent : List ℕ) (idx : Bool) (n m : ℕ)
    → t.size < consuming_flag
    → (zlp ≡ true → x.ptr + x.len ≢ t.size)
    → pos_of idx t ≡ n + consuming_flag
    → 0 < n
    → n ≤ t.size
    → pos_of (not idx) t ≡ m
    → m ≤ t.size
    → side_of x t ≡ idx
    → buffer_of idx t ≤ x.ptr
    → x.ptr + x.len ≡ buffer_of idx t + n
    → written ≡ sent ++ (load t.memory x.ptr x.len ++ load t.memory (buffer_of (not idx) t) m)
    → Phase (advance x zlp t).1 (advance x zlp t).0 written (sent ++ load t.memory x.ptr x.len)
busy_next t x false written sent idx n zero b k p pos le q ml s lo en h =
    rw (advance_last t x idx n (omega arith) s (end_of_lem x t idx n s lo en) p q)
      (last-Phase t x written sent n b le idx q h)
busy_next t x true written sent idx n zero b k p pos le q ml s lo en h =
    rw (advance_zlp t x idx s q) (zlp-Phase t x written sent n b le idx p pos q s lo en (k refl) h)
busy_next t x zlp written sent idx n (suc m) b k p pos le q ml s lo en h =
    rw
      (advance_next t x zlp idx n m (omega arith) (omega arith) s (end_of_lem x t idx n s lo en) p
        q)
      (next-Phase t x written sent n b le idx m q ml h)

-- The completion of a transfer, which keeps the bytes in order.
pub advance-keeps :
    (t : TxBuffer) (x : Span) (zlp : Bool) (written sent : List ℕ)
    → t.size < consuming_flag
    → Phase t (some x) written sent
    → (zlp ≡ true → x.ptr + x.len ≢ t.size)
    → Phase (advance x zlp t).1 (advance x zlp t).0 written (sent ++ load t.memory x.ptr x.len)
advance-keeps t x zlp written sent b (quiet e p q h) k = absurd (some-ne-none _ e)
advance-keeps t x zlp written sent b (fresh idx n e p pos le o h) k = absurd (some-ne-none _ e)
advance-keeps t x zlp written sent b (busy idx n m y e p pos le q ml s lo en h) k =
    let yx : y ≡ x = sym (some-injective e) in
    rw (sym yx)
      (busy_next t y zlp written sent idx n m b (λ z. rw yx (k z)) p pos le q ml s lo en h)
