-- ===== src/Serial/Transmit/Advanced.antt =====
-- What the completion of a transfer changes, and that the writer may go on after it.
use c2usb.Base.{ℕ, zero, suc, ◌+◌, ◌≤◌, ◌<◌, ◌≡◌, ◌≢◌, refl, ◌∙◌, sym, ◌⊎◌, inl}
use c2usb.Base.{Bool, true, false, not, List, Option, none, some, some-injective, arith}
use mathlib.Core.Option.{some-ne-none}
use c2usb.Message.Transfer.{Span}
use c2usb.Serial.Memory.{load}
use c2usb.Serial.Transmit.{
  TxBuffer, consuming_flag, Writer, start, loaded, copied, published, claiming, returned,
}
use c2usb.Serial.Transmit.{pos_of, set_pos, buffer_of, side_of, end_of, advance}
use c2usb.Serial.Transmit.Invariant.{Phase, quiet, fresh, busy, Calm, Seen, Relies}
use c2usb.Serial.Transmit.Complete.{end_of_lem, advance_zlp, advance_last, advance_next}

-- A completion takes a position from its bytes to the flag, or from the flag to zero.
abbrev pub Moved : ℕ → ℕ → Type 0
Moved p p' =
    (p' ≡ p)
    ⊎ (((p' ≡ p + consuming_flag) × ((0 < p) × (p < consuming_flag)))
        ⊎ ((p' ≡ 0) × (consuming_flag < p)))

pub record Advanced (t : TxBuffer) (next : Option Span) (t' : TxBuffer) : Type 0 where
  pub same_memory : t'.memory ≡ t.memory
  pub same_size : t'.size ≡ t.size
  pub moved_0 : Moved t.pos_0 t'.pos_0
  pub moved_1 : Moved t.pos_1 t'.pos_1
  pub calm : Calm t' next

last-Advanced :
    (t : TxBuffer) (idx : Bool) (n : ℕ)
    → pos_of idx t ≡ n + consuming_flag
    → 0 < n
    → pos_of (not idx) t ≡ 0
    → Advanced t none (set_pos idx 0 t)
unfolding pos_of set_pos
last-Advanced t false n p pos q = record {
  same_memory = refl;
  same_size = refl;
  moved_0 = omega arith;
  moved_1 = omega arith;
  calm = λ e. (refl, q);
}
last-Advanced t true n p pos q = record {
  same_memory = refl;
  same_size = refl;
  moved_0 = omega arith;
  moved_1 = omega arith;
  calm = λ e. (q, refl);
}

next-Advanced :
    (t : TxBuffer) (idx : Bool) (n m : ℕ) (x : Span)
    → pos_of idx t ≡ n + consuming_flag
    → 0 < n
    → pos_of (not idx) t ≡ suc m
    → suc m < consuming_flag
    → Advanced t (some x) (set_pos (not idx) (suc m + consuming_flag) (set_pos idx 0 t))
unfolding pos_of set_pos
next-Advanced t false n m x p pos q lt = record {
  same_memory = refl;
  same_size = refl;
  moved_0 = omega arith;
  moved_1 = omega arith;
  calm = λ e. absurd (some-ne-none _ e);
}
next-Advanced t true n m x p pos q lt = record {
  same_memory = refl;
  same_size = refl;
  moved_0 = omega arith;
  moved_1 = omega arith;
  calm = λ e. absurd (some-ne-none _ e);
}

busy-Advanced :
    (t : TxBuffer) (x : Span) (zlp : Bool) (idx : Bool) (n m : ℕ)
    → m < consuming_flag
    → n < consuming_flag
    → pos_of idx t ≡ n + consuming_flag
    → 0 < n
    → pos_of (not idx) t ≡ m
    → side_of x t ≡ idx
    → end_of x t ≡ n
    → Advanced t (advance x zlp t).0 (advance x zlp t).1
busy-Advanced t x false idx n zero lt ltn p pos q s en =
    rw (advance_last t x idx n ltn s en p q) (last-Advanced t idx n p pos q)
busy-Advanced t x true idx n zero lt ltn p pos q s en = rw (advance_zlp t x idx s q) (record {
  same_memory = refl;
  same_size = refl;
  moved_0 = inl refl;
  moved_1 = inl refl;
  calm = λ e. absurd (some-ne-none _ e);
})
busy-Advanced t x zlp idx n (suc m) lt ltn p pos q s en =
    rw (advance_next t x zlp idx n m ltn lt s en p q) (next-Advanced t idx n m _ p pos q lt)

pub advance-Advanced :
    (t : TxBuffer) (x : Span) (zlp : Bool) (written sent : List ℕ)
    → t.size < consuming_flag
    → Phase t (some x) written sent
    → Advanced t (advance x zlp t).0 (advance x zlp t).1
advance-Advanced t x zlp written sent b (quiet e p q h) = absurd (some-ne-none _ e)
advance-Advanced t x zlp written sent b (fresh idx n e p pos le o h) = absurd (some-ne-none _ e)
advance-Advanced t x zlp written sent b (busy idx n m y e p pos le q ml s lo en h) =
    let yx : y ≡ x = sym (some-injective e) in
    rw (sym yx) (
      busy-Advanced t y zlp idx n m (omega arith) (omega arith) p pos q s
        (end_of_lem y t idx n s lo en))

-- The writer may go on after a completion.
module _ (t t' : TxBuffer) (next : Option Span) (a : Advanced t next t') where
  moved : (idx : Bool) → Moved (pos_of idx t) (pos_of idx t')
  unfolding pos_of
  moved false = a.moved_0
  moved true = a.moved_1

  Seen-next :
      (idx : Bool) (pos : ℕ)
      → pos ≤ t.size
      → t.size < consuming_flag
      → Seen idx pos t
      → Seen idx pos t'
  Seen-next idx pos le b s = let m = moved idx in omega arith

  Calm-other : (idx : Bool) → next ≡ none → pos_of idx t' ≡ 0
  unfolding pos_of
  Calm-other false e = (a.calm e).0
  Calm-other true e = (a.calm e).1

  same_load :
      (idx : Bool) (pos n : ℕ)
      → load t'.memory (buffer_of idx t' + pos) n ≡ load t.memory (buffer_of idx t + pos) n
  unfolding buffer_of
  same_load false pos n = rw (a.same_memory) refl
  same_load true pos n = rw (a.same_memory, a.same_size) refl

  size_le : {p : ℕ} → p ≤ t.size → p ≤ t'.size
  size_le h = let e = a.same_size in omega arith

  gone :
      (idx : Bool) (pos : ℕ)
      → pos ≤ t.size
      → t.size < consuming_flag
      → 0 < pos
      → Seen idx pos t
      → pos_of idx t ≢ pos
      → pos_of idx t' ≢ pos
  gone idx pos le b p s ne e = let m = moved idx in omega arith

  pub Relies-next :
      (bytes : List ℕ) (w : Writer) (x : Span)
      → t.size < consuming_flag
      → Relies bytes w t (some x)
      → Relies bytes w t' next
  unfolding Relies
  Relies-next bytes start x b r = a.calm
  Relies-next bytes (loaded idx pos) x b r =
      (a.calm, λ lt. let (le, s) = r.1 lt in (size_le le, Seen-next idx pos le b s))
  Relies-next bytes (copied idx pos new_pos w) x b (c, s, e, p, le, h) =
      (a.calm, Seen-next idx pos (omega arith) b s, e, p, size_le le, same_load idx pos w ∙ h)
  Relies-next bytes (published idx new_pos w) x b (s, p, le, o) =
      (Seen-next idx new_pos le b s, p, size_le le, Calm-other (not idx))
  Relies-next bytes (claiming idx new_pos w) x b (s, p, le, o, u) = (
    Seen-next idx new_pos le b s,
    p,
    size_le le,
    Calm-other (not idx),
    λ e. absurd (gone idx new_pos le b p s (λ z. some-ne-none x (u z).0) e),
  )
  Relies-next bytes (returned n r) x b c = a.calm
