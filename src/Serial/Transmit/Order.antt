-- ===== src/Serial/Transmit/Order.antt =====
-- Every operation of the writer and every completion keep the order of the bytes.
use c2usb.Base.{ℕ, ◌+◌, ◌≤◌, ◌<◌, ◌≡◌, ◌≢◌, refl, ◌∙◌, sym, ◌⊎◌, inl, inr}
use c2usb.Base.{
  ◌-◌, min, ◌==◌, Bool-cases, Bool, true, false, not, List, [], ◌++◌, length, length-take, take,
  Option, none, arith,
}
use mathlib.Core.List.{append-nil}
use mathlib.Core.Option.{some-ne-none}
use c2usb.Message.Transfer.{Span}
use c2usb.Serial.Memory.{store, load-store-length}
use c2usb.Serial.Transmit.{
  TxBuffer, consuming_flag, Writer, start, loaded, copied, published, claiming, returned,
}
use c2usb.Serial.Transmit.{pos_of, set_pos, buffer_of, is_consuming, set_flag, write_step}
use c2usb.Serial.Transmit.Invariant.{Phase, quiet, fresh, busy, Calm, Seen, Relies}
use c2usb.Serial.Transmit.Invariant.{
  exchange_expected, exchange_changed, pos_of-set_pos_other, set_flag_low,
}
use c2usb.Serial.Transmit.Write.{pos_bound, Phase-store, Phase-publish, Phase-claim}
use c2usb.Serial.Transmit.System.{accepted, handed}

eq_or : (a b : ℕ) → (a ≡ b) ⊎ (a ≢ b)
eq_or a b = elim (Bool-cases (a == b)) [ inl e ↦ inl (ground arith) | inr e ↦ inr (ground arith) ]

pos_of-set_pos : (idx : Bool) (p : ℕ) (t : TxBuffer) → pos_of idx (set_pos idx p t) ≡ p
unfolding pos_of set_pos
pos_of-set_pos false p t = refl
pos_of-set_pos true p t = refl

size-set_pos : (idx : Bool) (p : ℕ) (t : TxBuffer) → (set_pos idx p t).size ≡ t.size
unfolding set_pos
size-set_pos false p t = refl
size-set_pos true p t = refl

Calm-other : (t : TxBuffer) (f : Option Span) (idx : Bool) → Calm t f → f ≡ none → pos_of idx t ≡ 0
unfolding pos_of
Calm-other t f false c e = (c e).0
Calm-other t f true c e = (c e).1

-- A side with bytes that are not being sent, beside an empty one: nothing is on its way.
none_of_filled :
    (t : TxBuffer) (f : Option Span) (written sent : List ℕ) (idx : Bool) (k : ℕ)
    → t.size < consuming_flag
    → Phase t f written sent
    → pos_of idx t ≡ k
    → k ≤ t.size
    → pos_of (not idx) t ≡ 0
    → f ≡ none
unfolding pos_of
none_of_filled t f written sent idx k b (quiet e p q h) pk le o = e
none_of_filled t f written sent idx k b (fresh jdx n e p pz l q h) pk le o = e
none_of_filled t f written sent false k b (busy false n m x e p pz l q ml sd lo en h) pk le o =
    absurd (omega arith)
none_of_filled t f written sent false k b (busy true n m x e p pz l q ml sd lo en h) pk le o =
    absurd (omega arith)
none_of_filled t f written sent true k b (busy false n m x e p pz l q ml sd lo en h) pk le o =
    absurd (omega arith)
none_of_filled t f written sent true k b (busy true n m x e p pz l q ml sd lo en h) pk le o =
    absurd (omega arith)

-- A side that was taken from the writer, beside an empty one.
calm_of_taken :
    (t : TxBuffer) (written sent : List ℕ) (idx : Bool) (k : ℕ)
    → t.size < consuming_flag
    → Phase t none written sent
    → Seen idx k t
    → pos_of idx t ≢ k
    → pos_of (not idx) t ≡ 0
    → (t.pos_0 ≡ 0) × (t.pos_1 ≡ 0)
unfolding pos_of
calm_of_taken t written sent idx k b (quiet e p q h) s ne o = (p, q)
calm_of_taken t written sent false k b (fresh false n e p pz l q h) s ne o = absurd (omega arith)
calm_of_taken t written sent false k b (fresh true n e p pz l q h) s ne o = absurd (omega arith)
calm_of_taken t written sent true k b (fresh false n e p pz l q h) s ne o = absurd (omega arith)
calm_of_taken t written sent true k b (fresh true n e p pz l q h) s ne o = absurd (omega arith)
calm_of_taken t written sent idx k b (busy jdx n m x e p pz l q ml sd lo en h) s ne o =
    absurd (some-ne-none _ (sym e))

eq_of : {a b : ℕ} → (a == b) ≡ true → a ≡ b
eq_of e = ground arith

ne_of : {a b : ℕ} → (a == b) ≡ false → a ≢ b
ne_of e = ground arith

not_consuming : (pos : ℕ) → is_consuming pos ≡ false → pos < consuming_flag
unfolding is_consuming
not_consuming pos e = ground arith

-- What an operation of the writer keeps.
abbrev pub Kept :
    List ℕ → Writer → Option Span → List ℕ → List ℕ → TxBuffer → Writer × TxBuffer → Type 0
Kept bytes w f written sent t (w', t') =
    Phase t' (handed w w' f) (written ++ accepted bytes w w') sent
    × Relies bytes w' t' (handed w w' f)
    × (t'.size ≡ t.size)

module _ (bytes : List ℕ) (t : TxBuffer) (f : Option Span) (written sent : List ℕ)
    (b : t.size < consuming_flag) (ph : Phase t f written sent) where
  Phase-same : Phase t f (written ++ []) sent
  Phase-same = rw (append-nil written) ph

  -- A position is loaded.
  loaded-Relies : (idx : Bool) → Calm t f → Relies bytes (loaded idx (pos_of idx t)) t f
  unfolding Relies
  loaded-Relies idx c = (c, λ lt. (pos_bound idx ph lt, inl refl))

  start_keeps :
      Relies bytes start t f → Kept bytes start f written sent t (write_step bytes start t)
  unfolding write_step handed accepted Relies
  start_keeps r = (Phase-same, loaded-Relies false r, refl)

  copy_keeps :
      (idx : Bool) (pos w : ℕ)
      → pos < consuming_flag
      → 0 < w
      → w ≤ t.size - pos
      → w ≤ length bytes
      → Relies bytes (loaded idx pos) t f
      → Kept bytes (loaded idx pos) f written sent t (
        copied idx pos (pos + w) w,
        record t { memory = store t.memory (buffer_of idx t + pos) (take w bytes) },
      )
  unfolding handed accepted Relies pos_of buffer_of
  copy_keeps false pos w lt po le lb (c, r) =
      let (ps, s) = r lt in
      let len : length (take w bytes) ≡ w = length-take w bytes ∙ omega arith in
      (
        rw (append-nil written)
            (Phase-store t f written sent (take w bytes) false pos c b (omega (arith, len)) s ph),
        (c, s, refl, po, omega arith, load-store-length t.memory (0 + pos) (take w bytes) w len),
        refl,
      )
  copy_keeps true pos w lt po le lb (c, r) =
      let (ps, s) = r lt in
      let len : length (take w bytes) ≡ w = length-take w bytes ∙ omega arith in
      (
        rw (append-nil written)
            (Phase-store t f written sent (take w bytes) true pos c b (omega (arith, len)) s ph),
        (
          c,
          s,
          refl,
          po,
          omega arith,
          load-store-length t.memory (t.size + pos) (take w bytes) w len,
        ),
        refl,
      )

  loaded_keeps :
      (idx : Bool) (pos : ℕ)
      → Relies bytes (loaded idx pos) t f
      → Kept bytes (loaded idx pos) f written sent t (write_step bytes (loaded idx pos) t)
  unfolding write_step handed accepted Relies
  loaded_keeps idx pos r = elim (Bool-cases (is_consuming pos)) [
    | inl e ↦ rw e (Phase-same, loaded-Relies (not idx) r.0, refl)
    | inr e ↦ elim (Bool-cases (min (t.size - pos) (length bytes) == 0)) [
      | inl z ↦ rw (e, z) (Phase-same, r.0, refl)
      | inr z ↦
          rw (e, z)
            (copy_keeps idx pos (min (t.size - pos) (length bytes)) (not_consuming pos e)
              (ground arith) (omega arith) (omega arith) r)
    ]
  ]

  copied_keeps :
      (idx : Bool) (pos new_pos w : ℕ)
      → Relies bytes (copied idx pos new_pos w) t f
      → Kept bytes
          (copied idx pos new_pos w)
          f
          written
          sent
          t
          (write_step bytes (copied idx pos new_pos w) t)
  unfolding write_step handed accepted Relies
  copied_keeps idx pos new_pos w (c, s, e, p, le, h) = elim (eq_or (pos_of idx t) pos) [
    | inl q ↦ rw (exchange_expected idx pos new_pos t q) (
      rw e (Phase-publish t f written sent (take w bytes) idx pos w c b q p (omega arith) h ph),
      (
        inl (pos_of-set_pos idx new_pos t),
        omega arith,
        rw (size-set_pos idx new_pos t) le,
        λ z. pos_of-set_pos_other idx new_pos t ∙ Calm-other t f (not idx) c z,
      ),
      size-set_pos idx new_pos t,
    )
    | inr q ↦ rw (exchange_changed idx pos new_pos t q) (Phase-same, loaded-Relies idx c, refl)
  ]

  published_keeps :
      (idx : Bool) (new_pos w : ℕ)
      → Relies bytes (published idx new_pos w) t f
      → Kept bytes
          (published idx new_pos w)
          f
          written
          sent
          t
          (write_step bytes (published idx new_pos w) t)
  unfolding write_step handed accepted Relies
  published_keeps idx new_pos w (s, p, le, o) = elim (Bool-cases (pos_of (not idx) t == 0)) [
    | inl e ↦ rw e (
      Phase-same,
      (
        s,
        p,
        le,
        o,
        λ z. (none_of_filled t f written sent idx new_pos b ph z le (eq_of e), eq_of e),
      ),
      refl,
    )
    | inr e ↦ rw e (Phase-same, λ z. absurd (ne_of e (o z)), refl)
  ]

  claiming_keeps :
      (idx : Bool) (new_pos w : ℕ)
      → Relies bytes (claiming idx new_pos w) t f
      → Kept bytes
          (claiming idx new_pos w)
          f
          written
          sent
          t
          (write_step bytes (claiming idx new_pos w) t)
  unfolding write_step handed accepted Relies
  claiming_keeps idx new_pos w (s, p, le, o, u) = elim (eq_or (pos_of idx t) new_pos) [
    | inl q ↦
        rw
          (
            set_flag_low new_pos (omega arith),
            exchange_expected idx new_pos (new_pos + consuming_flag) t q,
          )
          (
            rw (append-nil written)
                (Phase-claim t written sent idx new_pos p le q (u q).1 (rw (sym (u q).0) ph)),
            (λ z. absurd (some-ne-none _ z)),
            size-set_pos idx (new_pos + consuming_flag) t,
          )
    | inr q ↦ rw (exchange_changed idx new_pos (set_flag new_pos) t q) (
      Phase-same,
      λ z. calm_of_taken t written sent idx new_pos b (rw (sym z) ph) s q (o z),
      refl,
    )
  ]

  returned_keeps :
      (n : ℕ) (x : Option Span)
      → Relies bytes (returned n x) t f
      → Kept bytes (returned n x) f written sent t (write_step bytes (returned n x) t)
  unfolding write_step handed accepted Relies
  returned_keeps n x r = (Phase-same, r, refl)

pub write_step_keeps :
    (bytes : List ℕ) (w : Writer) (t : TxBuffer) (f : Option Span) (written sent : List ℕ)
    → t.size < consuming_flag
    → Phase t f written sent
    → Relies bytes w t f
    → Kept bytes w f written sent t (write_step bytes w t)
write_step_keeps bytes start t f written sent b ph r = start_keeps bytes t f written sent b ph r
write_step_keeps bytes (loaded idx pos) t f written sent b ph r =
    loaded_keeps bytes t f written sent b ph idx pos r
write_step_keeps bytes (copied idx pos new_pos w) t f written sent b ph r =
    copied_keeps bytes t f written sent b ph idx pos new_pos w r
write_step_keeps bytes (published idx new_pos w) t f written sent b ph r =
    published_keeps bytes t f written sent b ph idx new_pos w r
write_step_keeps bytes (claiming idx new_pos w) t f written sent b ph r =
    claiming_keeps bytes t f written sent b ph idx new_pos w r
write_step_keeps bytes (returned n x) t f written sent b ph r =
    returned_keeps bytes t f written sent b ph n x r
