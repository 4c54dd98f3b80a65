-- ===== src/Serial/Transmit/Reachable.antt =====
-- The transmit buffer is a lossless queue from the writer to the endpoint.
use c2usb.Base.{
  ℕ, ◌+◌, ◌<◌, ◌≡◌, ◌≢◌, refl, sym, ◌∙◌, ◌≤◌, Bool, true, false, inl, inr, ◌==◌, min, ◌-◌,
  Bool-cases, arith, some-injective, List, [], ◌++◌, Option, none, some, length,
}
use mathlib.Core.Path.{subst}
use mathlib.Core.List.{append-nil}
use mathlib.Core.Option.{some-ne-none}
use c2usb.Message.Transfer.{Span}
use c2usb.Serial.Memory.{load}
use c2usb.Serial.Transmit.{loaded, pos_of, set_pos, is_consuming, compare_exchange, write_loop}
use c2usb.Serial.Transmit.{TxBuffer, consuming_flag, Writer, returned, write_step, write}
use c2usb.Serial.Transmit.System.{
  System, operate, call, complete, Step, calls, operates, completes, Reach, begin, next, initial,
}
use c2usb.Serial.Transmit.Invariant.{Phase, quiet, fresh, busy, Calm, Relies}
use c2usb.Serial.Transmit.Order.{write_step_keeps}
use c2usb.Serial.Transmit.Complete.{advance-keeps}
use c2usb.Serial.Transmit.Advanced.{advance-Advanced, Relies-next}

Calm-returned :
    (s : System) (n : ℕ) (r : Option Span)
    → s.writer ≡ returned n r
    → Relies s.bytes s.writer s.tx s.in_flight
    → Calm s.tx s.in_flight
unfolding Relies
Calm-returned s n r e h = subst (λ w. Relies s.bytes w s.tx s.in_flight) e h

record IsValid (s : System) : Type 0 where
  bound : s.tx.size < consuming_flag
  phase : Phase s.tx s.in_flight s.written s.sent
  relies : Relies s.bytes s.writer s.tx s.in_flight

initial-IsValid :
    (t : TxBuffer) → t.size < consuming_flag → t.pos_0 ≡ 0 → t.pos_1 ≡ 0 → IsValid (initial t)
unfolding Relies
initial-IsValid t b p q = record { bound = b; phase = quiet refl p q refl; relies = λ e. (p, q) }

operate-IsValid : (s : System) → IsValid s → IsValid (operate s)
unfolding operate
operate-IsValid s v =
    let (ph, r, e) =
      write_step_keeps s.bytes s.writer s.tx s.in_flight s.written s.sent v.bound v.phase
        v.relies in
    record { bound = rw e (v.bound); phase = ph; relies = r }

call-IsValid :
    (bytes : List ℕ) (s : System) (n : ℕ) (r : Option Span)
    → s.writer ≡ returned n r
    → IsValid s
    → IsValid (call bytes s)
unfolding call Relies
call-IsValid bytes s n r e v =
    let c : Calm s.tx s.in_flight = Calm-returned s n r e v.relies in
    record { bound = v.bound; phase = v.phase; relies = c }

complete-IsValid :
    (s : System) (x : Span) (zlp : Bool)
    → s.in_flight ≡ some x
    → (zlp ≡ true → x.ptr + x.len ≢ s.tx.size)
    → IsValid s
    → IsValid (complete x zlp s)
unfolding complete
complete-IsValid s x zlp e k v =
    let ph : Phase s.tx (some x) s.written s.sent = rw (sym e) (v.phase) in
    let a = advance-Advanced s.tx x zlp s.written s.sent v.bound ph in
    let sz = a.same_size in
    record {
      bound = omega (arith, v.bound);
      phase = advance-keeps s.tx x zlp s.written s.sent v.bound ph k;
      relies = Relies-next s.tx _ _ a s.bytes s.writer x v.bound (rw (sym e) (v.relies));
    }

Step-IsValid : (s s' : System) → Step s s' → IsValid s → IsValid s'
Step-IsValid s s' (calls _ n r bytes e) v = call-IsValid bytes s n r e v
Step-IsValid s s' (operates _) v = operate-IsValid s v
Step-IsValid s s' (completes _ x zlp e k) v = complete-IsValid s x zlp e k v

Reach-IsValid : (s : System) → Reach s → IsValid s
Reach-IsValid s (begin t b p q) = initial-IsValid t b p q
Reach-IsValid s (next s1 _ r st) = Step-IsValid s1 s st (Reach-IsValid s1 r)

-- The bytes that are still to be sent, the span on its way first.
pub record Queued (s : System) (waiting : List ℕ) : Type 0 where
  pub written_eq : s.written ≡ s.sent ++ waiting
  pub head_of :
      (x : Span)
      → s.in_flight ≡ some x
      → (behind : List ℕ) × (waiting ≡ load s.tx.memory x.ptr x.len ++ behind)

Phase-Queued :
    (s : System) → Phase s.tx s.in_flight s.written s.sent → (waiting : List ℕ) × Queued s waiting
Phase-Queued s (quiet e p q h) = (
  [],
  record {
    written_eq = h ∙ sym (append-nil s.sent);
    head_of = λ x ex. absurd (some-ne-none x (sym ex ∙ e));
  },
)
Phase-Queued s (fresh idx n e p pos le o h) =
    (_, record { written_eq = h; head_of = λ x ex. absurd (some-ne-none x (sym ex ∙ e)) })
Phase-Queued s (busy idx n m y e p pos le q ml sd lo en h) =
    (_, record { written_eq = h; head_of = λ x ex. rw (some-injective (sym ex ∙ e)) (_, refl) })

-- However the writer's atomic operations and the completions of transfers follow each other, the bytes that calls of
-- `write` accepted are the bytes that transfers have carried, followed by the bytes of the transfer on its way and
-- the bytes behind it: no byte is lost, repeated, reordered or overwritten. A zero-length packet is only asked for
-- after a transfer that does not end where the second side begins.
pub reach-Queued : (s : System) → Reach s → (waiting : List ℕ) × Queued s waiting
reach-Queued s r = let v = Reach-IsValid s r in Phase-Queued s v.phase

settled_sent :
    (s : System)
    → Calm s.tx s.in_flight
    → s.in_flight ≡ none
    → Phase s.tx s.in_flight s.written s.sent
    → s.written ≡ s.sent
unfolding pos_of
settled_sent s c f (quiet e p q h) = h
settled_sent s c f (fresh false n e p pos le o h) = absurd (omega (arith, c e))
settled_sent s c f (fresh true n e p pos le o h) = absurd (omega (arith, c e))
settled_sent s c f (busy idx n m y e p pos le q ml sd lo en h) = absurd (some-ne-none y (sym e ∙ f))

-- No byte waits for a later call: once a call of `write` has returned and no transfer is on its way, everything that
-- was accepted has been sent.
pub reach-all_sent :
    (s : System) (n : ℕ) (r : Option Span)
    → Reach s
    → s.writer ≡ returned n r
    → s.in_flight ≡ none
    → s.written ≡ s.sent
unfolding Relies
reach-all_sent s n r reach e f =
    let v = Reach-IsValid s reach in
    let c : Calm s.tx s.in_flight = Calm-returned s n r e v.relies in settled_sent s c f v.phase

abbrev pub Returns : List ℕ → Writer → Type 0
Returns bytes w = (n : ℕ) × (r : Option Span) × (w ≡ returned n r) × (n ≤ length bytes)

eq_self : (a : ℕ) → (a == a) ≡ true
eq_self a = ground arith

free_first :
    (bytes : List ℕ) (t : TxBuffer)
    → is_consuming t.pos_0 ≡ false
    → Returns bytes (write_loop 5 bytes (loaded false t.pos_0) t).0
unfolding write_loop write_step compare_exchange pos_of set_pos
free_first bytes t h = elim (Bool-cases (min (t.size - t.pos_0) (length bytes) == 0)) [
  | inl z ↦ rw (h, z) (0, none, refl, omega arith)
  | inr z ↦ elim (Bool-cases (t.pos_1 == 0)) [
    | inl o ↦
        rw (h, z, eq_self t.pos_0, o, eq_self (t.pos_0 + min (t.size - t.pos_0) (length bytes)))
          (_, _, refl, omega arith)
    | inr o ↦ rw (h, z, eq_self t.pos_0, o) (_, _, refl, omega arith)
  ]
]

free_second :
    (bytes : List ℕ) (t : TxBuffer)
    → is_consuming t.pos_1 ≡ false
    → Returns bytes (write_loop 4 bytes (loaded true t.pos_1) t).0
unfolding write_loop write_step compare_exchange pos_of set_pos
free_second bytes t h = elim (Bool-cases (min (t.size - t.pos_1) (length bytes) == 0)) [
  | inl z ↦ rw (h, z) (0, none, refl, omega arith)
  | inr z ↦ elim (Bool-cases (t.pos_0 == 0)) [
    | inl o ↦
        rw (h, z, eq_self t.pos_1, o, eq_self (t.pos_1 + min (t.size - t.pos_1) (length bytes)))
          (_, _, refl, omega arith)
    | inr o ↦ rw (h, z, eq_self t.pos_1, o) (_, _, refl, omega arith)
  ]
]

second_free :
    (s : System)
    → s.tx.size < consuming_flag
    → Phase s.tx s.in_flight s.written s.sent
    → is_consuming s.tx.pos_0 ≡ true
    → is_consuming s.tx.pos_1 ≡ false
unfolding is_consuming pos_of
second_free s b (quiet e p q h) c = absurd (ground arith)
second_free s b (fresh false n e p pos le o h) c = absurd (ground arith)
second_free s b (fresh true n e p pos le o h) c = absurd (ground arith)
second_free s b (busy false n m y e p pos le q ml sd lo en h) c = ground arith
second_free s b (busy true n m y e p pos le q ml sd lo en h) c = absurd (ground arith)

-- In every state that the steps lead to, a call of `write` that runs without interference returns after at most six
-- atomic operations: its search for a side that is not being sent ends. It accepts at most the bytes that it was
-- given.
pub reach-write-Returns :
    (s : System) (bytes : List ℕ) → Reach s → Returns bytes (write bytes s.tx).0
unfolding write write_loop write_step pos_of
reach-write-Returns s bytes reach =
    let v = Reach-IsValid s reach in
    let b : s.tx.size < consuming_flag = v.bound in
    elim (Bool-cases (is_consuming s.tx.pos_0)) [
      | inl c ↦ rw c (free_second bytes s.tx (second_free s b v.phase c))
      | inr c ↦ free_first bytes s.tx c
    ]
