-- ===== src/Ntb/Valid.antt =====
-- `is_valid_ntb` answers on every input, and reads nothing outside of it.
use c2usb.Base.{ℕ, zero, suc, ◌+◌, ◌*◌, ◌≤◌, ◌<◌, ◌≡◌, refl, ap}
use c2usb.Base.{Bool, true, false, ◌||◌, ltb, if◌then◌else◌}
use c2usb.Base.{List, [], ◌∷◌, length, Option, some, arith}
use c2usb.Ntb.{Bytes, le_uint16, le_uint32, Check, fault, refuse, pass, ◌>>>◌, field}
use c2usb.Ntb.{datagram_index, datagram_length}
use c2usb.Ntb.{check_datagrams}
use c2usb.Ntb.{header_size}
use c2usb.Ntb.{datagram_min_length}
use c2usb.Ntb.Layout.{Within, Pointers, no_more, pointer}

-- No fault, and the post-condition of what is passed.
abbrev pub Passes : {A : Type 0} → (A → Type 0) → Check A → Type 0
Passes P fault = ⊥
Passes P refuse = Unit
Passes P (pass a) = P a

pub Passes-bind :
    {A B : Type 0} (P : A → Type 0) (Q : B → Type 0) (m : Check A) (f : A → Check B)
    → Passes P m
    → ((a : A) → P a → Passes Q (f a))
    → Passes Q (m >>> f)
unfolding ◌>>>◌
Passes-bind P Q fault f h k = h
Passes-bind P Q refuse f h k = h
Passes-bind P Q (pass a) f h k = k a h

pub Passes-if :
    {A : Type 0} (P : A → Type 0) (c : Bool) (x y : Check A)
    → (c ≡ true → Passes P x)
    → (c ≡ false → Passes P y)
    → Passes P (if c then x else y)
Passes-if P true x y hx hy = hx refl
Passes-if P false x y hx hy = hy refl

-- A field within the bytes is read.
unfoldable pub IsRead : Option ℕ → Type 0
IsRead o = (v : ℕ) × (o ≡ some v)

pub le_uint16-IsRead : (b : Bytes) (off : ℕ) → off + 2 ≤ b.size → IsRead (le_uint16 b off)
unfolding le_uint16 IsRead
le_uint16-IsRead b off h =
    (b.memory (b.start + off) + 256 * b.memory (b.start + off + 1), ground arith)

pub le_uint32-IsRead : (b : Bytes) (off : ℕ) → off + 4 ≤ b.size → IsRead (le_uint32 b off)
unfolding le_uint32 IsRead
le_uint32-IsRead b off h =
    let (low, e) = le_uint16-IsRead b off (omega arith) in
    let (high, e') = le_uint16-IsRead b (off + 2) (omega arith) in
    (low + 65536 * high, rw (e, e') refl)

-- A field that is within the bytes, and what follows it.
pub Passes-field :
    {B : Type 0} (Q : B → Type 0) (o : Option ℕ) (f : ℕ → Check B)
    → IsRead o
    → ((v : ℕ) → o ≡ some v → Passes Q (f v))
    → Passes Q (field o >>> f)
unfolding field ◌>>>◌ IsRead
Passes-field Q o f (v, e) k = rw e (k v e)

pub Passes-read : (o : Option ℕ) → IsRead o → Passes (λ v. o ≡ some v) (field o)
unfolding field IsRead
Passes-read o (v, e) = rw e refl

-- What the loop over a table's datagrams passes.
pub record Checked (b : Bytes) (ndp max_dg_count left dg_idx dg_count dg_count' : ℕ) : Type 0 where
  pub found : (ds : List (ℕ × ℕ)) × Pointers b ndp dg_idx ds × (length ds ≡ left)
  pub new_count : dg_count' ≡ dg_count + left
  pub bounded : 0 < left → dg_count' ≤ max_dg_count

pub index-IsRead :
    (b : Bytes) (ndp i : ℕ) → ndp + 8 + 4 * i + 4 ≤ b.size → IsRead (datagram_index b ndp i)
unfolding datagram_index
index-IsRead b ndp i h = le_uint16-IsRead b (ndp + 8 + 4 * i) (omega arith)

pub length-IsRead :
    (b : Bytes) (ndp i : ℕ) → ndp + 8 + 4 * i + 4 ≤ b.size → IsRead (datagram_length b ndp i)
unfolding datagram_length
length-IsRead b ndp i h = le_uint16-IsRead b (ndp + 8 + 4 * i + 2) (omega arith)

Checked-more :
    (b : Bytes) (ndp m left i c index len : ℕ)
    → datagram_index b ndp i ≡ some index
    → datagram_length b ndp i ≡ some len
    → (ltb index header_size || (ltb b.size (index + len) || ltb len datagram_min_length)) ≡ false
    → ltb m (suc c) ≡ false
    → (c' : ℕ) → Checked b ndp m left (suc i) (suc c) c'
    → Checked b ndp m (suc left) i c c'
Checked-more b ndp m left i c index len ei el near few c' k =
    let (ds, ps, e) = k.found in
    let within : Within b (index, len) = record {
      after_header = ground arith;
      in_block = ground arith;
      long_enough = ground arith;
    } in
    let eq : c' ≡ suc c + left = k.new_count in
    let bd : 0 < left → c' ≤ m = k.bounded in
    record {
      found = ((index, len) ∷ ds, pointer ei el within ps, ap suc e);
      new_count = omega arith;
      bounded = λ z. bound left m c c' eq bd few;
    }
  where
    bound :
        (left m c c' : ℕ) → c' ≡ suc c + left → (0 < left → c' ≤ m) → ltb m (suc c) ≡ false → c' ≤ m
    bound zero m c c' e h few = ground arith
    bound (suc n) m c c' e h few = h (omega arith)

pub Passes-map :
    {A : Type 0} (P Q : A → Type 0) (m : Check A) → ((a : A) → P a → Q a) → Passes P m → Passes Q m
Passes-map P Q fault k h = h
Passes-map P Q refuse k h = h
Passes-map P Q (pass a) k h = k a h

pub check_datagrams_lem :
    (b : Bytes) (ndp max_dg_count left dg_idx dg_count : ℕ)
    → ndp + 8 + 4 * (dg_idx + left) ≤ b.size
    → Passes
        (Checked b ndp max_dg_count left dg_idx dg_count)
        (check_datagrams b ndp max_dg_count left dg_idx dg_count)
unfolding check_datagrams
check_datagrams_lem b ndp m zero i c h = record {
  found = ([], no_more, refl);
  new_count = omega arith;
  bounded = λ z. absurd (omega arith);
}
check_datagrams_lem b ndp m (suc left) i c h =
    Passes-field _ _ _ (index-IsRead b ndp i (omega arith)) (λ index ei.
      Passes-field _ _ _ (length-IsRead b ndp i (omega arith)) (λ len el.
        Passes-if _ _ _ _ (λ _. tt)
          (λ near.
            Passes-if _ _ _ _ (λ _. tt)
              (λ few.
                Passes-map _ _ (check_datagrams b ndp m left (suc i) (suc c))
                  (Checked-more b ndp m left i c index len ei el near few)
                  (check_datagrams_lem b ndp m left (suc i) (suc c) (omega arith))))))
