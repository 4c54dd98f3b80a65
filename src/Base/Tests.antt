-- ===== src/Base/Tests.antt =====
-- Boolean tests on numbers, the conditional, and the chaining of steps that may fault.
use Prim.Native.Nat.{ℕ, compare, Ordering}
use mathlib.Core.Path.{◌≡◌, refl, ap, subst}
use mathlib.Core.Logic.{◌↔◌, ◌⊎◌, inl, inr}
use mathlib.Core.Bool.{Bool, true, false}
use mathlib.Core.Option.{Option, none, some}
use native.Mathlib.Omega.{arith}

abbrev pub ltb : ℕ → ℕ → Bool
ltb a b = elim (compare a b) [ Ordering.lt ↦ true | _ ↦ false ]

abbrev pub leb : ℕ → ℕ → Bool
leb a b = elim (compare a b) [ Ordering.gt ↦ false | _ ↦ true ]

infix 50 ◌==◌
abbrev pub ◌==◌ : ℕ → ℕ → Bool
a == b = elim (compare a b) [ Ordering.eq ↦ true | _ ↦ false ]

infix 1 if◌then◌else◌
abbrev pub if◌then◌else◌ {ℓ} : {A : Type ℓ} → Bool → A → A → A
if true then x else y = x
if false then x else y = y

pub ==_iff : (a b : ℕ) → ((a == b) ≡ true) ↔ (a ≡ b)
==_iff a b = ground arith

pub Bool-cases : (b : Bool) → (b ≡ true) ⊎ (b ≡ false)
Bool-cases true = inl refl
Bool-cases false = inr refl

pub Option-cases {ℓ} : {A : Type ℓ} (o : Option A) → (o ≡ none) ⊎ ((a : A) × (o ≡ some a))
Option-cases none = inl refl
Option-cases (some a) = inr (a, refl)

-- The cases of an optional value.
unfoldable pub option_case {ℓ κ} : {A : Type ℓ} {B : Type κ} → Option A → B → (A → B) → B
option_case none n f = n
option_case (some a) n f = f a

pub case_none {ℓ κ} :
    {A : Type ℓ} {B : Type κ} (n : B) (f : A → B) (o : Option A) → o ≡ none → option_case o n f ≡ n
unfolding option_case
case_none n f none e = refl
case_none n f (some a) e = absurd (cc)

pub case_some {ℓ κ} :
    {A : Type ℓ} {B : Type κ} (n : B) (f : A → B) (o : Option A) (a : A)
    → o ≡ some a
    → option_case o n f ≡ f a
unfolding option_case
case_some n f o a e = rw e refl

-- A property of both cases.
pub case-Holds {ℓ κ μ} :
    {A : Type ℓ} {B : Type κ} (P : B → Type μ) (n : B) (f : A → B) (o : Option A)
    → P n
    → ((a : A) → P (f a))
    → P (option_case o n f)
unfolding option_case
case-Holds P n f none hn hf = hn
case-Holds P n f (some a) hn hf = hf a

-- The same, with the value known.
pub case-Given {ℓ κ μ} :
    {A : Type ℓ} {B : Type κ} (P : B → Type μ) (n : B) (f : A → B) (o : Option A)
    → P n
    → ((a : A) → o ≡ some a → P (f a))
    → P (option_case o n f)
unfolding option_case
case-Given P n f none hn hf = hn
case-Given P n f (some a) hn hf = hf a refl

pub if-Holds {ℓ κ} :
    {A : Type ℓ} (P : A → Type κ) (b : Bool) (x y : A) → P x → P y → P (if b then x else y)
if-Holds P true x y hx hy = hx
if-Holds P false x y hx hy = hy

pub some-injective {ℓ} : {A : Type ℓ} {a b : A} → some a ≡ some b → a ≡ b
some-injective {A = A} {a = a} e = ap (value_or a) e
  where
    value_or : A → Option A → A
    value_or d none = d
    value_or d (some x) = x

-- A step that may fault, and then the rest.
infixl 5 ◌>>=◌
abbrev pub ◌>>=◌ {ℓ κ} : {A : Type ℓ} {B : Type κ} → Option A → (A → Option B) → Option B
none >>= f = none
some a >>= f = f a

-- `none` is a fault, and a post-condition of a step that must not fault.
abbrev pub Ensures {ℓ κ} : {A : Type ℓ} → (A → Type κ) → Option A → Type (ℓ ⊔ κ)
Ensures {A} P o = (a : A) × (o ≡ some a) × P a

-- What holds of the value, where there is one.
abbrev pub When {ℓ κ} : {A : Type ℓ} → (A → Type κ) → Option A → Type (ℓ ⊔ κ)
When {A = A} P o = (a : A) → o ≡ some a → P a

pub When-none {ℓ κ} : {A : Type ℓ} (P : A → Type κ) → When P none
When-none P a e = absurd (cc)

pub When-some {ℓ κ} : {A : Type ℓ} (P : A → Type κ) (a : A) → P a → When P (some a)
When-some P a h b e = subst P (some-injective e) h

pub When-bind {ℓ κ} :
    {A B : Type ℓ} (P : B → Type κ) (o : Option A) (f : A → Option B)
    → ((a : A) → o ≡ some a → When P (f a))
    → When P (o >>= f)
When-bind P none f h b e = absurd (cc)
When-bind P (some a) f h b e = h a refl b e
