-- ===== src/Prelude/Tests.antt =====
-- Boolean tests on the native numbers and on texts, and the conditional.
use Prim.Native.Nat.{ℕ, compare, Ordering}
use Prim.Native.String.{String}
use mathlib.Core.Path.{◌≡◌, refl, ap}
use mathlib.Core.Logic.{◌≢◌, ◌⊎◌, inl, inr}
use mathlib.Core.Bool.{Bool, true, false}
use mathlib.Core.Option.{Option, none, some}
use native.Mathlib.Omega.{arith}
use text.Mathlib.Text.{◌==◌ as str_eq}
use text.Mathlib.TextEquality.{eq_iff}

abbrev pub ltb : ℕ → ℕ → Bool
ltb a b = elim (compare a b) [ Ordering.lt ↦ true | _ ↦ false ]

abbrev pub leb : ℕ → ℕ → Bool
leb a b = elim (compare a b) [ Ordering.gt ↦ false | _ ↦ true ]

abbrev pub nat_eq : ℕ → ℕ → Bool
nat_eq a b = elim (compare a b) [ Ordering.eq ↦ true | _ ↦ false ]

infix 1 if◌then◌else◌
abbrev pub if◌then◌else◌ {ℓ} : {A : Type ℓ} → Bool → A → A → A
if true then x else y = x
if false then x else y = y

-- `==` on str: ids, keys and tags are only ever compared.
infix 50 ◌==◌
abbrev pub ◌==◌ : String → String → Bool
a == b = str_eq a b

pub ==→≡ : (a b : String) → (a == b) ≡ true → a ≡ b
==→≡ a b h = (eq_iff a b).0 h

pub ≡→== : (a b : String) → a ≡ b → (a == b) ≡ true
≡→== a b h = (eq_iff a b).1 h

pub ==_refl : (a : String) → (a == a) ≡ true
==_refl a = ≡→== a a refl

pub ≢→== : (a b : String) → a ≢ b → (a == b) ≡ false
≢→== a b h = ground (arith, eq_iff a b)

pub ==_comm : (a b : String) → (a == b) ≡ (b == a)
==_comm a b = ground (arith, eq_iff a b, eq_iff b a)

-- To split on a computed value and keep the equation.
pub Bool-cases : (b : Bool) → (b ≡ true) ⊎ (b ≡ false)
Bool-cases true = inl refl
Bool-cases false = inr refl

pub Option-cases {ℓ} : {A : Type ℓ} (o : Option A) → (o ≡ none) ⊎ ((a : A) × (o ≡ some a))
Option-cases none = inl refl
Option-cases (some a) = inr (a, refl)

abbrev pub is_some {ℓ} : {A : Type ℓ} → Option A → Bool
is_some none = false
is_some (some a) = true

abbrev pub or_else {ℓ} : {A : Type ℓ} → A → Option A → A
or_else d none = d
or_else d (some a) = a

-- A chain of steps that may have no result.
infixl 40 ◌>>=◌
abbrev pub ◌>>=◌ {ℓ κ} : {A : Type ℓ} {B : Type κ} → Option A → (A → Option B) → Option B
none >>= f = none
some a >>= f = f a

-- A chain that has a result has one at each step.
pub bind_some :
    {A B : Type 0} (o : Option A) (f : A → Option B) (b : B)
    → (o >>= f) ≡ some b
    → (a : A) × (o ≡ some a) × (f a ≡ some b)
bind_some none f b h = ground arith
bind_some (some a) f b h = (a, refl, h)

pub some_inj {ℓ} : {A : Type ℓ} (x y : A) → some x ≡ some y → x ≡ y
some_inj x y h = ap (or_else x) h
