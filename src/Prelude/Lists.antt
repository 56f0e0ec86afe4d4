-- ===== src/Prelude/Lists.antt =====
-- Lists measured by native numbers, under the library's names.
use Prim.Native.String.{String}
use Prim.Native.Nat.{ℕ, zero, suc, ◌+◌}
use mathlib.Core.Path.{◌≡◌, refl}
use mathlib.Core.Bool.{true, ◌&&◌, Bool, false, ◌||◌}
use mathlib.Core.List.{List, [], ◌∷◌, ◌++◌}
use native.Mathlib.Omega.{arith}
use polymaker.Prelude.Tests.{==→≡, ==_refl, if◌then◌else◌, ◌==◌, ==_comm}

module _ {ℓ} {A : Type ℓ} where
  abbrev pub length : List A → ℕ
  length [] = 0
  length (x ∷ xs) = suc (length xs)

  pub length-append : (xs ys : List A) → length (xs ++ ys) ≡ length xs + length ys
  length-append [] ys = omega arith
  length-append (x ∷ xs) ys = omega (arith, length-append xs ys)

  -- A comprehension `[x for x in xs if p(x)]`.
  abbrev pub select : (A → Bool) → List A → List A
  select p [] = []
  select p (x ∷ xs) = let rest = select p xs in if p x then x ∷ rest else rest

  abbrev pub take : ℕ → List A → List A
  take zero xs = []
  take (suc n) [] = []
  take (suc n) (x ∷ xs) = x ∷ take n xs

  abbrev pub drop : ℕ → List A → List A
  drop zero xs = xs
  drop (suc n) [] = []
  drop (suc n) (x ∷ xs) = drop n xs

module _ {ℓ κ} {A : Type ℓ} where
  abbrev pub All : (A → Type κ) → List A → Type κ
  All P [] = Unit
  All P (x ∷ xs) = P x × All P xs

  pub All-append : (P : A → Type κ) (xs ys : List A) → All P xs → All P ys → All P (xs ++ ys)
  All-append P [] ys hx hy = hy
  All-append P (x ∷ xs) ys hx hy = (hx.0, All-append P xs ys hx.1 hy)

  pub All-map : (P Q : A → Type κ) (xs : List A) → ((x : A) → P x → Q x) → All P xs → All Q xs
  All-map P Q [] f h = tt
  All-map P Q (x ∷ xs) f h = (f x h.0, All-map P Q xs f h.1)

-- Some element of a list has a property.
pub data Some {A : Type 0} (P : A → Type 0) : List A → Type 0 where
  here : (x : A) (xs : List A) → P x → Some P (x ∷ xs)
  there : (x : A) (xs : List A) → Some P xs → Some P (x ∷ xs)

-- `x in xs`, for texts.
abbrev pub mem : String → List String → Bool
mem x [] = false
mem x (k ∷ ks) = (k == x) || mem x ks

-- No text is listed twice.
abbrev pub Distinct : List String → Type 0
Distinct [] = Unit
Distinct (x ∷ xs) = (mem x xs ≡ false) × Distinct xs

pub Distinct-append :
    (x : String) (xs : List String) → Distinct xs → mem x xs ≡ false → Distinct (xs ++ x ∷ [])
Distinct-append x [] d h = (refl, tt)
Distinct-append x (y ∷ xs) d h =
    (absent xs d.0 (ground (arith, ==_comm x y)), Distinct-append x xs d.1 (ground arith))
  where
    absent : (zs : List String) → mem y zs ≡ false → (x == y) ≡ false → mem y (zs ++ x ∷ []) ≡ false
    absent [] m n = ground arith
    absent (z ∷ zs) m n = ground (arith, absent zs)

pub mem-select :
    (p : String → Bool) (t : String) (ts : List String) → mem t (select p ts) ≡ (p t && mem t ts)
mem-select p t [] = ground arith
mem-select p t (k ∷ ts) = ground (arith, mem-select p t ts, ==→≡ k t)

pub select-Distinct : (p : String → Bool) (ts : List String) → Distinct ts → Distinct (select p ts)
select-Distinct p [] d = tt
select-Distinct p (k ∷ ts) d = ground (arith, mem-select p k ts, select-Distinct p ts d.1)

pub mem-append_left : (x : String) (xs ys : List String) → mem x xs ≡ true → mem x (xs ++ ys) ≡ true
mem-append_left x [] ys h = ground arith
mem-append_left x (k ∷ ks) ys h = ground (arith, mem-append_left x ks ys)

pub mem-append_last : (x : String) (xs : List String) → mem x (xs ++ x ∷ []) ≡ true
mem-append_last x [] = ground (arith, ==_refl x)
mem-append_last x (k ∷ ks) = ground (arith, mem-append_last x ks)
