-- ===== src/Float/Order.antt =====
-- The operations of `float`, the laws that the proofs use, and first consequences.
use polymaker.Prelude.{ℕ, ◌≡◌, refl, ◌⊎◌, Bool, true, false, not, arith, if◌then◌else◌}

pub record Float (F : Type 0) : Type 0 where
  -- lit n d is the decimal literal n / 10 ^ d
  pub lit : ℕ → ℕ → F
  pub add : F → F → F
  pub sub : F → F → F
  pub mul : F → F → F
  pub div : F → F → F
  pub neg : F → F
  pub le : F → F → Bool
  pub lt : F → F → Bool
  pub floor : F → F
  pub ceil : F → F
  pub round_to : F → ℕ → F
  pub sqrt : F → F
  pub half_pow : F → F

module _ {F : Type 0} ⦃fl : Float F⦄ where
  infixl 65 ◌+◌ ◌-◌
  infixl 70 ◌*◌ ◌/◌
  infix 50 ◌<=◌ ◌<◌ ◌≼◌
  abbrev pub ◌+◌ : F → F → F
  x + y = fl.add x y

  abbrev pub ◌-◌ : F → F → F
  x - y = fl.sub x y

  abbrev pub ◌*◌ : F → F → F
  x * y = fl.mul x y

  abbrev pub ◌/◌ : F → F → F
  x / y = fl.div x y

  abbrev pub ◌<=◌ : F → F → Bool
  x <= y = fl.le x y

  abbrev pub ◌<◌ : F → F → Bool
  x < y = fl.lt x y

  -- `float(n)` and the literals 0.0 and 1.0.
  abbrev pub num : ℕ → F
  num n = fl.lit n 0

  -- The order as a statement.
  abbrev pub ◌≼◌ : F → F → Type 0
  x ≼ y = fl.le x y ≡ true

  -- `min(a, b)` and `max(a, b)`: the first argument wins ties.
  abbrev pub min : F → F → F
  min a b = if fl.lt b a then b else a

  abbrev pub max : F → F → F
  max a b = if fl.lt a b then b else a

  -- `abs(x)`
  abbrev pub abs : F → F
  abs x = if fl.lt x (fl.lit 0 0) then fl.neg x else x

pub record IsFloat {F : Type 0} (fl : Float F) : Type 0 where
  pub le_refl : (x : F) → fl.le x x ≡ true
  pub le_trans : (x y z : F) → fl.le x y ≡ true → fl.le y z ≡ true → fl.le x z ≡ true
  pub le_antisym : (x y : F) → fl.le x y ≡ true → fl.le y x ≡ true → x ≡ y
  pub le_total : (x y : F) → (fl.le x y ≡ true) ⊎ (fl.le y x ≡ true)
  pub lt-not-le : (x y : F) → fl.lt x y ≡ not (fl.le y x)
  pub zero_lt_one : fl.lt (fl.lit 0 0) (fl.lit 1 0) ≡ true
  pub lit_nonneg : (n d : ℕ) → fl.le (fl.lit 0 0) (fl.lit n d) ≡ true
  pub sub_self : (x : F) → fl.sub x x ≡ fl.lit 0 0
  pub add_mono :
      (x y z w : F) → fl.le x y ≡ true → fl.le z w ≡ true → fl.le (fl.add x z) (fl.add y w) ≡ true
  pub add_zero : (x : F) → fl.add x (fl.lit 0 0) ≡ x
  pub zero_add : (x : F) → fl.add (fl.lit 0 0) x ≡ x
  pub sub_mono :
      (x y z w : F) → fl.le x y ≡ true → fl.le w z ≡ true → fl.le (fl.sub x z) (fl.sub y w) ≡ true
  pub sub_zero : (x : F) → fl.sub x (fl.lit 0 0) ≡ x
  pub mul_mono :
      (x y z w : F)
      → fl.le (fl.lit 0 0) x ≡ true
      → fl.le (fl.lit 0 0) z ≡ true
      → fl.le x y ≡ true
      → fl.le z w ≡ true
      → fl.le (fl.mul x z) (fl.mul y w) ≡ true
  pub mul_zero : (x : F) → fl.mul x (fl.lit 0 0) ≡ fl.lit 0 0
  pub zero_mul : (x : F) → fl.mul (fl.lit 0 0) x ≡ fl.lit 0 0
  pub mul_one : (x : F) → fl.mul x (fl.lit 1 0) ≡ x
  pub div_mono :
      (x y z : F)
      → fl.lt (fl.lit 0 0) z ≡ true
      → fl.le x y ≡ true
      → fl.le (fl.div x z) (fl.div y z) ≡ true
  pub div_self : (x : F) → fl.lt (fl.lit 0 0) x ≡ true → fl.div x x ≡ fl.lit 1 0
  pub zero_div : (x : F) → fl.lt (fl.lit 0 0) x ≡ true → fl.div (fl.lit 0 0) x ≡ fl.lit 0 0
  pub neg_mono : (x y : F) → fl.le x y ≡ true → fl.le (fl.neg y) (fl.neg x) ≡ true
  pub half_pow_nonneg : (x : F) → fl.le (fl.lit 0 0) (fl.half_pow x) ≡ true
  pub half_pow-le-one :
      (x : F) → fl.le (fl.lit 0 0) x ≡ true → fl.le (fl.half_pow x) (fl.lit 1 0) ≡ true
  pub sqrt_nonneg : (x : F) → fl.le (fl.lit 0 0) (fl.sqrt x) ≡ true
  pub neg_zero : fl.neg (fl.lit 0 0) ≡ fl.lit 0 0
  pub floor_le : (x : F) → fl.le (fl.floor x) x ≡ true
  pub floor_mono : (x y : F) → fl.le x y ≡ true → fl.le (fl.floor x) (fl.floor y) ≡ true
  pub floor_zero : fl.floor (fl.lit 0 0) ≡ fl.lit 0 0

module _ {F : Type 0} ⦃fl : Float F⦄ (ok : IsFloat fl) where
  pub lt→not_le : (x y : F) → fl.lt x y ≡ true → fl.le y x ≡ false
  lt→not_le x y h = ground (arith, ok.lt-not-le x y)

  pub not_le→lt : (x y : F) → fl.le y x ≡ false → fl.lt x y ≡ true
  not_le→lt x y h = ground (arith, ok.lt-not-le x y)

  pub not_lt→le : (x y : F) → fl.lt x y ≡ false → y ≼ x
  not_lt→le x y h = ground (arith, ok.lt-not-le x y)

  pub lt→le : (x y : F) → fl.lt x y ≡ true → x ≼ y
  lt→le x y h = ground (arith, ok.lt-not-le x y, ok.le_total x y)

  pub le→not_lt : (x y : F) → x ≼ y → fl.lt y x ≡ false
  le→not_lt x y h = ground (arith, ok.lt-not-le y x)

  pub lt_irrefl : (x : F) → fl.lt x x ≡ false
  lt_irrefl x = le→not_lt x x (ok.le_refl x)

  pub lt-lt_of_le : (x y z : F) → fl.lt x y ≡ true → y ≼ z → fl.lt x z ≡ true
  lt-lt_of_le x y z h k = ground (arith, ok.lt-not-le x y, ok.lt-not-le x z, ok.le_trans y z x)

  pub le-lt_of_lt : (x y z : F) → x ≼ y → fl.lt y z ≡ true → fl.lt x z ≡ true
  le-lt_of_lt x y z h k = ground (arith, ok.lt-not-le y z, ok.lt-not-le x z, ok.le_trans z x y)

  pub max_left : (x y : F) → x ≼ max x y
  max_left x y = ground (arith, lt→le x y, ok.le_refl x)

  pub max_right : (x y : F) → y ≼ max x y
  max_right x y = ground (arith, not_lt→le x y, ok.le_refl y)

  pub max_least : (x y z : F) → x ≼ z → y ≼ z → max x y ≼ z
  max_least x y z h k = ground arith

  pub min_left : (x y : F) → min x y ≼ x
  min_left x y = ground (arith, lt→le y x, ok.le_refl x)

  pub min_right : (x y : F) → min x y ≼ y
  min_right x y = ground (arith, not_lt→le y x, ok.le_refl y)

  pub min_greatest : (x y z : F) → z ≼ x → z ≼ y → z ≼ min x y
  min_greatest x y z h k = ground arith

  pub abs_sub_self : (x : F) → abs (x - x) ≡ num 0
  abs_sub_self x = rw (ok.sub_self x, lt_irrefl (num 0)) refl

  pub add_nonneg : (x y : F) → num 0 ≼ x → num 0 ≼ y → num 0 ≼ x + y
  add_nonneg x y h k =
      ok.le_trans _ _ _ (rw (ok.add_zero (num 0)) (ok.le_refl _))
        (ok.add_mono (num 0) x (num 0) y h k)

  pub mul_nonneg : (x y : F) → num 0 ≼ x → num 0 ≼ y → num 0 ≼ x * y
  mul_nonneg x y h k =
      ok.le_trans _ _ _ (rw (ok.mul_zero (num 0)) (ok.le_refl _))
        (ok.mul_mono (num 0) x (num 0) y (ok.le_refl _) (ok.le_refl _) h k)

  pub div_nonneg : (x y : F) → num 0 ≼ x → fl.lt (num 0) y ≡ true → num 0 ≼ x / y
  div_nonneg x y h k =
      ok.le_trans _ _ _ (rw (ok.zero_div y k) (ok.le_refl _)) (ok.div_mono (num 0) x y k h)
