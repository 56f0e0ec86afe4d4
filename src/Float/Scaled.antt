-- ===== src/Float/Scaled.antt =====
-- A concrete `float`: integers that count units of 10^-9. It shows that the laws of IsFloat can be
-- met, and the tests and examples compute with it.
use polymaker.Prelude.{
  ℕ, zero, suc, ◌+◌, ◌-◌, ◌*◌, ◌/◌, ◌%◌, ◌^◌, ◌≤◌, ◌<◌, ◌≡◌, refl, ◌⊎◌, true, not, arith,
  if◌then◌else◌, ltb, leb, nat_eq,
}
use native.Mathlib.Nat.{mul-le-mul}
use polymaker.Prelude.Int.{
  ℤ, pos, negsuc, pos_part, neg_part, sub_ℕ, ◌+ℤ◌, ◌-ℤ◌, leb_ℤ, +ℤ_parts, -ℤ_parts, int_laws,
}
use polymaker.Float.Order.{Float, IsFloat}

abbrev unit : ℕ
unit = 1_000_000_000

unfoldable pub mul_nano : ℤ → ℤ → ℤ
mul_nano (pos a) (pos b) = pos (a * b / unit)
mul_nano (pos a) (negsuc b) = sub_ℕ 0 (a * (b + 1) / unit)
mul_nano (negsuc a) (pos b) = sub_ℕ 0 ((a + 1) * b / unit)
mul_nano (negsuc a) (negsuc b) = pos ((a + 1) * (b + 1) / unit)

unfoldable pub div_nano : ℤ → ℤ → ℤ
div_nano (pos a) (pos b) = pos (a * unit / b)
div_nano (pos a) (negsuc b) = sub_ℕ 0 (a * unit / (b + 1))
div_nano (negsuc a) (pos b) = sub_ℕ 0 ((a + 1) * unit / b)
div_nano (negsuc a) (negsuc b) = pos ((a + 1) * unit / (b + 1))

floor_nano : ℤ → ℤ
floor_nano (pos n) = pos (n / unit * unit)
floor_nano (negsuc n) = sub_ℕ 0 ((n + unit) / unit * unit)

ceil_nano : ℤ → ℤ
ceil_nano (pos n) = pos ((n + unit - 1) / unit * unit)
ceil_nano (negsuc n) = sub_ℕ 0 ((n + 1) / unit * unit)

-- Half to even, as `round` does.
nearest : ℕ → ℕ → ℕ
nearest n g =
    let up = n / g + 1 in
    let down = n / g in
    if ltb (2 * (n % g)) g
    then down
    else if ltb g (2 * (n % g))
    then up
    else if nat_eq (down % 2) 0
    then down
    else up

round_nano : ℤ → ℕ → ℤ
unfolding nearest
round_nano a d =
    let g = 10 ^ (9 - d) in sub_ℕ (nearest (pos_part a) g * g) (nearest (neg_part a) g * g)

isqrt : ℕ → ℕ → ℕ
isqrt zero n = 0
isqrt (suc f) n = let r = 2 * isqrt f (n / 4) in if leb ((r + 1) * (r + 1)) n then r + 1 else r

sqrt_nano : ℤ → ℤ
unfolding isqrt
sqrt_nano a = pos (isqrt 64 (pos_part a * unit))

-- Exact at whole numbers, and linear between them.
half_pow_nano : ℤ → ℤ
half_pow_nano (pos n) = pos ((unit - n % unit / 2) / 2 ^ (n / unit))
half_pow_nano (negsuc n) = pos (2 ^ ((n + 1) / unit) * (unit + (n + 1) % unit))

instance unfoldable pub nano : Float ℤ
unfolding mul_nano div_nano floor_nano ceil_nano round_nano sqrt_nano half_pow_nano ◌+ℤ◌ ◌-ℤ◌
nano = record {
  lit = λ n d. pos (n * unit / 10 ^ d);
  add = ◌+ℤ◌;
  sub = ◌-ℤ◌;
  mul = mul_nano;
  div = div_nano;
  neg = λ a. pos 0 -ℤ a;
  le = leb_ℤ;
  lt = λ a b. not (leb_ℤ b a);
  floor = floor_nano;
  ceil = ceil_nano;
  round_to = round_nano;
  sqrt = sqrt_nano;
  half_pow = half_pow_nano;
}

div-le-div : (a b c : ℕ) → a ≤ b → a / c ≤ b / c
div-le-div a b c h = grind arith

mul_le : (x y z w : ℕ) → x ≤ y → z ≤ w → x * z ≤ y * w
mul_le x y z w h k = mul-le-mul h k

nano_mul_mono :
    (x y z w : ℤ)
    → leb_ℤ (pos 0) x ≡ true
    → leb_ℤ (pos 0) z ≡ true
    → leb_ℤ x y ≡ true
    → leb_ℤ z w ≡ true
    → leb_ℤ (mul_nano x z) (mul_nano y w) ≡ true
unfolding mul_nano
nano_mul_mono (pos x) (pos y) (pos z) (pos w) hx hz h k =
    ground (arith, mul_le x y z w, div-le-div (x * z) (y * w) unit)
nano_mul_mono (pos x) (negsuc y) z w hx hz h k = ground arith
nano_mul_mono (negsuc x) y z w hx hz h k = ground arith
nano_mul_mono (pos x) (pos y) (negsuc z) w hx hz h k = ground arith
nano_mul_mono (pos x) (pos y) (pos z) (negsuc w) hx hz h k = ground arith

nano_div_mono :
    (x y z : ℤ)
    → not (leb_ℤ z (pos 0)) ≡ true
    → leb_ℤ x y ≡ true
    → leb_ℤ (div_nano x z) (div_nano y z) ≡ true
unfolding div_nano
nano_div_mono x y (negsuc z) hz h = ground arith
nano_div_mono (pos x) (pos y) (pos z) hz h = ground (arith, div-le-div (x * unit) (y * unit) z)
nano_div_mono (pos x) (negsuc y) (pos z) hz h = ground arith
nano_div_mono (negsuc x) (pos y) (pos z) hz h = ground arith
nano_div_mono (negsuc x) (negsuc y) (pos z) hz h =
    ground (arith, div-le-div ((y + 1) * unit) ((x + 1) * unit) z)

leb_ℤ_refl : (x : ℤ) → leb_ℤ x x ≡ true
leb_ℤ_refl x = ground arith

leb_ℤ_trans : (x y z : ℤ) → leb_ℤ x y ≡ true → leb_ℤ y z ≡ true → leb_ℤ x z ≡ true
leb_ℤ_trans x y z h k = ground arith

leb_ℤ_antisym : (x y : ℤ) → leb_ℤ x y ≡ true → leb_ℤ y x ≡ true → x ≡ y
leb_ℤ_antisym x y h k = ground arith

leb_ℤ_total : (x y : ℤ) → (leb_ℤ x y ≡ true) ⊎ (leb_ℤ y x ≡ true)
leb_ℤ_total x y = ground arith

nano_add_mono : (x y z w : ℤ) → leb_ℤ x y ≡ true → leb_ℤ z w ≡ true → leb_ℤ (x +ℤ z) (y +ℤ w) ≡ true
nano_add_mono x y z w h k = ground (arith, +ℤ_parts x z, +ℤ_parts y w)

nano_sub_mono : (x y z w : ℤ) → leb_ℤ x y ≡ true → leb_ℤ w z ≡ true → leb_ℤ (x -ℤ z) (y -ℤ w) ≡ true
nano_sub_mono x y z w h k = ground (arith, -ℤ_parts x z, -ℤ_parts y w)

nano_add_zero : (x : ℤ) → x +ℤ pos 0 ≡ x
nano_add_zero x = omega int_laws

nano_zero_add : (x : ℤ) → pos 0 +ℤ x ≡ x
nano_zero_add x = omega int_laws

nano_sub_zero : (x : ℤ) → x -ℤ pos 0 ≡ x
nano_sub_zero x = omega int_laws

nano_sub_self : (x : ℤ) → x -ℤ x ≡ pos 0
nano_sub_self x = omega int_laws

nano_mul_zero : (x : ℤ) → mul_nano x (pos 0) ≡ pos 0
unfolding mul_nano
nano_mul_zero (pos x) = ground arith
nano_mul_zero (negsuc x) = ground arith

nano_zero_mul : (x : ℤ) → mul_nano (pos 0) x ≡ pos 0
unfolding mul_nano
nano_zero_mul (pos x) = ground arith
nano_zero_mul (negsuc x) = ground arith

nano_mul_one : (x : ℤ) → mul_nano x (pos unit) ≡ x
unfolding mul_nano
nano_mul_one (pos x) = ground arith
nano_mul_one (negsuc x) = ground arith

mul-div_cancel : (a b : ℕ) → 0 < b → b * a / b ≡ a
mul-div_cancel a b h = grind arith

nano_div_self : (x : ℤ) → not (leb_ℤ x (pos 0)) ≡ true → div_nano x x ≡ pos unit
unfolding div_nano
nano_div_self (pos x) h = ground (arith, mul-div_cancel unit x)
nano_div_self (negsuc x) h = ground arith

nano_zero_div : (x : ℤ) → not (leb_ℤ x (pos 0)) ≡ true → div_nano (pos 0) x ≡ pos 0
unfolding div_nano
nano_zero_div (pos x) h = ground arith
nano_zero_div (negsuc x) h = ground arith

nano_neg_mono : (x y : ℤ) → leb_ℤ x y ≡ true → leb_ℤ (pos 0 -ℤ y) (pos 0 -ℤ x) ≡ true
nano_neg_mono x y h = nano_sub_mono (pos 0) (pos 0) y x refl h

div-le_self : (a b : ℕ) → a / b ≤ a
div-le_self a b = grind arith

half_pow_nano_nonneg : (x : ℤ) → leb_ℤ (pos 0) (half_pow_nano x) ≡ true
unfolding half_pow_nano
half_pow_nano_nonneg (pos x) = ground arith
half_pow_nano_nonneg (negsuc x) = ground arith

half_pow_nano-le-one : (x : ℤ) → leb_ℤ (pos 0) x ≡ true → leb_ℤ (half_pow_nano x) (pos unit) ≡ true
unfolding half_pow_nano
half_pow_nano-le-one (pos x) h = ground (arith, div-le_self (unit - x % unit / 2) (2 ^ (x / unit)))
half_pow_nano-le-one (negsuc x) h = ground arith

sqrt_nano_nonneg : (x : ℤ) → leb_ℤ (pos 0) (sqrt_nano x) ≡ true
unfolding sqrt_nano
sqrt_nano_nonneg x = ground arith

floor_below : (n : ℕ) → n / unit * unit ≤ n
floor_below n = omega arith

ceil_above : (n : ℕ) → n + 1 ≤ (n + unit) / unit * unit
ceil_above n = omega arith

floor_nano_le : (x : ℤ) → leb_ℤ (floor_nano x) x ≡ true
unfolding floor_nano
floor_nano_le (pos n) = ground (arith, floor_below n)
floor_nano_le (negsuc n) = ground (arith, ceil_above n)

floor_nano_mono : (x y : ℤ) → leb_ℤ x y ≡ true → leb_ℤ (floor_nano x) (floor_nano y) ≡ true
unfolding floor_nano
floor_nano_mono (pos n) (pos k) h = ground (arith, div-le-div n k unit)
floor_nano_mono (pos n) (negsuc k) h = ground arith
floor_nano_mono (negsuc n) (pos k) h = ground arith
floor_nano_mono (negsuc n) (negsuc k) h = ground (arith, div-le-div (k + unit) (n + unit) unit)

pub nano-IsFloat : IsFloat nano
unfolding nano
nano-IsFloat = record {
  le_refl = leb_ℤ_refl;
  le_trans = leb_ℤ_trans;
  le_antisym = leb_ℤ_antisym;
  le_total = leb_ℤ_total;
  lt-not-le = λ x y. refl;
  zero_lt_one = refl;
  lit_nonneg = λ n d. ground arith;
  sub_self = nano_sub_self;
  add_mono = nano_add_mono;
  add_zero = nano_add_zero;
  zero_add = nano_zero_add;
  sub_mono = nano_sub_mono;
  sub_zero = nano_sub_zero;
  mul_mono = nano_mul_mono;
  mul_zero = nano_mul_zero;
  zero_mul = nano_zero_mul;
  mul_one = nano_mul_one;
  div_mono = nano_div_mono;
  div_self = nano_div_self;
  zero_div = nano_zero_div;
  neg_mono = nano_neg_mono;
  half_pow_nonneg = half_pow_nano_nonneg;
  half_pow-le-one = half_pow_nano-le-one;
  sqrt_nonneg = sqrt_nano_nonneg;
  neg_zero = nano_sub_self (pos 0);
  floor_le = floor_nano_le;
  floor_mono = floor_nano_mono;
  floor_zero = refl;
}
