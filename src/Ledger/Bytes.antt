-- ===== src/Ledger/Bytes.antt =====
-- execution/ledger.py: the byte form of a condition id loses nothing.
use polymaker.Prelude.{
  ℕ, zero, suc, ◌+◌, ◌*◌, ◌/◌, ◌%◌, ◌^◌, ◌<◌, ◌≡◌, refl, ◌∙◌, some, List, [], ◌∷◌, ◌++◌, length,
  length-append, arith,
}
use native.Mathlib.Nat.{pow-suc}
use polymaker.Ledger.{to_bytes, bytes31, v2_condition_id_bytes31, outcome_index_of}

-- The number that bytes stand for, the most significant byte first, after the ones read so far.
abbrev pub from_bytes : ℕ → List ℕ → ℕ
from_bytes acc [] = acc
from_bytes acc (b ∷ bs) = from_bytes (acc * 256 + b) bs

from_bytes-snoc :
    (acc : ℕ) (bs : List ℕ) (b : ℕ) → from_bytes acc (bs ++ b ∷ []) ≡ from_bytes acc bs * 256 + b
from_bytes-snoc acc [] b = refl
from_bytes-snoc acc (x ∷ bs) b = from_bytes-snoc (acc * 256 + x) bs b

small : (n value : ℕ) → value < 256 ^ suc n → value / 256 < 256 ^ n
small n value h = omega (arith, h, pow-suc 256 n)

from_bytes-to_bytes : (n value : ℕ) → value < 256 ^ n → from_bytes 0 (to_bytes n value) ≡ value
unfolding to_bytes
from_bytes-to_bytes zero value h = omega arith
from_bytes-to_bytes (suc n) value h =
    let ih = from_bytes-to_bytes n (value / 256) (small n value h) in
    let last = from_bytes-snoc 0 (to_bytes n (value / 256)) (value % 256) in
    last ∙ omega (arith, ih)

length-to_bytes : (n value : ℕ) → length (to_bytes n value) ≡ n
unfolding to_bytes
length-to_bytes zero value = refl
length-to_bytes (suc n) value = omega (
  arith,
  length-append (to_bytes n (value / 256)) (value % 256 ∷ []),
  length-to_bytes n (value / 256),
)

-- Every uint256 position id has a condition id of 31 bytes, which with the outcome byte gives the
-- position id back.
pub v2_condition_id_bytes31_exact :
    (position_id : ℕ)
    → position_id < 256 ^ 32
    → (bs : List ℕ) × (v2_condition_id_bytes31 position_id ≡ some bs)
      × (length bs ≡ 31)
      × (from_bytes 0 bs * 256 + outcome_index_of position_id ≡ position_id)
unfolding v2_condition_id_bytes31 bytes31
v2_condition_id_bytes31_exact p h =
    let v = p / 256 in
    let fits = small 31 p h in
    let back = from_bytes-to_bytes 31 v fits in
    (to_bytes 31 v, ground arith, length-to_bytes 31 v, omega (arith, back))
