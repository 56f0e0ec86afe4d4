-- ===== src/Wire.antt =====
-- The JSON values that the streams and the exchange deliver, and Python's reading of them: `json.loads`
-- is done, so a frame is a value of Json. A dict has each key once. Case is changed on ASCII letters.
use polymaker.Prelude.{
  not, ◌||◌, ℕ, zero, suc, ◌-◌ as sub_nat, ◌/◌ as div_nat, ◌%◌ as mod_nat, String, Bool, true,
  false, ◌&&◌, Option, none, some, List, [], ◌∷◌, ◌++◌, ◌==◌, leb, ltb, nat_eq, map, if◌then◌else◌,
}
use Prim.Native.Char.{code}
use Prim.Native.String.{◌++◌ as join}
use polymaker.Float.{Float, num, ◌<=◌}

mutual
  pub data Json (F : Type 0) : Type 0 where
    null : Json F
    boolean : Bool → Json F
    number : F → Json F
    text : String → Json F
    array : Elements F → Json F
    object : Fields F → Json F

  pub data Elements (F : Type 0) : Type 0 where
    end : Elements F
    element : Json F → Elements F → Elements F

  pub data Fields (F : Type 0) : Type 0 where
    none_left : Fields F
    field : String → Json F → Fields F → Fields F

-- What Python does with a text or a value that has no simpler description: `float(text)`, with none
-- for a ValueError, `str(value)` for a value that is no text, and `==` of values.
pub record Python (F : Type 0) : Type 0 where
  pub to_float : String → Option F
  pub repr : Json F → String
  pub equal : Json F → Json F → Bool

abbrev codes : String → List ℕ
codes String.[] = []
codes (String.◌∷◌ c s) = code c ∷ codes s

abbrev same_codes : List ℕ → List ℕ → Bool
same_codes [] [] = true
same_codes (x ∷ xs) (y ∷ ys) = nat_eq x y && same_codes xs ys
same_codes _ _ = false

abbrev to_upper : ℕ → ℕ
to_upper c = if leb b'a' c && leb c b'z' then sub_nat c 32 else c

-- `a.upper() == b.upper()`, and `a.lower() == b.lower()`
unfoldable pub same_letters : String → String → Bool
same_letters a b = same_codes (map to_upper (codes a)) (map to_upper (codes b))

abbrev is_space : ℕ → Bool
is_space c = nat_eq c 32 || (leb 9 c && leb c 13)

abbrev drop_spaces : List ℕ → List ℕ
drop_spaces [] = []
drop_spaces (c ∷ cs) = let rest = drop_spaces cs in if is_space c then rest else c ∷ cs

abbrev in_reverse : List ℕ → List ℕ
in_reverse [] = []
in_reverse (c ∷ cs) = in_reverse cs ++ c ∷ []

-- `a.strip().lower() == b`, for a lower-case text b
unfoldable pub trimmed : String → String → Bool
trimmed a b =
    same_codes (map to_upper (in_reverse (drop_spaces (in_reverse (drop_spaces (codes a))))))
      (map to_upper (codes b))

-- A decimal digit, and the decimal text of a number, with fuel for its digits.
abbrev digit : ℕ → String
digit zero = "0"
digit (suc zero) = "1"
digit (suc (suc zero)) = "2"
digit (suc (suc (suc zero))) = "3"
digit (suc (suc (suc (suc zero)))) = "4"
digit (suc (suc (suc (suc (suc zero))))) = "5"
digit (suc (suc (suc (suc (suc (suc zero)))))) = "6"
digit (suc (suc (suc (suc (suc (suc (suc zero))))))) = "7"
digit (suc (suc (suc (suc (suc (suc (suc (suc zero)))))))) = "8"
digit _ = "9"

decimal_within : ℕ → ℕ → String
decimal_within zero n = digit (mod_nat n 10)
decimal_within (suc f) n =
    let high = decimal_within f (div_nat n 10) in
    if ltb n 10 then digit n else join high (digit (mod_nat n 10))

-- `f"{n}"`
unfoldable pub decimal : ℕ → String
unfolding decimal_within
decimal n = decimal_within n n

module _ {F : Type 0} where
  abbrev pub elements : Elements F → List (Json F)
  elements end = []
  elements (element x xs) = x ∷ elements xs

  -- `msg[k]`
  abbrev pub item : String → Fields F → Option (Json F)
  item k none_left = none
  item k (field j v fs) = if j == k then some v else item k fs

  -- `msg.get(k, default)`
  abbrev pub get_default : Json F → String → Fields F → Json F
  get_default d k fs = elim (item k fs) as (λ x. Json F) [ none ↦ d | some v ↦ v ]

  -- `msg.get(k)`
  abbrev pub get : String → Fields F → Json F
  get = get_default null

  abbrev pub keys_of : Fields F → List (Json F)
  keys_of none_left = []
  keys_of (field k v fs) = text k ∷ keys_of fs

  abbrev pub chars_of : String → List (Json F)
  chars_of String.[] = []
  chars_of (String.◌∷◌ c s) = text (String.◌∷◌ c String.[]) ∷ chars_of s

  -- `str(value)`
  abbrev pub str_of : Python F → Json F → String
  str_of py (text s) = s
  str_of py null = "None"
  str_of py (boolean true) = "True"
  str_of py (boolean false) = "False"
  str_of py v = py.repr v

  -- `value == s`, for a text s
  abbrev pub is_text : Json F → String → Bool
  is_text (text t) s = t == s
  is_text _ s = false

module _ {F : Type 0} ⦃fl : Float F⦄ where
  -- `float(value)`, with none for a ValueError or a TypeError.
  abbrev pub float_of : Python F → Json F → Option F
  float_of py (text s) = py.to_float s
  float_of py (number x) = some x
  float_of py (boolean true) = some (num 1)
  float_of py (boolean false) = some (num 0)
  float_of py _ = none

  -- The values of `for x in value`, with none for a TypeError.
  abbrev pub iterated : Json F → Option (List (Json F))
  iterated (text s) = some (chars_of s)
  iterated (array xs) = some (elements xs)
  iterated (object fs) = some (keys_of fs)
  iterated _ = none

  -- The values of `for x in value or []`.
  abbrev pub items_of : Json F → Option (List (Json F))
  items_of null = some []
  items_of (boolean true) = none
  items_of (boolean false) = some []
  items_of (number x) = if (x <= num 0) && (num 0 <= x) then some [] else none
  items_of v = iterated v

  -- `bool(value)`
  abbrev pub truthy : Json F → Bool
  truthy null = false
  truthy (boolean b) = b
  truthy (number x) = not ((x <= num 0) && (num 0 <= x))
  truthy (text s) = not (s == "")
  truthy (array end) = false
  truthy (array _) = true
  truthy (object none_left) = false
  truthy (object _) = true

  -- `_ts`: seconds, from seconds or milliseconds; 0 for what is no number.
  unfoldable pub ts_of : Python F → Fields F → F
  ts_of py msg = elim (float_of py (get "timestamp" msg)) [
    | none ↦ num 0
    | some v ↦ if fl.lt (num 1_000_000_000_000) v then fl.div v (num 1000) else v
  ]
