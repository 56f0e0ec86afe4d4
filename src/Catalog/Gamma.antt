-- ===== src/Catalog/Gamma.antt =====
-- src/polymaker/catalog/gamma.py: a listed market as MarketMeta. `json.loads` of a text, the number of
-- decimals of a tick and `int(round(x))` are parameters. Values of the fields that the record declares
-- as texts (conditionId, question, slug, endDate) are read by `str`.
use polymaker.Prelude.{
  ℕ, zero, String, Bool, true, false, ◌&&◌, not, Option, none, some, List, [], ◌∷◌, Dict, get_or,
  leb, ◌==◌, if◌then◌else◌,
}
use Prim.Native.Char.{code}
use polymaker.Float.{Float, num, ◌*◌}
use polymaker.Domain.{ProtocolVersion, v1, v2, TokenMeta, MarketMeta}
use polymaker.Domain.Names.{parse_version}
use polymaker.Wire.{
  Json, Fields, Python, null, number, text, array, object, element, none_left, item, get,
  get_default, elements, str_of, float_of, truthy, trimmed,
}

-- What a parser gives: a value, None, or an AttributeError, which it does not catch.
pub data Parsed (A : Type 0) : Type 0 where
  usable : A → Parsed A
  unusable : Parsed A
  escaped : Parsed A

infixl 40 ◌>>=◌
unfoldable pub ◌>>=◌ : {A B : Type 0} → Parsed A → (A → Parsed B) → Parsed B
usable a >>= f = f a
unusable >>= f = unusable
escaped >>= f = escaped

-- A KeyError, ValueError or TypeError is caught.
abbrev pub caught : {A : Type 0} → Option A → Parsed A
caught none = unusable
caught (some a) = usable a

-- `value.isdigit()` of each character; digits beyond ASCII are left out.
abbrev all_digits : String → Bool
all_digits String.[] = true
all_digits (String.◌∷◌ c s) = leb b'0' (code c) && leb (code c) b'9' && all_digits s

-- is_decimal_id, of a text
abbrev pub is_decimal_id : String → Bool
is_decimal_id String.[] = false
is_decimal_id s = all_digits s

module _ {F : Type 0} ⦃fl : Float F⦄ (py : Python F) (loads : String → Option (Json F)) where
  abbrev list_or_empty : Option (Json F) → List (Json F)
  list_or_empty (some (array xs)) = elements xs
  list_or_empty _ = []

  -- `_json_list`
  abbrev pub json_list : Json F → List (Json F)
  json_list (array xs) = elements xs
  json_list (text s) = list_or_empty (loads s)
  json_list _ = []

  -- `_outcome_ids`
  unfoldable pub outcome_ids : ProtocolVersion → Fields F → List (Json F)
  outcome_ids v1 raw = json_list (get "clobTokenIds" raw)
  outcome_ids v2 raw = elim (get "positionIds" raw) as (λ x. List (Json F)) [
    | array xs ↦ elements xs
    | v ↦ json_list v
  ]

  abbrev is_resolved_text : Json F → Bool
  is_resolved_text v = truthy v && trimmed (str_of py v) "resolved"

  -- `_is_resolved`
  abbrev pub is_resolved : ProtocolVersion → Fields F → Bool
  is_resolved v1 raw = is_resolved_text (get "umaResolutionStatus" raw)
  is_resolved v2 raw = is_resolved_text (get "resolutionStatus" raw)

  -- The two tokens of a binary market with decimal ids.
  abbrev pub token_pair : List (Json F) → List (Json F) → Parsed (TokenMeta × TokenMeta)
  token_pair (y ∷ n ∷ []) (a ∷ b ∷ []) =
      if is_decimal_id (str_of py y) && is_decimal_id (str_of py n)
      then usable (
        record { token_id = str_of py y; outcome = str_of py a },
        record { token_id = str_of py n; outcome = str_of py b },
      )
      else unusable
  token_pair _ _ = unusable

  -- `raw.get("feeSchedule") or {}`, whose `get` is called.
  abbrev pub fee_of : Json F → Parsed (Fields F)
  fee_of (object fee) = usable fee
  fee_of v = if truthy v then escaped else usable none_left

  abbrev id_of_event : Json F → Option String
  id_of_event null = none
  id_of_event v = some (str_of py v)

  -- The id of the first of `raw.get("events") or []`.
  abbrev pub first_event_id : Json F → Parsed (Option String)
  first_event_id (array (element (object e) es)) = usable (id_of_event (get "id" e))
  first_event_id (array (element e es)) = escaped
  first_event_id (text s) = if s == "" then usable none else escaped
  first_event_id v = if truthy v then unusable else usable none

  -- `float(v or d)`
  abbrev pub float_or : F → Json F → Parsed F
  float_or d v = if truthy v then caught (float_of py v) else usable d

  -- `float(fields.get(key, d) or d)`
  abbrev pub float_field : F → String → Fields F → Parsed F
  float_field d key fields = float_or d (get_default (number d) key fields)

  abbrev optional_text : Json F → Option String
  optional_text null = none
  optional_text v = some (str_of py v)

  module _ (decimals : F → ℕ) (int_round : F → ℕ) (now : F) (reward_rates : Dict F)
      (raw : Fields F) where
    -- The record that parse_market builds.
    unfoldable pub meta_of : ProtocolVersion → TokenMeta × TokenMeta → Parsed (MarketMeta F)
    meta_of version tokens = do
      cid ← caught (item "conditionId" raw)
      fee ← fee_of (get "feeSchedule" raw)
      taker_rate ← float_field (num 0) "rate" fee
      event_id ← first_event_id (get "events" raw)
      tick ← float_field (fl.lit 1 3) "orderPriceMinTickSize" raw
      min_order_size ← float_field (num 5) "orderMinSize" raw
      min_size ← float_field (num 0) "rewardsMinSize" raw
      max_spread ← float_field (num 0) "rewardsMaxSpread" raw
      rebate_rate ← float_field (num 0) "rebateRate" fee
      best_bid ← float_field (num 0) "bestBid" raw
      best_ask ← float_field (num 0) "bestAsk" raw
      liquidity ← float_field (num 0) "liquidityNum" raw
      volume ← float_field (num 0) "volumeNum" raw
      volume_24hr ← float_or (num 0) (
          if truthy (get "volume24hrClob" raw)
          then get "volume24hrClob" raw
          else get "volume24hr" raw)
      usable (record {
        condition_id = str_of py cid;
        question = str_of py (get_default (text "") "question" raw);
        slug = str_of py (get_default (text "") "slug" raw);
        yes_token = tokens.0;
        no_token = tokens.1;
        tick_size = tick;
        price_decimals = decimals tick;
        neg_risk = truthy (get "negRisk" raw);
        min_order_size = min_order_size;
        rewards_min_size = min_size;
        rewards_max_spread = max_spread;
        rewards_daily_rate = get_or (num 0) (str_of py cid) reward_rates;
        maker_fee_bps = zero;
        taker_fee_bps = int_round (taker_rate * num 10000);
        fees_enabled = truthy (get "feesEnabled" raw);
        end_date_iso = optional_text (get "endDate" raw);
        event_id = event_id;
        rebate_rate = rebate_rate;
        best_bid = best_bid;
        best_ask = best_ask;
        liquidity_num = liquidity;
        volume_num = volume;
        volume_24hr = volume_24hr;
        version = version;
        scanned_ts = now;
        resolved = is_resolved version raw;
      })

    unfoldable pub parse_market : Parsed (MarketMeta F)
    unfolding meta_of outcome_ids parse_version
    parse_market = if not (truthy (get "acceptingOrders" raw)) then unusable else do
      version ← caught (parse_version py (get "version" raw))
      tokens ← token_pair (outcome_ids version raw) (json_list (get "outcomes" raw))
      meta_of version tokens
