-- ===== src/Config/Entries.antt =====
-- src/polymaker/config.py: the trade list and its profiles. A setting's value is a JSON value. What
-- pydantic does is a parameter: `model_dump` of a profile, and the building of one from such a dict, none
-- where the validation refuses it. Issues are values where the source formats texts.
use polymaker.Prelude.{
  String, Bool, true, false, not, Option, none, some, List, [], ◌∷◌, ◌++◌, ◌==◌, mem, or_else, Dict,
  lookup, contains, insert, select, if◌then◌else◌,
}
use polymaker.Float.{Float, num}
use polymaker.Wire.{Json}
use polymaker.Config.{StrategyProfile}

pub record MarketEntry (F : Type 0) : Type 0 where
  pub slug : Option String
  pub condition_id : Option String
  pub profile : String
  pub enabled : Bool
  pub model_extra : Dict (Json F)

pub record Config (F : Type 0) : Type 0 where
  pub profiles : Dict (StrategyProfile F)
  pub markets : List (MarketEntry F)

-- What pydantic does for StrategyProfile.
pub record Pydantic (F : Type 0) : Type 0 where
  pub model_dump : StrategyProfile F → Dict (Json F)
  pub build : Dict (Json F) → Option (StrategyProfile F)

-- profile_for: the profile, a KeyError for its name, or a ValidationError for an override.
pub data Looked (F : Type 0) : Type 0 where
  ready : StrategyProfile F → Looked F
  unknown : String → Looked F
  invalid : Looked F

pub data Issue : Type 0 where
  unknown_profile : String → String → Issue
  no_markets : Issue
  proxy_down : Issue

abbrev reserved : List String
reserved = "slug" ∷ "condition_id" ∷ "profile" ∷ "enabled" ∷ []

abbrev pub has_text : Option String → Bool
has_text none = false
has_text (some s) = not (s == "")

abbrev pub proxy_issue : Bool → List Issue
proxy_issue true = []
proxy_issue false = proxy_down ∷ []

module _ {F : Type 0} where
  -- `_need_identifier` accepts
  abbrev pub has_identifier : MarketEntry F → Bool
  has_identifier e = if has_text e.slug then true else has_text e.condition_id

  abbrev pub ref : MarketEntry F → String
  ref e =
      if has_text e.slug
      then or_else "?" e.slug
      else if has_text e.condition_id
      then or_else "?" e.condition_id
      else "?"

  abbrev pub overrides : MarketEntry F → Dict (Json F)
  overrides e = select (λ kv. not (mem kv.0 reserved)) e.model_extra

  -- The loop of with_overrides.
  unfoldable pub override : Dict (Json F) → Dict (Json F) → Dict (Json F)
  override [] fields = fields
  override ((k, v) ∷ os) fields =
      override os (if contains k fields then insert k v fields else fields)

  abbrev pub looked : Option (StrategyProfile F) → Looked F
  looked none = invalid
  looked (some p) = ready p

  unfoldable pub with_overrides : Pydantic F → Dict (Json F) → StrategyProfile F → Looked F
  unfolding override
  with_overrides py [] p = ready p
  with_overrides py (o ∷ os) p = looked (py.build (override (o ∷ os) (py.model_dump p)))

  abbrev pub enabled_markets : Config F → List (MarketEntry F)
  enabled_markets c = select (λ e. e.enabled) c.markets

  abbrev pub profile_from : Pydantic F → MarketEntry F → Option (StrategyProfile F) → Looked F
  profile_from py e none = unknown e.profile
  profile_from py e (some base) = with_overrides py (overrides e) base

  unfoldable pub profile_for : Pydantic F → Config F → MarketEntry F → Looked F
  profile_for py c e = profile_from py e (lookup e.profile c.profiles)

  -- The first loop of preflight.
  unfoldable pub unknown_profiles : Config F → List (MarketEntry F) → List Issue
  unknown_profiles c [] = []
  unknown_profiles c (e ∷ es) =
      let rest = unknown_profiles c es in
      if contains e.profile c.profiles then rest else unknown_profile (ref e) e.profile ∷ rest

  abbrev pub none_enabled : List (MarketEntry F) → List Issue
  none_enabled [] = no_markets ∷ []
  none_enabled (e ∷ es) = []

  -- preflight; `proxy_ok` is false where a proxy with a host and a port refuses the connection.
  unfoldable pub preflight : Bool → Config F → List Issue
  unfolding unknown_profiles
  preflight proxy_ok c =
      unknown_profiles c (enabled_markets c)
      ++ (none_enabled (enabled_markets c) ++ proxy_issue proxy_ok)

-- `_trend_flow_z_reachable` accepts
abbrev pub trend_flow_z_reachable : {F : Type 0} ⦃fl : Float F⦄ → F → Bool
trend_flow_z_reachable ⦃fl = fl⦄ v = if fl.lt (num 1) v then false else not (fl.lt v (num 0))
