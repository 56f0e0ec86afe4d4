-- ===== src/Estimators.antt =====
-- src/polymaker/strategy/estimators.py: the online estimators. Each method takes the estimator and
-- returns the new one; timestamps are arguments, as in the source. `token_in_yes_space` is a function
-- argument, and the samples handed to the callback `on_resolved` are a result.
pub mod Clock
pub mod Markouts
use polymaker.Prelude.{
  ℕ, suc, ◌-◌ as sub_nat, String, Bool, true, false, not, ◌&&◌, ◌||◌, Option, none, some, List, [],
  ◌∷◌, ◌++◌, ltb, nat_eq, length, drop, select, map, is_some, if◌then◌else◌, ◌==◌,
}
use polymaker.Float.{Float, num, ◌+◌, ◌-◌, ◌*◌, ◌/◌, ◌<=◌, ◌<◌, min, max}
use polymaker.Domain.{Side, buy, same_side}

pub record Ewma (F : Type 0) : Type 0 where
  pub halflife : F
  pub value : F
  pub last_ts : F
  pub initialized : Bool
  pub out_of_order : ℕ

pub record VolEstimator (F : Type 0) : Type 0 where
  pub short_ewma : Ewma F
  pub long_ewma : Ewma F
  pub last_fv : Option F
  pub last_ts : F

pub record FlowEstimator (F : Type 0) : Type 0 where
  pub signed_ewma : Ewma F
  pub sq_ewma : Ewma F

pub record MarkoutSample (F : Type 0) : Type 0 where
  pub token_id : String
  pub side : Side
  pub fill_fv : F
  pub end_fv : F
  pub markout : F
  pub horizon_s : F
  pub fill_ts : F
  pub resolved_ts : F

-- _PendingMarkout
pub record PendingMarkout (F : Type 0) : Type 0 where
  pub fv_at_fill : F
  pub side : Side
  pub due_ts : F
  pub token_id : String
  pub fill_ts : F

pub record MarkoutTracker (F : Type 0) : Type 0 where
  pub horizon_s : F
  pub pending : List (PendingMarkout F)
  pub markout_ewma : Ewma F
  pub samples : List (MarkoutSample F)
  pub max_samples : ℕ

pub record MarkoutStats (F : Type 0) : Type 0 where
  pub count : F
  pub mean : F
  pub adverse_rate : F
  pub worst : F
  pub best : F
  pub mean_adverse : F
  pub total : F

pub record MarketEstimators (F : Type 0) : Type 0 where
  pub vol : VolEstimator F
  pub flow : FlowEstimator F
  pub markout : MarkoutTracker F
  pub last_fv : Option F
  pub last_fv_ts : F

module _ {F : Type 0} ⦃fl : Float F⦄ where
  -- The constructor, which refuses a half-life that is not positive.
  unfoldable pub new_ewma : F → Option (Ewma F)
  new_ewma halflife_s =
      if halflife_s <= num 0
      then none
      else some (record {
        halflife = halflife_s;
        value = num 0;
        last_ts = num 0;
        initialized = false;
        out_of_order = 0;
      })

  unfoldable pub update : F → F → Ewma F → Ewma F
  update value ts e =
      let decay = fl.half_pow ((ts - e.last_ts) / e.halflife) in
      if not e.initialized
      then record e { value = value; last_ts = ts; initialized = true }
      else if ts < e.last_ts
      then record e { out_of_order = suc e.out_of_order }
      else record e { value = decay * e.value + (num 1 - decay) * value; last_ts = ts }

  unfoldable pub decay_to : F → Ewma F → Ewma F
  decay_to ts e =
      if e.initialized && (e.last_ts < ts)
      then record e { value = e.value * fl.half_pow ((ts - e.last_ts) / e.halflife); last_ts = ts }
      else e

  -- VolEstimator.update
  unfoldable pub vol_update : F → F → VolEstimator F → VolEstimator F
  vol_update fv ts v =
      let fed : VolEstimator F = elim (v.last_fv) as (λ x. VolEstimator F) [
        | none ↦ v
        | some prev ↦
            let r = fv - prev in
            record v {
              short_ewma = update (r * r) ts v.short_ewma;
              long_ewma = update (r * r) ts v.long_ewma;
            }
      ] in
      record fed { last_fv = some fv; last_ts = ts }

  unfoldable pub short_vol : VolEstimator F → F
  short_vol v = fl.sqrt (max (num 0) v.short_ewma.value)

  unfoldable pub long_vol : VolEstimator F → F
  long_vol v = fl.sqrt (max (num 0) v.long_ewma.value)

  pub vol_ratio : VolEstimator F → F
  vol_ratio v = let lo = long_vol v in if fl.lit 1 9 < lo then short_vol v / lo else num 1

  -- FlowEstimator.update
  unfoldable pub flow_update : Side → F → F → F → FlowEstimator F → FlowEstimator F
  flow_update aggressor size ts flow_scale f =
      let x = (if same_side aggressor buy then size else fl.neg size) * flow_scale in
      record { signed_ewma = update x ts f.signed_ewma; sq_ewma = update (x * x) ts f.sq_ewma }

  -- FlowEstimator.decay_to
  unfoldable pub flow_decay_to : F → FlowEstimator F → FlowEstimator F
  flow_decay_to ts f = record {
    signed_ewma = decay_to ts f.signed_ewma;
    sq_ewma = decay_to ts f.sq_ewma;
  }

  -- FlowEstimator.z, which FlowEstimator.imbalance repeats
  pub flow_z : FlowEstimator F → F
  flow_z f =
      let rms = fl.sqrt (max f.sq_ewma.value (num 0)) in
      if fl.lit 1 9 < rms then f.signed_ewma.value / rms else num 0

  unfoldable pub record_fill : Side → F → F → String → MarkoutTracker F → MarkoutTracker F
  record_fill side token_fv_at_fill ts token_id t = record t {
    pending =
        t.pending
        ++ record {
          fv_at_fill = token_fv_at_fill;
          side = side;
          due_ts = ts + t.horizon_s;
          token_id = token_id;
          fill_ts = ts;
        }
          ∷ [];
  }

  -- The fair value of the token that was traded.
  abbrev pub fv_now_of : Option (F → String → F) → F → String → F
  fv_now_of none yes_fv_now token_id = yes_fv_now
  fv_now_of (some convert) yes_fv_now token_id =
      if token_id == "" then yes_fv_now else convert yes_fv_now token_id

  -- The sample of a markout that is due.
  unfoldable pub resolve : Option (F → String → F) → F → F → F → PendingMarkout F → MarkoutSample F
  resolve convert horizon_s yes_fv_now ts p =
      let fv_now = fv_now_of convert yes_fv_now p.token_id in
      let move = fv_now - p.fv_at_fill in
      record {
        token_id = p.token_id;
        side = p.side;
        fill_fv = p.fv_at_fill;
        end_fv = fv_now;
        markout = if same_side p.side buy then move else fl.neg move;
        horizon_s = horizon_s;
        fill_ts = p.fill_ts;
        resolved_ts = ts;
      }

  -- `samples.append(sample)` with the oldest ones dropped beyond the limit.
  unfoldable pub keep_sample : ℕ → MarkoutSample F → List (MarkoutSample F) → List (MarkoutSample F)
  keep_sample max_samples sample samples =
      let more = samples ++ sample ∷ [] in
      if ltb max_samples (length more) then drop (sub_nat (length more) max_samples) more else more

  -- One pending markout of the loop of `evaluate`: the tracker, whose `pending` collects `still`, and
  -- the samples reported so far.
  unfoldable pub evaluate_one :
      Option (F → String → F)
      → F
      → F
      → PendingMarkout F
      → MarkoutTracker F × List (MarkoutSample F)
      → MarkoutTracker F × List (MarkoutSample F)
  unfolding resolve keep_sample
  evaluate_one convert yes_fv_now ts p (t, resolved) =
      let sample = resolve convert t.horizon_s yes_fv_now ts p in
      let marked = record t { markout_ewma = update sample.markout ts t.markout_ewma } in
      if ts < p.due_ts
      then (record t { pending = t.pending ++ p ∷ [] }, resolved)
      else if nat_eq t.max_samples 0
      then (marked, resolved)
      else (
        record marked { samples = keep_sample t.max_samples sample t.samples },
        resolved ++ sample ∷ [],
      )

  unfoldable pub evaluate_all :
      Option (F → String → F)
      → F
      → F
      → List (PendingMarkout F)
      → MarkoutTracker F × List (MarkoutSample F)
      → MarkoutTracker F × List (MarkoutSample F)
  evaluate_all convert yes_fv_now ts [] acc = acc
  evaluate_all convert yes_fv_now ts (p ∷ ps) acc =
      evaluate_all convert yes_fv_now ts ps (evaluate_one convert yes_fv_now ts p acc)

  -- MarkoutTracker.evaluate
  unfoldable pub evaluate :
      Option (F → String → F) → F → F → MarkoutTracker F → MarkoutTracker F × List (MarkoutSample F)
  evaluate convert yes_fv_now ts t =
      evaluate_all convert yes_fv_now ts t.pending (record t { pending = [] }, [])

  -- `sum(vals)` from a running total
  abbrev pub sum_from : F → List F → F
  sum_from acc [] = acc
  sum_from acc (x ∷ xs) = sum_from (acc + x) xs

  abbrev pub fold_from : (F → F → F) → F → List F → F
  fold_from f acc [] = acc
  fold_from f acc (x ∷ xs) = fold_from f (f acc x) xs

  -- MarkoutTracker.stats
  unfoldable pub stats : MarkoutTracker F → MarkoutStats F
  stats t =
      let vals = map (λ s. s.markout) t.samples in
      let adverse = select (λ v. v < num 0) vals in
      elim vals as (λ x. MarkoutStats F) [
        | [] ↦ record {
          count = num 0;
          mean = num 0;
          adverse_rate = num 0;
          worst = num 0;
          best = num 0;
          mean_adverse = num 0;
          total = num 0;
        }
        | v ∷ vs ↦ record {
          count = num (length vals);
          mean = sum_from (num 0) vals / num (length vals);
          adverse_rate = num (length adverse) / num (length vals);
          worst = fold_from min v vs;
          best = fold_from max v vs;
          mean_adverse =
              if nat_eq (length adverse) 0
              then num 0
              else sum_from (num 0) adverse / num (length adverse);
          total = sum_from (num 0) vals;
        }
      ]

  unfoldable pub toxicity : MarkoutTracker F → F
  toxicity t = max (num 0) (fl.neg t.markout_ewma.value)

  -- MarketEstimators.on_fair_value
  unfoldable pub on_fair_value :
      F
      → F
      → Option String
      → Option (F → String → F)
      → MarketEstimators F
      → MarketEstimators F × List (MarkoutSample F)
  on_fair_value fv ts yes_token_id convert e =
      let (marked, resolved) =
        if is_some convert && is_some yes_token_id
        then evaluate convert fv ts e.markout
        else (e.markout, []) in
      (
        record e {
          vol = vol_update fv ts e.vol;
          markout = marked;
          last_fv = some fv;
          last_fv_ts = ts;
        },
        resolved,
      )
