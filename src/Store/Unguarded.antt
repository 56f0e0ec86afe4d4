-- ===== src/Store/Unguarded.antt =====
-- state/store.py: the calls that leave every guard as it is.
use polymaker.Prelude.{
  String, ◌≡◌, refl, ◌∙◌, inl, inr, Bool, true, false, Bool-cases, Option-cases, List, [], ◌∷◌,
  Dict, lookup, contains, if◌then◌else◌, ◌||◌,
}
use polymaker.Float.{Float, num, ◌<=◌}
use polymaker.Domain.{Fill, Position}
use polymaker.Store.{
  StateStore, put_position, apply_fill, set_position, reverse_fill, adopt_positions, zero_absent,
  guard_blocks, drop_tokens, mark_fill_settled, reversed_fill, reverse_id,
}

module _ {F : Type 0} where
  -- The guards are as they were.
  pub record SameGuards (s s' : StateStore F) : Type 0 where
    pub counts : s'.inflight_count ≡ s.inflight_count
    pub times : s'.inflight_ts ≡ s.inflight_ts

  same : (s : StateStore F) → SameGuards s s
  same s = record { counts = refl; times = refl }

  same_if :
      (b : Bool) (s s' s'' : StateStore F)
      → SameGuards s s'
      → SameGuards s s''
      → SameGuards s (if b then s' else s'')
  same_if true s s' s'' h k = h
  same_if false s s' s'' h k = k

  pub then_same : (s s' s'' : StateStore F) → SameGuards s s' → SameGuards s' s'' → SameGuards s s''
  then_same s s' s'' h k = record { counts = k.counts ∙ h.counts; times = k.times ∙ h.times }

module _ {F : Type 0} ⦃fl : Float F⦄ where
  pub apply_fill-SameGuards :
      (fill : Fill F) (s : StateStore F) → SameGuards s (apply_fill fill s).0
  unfolding apply_fill put_position
  apply_fill-SameGuards fill s = elim (Bool-cases (contains fill.trade_id s.fills)) [
    | inl e ↦ rw e (same s)
    | inr e ↦ rw e (record { counts = refl; times = refl })
  ]

  pub settle-SameGuards : (id : String) (s : StateStore F) → SameGuards s (mark_fill_settled id s)
  unfolding mark_fill_settled
  settle-SameGuards id s = elim (Option-cases (lookup id s.fills)) [
    | inl e ↦ rw (e, mark_fill_settled) (same s)
    | inr (row, e) ↦ rw (e, mark_fill_settled) (record { counts = refl; times = refl })
  ]

  pub reverse-SameGuards : (id : String) (s : StateStore F) → SameGuards s (reverse_fill id s).0
  unfolding reverse_fill
  reverse-SameGuards id s = elim (Bool-cases (contains (reverse_id id) s.fills)) [
    | inl e ↦ rw e (same s)
    | inr fresh ↦ rw fresh (elim (Option-cases (lookup id s.fills)) [
      | inl e ↦ rw (e, reverse_fill) (same s)
      | inr (row, e) ↦
          rw (e, reverse_fill)
            (elim (Bool-cases row.settled) [
              | inl f ↦ rw f (same s)
              | inr f ↦ rw f (apply_fill-SameGuards (reversed_fill id row) s)
            ])
    ])
  ]

  pub adopt-SameGuards :
      (now : F) (api : Dict (F × F)) (s : StateStore F) → SameGuards s (adopt_positions now api s)
  unfolding adopt_positions set_position put_position
  adopt-SameGuards now [] s = same s
  adopt-SameGuards now ((t, (size, avg)) ∷ api) s =
      then_same s _ _
        (same_if (guard_blocks s now t) s s (set_position t size avg s) (same s)
          (record { counts = refl; times = refl }))
        (adopt-SameGuards now api _)

  pub zero-SameGuards :
      (now : F) (api : Dict (F × F)) (ps : Dict (Position F)) (s : StateStore F)
      → SameGuards s (zero_absent now api ps s).0
  unfolding zero_absent set_position put_position
  zero-SameGuards now api [] s = same s
  zero-SameGuards now api ((t, pos) ∷ ps) s =
      let skip = (pos.size <= num 0) || (contains t api || guard_blocks s now t) in
      let next = if skip then s else set_position t (num 0) (num 0) s in
      then_same s next _
        (same_if skip s s (set_position t (num 0) (num 0) s) (same s)
          (record { counts = refl; times = refl }))
        (zero-SameGuards now api ps next)

  pub drop_tokens-SameGuards :
      (ts : List String) (s : StateStore F) → SameGuards s (drop_tokens ts s)
  unfolding drop_tokens
  drop_tokens-SameGuards [] s = same s
  drop_tokens-SameGuards (k ∷ ts) s =
      then_same s _ _ (record { counts = refl; times = refl }) (drop_tokens-SameGuards ts _)
