-- ===== src/Store/Positions/Fills.antt =====
-- state/store.py: the `fills` table over a history of calls: a trade is applied once, reversed at
-- most once, and never reversed when it has settled.
use polymaker.Prelude.{
  keys, not, ◌≢◌, select, String, ◌≡◌, refl, sym, ◌∙◌, ap, inl, inr, Bool, true, false, Option,
  none, some, List, [], ◌∷◌, Dict, lookup, contains, lookup-insert, is_some, arith, Option-cases,
  ==_refl, ==→≡, subst,
}
use polymaker.Float.{Float}
use polymaker.Domain.{Position, Fill}
use polymaker.Store.{
  StateStore, FillRow, put_position, apply_fill, set_position, force_set_position, restart,
  reverse_fill, fill_row, reconcile_positions, adopt_positions, zero_absent, drop_tokens,
  drop_untracked_positions, mark_inflight, clear_inflight, expire_inflight, drop_guards,
  stale_guards, upsert_order, remove_order, clear_orders, replace_open_orders, mark_fill_settled,
  reversed_fill, reverse_id,
}
use polymaker.Store.Calls.{
  Call, fills, sets, reverses, settles, reconciles, marks, clears, expires, upserts, removes,
  replaces, clears_orders, untracks, restarts, step, run,
}

module _ {F : Type 0} ⦃fl : Float F⦄ where
  adopt_positions-fills :
      (now : F) (api : Dict (F × F)) (s : StateStore F)
      → (adopt_positions now api s).fills ≡ s.fills
  unfolding adopt_positions set_position put_position
  adopt_positions-fills now [] s = refl
  adopt_positions-fills now ((t, (size, avg)) ∷ api) s =
      adopt_positions-fills now api _ ∙ ground arith

  zero_absent-fills :
      (now : F) (api : Dict (F × F)) (ps : Dict (Position F)) (s : StateStore F)
      → (zero_absent now api ps s).0.fills ≡ s.fills
  unfolding zero_absent set_position put_position
  zero_absent-fills now api [] s = refl
  zero_absent-fills now api ((t, pos) ∷ ps) s = zero_absent-fills now api ps _ ∙ ground arith

  drop_tokens-fills : (ts : List String) (s : StateStore F) → (drop_tokens ts s).fills ≡ s.fills
  unfolding drop_tokens
  drop_tokens-fills [] s = refl
  drop_tokens-fills (t ∷ ts) s = drop_tokens-fills ts _

  drop_guards-fills : (ts : List String) (s : StateStore F) → (drop_guards ts s).fills ≡ s.fills
  unfolding drop_guards
  drop_guards-fills [] s = refl
  drop_guards-fills (t ∷ ts) s = drop_guards-fills ts _

  -- A fact about a row that is already there: it is listed, and listed as settled.
  abbrev pub Recorded : String → StateStore F → Type 0
  Recorded id s = contains id s.fills ≡ true

  abbrev pub is_settled : Option (FillRow F) → Bool
  is_settled none = false
  is_settled (some row) = row.settled

  abbrev pub Settled : String → StateStore F → Type 0
  Settled id s = is_settled (lookup id s.fills) ≡ true

  pub apply_fill-Recorded :
      (id : String) (fill : Fill F) (s : StateStore F)
      → Recorded id s
      → Recorded id (apply_fill fill s).0
  unfolding apply_fill put_position
  apply_fill-Recorded id fill s h =
      ground (arith, lookup-insert fill.trade_id id (fill_row fill) s.fills)

  pub apply_fill-Settled :
      (id : String) (fill : Fill F) (s : StateStore F)
      → Settled id s
      → Settled id (apply_fill fill s).0
  unfolding apply_fill put_position
  apply_fill-Settled id fill s h =
      ground (arith, lookup-insert fill.trade_id id (fill_row fill) s.fills, ==→≡ fill.trade_id id)

  pub reverse_fill-Recorded :
      (id k : String) (s : StateStore F) → Recorded id s → Recorded id (reverse_fill k s).0
  unfolding reverse_fill
  reverse_fill-Recorded id k s h = elim (Option-cases (lookup k s.fills)) [
    | inl e ↦ rw (e, reverse_fill) (ground arith)
    | inr (row, e) ↦
        rw (e, reverse_fill) (ground (arith, apply_fill-Recorded id (reversed_fill k row) s h))
  ]

  pub reverse_fill-Settled :
      (id k : String) (s : StateStore F) → Settled id s → Settled id (reverse_fill k s).0
  unfolding reverse_fill
  reverse_fill-Settled id k s h = elim (Option-cases (lookup k s.fills)) [
    | inl e ↦ rw (e, reverse_fill) (ground arith)
    | inr (row, e) ↦
        rw (e, reverse_fill) (ground (arith, apply_fill-Settled id (reversed_fill k row) s h))
  ]

  pub mark_fill_settled-Recorded :
      (id k : String) (s : StateStore F) → Recorded id s → Recorded id (mark_fill_settled k s)
  unfolding mark_fill_settled
  mark_fill_settled-Recorded id k s h = elim (Option-cases (lookup k s.fills)) [
    | inl e ↦ rw (e, mark_fill_settled) h
    | inr (row, e) ↦
        rw (e, mark_fill_settled)
          (ground (arith, lookup-insert k id (record row { settled = true }) s.fills))
  ]

  pub mark_fill_settled-Settled :
      (id k : String) (s : StateStore F) → Settled id s → Settled id (mark_fill_settled k s)
  unfolding mark_fill_settled
  mark_fill_settled-Settled id k s h = elim (Option-cases (lookup k s.fills)) [
    | inl e ↦ rw (e, mark_fill_settled) h
    | inr (row, e) ↦
        rw (e, mark_fill_settled)
          (ground (arith, lookup-insert k id (record row { settled = true }) s.fills))
  ]

  pub mark_settles :
      (id : String) (s : StateStore F) → Recorded id s → Settled id (mark_fill_settled id s)
  unfolding mark_fill_settled
  mark_settles id s h = elim (Option-cases (lookup id s.fills)) [
    | inl e ↦ cc (ap is_some e)
    | inr (row, e) ↦
        rw (e, mark_fill_settled)
          (ground (arith, ==_refl id, lookup-insert id id (record row { settled = true }) s.fills))
  ]

  -- Every call that leaves the `fills` table as it is keeps what is recorded there.
  step_keeps :
      (P : Dict (FillRow F) → Type 0)
      → ((fill : Fill F) (s : StateStore F) → P s.fills → P (apply_fill fill s).0.fills)
      → ((k : String) (s : StateStore F) → P s.fills → P (reverse_fill k s).0.fills)
      → ((k : String) (s : StateStore F) → P s.fills → P (mark_fill_settled k s).fills)
      → (c : Call F) (s : StateStore F) → P s.fills
      → P (step c s).fills
  unfolding step force_set_position set_position put_position mark_inflight clear_inflight
      expire_inflight upsert_order remove_order clear_orders replace_open_orders
      drop_untracked_positions restart reconcile_positions
  step_keeps P f r m (fills fill) s h = f fill s h
  step_keeps P f r m (sets t size avg) s h = h
  step_keeps P f r m (reverses id) s h = r id s h
  step_keeps P f r m (settles id) s h = m id s h
  step_keeps P f r m (reconciles api true now) s h =
      subst P
        (sym (
          zero_absent-fills now api (adopt_positions now api s).positions
            (adopt_positions now api s)
          ∙ adopt_positions-fills now api s))
        h
  step_keeps P f r m (reconciles api false now) s h =
      subst P (sym (adopt_positions-fills now api s)) h
  step_keeps P f r m (marks t now) s h = h
  step_keeps P f r m (clears t) s h = h
  step_keeps P f r m (expires max_age now) s h =
      subst P (sym (drop_guards-fills (stale_guards max_age now s.inflight_ts) s)) h
  step_keeps P f r m (upserts o) s h = h
  step_keeps P f r m (removes id) s h = h
  step_keeps P f r m (replaces t live grace now) s h = h
  step_keeps P f r m clears_orders s h = h
  step_keeps P f r m (untracks tracked) s h =
      subst P (sym (drop_tokens-fills (select (λ t. not (tracked t)) (keys s.positions)) s)) h
  step_keeps P f r m restarts s h = h

  run-Recorded :
      (id : String) (cs : List (Call F)) (s : StateStore F) → Recorded id s → Recorded id (run cs s)
  unfolding run
  run-Recorded id [] s h = h
  run-Recorded id (c ∷ cs) s h = run-Recorded id cs (step c s) (
      step_keeps (λ d. contains id d ≡ true) (apply_fill-Recorded id)
        (λ k. reverse_fill-Recorded id k) (λ k. mark_fill_settled-Recorded id k) c s h)

  run-Settled :
      (id : String) (cs : List (Call F)) (s : StateStore F) → Settled id s → Settled id (run cs s)
  unfolding run
  run-Settled id [] s h = h
  run-Settled id (c ∷ cs) s h = run-Settled id cs (step c s) (
      step_keeps (λ d. is_settled (lookup id d) ≡ true) (apply_fill-Settled id)
        (λ k. reverse_fill-Settled id k) (λ k. mark_fill_settled-Settled id k) c s h)

  pub apply_fill_records :
      (fill : Fill F) (s : StateStore F) → Recorded fill.trade_id (apply_fill fill s).0
  unfolding apply_fill put_position
  apply_fill_records fill s = ground (
    arith,
    lookup-insert fill.trade_id fill.trade_id (fill_row fill) s.fills,
    ==_refl fill.trade_id,
  )

  -- Once a fill was applied, a fill of the same trade that arrives after any history of calls,
  -- restarts included, changes nothing and is reported as a duplicate.
  pub apply_fill_once :
      (fill again : Fill F) (cs : List (Call F)) (s : StateStore F)
      → again.trade_id ≡ fill.trade_id
      → let s' = run cs (apply_fill fill s).0 in apply_fill again s' ≡ (s', false)
  unfolding apply_fill
  apply_fill_once fill again cs s e =
      rw (e, run-Recorded fill.trade_id cs (apply_fill fill s).0 (apply_fill_records fill s))

  pub reverse_fill-refused :
      (id : String) (s : StateStore F) → Settled id s → reverse_fill id s ≡ (s, none)
  unfolding reverse_fill
  reverse_fill-refused id s k = elim (Option-cases (lookup id s.fills)) [
    | inl e ↦ rw (e, reverse_fill) (ground arith)
    | inr (row, e) ↦ rw (e, reverse_fill) (ground arith)
  ]

  -- Once a recorded fill was marked as settled, a reversal that arrives after any history of calls,
  -- restarts included, changes nothing and returns no fill.
  pub reverse_fill_settled :
      (id : String) (cs : List (Call F)) (s : StateStore F)
      → contains id s.fills ≡ true
      → let s' = run cs (mark_fill_settled id s) in reverse_fill id s' ≡ (s', none)
  reverse_fill_settled id cs s h =
      reverse_fill-refused id (run cs (mark_fill_settled id s))
        (run-Settled id cs (mark_fill_settled id s) (mark_settles id s h))

  reverse_fill_records :
      (id : String) (s : StateStore F)
      → (reverse_fill id s).1 ≢ none
      → Recorded (reverse_id id) (reverse_fill id s).0
  unfolding reverse_fill
  reverse_fill_records id s h = elim (Option-cases (lookup id s.fills)) [
    | inl e ↦ rw (e, reverse_fill) (ground arith)
    | inr (row, e) ↦
        rw (e, reverse_fill) (ground (arith, apply_fill_records (reversed_fill id row) s))
  ]

  -- A trade whose fill was reversed is not reversed again, whatever calls and restarts come between.
  reverse_fill_once :
      (id : String) (cs : List (Call F)) (s : StateStore F)
      → (reverse_fill id s).1 ≢ none
      → let s' = run cs (reverse_fill id s).0 in reverse_fill id s' ≡ (s', none)
  reverse_fill_once id cs s h =
      refused (run cs (reverse_fill id s).0)
        (run-Recorded (reverse_id id) cs (reverse_fill id s).0 (reverse_fill_records id s h))
    where
      refused : (s' : StateStore F) → Recorded (reverse_id id) s' → reverse_fill id s' ≡ (s', none)
      refused s' k = unfold reverse_fill in rw k
