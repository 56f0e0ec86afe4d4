-- ===== src/Store/Positions/History.antt =====
-- state/store.py: every history of method calls keeps the invariant, and a restart over the same
-- database recovers every position.
use polymaker.Prelude.{
  or_else, keys, not, select, subst, String, ◌≡◌, refl, sym, ◌∙◌, inl, inr, Bool, true, false,
  Option, none, some, List, [], ◌∷◌, Dict, lookup, contains, if◌then◌else◌, arith, Bool-cases,
  Option-cases,
}
use mathlib.Core.Option
use polymaker.Float.{lt→not_le, lt→le, Float, IsFloat, num, ◌<◌, not_lt→le}
use polymaker.Domain.{Position}
use polymaker.Store.{
  StateStore, position, flat_position, force_set_position, restart, reverse_fill,
  reconcile_positions, adopt_positions, zero_absent, drop_tokens, drop_untracked_positions,
  mark_inflight, clear_inflight, expire_inflight, drop_guards, stale_guards, upsert_order,
  remove_order, clear_orders, replace_open_orders, mark_fill_settled, reversed_fill, reverse_id,
}
use polymaker.Store.Calls.{
  Call, fills, sets, reverses, settles, reconciles, marks, clears, expires, upserts, removes,
  replaces, clears_orders, untracks, restarts, step, run, new_store,
}
use polymaker.Store.Positions.Invariant.{
  load_positions-Unique, IsSound, row_position, IsWellFormed, held, held_row,
  apply_fill-IsWellFormed, set_position-IsWellFormed, erase-IsBooked, load_positions-lookup,
}

module _ {F : Type 0} ⦃fl : Float F⦄ where
  module _ (ok : IsFloat fl) where
    reverse_fill-IsWellFormed :
        (id : String) (s : StateStore F) → IsWellFormed s → IsWellFormed (reverse_fill id s).0
    unfolding reverse_fill
    reverse_fill-IsWellFormed id s w = elim (Bool-cases (contains (reverse_id id) s.fills)) [
      | inl e ↦ rw e w
      | inr fresh ↦ rw fresh (elim (Option-cases (lookup id s.fills)) [
        | inl e ↦ rw (e, reverse_fill) w
        | inr (row, e) ↦
            rw (e, reverse_fill)
              (elim (Bool-cases row.settled) [
                | inl f ↦ rw f w
                | inr f ↦ rw f (apply_fill-IsWellFormed ok (reversed_fill id row) s w)
              ])
      ])
    ]

    if_keeps :
        (b : Bool) (s s' : StateStore F)
        → IsWellFormed s
        → IsWellFormed s'
        → IsWellFormed (if b then s else s')
    if_keeps true s s' w w' = w
    if_keeps false s s' w w' = w'

    pub adopt_positions-IsWellFormed :
        (now : F) (api : Dict (F × F)) (s : StateStore F)
        → IsWellFormed s
        → IsWellFormed (adopt_positions now api s)
    unfolding adopt_positions
    adopt_positions-IsWellFormed now [] s w = w
    adopt_positions-IsWellFormed now ((t, (size, avg)) ∷ api) s w =
        adopt_positions-IsWellFormed now api _
          (if_keeps _ s _ w (set_position-IsWellFormed ok t size avg s w))

    zero_absent-IsWellFormed :
        (now : F) (api : Dict (F × F)) (ps : Dict (Position F)) (s : StateStore F)
        → IsWellFormed s
        → IsWellFormed (zero_absent now api ps s).0
    unfolding zero_absent
    zero_absent-IsWellFormed now api [] s w = w
    zero_absent-IsWellFormed now api ((t, pos) ∷ ps) s w =
        zero_absent-IsWellFormed now api ps _
          (if_keeps _ s _ w (set_position-IsWellFormed ok t (num 0) (num 0) s w))

    drop_tokens-IsWellFormed :
        (ts : List String) (s : StateStore F) → IsWellFormed s → IsWellFormed (drop_tokens ts s)
    unfolding drop_tokens
    drop_tokens-IsWellFormed [] s w = w
    drop_tokens-IsWellFormed (t ∷ ts) s w =
        drop_tokens-IsWellFormed ts _ (erase-IsBooked t s.positions s.position_rows w)

    reconcile_positions-IsWellFormed :
        (api : Dict (F × F)) (authoritative : Bool) (now : F) (s : StateStore F)
        → IsWellFormed s
        → IsWellFormed (reconcile_positions api authoritative now s).0
    unfolding reconcile_positions
    reconcile_positions-IsWellFormed api true now s w =
        zero_absent-IsWellFormed now api _ _ (adopt_positions-IsWellFormed now api s w)
    reconcile_positions-IsWellFormed api false now s w = adopt_positions-IsWellFormed now api s w

    drop_guards-IsWellFormed :
        (ts : List String) (s : StateStore F) → IsWellFormed s → IsWellFormed (drop_guards ts s)
    unfolding drop_guards
    drop_guards-IsWellFormed [] s w = w
    drop_guards-IsWellFormed (t ∷ ts) s w = drop_guards-IsWellFormed ts _ w

    mark_fill_settled-IsWellFormed :
        (id : String) (s : StateStore F) → IsWellFormed s → IsWellFormed (mark_fill_settled id s)
    unfolding mark_fill_settled
    mark_fill_settled-IsWellFormed id s w = elim (Option-cases (lookup id s.fills)) [
      | inl e ↦ rw (e, mark_fill_settled) w
      | inr (row, e) ↦ rw (e, mark_fill_settled) w
    ]

    -- What the restarted process loads for a token is what the old one held.
    loaded :
        (t : String) (o : Option (F × F)) (p : Position F)
        → Option.map (row_position t) (held_row o) ≡ some p
        → IsSound t p
    loaded t none p e = cc
    loaded t (some (size, avg)) p e = elim (Bool-cases (fl.lt (num 0) size)) [
      | inl pos ↦
          let same : row_position t (size, avg) ≡ p = ground arith in
          subst (IsSound t) same (record {
            token = refl;
            long = lt→le ok (num 0) size pos;
            flat = λ h. ground (arith, lt→not_le ok (num 0) size);
          })
      | inr small ↦ ground arith
    ]

    restart-IsWellFormed : (s : StateStore F) → IsWellFormed s → IsWellFormed (restart s)
    unfolding restart
    restart-IsWellFormed s w = record {
      sound = λ t p e.
          loaded t (lookup t s.position_rows) p
            (sym (load_positions-lookup ok t s.position_rows w.unique) ∙ e);
      mirrored = λ t.
          rw (load_positions-lookup ok t s.position_rows w.unique)
            (again t (lookup t s.position_rows));
      unique = w.unique;
      unique_tokens = load_positions-Unique ok s.position_rows w.unique;
    }
      where
        again :
            (t : String) (o : Option (F × F))
            → held (Option.map (row_position t) (held_row o)) ≡ held_row o
        again t none = refl
        again t (some (size, avg)) = elim (Bool-cases (fl.lt (num 0) size)) [
          | inl pos ↦ rw pos (rw pos)
          | inr small ↦ rw small
        ]

    step-IsWellFormed : (c : Call F) (s : StateStore F) → IsWellFormed s → IsWellFormed (step c s)
    unfolding step force_set_position mark_inflight clear_inflight expire_inflight upsert_order
        remove_order clear_orders replace_open_orders drop_untracked_positions
    step-IsWellFormed (fills fill) s w = apply_fill-IsWellFormed ok fill s w
    step-IsWellFormed (sets t size avg) s w = set_position-IsWellFormed ok t size avg s w
    step-IsWellFormed (reverses id) s w = reverse_fill-IsWellFormed id s w
    step-IsWellFormed (settles id) s w = mark_fill_settled-IsWellFormed id s w
    step-IsWellFormed (reconciles api authoritative now) s w =
        reconcile_positions-IsWellFormed api authoritative now s w
    step-IsWellFormed (marks t now) s w = w
    step-IsWellFormed (clears t) s w = w
    step-IsWellFormed (expires max_age now) s w =
        drop_guards-IsWellFormed (stale_guards max_age now s.inflight_ts) s w
    step-IsWellFormed (upserts o) s w = w
    step-IsWellFormed (removes id) s w = w
    step-IsWellFormed (replaces t live grace now) s w = w
    step-IsWellFormed clears_orders s w = w
    step-IsWellFormed (untracks tracked) s w =
        drop_tokens-IsWellFormed (select (λ t. not (tracked t)) (keys s.positions)) s w
    step-IsWellFormed restarts s w = restart-IsWellFormed s w

    run-IsWellFormed :
        (cs : List (Call F)) (s : StateStore F) → IsWellFormed s → IsWellFormed (run cs s)
    unfolding run
    run-IsWellFormed [] s w = w
    run-IsWellFormed (c ∷ cs) s w = run-IsWellFormed cs (step c s) (step-IsWellFormed c s w)

    new_store-IsWellFormed : IsWellFormed {F = F} new_store
    unfolding new_store lookup
    new_store-IsWellFormed = record {
      sound = λ t p e. cc;
      mirrored = λ t. refl;
      unique = tt;
      unique_tokens = tt;
    }

    -- After any history of method calls and restarts every position is sound: its size is not
    -- negative and an empty one has no cost basis; and the SQLite table holds the same shares.
    pub run-new_store-IsWellFormed : (cs : List (Call F)) → IsWellFormed (run cs new_store)
    run-new_store-IsWellFormed cs = run-IsWellFormed cs new_store new_store-IsWellFormed

    empty_position :
        (t : String) (p : Position F) → IsSound t p → (num 0 < p.size) ≡ false → p ≡ flat_position t
    empty_position t p h small =
        let zero : p.size ≡ num 0 =
          ok.le_antisym p.size (num 0) (not_lt→le ok (num 0) p.size small) h.long in
        let basis : p.avg_price ≡ num 0 = h.flat (not_lt→le ok (num 0) p.size small) in
        λ i. record { token_id = h.token i; size = zero i; avg_price = basis i }

    recovered :
        (t : String) (o : Option (Position F)) (r : Option (F × F))
        → ((p : Position F) → o ≡ some p → IsSound t p)
        → held o ≡ held_row r
        → or_else (flat_position t) (Option.map (row_position t) (held_row r))
          ≡ or_else (flat_position t) o
    recovered t none r sound h = rw (← h)
    recovered t (some p) r sound h = elim (Bool-cases (fl.lt (num 0) p.size)) [
      | inl pos ↦
          rw (← h, pos)
            (λ i. record {
              token_id = sym (sound p refl).token i;
              size = p.size;
              avg_price = p.avg_price;
            })
      | inr small ↦ rw (← h, small) (sym (empty_position t p (sound p refl) small))
    ]

    -- A restart after any history of calls recovers the position of every token exactly.
    pub restart-position :
        (cs : List (Call F)) (t : String)
        → position (restart (run cs new_store)) t ≡ position (run cs new_store) t
    unfolding restart position
    restart-position cs t =
        let s = run cs new_store in
        let w = run-new_store-IsWellFormed cs in
        rw (load_positions-lookup ok t s.position_rows w.unique)
          (recovered t (lookup t s.positions) (lookup t s.position_rows) (w.sound t) (w.mirrored t))
