-- ===== src/Tracker/Counted.antt =====
-- state/tracker.py: each match and each reversal is counted once.
use polymaker.Prelude.{
  String, ◌≡◌, refl, sym, ap, inl, inr, true, false, List, [], ◌∷◌, ◌++◌, Dict, lookup, contains,
  erase, lookup-insert, arith, Bool-cases, Option-cases, ==_refl, ==→≡, subst, All, mem, Distinct,
  Distinct-append, map,
}
use polymaker.Float.{Float}
use polymaker.Domain.{TradeState, matched, mined, confirmed, retrying, failed, Fill}
use polymaker.Store.{FillRow, StateStore, apply_fill, mark_inflight, clear_inflight, reverse_fill}
use polymaker.Store.Positions.Fills.{
  Recorded, apply_fill-Recorded, reverse_fill-Recorded, mark_fill_settled-Recorded,
  apply_fill_records,
}
use polymaker.Tracker.{
  new_processor, on_trades, TradeEvent, Processor, event_fill, undo_fill, on_matched, on_confirmed,
  reverse_applied, on_failed, on_trade,
}

module _ {F : Type 0} ⦃fl : Float F⦄ where
  -- A MATCHED event that is delivered again changes nothing and calls nothing.
  on_trade_redelivered :
      (ev : TradeEvent F) (cid : String) (now later : F) (p : Processor F)
      → ev.status ≡ matched
      → on_trade ev cid later (on_trade ev cid now p) ≡ on_trade ev cid now p
  unfolding on_trade on_matched apply_fill
  on_trade_redelivered ev cid now later p h =
      ground (
        arith,
        lookup-insert ev.trade_id ev.trade_id (event_fill ev) p.applied,
        ==_refl ev.trade_id,
      )

  -- The trades reported to the risk manager, in order.
  abbrev pub reported : Processor F → List String
  reported p = map (λ f. f.trade_id) p.filled

  -- Every reported trade is recorded in the store, and none is reported twice.
  pub record IsCounted (p : Processor F) : Type 0 where
    pub recorded : All (λ id. contains id p.store.fills ≡ true) (reported p)
    pub distinct : Distinct (reported p)

  absent-reported :
      (id : String) (d : Dict (FillRow F)) (ids : List String)
      → All (λ k. contains k d ≡ true) ids
      → contains id d ≡ false
      → mem id ids ≡ false
  absent-reported id d [] a h = refl
  absent-reported id d (k ∷ ids) a h = ground (arith, ==→≡ k id, absent-reported id d ids a.1 h)

  All-map-append :
      (P : String → Type 0) (fs : List (Fill F)) (f : Fill F)
      → All P (map (λ x. x.trade_id) fs)
      → P f.trade_id
      → All P (map (λ x. x.trade_id) (fs ++ f ∷ []))
  All-map-append P [] f a h = (h, tt)
  All-map-append P (x ∷ fs) f a h = (a.0, All-map-append P fs f a.1 h)

  reported-append :
      (fs : List (Fill F)) (f : Fill F)
      → map (λ x. x.trade_id) (fs ++ f ∷ []) ≡ map (λ x. x.trade_id) fs ++ f.trade_id ∷ []
  reported-append [] f = refl
  reported-append (x ∷ fs) f = ap (λ ids. x.trade_id ∷ ids) (reported-append fs f)

  All-Recorded :
      (s s' : StateStore F) (ids : List String)
      → ((id : String) → Recorded id s → Recorded id s')
      → All (λ id. contains id s.fills ≡ true) ids
      → All (λ id. contains id s'.fills ≡ true) ids
  All-Recorded s s' [] keep a = tt
  All-Recorded s s' (id ∷ ids) keep a = (keep id a.0, All-Recorded s s' ids keep a.1)

  pub apply_fill-fresh :
      (fill : Fill F) (s : StateStore F)
      → (apply_fill fill s).1 ≡ true
      → contains fill.trade_id s.fills ≡ false
  unfolding apply_fill
  apply_fill-fresh fill s h = ground arith

  -- Reporting a fill that the store has just accepted.
  report-IsCounted :
      (p p' : Processor F) (fill : Fill F)
      → IsCounted p
      → (apply_fill fill p.store).1 ≡ true
      → p'.store.fills ≡ (apply_fill fill p.store).0.fills
      → p'.filled ≡ p.filled ++ fill ∷ []
      → IsCounted p'
  report-IsCounted p p' fill c fresh same more = record {
    recorded =
        subst (λ d. All (λ id. contains id d ≡ true) (reported p')) (sym same)
          (subst
            (λ fs.
              All (λ id. contains id (apply_fill fill p.store).0.fills ≡ true)
                (map (λ f. f.trade_id) fs))
            (sym more)
            (All-map-append (λ id. contains id (apply_fill fill p.store).0.fills ≡ true) p.filled
              fill
              (All-Recorded p.store (apply_fill fill p.store).0 (reported p)
                (λ id. apply_fill-Recorded id fill p.store) c.recorded)
              (apply_fill_records fill p.store)));
    distinct =
        subst (λ fs. Distinct (map (λ f. f.trade_id) fs)) (sym more)
          (subst Distinct (sym (reported-append p.filled fill)) (
            Distinct-append fill.trade_id (reported p) c.distinct (
              absent-reported fill.trade_id p.store.fills (reported p) c.recorded
                (apply_fill-fresh fill p.store fresh))));
  }

  -- A step that reports nothing.
  silent-IsCounted :
      (p p' : Processor F)
      → IsCounted p
      → ((id : String) → Recorded id p.store → Recorded id p'.store)
      → p'.filled ≡ p.filled
      → IsCounted p'
  silent-IsCounted p p' c keep same = record {
    recorded =
        subst (λ fs. All (λ id. contains id p'.store.fills ≡ true) (map (λ f. f.trade_id) fs))
          (sym same) (All-Recorded p.store p'.store (reported p) keep c.recorded);
    distinct = subst (λ fs. Distinct (map (λ f. f.trade_id) fs)) (sym same) c.distinct;
  }

  on_matched-IsCounted :
      (ev : TradeEvent F) (cid : String) (now : F) (p : Processor F)
      → IsCounted p
      → IsCounted (on_matched ev cid now p)
  unfolding on_matched mark_inflight
  on_matched-IsCounted ev cid now p c = elim (Bool-cases (contains ev.trade_id p.applied)) [
    | inl old ↦ rw old c
    | inr unseen ↦ rw unseen (elim (Bool-cases (apply_fill (event_fill ev) p.store).1) [
      | inl fresh ↦ rw fresh (report-IsCounted p _ (event_fill ev) c fresh refl refl)
      | inr dup ↦ rw dup c
    ])
  ]

  on_confirmed-IsCounted :
      (ev : TradeEvent F) (cid : String) (p : Processor F)
      → IsCounted p
      → IsCounted (on_confirmed ev cid p)
  unfolding on_confirmed clear_inflight
  on_confirmed-IsCounted ev cid p c =
      silent-IsCounted p _ c (λ id h. mark_fill_settled-Recorded id ev.trade_id _ (ground arith))
        refl

  reverse_applied-IsCounted :
      (prior : Fill F) (ev : TradeEvent F) (cid : String) (p : Processor F)
      → IsCounted p
      → IsCounted (reverse_applied prior ev cid p)
  unfolding reverse_applied clear_inflight
  reverse_applied-IsCounted prior ev cid p c =
      elim (Bool-cases (apply_fill (undo_fill prior) p.store).1) [
        | inl fresh ↦ rw fresh (report-IsCounted p _ (undo_fill prior) c fresh refl refl)
        | inr dup ↦ rw dup c
      ]

  on_failed-IsCounted :
      (ev : TradeEvent F) (cid : String) (p : Processor F)
      → IsCounted p
      → IsCounted (on_failed ev cid p)
  unfolding on_failed clear_inflight
  on_failed-IsCounted ev cid p c = elim (Option-cases (lookup ev.trade_id p.applied)) [
    | inl e ↦
        rw (e, on_failed)
          (elim (Option-cases (reverse_fill ev.trade_id p.store).1) [
            | inl f ↦
                rw f
                  (silent-IsCounted p _ c (λ id. reverse_fill-Recorded id ev.trade_id p.store) refl)
            | inr (row, f) ↦
                rw f
                  (silent-IsCounted p _ c (λ id. reverse_fill-Recorded id ev.trade_id p.store) refl)
          ])
    | inr (prior, e) ↦
        rw (e, on_failed)
          (reverse_applied-IsCounted prior ev cid
            (record p { applied = erase ev.trade_id p.applied })
            (record { recorded = c.recorded; distinct = c.distinct }))
  ]

  -- One event, by its status.
  pub on_trade_cases :
      (P : Processor F → Type 0) (ev : TradeEvent F) (cid : String) (now : F) (p : Processor F)
      → P p
      → P (on_matched ev cid now p)
      → P (on_confirmed ev cid p)
      → P (on_failed ev cid p)
      → P (on_trade ev cid now p)
  unfolding on_trade
  on_trade_cases P ev cid now p keep m c f = go ev.status refl
    where
      go : (st : TradeState) → ev.status ≡ st → P (on_trade ev cid now p)
      go matched e = rw (e, on_trade) m
      go mined e = rw (e, on_trade) keep
      go confirmed e = rw (e, on_trade) c
      go retrying e = rw (e, on_trade) keep
      go failed e = rw (e, on_trade) f

  on_trade-IsCounted :
      (ev : TradeEvent F) (cid : String) (now : F) (p : Processor F)
      → IsCounted p
      → IsCounted (on_trade ev cid now p)
  on_trade-IsCounted ev cid now p c =
      on_trade_cases IsCounted ev cid now p c (on_matched-IsCounted ev cid now p c)
        (on_confirmed-IsCounted ev cid p c) (on_failed-IsCounted ev cid p c)

  on_trades-IsCounted :
      (evs : List (TradeEvent F × String × F)) (p : Processor F)
      → IsCounted p
      → IsCounted (on_trades evs p)
  unfolding on_trades
  on_trades-IsCounted [] p c = c
  on_trades-IsCounted ((ev, cid, now) ∷ evs) p c =
      on_trades-IsCounted evs (on_trade ev cid now p) (on_trade-IsCounted ev cid now p c)

  -- In a process over any store, whatever trade events arrive, in any order and however often, no
  -- trade id is reported to the risk manager twice: neither a fill nor its reversal is counted twice
  -- in the cash ledger.
  pub on_trades-Distinct :
      (s : StateStore F) (evs : List (TradeEvent F × String × F))
      → Distinct (reported (on_trades evs (new_processor s)))
  on_trades-Distinct s evs =
      (on_trades-IsCounted evs (new_processor s) (record { recorded = tt; distinct = tt })).distinct
