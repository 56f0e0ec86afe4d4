-- ===== src/Tracker/Lifecycle.antt =====
-- state/tracker.py: a trade that has settled is never undone.
use polymaker.Prelude.{
  lookup-erase, none, String, ◌≡◌, refl, sym, ap, inl, inr, false, List, [], ◌∷◌, lookup, contains,
  erase, lookup-insert, arith, Bool-cases, Option-cases, ◌==◌, ==_refl, ==→≡, subst,
}
use polymaker.Float.{Float}
use polymaker.Domain.{confirmed, failed, Fill}
use polymaker.Store.{StateStore, apply_fill, mark_inflight, clear_inflight, reverse_fill}
use polymaker.Store.Positions.Fills.{
  reverse_fill-refused, mark_settles, reverse_fill-Settled, mark_fill_settled-Settled, Recorded,
  Settled, apply_fill-Settled,
}
use polymaker.Tracker.{
  on_trades, TradeEvent, Processor, event_fill, undo_fill, on_matched, on_confirmed,
  reverse_applied, on_failed, on_trade,
}
use polymaker.Tracker.Counted.{apply_fill-fresh, on_trade_cases}

module _ {F : Type 0} ⦃fl : Float F⦄ where
  -- The trade has settled, and this process does not hold it as pending.
  pub record IsClosed (id : String) (p : Processor F) : Type 0 where
    pub settled : Settled id p.store
    pub forgotten : contains id p.applied ≡ false

  on_matched-IsClosed :
      (id : String) (ev : TradeEvent F) (cid : String) (now : F) (p : Processor F)
      → IsClosed id p
      → IsClosed id (on_matched ev cid now p)
  unfolding on_matched mark_inflight
  on_matched-IsClosed id ev cid now p c = elim (Bool-cases (contains ev.trade_id p.applied)) [
    | inl old ↦ rw old c
    | inr unseen ↦ rw unseen (elim (Bool-cases (apply_fill (event_fill ev) p.store).1) [
      | inl fresh ↦ rw fresh (record {
        settled = apply_fill-Settled id (event_fill ev) p.store c.settled;
        forgotten =
            let new = apply_fill-fresh (event_fill ev) p.store fresh in
            let apart : (ev.trade_id == id) ≡ false = other id p.store ev.trade_id c.settled new in
            rw (lookup-insert ev.trade_id id (event_fill ev) p.applied, apart) c.forgotten;
      })
      | inr dup ↦ rw dup c
    ])
  ]
    where
      other :
          (k : String) (s : StateStore F) (j : String)
          → Settled k s
          → contains j s.fills ≡ false
          → (j == k) ≡ false
      other k s j settled absent = elim (Bool-cases (j == k)) [
        | inr apart ↦ apart
        | inl same ↦ ground (arith, ==→≡ j k same)
      ]

  on_confirmed-IsClosed :
      (id : String) (ev : TradeEvent F) (cid : String) (p : Processor F)
      → IsClosed id p
      → IsClosed id (on_confirmed ev cid p)
  unfolding on_confirmed clear_inflight
  on_confirmed-IsClosed id ev cid p c = record {
    settled = mark_fill_settled-Settled id ev.trade_id _ (ground (arith, c.settled));
    forgotten = ground (arith, lookup-erase ev.trade_id id p.applied, c.forgotten);
  }

  reverse_applied-IsClosed :
      (id : String) (prior : Fill F) (ev : TradeEvent F) (cid : String) (p : Processor F)
      → IsClosed id p
      → IsClosed id (reverse_applied prior ev cid p)
  unfolding reverse_applied clear_inflight
  reverse_applied-IsClosed id prior ev cid p c =
      elim (Bool-cases (apply_fill (undo_fill prior) p.store).1) [
        | inl fresh ↦ rw fresh (record {
          settled = apply_fill-Settled id (undo_fill prior) p.store c.settled;
          forgotten = c.forgotten;
        })
        | inr dup ↦ rw dup c
      ]

  on_failed-IsClosed :
      (id : String) (ev : TradeEvent F) (cid : String) (p : Processor F)
      → IsClosed id p
      → IsClosed id (on_failed ev cid p)
  unfolding on_failed clear_inflight
  on_failed-IsClosed id ev cid p c = elim (Option-cases (lookup ev.trade_id p.applied)) [
    | inl e ↦
        let kept = reverse_fill-Settled id ev.trade_id p.store c.settled in
        rw (e, on_failed)
          (elim (Option-cases (reverse_fill ev.trade_id p.store).1) [
            | inl f ↦ rw f (record { settled = kept; forgotten = c.forgotten })
            | inr (row, f) ↦ rw f (record { settled = kept; forgotten = c.forgotten })
          ])
    | inr (prior, e) ↦
        rw (e, on_failed)
          (reverse_applied-IsClosed id prior ev cid
            (record p { applied = erase ev.trade_id p.applied })
            (record {
              settled = c.settled;
              forgotten = ground (arith, lookup-erase ev.trade_id id p.applied, c.forgotten);
            }))
  ]

  on_trades-IsClosed :
      (id : String) (evs : List (TradeEvent F × String × F)) (p : Processor F)
      → IsClosed id p
      → IsClosed id (on_trades evs p)
  unfolding on_trades
  on_trades-IsClosed id [] p c = c
  on_trades-IsClosed id ((ev, cid, now) ∷ evs) p c =
      on_trades-IsClosed id evs (on_trade ev cid now p) (
        on_trade_cases (IsClosed id) ev cid now p c (on_matched-IsClosed id ev cid now p c)
          (on_confirmed-IsClosed id ev cid p c) (on_failed-IsClosed id ev cid p c))

  -- CONFIRMED closes a recorded trade.
  confirmed-IsClosed :
      (ev : TradeEvent F) (cid : String) (p : Processor F)
      → Recorded ev.trade_id p.store
      → IsClosed ev.trade_id (on_confirmed ev cid p)
  unfolding on_confirmed clear_inflight
  confirmed-IsClosed ev cid p known = record {
    settled = mark_settles ev.trade_id _ (ground (arith, known));
    forgotten = ground (arith, lookup-erase ev.trade_id ev.trade_id p.applied, ==_refl ev.trade_id);
  }

  failed-closed :
      (ev : TradeEvent F) (cid : String) (p : Processor F)
      → IsClosed ev.trade_id p
      → ((on_failed ev cid p).store.positions ≡ p.store.positions)
        × ((on_failed ev cid p).filled ≡ p.filled)
  unfolding on_failed clear_inflight
  failed-closed ev cid p c =
      let e : lookup ev.trade_id p.applied ≡ none = ground (arith, c.forgotten) in
      let refused = reverse_fill-refused ev.trade_id p.store c.settled in
      rw (e, refused, on_failed) (ap (λ r. r.0.positions) refused, refl)

  on_trade-confirmed :
      (ev : TradeEvent F) (cid : String) (now : F) (p : Processor F)
      → ev.status ≡ confirmed
      → on_trade ev cid now p ≡ on_confirmed ev cid p
  unfolding on_trade
  on_trade-confirmed ev cid now p e = rw (e, on_trade) refl

  on_trade-failed :
      (ev : TradeEvent F) (cid : String) (now : F) (p : Processor F)
      → ev.status ≡ failed
      → on_trade ev cid now p ≡ on_failed ev cid p
  unfolding on_trade
  on_trade-failed ev cid now p e = rw (e, on_trade) refl

  -- Once a recorded trade is CONFIRMED, then after any further trade events a FAILED event for it
  -- leaves every position as it is and reports nothing to the risk manager.
  pub on_failed_after_confirmed :
      (conf fail : TradeEvent F) (cid cid' : String) (now now' : F)
      (evs : List (TradeEvent F × String × F)) (p : Processor F)
      → conf.status ≡ confirmed
      → fail.status ≡ failed
      → fail.trade_id ≡ conf.trade_id
      → Recorded conf.trade_id p.store
      → let q = on_trades evs (on_trade conf cid now p) in
        ((on_trade fail cid' now' q).store.positions ≡ q.store.positions)
        × ((on_trade fail cid' now' q).filled ≡ q.filled)
  on_failed_after_confirmed conf fail cid cid' now now' evs p isc isf same known =
      rw
        (
          on_trade-confirmed conf cid now p isc,
          on_trade-failed fail cid' now' (on_trades evs (on_confirmed conf cid p)) isf,
        )
        (failed-closed fail cid' (on_trades evs (on_confirmed conf cid p)) (
          subst (λ id. IsClosed id (on_trades evs (on_confirmed conf cid p))) (sym same)
            (on_trades-IsClosed conf.trade_id evs (on_confirmed conf cid p)
              (confirmed-IsClosed conf cid p known))))
