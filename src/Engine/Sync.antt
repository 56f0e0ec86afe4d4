-- ===== src/Engine/Sync.antt =====
-- src/polymaker/engine.py: bringing the local state in line with what the exchange reports. A read
-- of the gateway is an argument; `none` is a read that failed.
use polymaker.Prelude.{
  ℕ, String, Bool, true, false, not, ◌&&◌, Option, none, some, List, [], ◌∷◌, ◌++◌, ◌==◌, leb,
  nat_eq, Dict, lookup, contains, values, keys, select, map, if◌then◌else◌,
}
use polymaker.Float.{Float, num, ◌-◌, ◌*◌, ◌<◌, max, abs}
use polymaker.Domain.{OpenOrder, ProtocolVersion}
use polymaker.Store.{
  StateStore, orders_for, remove_order, replace_open_orders, reconcile_positions, expire_inflight,
  inflight, position, force_set_position,
}
use polymaker.Risk.{reconcile_cash}
use polymaker.Engine.{
  Market, Settings, cancels_asset, Engine, yes_id, no_id, send, wake_cid, wake_all,
}

module _ {F : Type 0} where
  -- `[o for o in live if o.token_id == tok]`
  abbrev pub of_token : String → List (OpenOrder F) → List (OpenOrder F)
  of_token tok = select (λ o. o.token_id == tok)

  -- `remove_order` for each id.
  unfoldable pub remove_orders : List String → StateStore F → StateStore F
  remove_orders [] s = s
  remove_orders (id ∷ ids) s = remove_orders ids (remove_order id s)

  abbrev pub ids_of : List (OpenOrder F) → List String
  ids_of = map (λ o. o.order_id)

  -- `state.orders_for` of both tokens of a market.
  abbrev pub live_orders : Market F → StateStore F → List (OpenOrder F)
  live_orders m s = orders_for (yes_id m) s ++ orders_for (no_id m) s

  -- `_only_traded`
  unfoldable pub only_traded : Dict String → Dict (F × F) → Dict (F × F)
  only_traded token_cid [] = []
  only_traded token_cid ((t, v) ∷ ps) =
      let rest = only_traded token_cid ps in if contains t token_cid then (t, v) ∷ rest else rest

module _ {D F : Type 0} where
  -- The market of each token is woken.
  unfoldable pub wake_tokens : List String → Engine D F → Engine D F
  wake_tokens [] e = e
  wake_tokens (tok ∷ toks) e =
      wake_tokens toks (elim (lookup tok e.token_cid) [ none ↦ e | some cid ↦ wake_cid cid e ])

  -- `_token_versions`
  unfoldable pub token_versions : List String → Engine D F → Dict ProtocolVersion
  token_versions [] e = []
  token_versions (tok ∷ toks) e =
      let rest = token_versions toks e in
      elim (lookup tok e.token_cid) as (λ x. Dict ProtocolVersion) [
        | none ↦ rest
        | some cid ↦ elim (lookup cid e.markets) as (λ x. Dict ProtocolVersion) [
          | none ↦ rest
          | some m ↦ (tok, m.meta.version) ∷ rest
        ]
      ]

module _ {F : Type 0} ⦃fl : Float F⦄ where
  -- A token of the reconcile loop: an in-flight trade keeps its orders.
  unfoldable pub resync_token : String → F → List (OpenOrder F) → StateStore F → StateStore F
  resync_token tok now live s =
      if nat_eq (inflight s tok) 0
      then replace_open_orders tok (of_token tok live) (num 10) now s
      else s

  -- The loop over the markets of `_reconcile_loop`.
  unfoldable pub resync_markets :
      Dict (Market F) → F → List (OpenOrder F) → StateStore F → StateStore F
  unfolding resync_token
  resync_markets [] now live s = s
  resync_markets ((cid, m) ∷ ms) now live s =
      resync_markets ms now live
        (resync_token (no_id m) now live (resync_token (yes_id m) now live s))

module _ {D F : Type 0} ⦃fl : Float F⦄ where
  -- `_refresh_token_orders`: the engine after, and whether the read was good.
  unfoldable pub refresh_token_orders :
      Market F → F → F → Option (List (OpenOrder F)) → Engine D F → Engine D F × Bool
  refresh_token_orders m grace now none e = (e, false)
  refresh_token_orders m grace now (some live) e = (
    record e {
      store =
          replace_open_orders (no_id m) (of_token (no_id m) live) grace now
            (replace_open_orders (yes_id m) (of_token (yes_id m) live) grace now e.store);
    },
    true,
  )

  -- One token of the loop of `_quarantine`.
  unfoldable pub quarantine_token : String → Engine D F → Engine D F
  unfolding send remove_orders
  quarantine_token tok e =
      let e' = send (cancels_asset tok) e in
      record e' { store = remove_orders (ids_of (orders_for tok e'.store)) e'.store }

  unfoldable pub quarantine : Market F → F → Option (List (OpenOrder F)) → Engine D F → Engine D F
  unfolding quarantine_token refresh_token_orders
  quarantine m now listed e =
      (refresh_token_orders m (num 0) now listed
        (quarantine_token (no_id m) (quarantine_token (yes_id m) e))).0

  -- The position read of a round.
  unfoldable pub adopt_read : F → Option (Dict (F × F)) → Engine D F → Engine D F
  unfolding only_traded wake_tokens
  adopt_read now none e = e
  adopt_read now (some read) e =
      let (s, zeroed) = reconcile_positions (only_traded e.token_cid read) true now e.store in
      wake_tokens zeroed (record e { store = s })

  -- The open-orders read of a round.
  unfoldable pub adopt_orders : F → Option (List (OpenOrder F)) → Engine D F → Engine D F
  unfolding resync_markets
  adopt_orders now none e = e
  adopt_orders now (some live) e = record e { store = resync_markets e.markets now live e.store }

  -- A round of `_reconcile_loop`, up to its slower parts: the guards, the positions, the orders, and
  -- a wake-up of every market after a forced round.
  unfoldable pub reconcile_round :
      Settings F → F → Option (Dict (F × F)) → Option (List (OpenOrder F)) → Engine D F → Engine D F
  unfolding adopt_read adopt_orders wake_all
  reconcile_round cfg now read live e =
      let (s, expired) = expire_inflight (cfg.reconcile_interval_s * num 2) now e.store in
      let synced =
        adopt_orders now live
          (adopt_read now read (record e { store = s; reconcile_now = false })) in
      if e.reconcile_now then wake_all synced else synced

  -- The loop of `_check_position_divergence` over the balances on chain.
  unfoldable pub correct_positions : Dict F → Engine D F → Engine D F
  unfolding wake_tokens
  correct_positions [] e = e
  correct_positions ((tok, chain_size) ∷ onchain) e =
      let pos = position e.store tok in
      let fixed =
        wake_tokens (tok ∷ [])
          (record e { store = force_set_position tok chain_size pos.avg_price e.store }) in
      correct_positions onchain
        (if max (num 1) (fl.lit 2 2 * chain_size) < abs (pos.size - chain_size) then fixed else e)

  -- `_check_position_divergence`, given the gateway's `token_balances`.
  unfoldable pub check_position_divergence :
      (Dict ProtocolVersion → Option (Dict F)) → Engine D F → Engine D F
  unfolding token_versions correct_positions
  check_position_divergence token_balances e =
      let tokens = select (λ t. nat_eq (inflight e.store t) 0) (keys e.token_cid) in
      let versions = token_versions tokens e in
      elim versions [
        | [] ↦ e
        | v ∷ vs ↦ elim (token_balances (v ∷ vs)) [
          | none ↦ e
          | some onchain ↦ correct_positions onchain e
        ]
      ]

  -- `_reconcile_cash`
  unfoldable pub reconcile_cash_read : Settings F → Option F → Engine D F → Engine D F
  reconcile_cash_read cfg none e = e
  reconcile_cash_read cfg (some exchange_cash) e =
      if cfg.paper
      then e
      else record e { risk_manager = (reconcile_cash exchange_cash e.risk_manager).0 }

  -- The markets of the heartbeat recovery, with one open-orders read for each.
  unfoldable pub recover_markets :
      List (Market F × Option (List (OpenOrder F))) → F → Engine D F → Engine D F
  unfolding refresh_token_orders
  recover_markets [] now e = e
  recover_markets ((m, listed) ∷ ms) now e =
      recover_markets ms now (refresh_token_orders m (num 0) now listed e).0

  -- A beat of `_heartbeat_loop`: the gateway's answer, with the failures it counts after it.
  unfoldable pub heartbeat_beat :
      Settings F → F → Bool → ℕ → (Market F → Option (List (OpenOrder F))) → Engine D F → Engine D F
  unfolding recover_markets wake_all
  heartbeat_beat cfg now ok failures listed e =
      let e' = record e { heartbeat_failures = failures } in
      let recovered =
        recover_markets (map (λ m. (m, listed m)) (values e.markets)) now
          (record e' { hb_was_down = false }) in
      if not ok && (leb cfg.risk.heartbeat_halt_failures failures && not e.hb_was_down)
      then wake_all (record e' { hb_was_down = true })
      else if ok && e.hb_was_down
      then wake_all recovered
      else e'
