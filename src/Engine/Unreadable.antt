-- ===== src/Engine/Unreadable.antt =====
-- src/polymaker/engine.py: a read of the exchange that failed is never taken for an empty account.
use polymaker.Prelude.{
  arith, ℕ, ◌≡◌, refl, ap, ◌∙◌, String, Bool, true, false, Option, none, some, List, [], ◌∷◌, map,
  Dict, values, Unique, if◌then◌else◌,
}
use polymaker.Float.{Float, num, ◌*◌}
use polymaker.Domain.{OpenOrder, Position, ProtocolVersion}
use polymaker.Ledger.{ledger_for}
use polymaker.Store.{
  StateStore, expire_inflight, drop_guards, adopt_positions, zero_absent, set_position,
  put_position, reconcile_positions, replace_open_orders,
}
use polymaker.Gateway.Account.{token_balances}
use polymaker.Gateway.Routed.{token_balances-none}
use polymaker.Engine.{Market, Settings, Engine, wake_all, wake_cid}
use polymaker.Engine.Sync.{
  refresh_token_orders, adopt_read, adopt_orders, reconcile_round, recover_markets, heartbeat_beat,
  check_position_divergence, correct_positions, resync_markets, resync_token, wake_tokens,
  only_traded,
}
use polymaker.Engine.Divergence.{watched, watched_as, watched-Unique, watched-lookup}

-- What the engine believes of the account.
pub record SameAccount {F : Type 0} (s s' : StateStore F) : Type 0 where
  pub positions : s'.positions ≡ s.positions
  pub orders : s'.orders ≡ s.orders
  pub position_rows : s'.position_rows ≡ s.position_rows

-- The positions are as they were, in memory and in the table.
abbrev pub SamePositions : {F : Type 0} → StateStore F → StateStore F → Type 0
SamePositions s s' = (s'.positions ≡ s.positions) × (s'.position_rows ≡ s.position_rows)

module _ {F : Type 0} where
  same_account : (s : StateStore F) → SameAccount s s
  same_account s = record { positions = refl; orders = refl; position_rows = refl }

  drop_guards-SameAccount :
      (ts : List String) (s s' : StateStore F)
      → SameAccount s s'
      → SameAccount s (drop_guards ts s')
  unfolding drop_guards
  drop_guards-SameAccount [] s s' h = h
  drop_guards-SameAccount (t ∷ ts) s s' h =
      drop_guards-SameAccount ts s _
        (record { positions = h.positions; orders = h.orders; position_rows = h.position_rows })

module _ {D F : Type 0} ⦃fl : Float F⦄ where
  recover-store :
      (ms : List (Market F)) (now : F) (e : Engine D F)
      → (recover_markets (map (λ m. (m, none)) ms) now e).store ≡ e.store
  unfolding recover_markets refresh_token_orders
  recover-store [] now e = refl
  recover-store (m ∷ ms) now e = recover-store ms now e

module _ {F : Type 0} ⦃fl : Float F⦄ where
  resync_markets-SamePositions :
      (ms : Dict (Market F)) (now : F) (live : List (OpenOrder F)) (s : StateStore F)
      → SamePositions s (resync_markets ms now live s)
  unfolding resync_markets resync_token replace_open_orders
  resync_markets-SamePositions [] now live s = (refl, refl)
  resync_markets-SamePositions ((cid, m) ∷ ms) now live s =
      let (p, q) = resync_markets-SamePositions ms now live _ in
      (p ∙ ground arith, q ∙ ground arith)

  adopt_positions-orders :
      (now : F) (api : Dict (F × F)) (s : StateStore F)
      → (adopt_positions now api s).orders ≡ s.orders
  unfolding adopt_positions set_position put_position
  adopt_positions-orders now [] s = refl
  adopt_positions-orders now ((t, (size, avg)) ∷ api) s =
      adopt_positions-orders now api _ ∙ ground arith

  zero_absent-orders :
      (now : F) (api : Dict (F × F)) (ps : Dict (Position F)) (s : StateStore F)
      → (zero_absent now api ps s).0.orders ≡ s.orders
  unfolding zero_absent set_position put_position
  zero_absent-orders now api [] s = refl
  zero_absent-orders now api ((t, pos) ∷ ps) s = zero_absent-orders now api ps _ ∙ ground arith

  expire-SameAccount :
      (max_age now : F) (s : StateStore F) → SameAccount s (expire_inflight max_age now s).0
  unfolding expire_inflight
  expire-SameAccount max_age now s = drop_guards-SameAccount _ s s (same_account s)

module _ {D F : Type 0} ⦃fl : Float F⦄ where
  wake_tokens-store : (ts : List String) (e : Engine D F) → (wake_tokens ts e).store ≡ e.store
  unfolding wake_tokens wake_cid
  wake_tokens-store [] e = refl
  wake_tokens-store (t ∷ ts) e = wake_tokens-store ts _ ∙ ground arith

  wake_if-store : (b : Bool) (e : Engine D F) → (if b then wake_all e else e).store ≡ e.store
  unfolding wake_all
  wake_if-store true e = refl
  wake_if-store false e = refl

  adopt_orders-SamePositions :
      (now : F) (live : Option (List (OpenOrder F))) (e : Engine D F)
      → SamePositions e.store (adopt_orders now live e).store
  unfolding adopt_orders
  adopt_orders-SamePositions now none e = (refl, refl)
  adopt_orders-SamePositions now (some live) e =
      resync_markets-SamePositions e.markets now live e.store

  adopt_read-orders :
      (now : F) (read : Option (Dict (F × F))) (e : Engine D F)
      → (adopt_read now read e).store.orders ≡ e.store.orders
  unfolding adopt_read reconcile_positions
  adopt_read-orders now none e = refl
  adopt_read-orders now (some read) e =
      let s = adopt_positions now (only_traded e.token_cid read) e.store in
      let (t, zeroed) = reconcile_positions (only_traded e.token_cid read) true now e.store in
      ap (λ x. x.orders) (wake_tokens-store zeroed (record e { store = t }))
      ∙ zero_absent-orders now (only_traded e.token_cid read) s.positions s
      ∙ adopt_positions-orders now (only_traded e.token_cid read) e.store

  -- A round whose position read fails keeps the positions, whatever the read of the orders says.
  round-SamePositions :
      (cfg : Settings F) (now : F) (live : Option (List (OpenOrder F))) (e : Engine D F)
      → SamePositions e.store (reconcile_round cfg now none live e).store
  unfolding reconcile_round adopt_read
  round-SamePositions cfg now live e =
      let (s, gone) = expire_inflight (cfg.reconcile_interval_s * num 2) now e.store in
      let kept = expire-SameAccount (cfg.reconcile_interval_s * num 2) now e.store in
      let timed = record e { store = s; reconcile_now = false } in
      let (p, q) = adopt_orders-SamePositions now live timed in
      let same = wake_if-store e.reconcile_now (adopt_orders now live timed) in
      (
        ap (λ x. x.positions) same ∙ p ∙ kept.positions,
        ap (λ x. x.position_rows) same ∙ q ∙ kept.position_rows,
      )

  -- A round whose orders read fails keeps the open orders, whatever the read of the positions says.
  round-SameOrders :
      (cfg : Settings F) (now : F) (read : Option (Dict (F × F))) (e : Engine D F)
      → (reconcile_round cfg now read none e).store.orders ≡ e.store.orders
  unfolding reconcile_round adopt_orders
  round-SameOrders cfg now read e =
      let (s, gone) = expire_inflight (cfg.reconcile_interval_s * num 2) now e.store in
      let timed = record e { store = s; reconcile_now = false } in
      ap (λ x. x.orders) (wake_if-store e.reconcile_now (adopt_read now read timed))
      ∙ adopt_read-orders now read timed
      ∙ (expire-SameAccount (cfg.reconcile_interval_s * num 2) now e.store).orders

  beat_store :
      (cfg : Settings F) (now : F) (ok : Bool) (failures : ℕ) (e : Engine D F)
      → (heartbeat_beat cfg now ok failures (λ m. none) e).store ≡ e.store
  unfolding heartbeat_beat wake_all
  beat_store cfg now ok failures e = ground (
    arith,
    recover-store (values e.markets) now
        (record e { heartbeat_failures = failures; hb_was_down = false }),
  )

  divergence_store :
      (read : Dict ProtocolVersion → Option (Dict F)) (e : Engine D F)
      → read (watched e) ≡ none
      → (check_position_divergence read e).store ≡ e.store
  unfolding check_position_divergence
  divergence_store read e h = no_answer (watched e) h
    where
      no_answer :
          (versions : Dict ProtocolVersion)
          → read versions ≡ none
          → (elim versions as (λ x. Engine D F) [
            | [] ↦ e
            | v ∷ vs ↦ elim (read (v ∷ vs)) [ none ↦ e | some o ↦ correct_positions o e ]
          ]).store
            ≡ e.store
      no_answer [] k = refl
      no_answer (v ∷ vs) k = rw k refl

  -- A read that fails is no answer. A reconcile round whose position read fails keeps every position and
  -- its row, whatever the orders read says; one whose orders read fails keeps every open order,
  -- whatever the position read says. A heartbeat recovery whose order reads fail changes nothing of
  -- the account; and neither does a divergence check when the balance of a single token it asks for
  -- cannot be read, whatever the other balances are.
  pub unreadable-SameAccount :
      (cfg : Settings F) (now : F) (ok : Bool) (failures : ℕ) (e : Engine D F)
      (live : Option (List (OpenOrder F))) (read : Option (Dict (F × F))) (rpc : Bool)
      (balance_of : String → String → Option F) (t : String) (v : ProtocolVersion)
      → Unique e.token_cid
      → watched_as e t ≡ some v
      → balance_of (ledger_for v) t ≡ none
      → SamePositions e.store (reconcile_round cfg now none live e).store
        × ((reconcile_round cfg now read none e).store.orders ≡ e.store.orders)
        × SameAccount e.store (heartbeat_beat cfg now ok failures (λ m. none) e).store
        × SameAccount e.store (check_position_divergence (token_balances rpc balance_of) e).store
  unreadable-SameAccount cfg now ok failures e live read rpc balance_of t v u w h = (
    round-SamePositions cfg now live e,
    round-SameOrders cfg now read e,
    rw (beat_store cfg now ok failures e) (same_account e.store),
    rw
        (divergence_store (token_balances rpc balance_of) e (
          token_balances-none rpc balance_of (watched e) t v (watched-Unique e u)
            (watched-lookup e t ∙ w) h))
        (same_account e.store),
  )
