-- ===== src/Engine/Fills.antt =====
-- src/polymaker/engine.py: which fills reach the cash ledger and the markouts.
use polymaker.Prelude.{
  if◌then◌else◌, select, ◌≡◌, refl, inl, inr, Bool, Bool-cases, Option-cases, is_some, String, some,
  List, [], ◌∷◌, lookup, lookup-insert, arith, ◌==◌, ==→≡,
}
use polymaker.Float.{Float}
use polymaker.Domain.{Fill}
use polymaker.Risk.{RiskManager, note_fill}
use polymaker.Engine.{Market, Engine, put_market, market_of_token, sync_position_clock, on_fill}

module _ {F : Type 0} where
  select_same :
      (p q : Fill F → Bool) (fs : List (Fill F))
      → ((f : Fill F) → p f ≡ q f)
      → select p fs ≡ select q fs
  select_same p q [] h = refl
  select_same p q (f ∷ fs) h = rw (h f, select_same p q fs h) refl

module _ {D F : Type 0} where
  -- A fill of a token that the engine quotes.
  abbrev pub tracked : Engine D F → Fill F → Bool
  tracked e f = is_some (market_of_token f.token_id e)

module _ {F : Type 0} ⦃fl : Float F⦄ where
  -- The cash ledger fed with each fill.
  abbrev pub note_fills : List (Fill F) → RiskManager F → RiskManager F
  note_fills [] rm = rm
  note_fills (f ∷ fs) rm = note_fills fs (note_fill f rm)

module _ {D F : Type 0} ⦃fl : Float F⦄ where
  -- The calls of the processor's `on_fill` callback, in order.
  unfoldable pub on_fills : (String → Bool) → List (Fill F) → Engine D F → Engine D F
  on_fills is_reversal [] e = e
  on_fills is_reversal (f ∷ fs) e = on_fills is_reversal fs (on_fill is_reversal f e)

  put_market-tracked :
      (cid : String) (m m' : Market F) (e : Engine D F) (t : String)
      → lookup cid e.markets ≡ some m'
      → is_some (market_of_token t (put_market cid m e)) ≡ is_some (market_of_token t e)
  unfolding put_market market_of_token
  put_market-tracked cid m m' e t h = elim (Option-cases (lookup t e.token_cid)) [
    | inl k ↦ rw (k, market_of_token) refl
    | inr (c, k) ↦
        rw (k, market_of_token)
          (elim (Bool-cases (cid == c)) [
            | inl f ↦ rw (lookup-insert cid c m e.markets, f, ← ==→≡ cid c f, h) refl
            | inr f ↦ rw (lookup-insert cid c m e.markets, f) refl
          ])
  ]

  market_of_token-found :
      (t cid : String) (m : Market F) (e : Engine D F)
      → market_of_token t e ≡ some (cid, m)
      → lookup cid e.markets ≡ some m
  unfolding market_of_token
  market_of_token-found t cid m e h = ground arith

  on_fill-tracked :
      (is_reversal : String → Bool) (f : Fill F) (e : Engine D F) (t : String)
      → is_some (market_of_token t (on_fill is_reversal f e)) ≡ is_some (market_of_token t e)
  unfolding on_fill sync_position_clock
  on_fill-tracked is_reversal f e t = elim (Option-cases (market_of_token f.token_id e)) [
    | inl h ↦ rw (h, on_fill) refl
    | inr ((cid, m), h) ↦
        rw (h, on_fill)
          (elim (Bool-cases (is_reversal f.trade_id)) [
            | inl r ↦ rw r refl
            | inr r ↦
                rw r (put_market-tracked cid _ m e t (market_of_token-found f.token_id cid m e h))
          ])
  ]

  on_fill-risk :
      (is_reversal : String → Bool) (f : Fill F) (e : Engine D F)
      → (on_fill is_reversal f e).risk_manager
        ≡ (if tracked e f then note_fill f e.risk_manager else e.risk_manager)
  unfolding on_fill put_market sync_position_clock
  on_fill-risk is_reversal f e = elim (Option-cases (market_of_token f.token_id e)) [
    | inl h ↦ rw (h, on_fill) refl
    | inr ((cid, m), h) ↦
        rw (h, on_fill)
          (elim (Bool-cases (is_reversal f.trade_id)) [ inl r ↦ rw r refl | inr r ↦ rw r refl ])
  ]

  -- Whatever fills and reversals are reported, in any order, the cash ledger is the one that counts
  -- exactly those of tokens that the engine quotes, reversals included, each once and in the order
  -- reported: a manual trade in another market never moves it.
  pub on_fills-note_fills :
      (is_reversal : String → Bool) (fs : List (Fill F)) (e : Engine D F)
      → (on_fills is_reversal fs e).risk_manager ≡ note_fills (select (tracked e) fs) e.risk_manager
  unfolding on_fills
  on_fills-note_fills is_reversal [] e = refl
  on_fills-note_fills is_reversal (f ∷ fs) e =
      rw
        (
          on_fills-note_fills is_reversal fs (on_fill is_reversal f e),
          select_same (tracked (on_fill is_reversal f e)) (tracked e) fs
              (λ g. on_fill-tracked is_reversal f e g.token_id),
          on_fill-risk is_reversal f e,
        )
        (elim (Bool-cases (tracked e f)) [ inl h ↦ rw h refl | inr h ↦ rw h refl ])
