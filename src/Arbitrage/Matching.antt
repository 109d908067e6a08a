-- ===== src/Arbitrage/Matching.antt =====
-- What `FindMatch` of arbitrage_strategy_matcher.cc finds.
use mathlib.Core.Path.{subst}
use mathlib.Core.Option.{some-injective}
use text.Mathlib.Text.{◌==◌ as str_eq}
use crypto_bot.Prelude.{
  ◌≡◌, refl, sym, ap, ◌∙◌, ◌⊎◌, inl, inr, Bool, true, false, ◌||◌, Option, some, String, List, [],
  ◌∷◌, ok, All, Bool-cases,
}
use crypto_bot.Assoc.{find}
use crypto_bot.Symbol.{string_key}
use crypto_bot.Double.{Double, IsStrict}
use crypto_bot.Double.Strict.{IsUp, IsUp-trans, not_above, not_below}
use crypto_bot.Ticker.{Ticker}
use crypto_bot.Arbitrage.{
  ExchangeParams, ArbitrageStrategyMatch, Best, see_ask, see_bid, scan, start, same_symbol,
  calculate_profit, match_of, match_best, find_match,
}

module _ {ℓ} {D : Type ℓ} ⦃d : Double D⦄ where
  -- Every ticker stands under its exchange, and that name finds it.
  abbrev pub IsIndexed : List (String × Ticker D) → Type ℓ
  IsIndexed tickers = All (λ p. find p.1.exchange tickers ≡ some p.1) tickers

  -- Nothing in the list bids more than the first price, or asks less than the second.
  abbrev pub IsBestOf : D → D → List (String × Ticker D) → Type 0
  IsBestOf bid ask = All (λ p. (d.lt bid p.1.bid ≡ false) × (d.lt p.1.ask ask ≡ false))

  module _ (strict : IsStrict D) where
    see-IsUp :
        (t : Ticker D) (b : Best D)
        → IsUp strict b.best_bid (see_bid t (see_ask t b)).best_bid
          × IsUp strict (see_bid t (see_ask t b)).best_ask b.best_ask
          × (d.lt (see_bid t (see_ask t b)).best_bid t.bid ≡ false)
          × (d.lt t.ask (see_bid t (see_ask t b)).best_ask ≡ false)
    see-IsUp t b = elim (Bool-cases (d.lt t.ask b.best_ask)) [
      | inl x ↦ elim (Bool-cases (d.lt b.best_bid t.bid)) [
        | inl y ↦ rw (x, y) (inr y, inr x, strict.lt_irrefl t.bid, strict.lt_irrefl t.ask)
        | inr y ↦ rw (x, y) (inl refl, inr x, y, strict.lt_irrefl t.ask)
      ]
      | inr x ↦ elim (Bool-cases (d.lt b.best_bid t.bid)) [
        | inl y ↦ rw (x, y) (inr y, inl refl, strict.lt_irrefl t.bid, x)
        | inr y ↦ rw (x, y) (inl refl, inl refl, y, x)
      ]
    ]

    scan-IsUp :
        (m : List (String × Ticker D)) (b : Best D)
        → IsUp strict b.best_bid (scan m b).best_bid × IsUp strict (scan m b).best_ask b.best_ask
    unfolding scan
    scan-IsUp [] b = (inl refl, inl refl)
    scan-IsUp ((k, t) ∷ m) b =
        let (h1, h2, _, _) = see-IsUp t b in
        let (k1, k2) = scan-IsUp m (see_bid t (see_ask t b)) in
        (IsUp-trans strict _ _ _ h1 k1, IsUp-trans strict _ _ _ k2 h2)

    scan-IsBestOf :
        (m : List (String × Ticker D)) (b : Best D)
        → IsBestOf (scan m b).best_bid (scan m b).best_ask m
    unfolding scan
    scan-IsBestOf [] b = tt
    scan-IsBestOf ((k, t) ∷ m) b =
        let (_, _, h3, h4) = see-IsUp t b in
        let (k1, k2) = scan-IsUp m (see_bid t (see_ask t b)) in
        (
          (not_above strict _ _ _ h3 k1, not_below strict _ _ _ h4 k2),
          scan-IsBestOf m (see_bid t (see_ask t b)),
        )

  -- The names that the scan holds are those of the prices that it holds.
  record IsNamed (tickers : List (String × Ticker D)) (b : Best D) : Type ℓ where
    bid_named :
        (b.best_bid_ex ≡ "")
        ⊎ ((t : Ticker D) × (find b.best_bid_ex tickers ≡ some t) × (t.bid ≡ b.best_bid))
    ask_named :
        (b.best_ask_ex ≡ "")
        ⊎ ((t : Ticker D) × (find b.best_ask_ex tickers ≡ some t) × (t.ask ≡ b.best_ask))

  see-IsNamed :
      (tickers : List (String × Ticker D)) (t : Ticker D) (b : Best D)
      → find t.exchange tickers ≡ some t
      → IsNamed tickers b
      → IsNamed tickers (see_bid t (see_ask t b))
  see-IsNamed tickers t b f n = elim (Bool-cases (d.lt t.ask b.best_ask)) [
    | inl x ↦ elim (Bool-cases (d.lt b.best_bid t.bid)) [
      | inl y ↦ rw (x, y) (record { bid_named = inr (t, f, refl); ask_named = inr (t, f, refl) })
      | inr y ↦ rw (x, y) (record { bid_named = n.bid_named; ask_named = inr (t, f, refl) })
    ]
    | inr x ↦ elim (Bool-cases (d.lt b.best_bid t.bid)) [
      | inl y ↦ rw (x, y) (record { bid_named = inr (t, f, refl); ask_named = n.ask_named })
      | inr y ↦ rw (x, y) n
    ]
  ]

  scan-IsNamed :
      (tickers m : List (String × Ticker D)) (b : Best D)
      → All (λ p. find p.1.exchange tickers ≡ some p.1) m
      → IsNamed tickers b
      → IsNamed tickers (scan m b)
  unfolding scan
  scan-IsNamed tickers [] b a n = n
  scan-IsNamed tickers ((k, t) ∷ m) b (f, a) n =
      scan-IsNamed tickers m (see_bid t (see_ask t b)) a (see-IsNamed tickers t b f n)

  match_of_lem :
      (params : List (String × ExchangeParams D)) (margin : D) (bid_ticker ask_ticker : Ticker D)
      (m : ArbitrageStrategyMatch D)
      → match_of params margin bid_ticker ask_ticker ≡ some m
      → (m.best_bid ≡ bid_ticker)
        × (m.best_ask ≡ ask_ticker)
        × (d.le (d.of_ℕ 0) m.profit ≡ true)
        × (m.profit ≡ calculate_profit params margin bid_ticker ask_ticker)
  match_of_lem params margin bid_ticker ask_ticker m h =
      elim (Bool-cases (d.le (d.of_ℕ 0) (calculate_profit params margin bid_ticker ask_ticker))) [
        | inr e ↦ absurd (cc (rw e at h))
        | inl e ↦
            let same = some-injective _ _ (rw e at h) in
            (
              sym (ap (λ r. r.best_bid) same),
              sym (ap (λ r. r.best_ask) same),
              ap (λ r. d.le (d.of_ℕ 0) r.profit) (sym same) ∙ e,
              sym (ap (λ r. r.profit) same),
            )
      ]

  match_best_lem :
      (params : List (String × ExchangeParams D)) (margin : D) (tickers : List (String × Ticker D))
      (b : Best D) (m : ArbitrageStrategyMatch D)
      → IsNamed tickers b
      → match_best params margin tickers b ≡ ok (some m)
      → (m.best_bid.bid ≡ b.best_bid)
        × (m.best_ask.ask ≡ b.best_ask)
        × (d.le (d.of_ℕ 0) m.profit ≡ true)
        × (m.profit ≡ calculate_profit params margin m.best_bid m.best_ask)
  match_best_lem params margin tickers b m n h =
      elim (Bool-cases (str_eq b.best_bid_ex "" || str_eq b.best_ask_ex "")) [
        | inl x ↦ absurd (cc (rw x at h))
        | inr x ↦ elim n.bid_named [
          | inl e ↦ absurd (cc (rw e at x))
          | inr (t, f, e) ↦ elim n.ask_named [
            | inl e' ↦ absurd (or_true (str_eq b.best_bid_ex "") (rw e' at x))
            | inr (u, g, e') ↦
                let (h1, h2, h3, h4) =
                  match_of_lem params margin t u m (ok_injective (rw (x, f, g) at h)) in
                (
                  ap (λ r. r.bid) h1 ∙ e,
                  ap (λ r. r.ask) h2 ∙ e',
                  h3,
                  h4
                      ∙ ap (λ r. calculate_profit params margin r u) (sym h1)
                      ∙ ap (calculate_profit params margin m.best_bid) (sym h2),
                )
          ]
        ]
      ]
    where
      or_true : (a : Bool) → (a || true) ≡ false → ⊥
      or_true true e = cc
      or_true false e = cc

      ok_injective : {x y : Option (ArbitrageStrategyMatch D)} → ok x ≡ ok y → x ≡ y
      ok_injective e = cc

  -- A match that `FindMatch` reports, where `<` is a strict order and every ticker stands under its
  -- exchange, is between the best prices there are: no exchange bids more than its bid ticker, and
  -- none asks less than its ask ticker. Its profit is that of `CalculateProfit` on the two, and is
  -- not below zero.
  pub find_match_best :
      (params : List (String × ExchangeParams D)) (margin : D) (tickers : List (String × Ticker D))
      (m : ArbitrageStrategyMatch D)
      → IsStrict D
      → IsIndexed tickers
      → find_match params margin tickers ≡ ok (some m)
      → IsBestOf m.best_bid.bid m.best_ask.ask tickers
        × (d.le (d.of_ℕ 0) m.profit ≡ true)
        × (m.profit ≡ calculate_profit params margin m.best_bid m.best_ask)
  unfolding find_match
  find_match_best params margin [] m strict a h = absurd cc
  find_match_best params margin ((k, t) ∷ ts) m strict a h =
      elim (Bool-cases (same_symbol t.symbol ((k, t) ∷ ts))) [
        | inr x ↦ absurd (cc (rw x at h))
        | inl x ↦
            let tickers = (k, t) ∷ ts in
            let named =
              scan-IsNamed tickers tickers start a
                (record { bid_named = inl refl; ask_named = inl refl }) in
            let (h1, h2, h3, h4) =
              match_best_lem params margin tickers (scan tickers start) m named (rw x at h) in
            (
              subst (λ p. IsBestOf p m.best_ask.ask tickers) (sym h1)
                  (subst (λ p. IsBestOf (scan tickers start).best_bid p tickers) (sym h2)
                    (scan-IsBestOf strict tickers start)),
              h3,
              h4,
            )
      ]
