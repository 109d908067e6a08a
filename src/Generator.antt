-- ===== src/Generator.antt =====
-- strategy/indicator/indicators_generator.hpp: figures of the trades between two books, and
-- strategy/indicator/order_book_imbalance.cc. Vectors are lists with the newest element first. The
-- file that the destructor writes is not modelled.
pub mod Columns
mod Tests
use crypto_bot.Prelude.{
  ℕ, zero, suc, ◌&&◌, Bool, true, false, if◌then◌else◌, String, List, [], ◌∷◌, Outcome, ok, throws,
  ◌>>=◌, aborted, undefined, length, reverse, leb, ◌==◌, not,
}
use crypto_bot.Double.{Double}
use crypto_bot.OrderBook.{OrderBook, PriceLevel, get_best_bid, get_best_ask}
use crypto_bot.Ticker.{Ticker}
use crypto_bot.Symbol.{SymbolPairId}

-- `TradeTicker`
pub record TradeTicker {ℓ} (D : Type ℓ) : Type ℓ where
  pub event_time : ℕ
  pub trade_time : ℕ
  pub symbol : SymbolPairId
  pub exchange : String
  pub trade_id : String
  pub price : D
  pub qty : D
  pub is_market_maker : Bool
  pub arrived_ts : ℕ

pub record IndicatorsGenerator {ℓ} (D : Type ℓ) : Type ℓ where
  pub last_ts : ℕ
  pub sell_weighted_price_sum : D
  pub buy_weighted_price_sum : D
  pub market_sell_vol : D
  pub market_buy_vol : D
  pub mid_price : D
  pub sell_trade_prices : List D
  pub buy_trade_prices : List D
  pub sell_volumes : List D
  pub buy_volumes : List D
  pub mid_prices : List D
  pub imbalances_01 : List D
  pub imbalances_1 : List D
  pub imbalances_10 : List D

module _ {ℓ} {D : Type ℓ} ⦃d : Double D⦄ where
  -- A loop of `OrderBookImbalance::Calculate`, from the best level on.
  unfoldable pub sum_while : (ℕ → Bool) → D → List (PriceLevel D) → D
  sum_while within sum [] = sum
  sum_while within sum (l ∷ ls) =
      let rest = sum_while within (d.add sum l.volume) ls in if within l.price then rest else sum

  -- `OrderBookImbalance::Calculate` by a number of levels: the bids from the worst one on, and all
  -- asks.
  abbrev sum_first : ℕ → D → List (PriceLevel D) → D
  sum_first zero sum ls = sum
  sum_first (suc limit) sum [] = sum
  sum_first (suc limit) sum (l ∷ ls) = sum_first limit (d.add sum l.volume) ls

  abbrev pub calculate_imbalance_by_limit : OrderBook D → ℕ → D
  calculate_imbalance_by_limit ob limit =
      let bid_vol_sum = sum_first limit (d.of_ℕ 0) ob.bids in
      let ask_vol_sum = sum_first (length ob.asks) (d.of_ℕ 0) ob.asks in
      d.div bid_vol_sum (d.add bid_vol_sum ask_vol_sum)

  abbrev pub imbalance_of : D → D → OrderBook D → D
  imbalance_of low high ob =
      let bid_vol_sum = sum_while (λ p. leb (d.to_ℕ low) p) (d.of_ℕ 0) (reverse ob.bids) in
      let ask_vol_sum = sum_while (λ p. leb p (d.to_ℕ high)) (d.of_ℕ 0) (reverse ob.asks) in
      d.div bid_vol_sum (d.add bid_vol_sum ask_vol_sum)

  abbrev is_empty_side : List (PriceLevel D) → Bool
  is_empty_side [] = true
  is_empty_side (l ∷ ls) = false

  abbrev pub has_levels : OrderBook D → Bool
  has_levels ob = not (is_empty_side ob.bids) && not (is_empty_side ob.asks)

  -- `OrderBookImbalance::Calculate` by a share of the price. Its log reads the first and the last
  -- level of both sides, which is undefined for an empty side.
  unfoldable pub calculate_imbalance : OrderBook D → D → Outcome D
  unfolding sum_while get_best_bid get_best_ask
  calculate_imbalance ob depth_coeff =
      if has_levels ob
      then ok (
          imbalance_of (d.mul (d.sub (d.lit 10 1) depth_coeff) (d.of_ℕ (get_best_bid ob).price))
            (d.mul (d.add (d.lit 10 1) depth_coeff) (d.of_ℕ (get_best_ask ob).price)) ob)
      else throws undefined

  unfoldable pub new_generator : IndicatorsGenerator D
  new_generator = record {
    last_ts = 0;
    sell_weighted_price_sum = d.of_ℕ 0;
    buy_weighted_price_sum = d.of_ℕ 0;
    market_sell_vol = d.of_ℕ 0;
    market_buy_vol = d.of_ℕ 0;
    mid_price = d.of_ℕ 0;
    sell_trade_prices = [];
    buy_trade_prices = [];
    sell_volumes = [];
    buy_volumes = [];
    mid_prices = [];
    imbalances_01 = [];
    imbalances_1 = [];
    imbalances_10 = [];
  }

  -- The assertions of the three handlers.
  abbrev pub asserted : Bool → Outcome (IndicatorsGenerator D) → Outcome (IndicatorsGenerator D)
  asserted true r = r
  asserted false r = throws aborted

  unfoldable pub on_book_ticker : Ticker D → IndicatorsGenerator D → Outcome (IndicatorsGenerator D)
  on_book_ticker t g =
      asserted (leb g.last_ts t.arrived_ts && (length g.imbalances_1 == length g.sell_trade_prices))
        (ok
          (record g { mid_price = d.div (d.add t.bid t.ask) (d.lit 20 1); last_ts = t.arrived_ts }))

  abbrev pub traded : TradeTicker D → IndicatorsGenerator D → IndicatorsGenerator D
  traded t g =
      if t.is_market_maker
      then record g {
        market_sell_vol = d.add g.market_sell_vol t.qty;
        sell_weighted_price_sum = d.add g.sell_weighted_price_sum (d.mul t.price t.qty);
        last_ts = t.arrived_ts;
      }
      else record g {
        market_buy_vol = d.add g.market_buy_vol t.qty;
        buy_weighted_price_sum = d.add g.buy_weighted_price_sum (d.mul t.price t.qty);
        last_ts = t.arrived_ts;
      }

  unfoldable pub on_trade_ticker :
      TradeTicker D → IndicatorsGenerator D → Outcome (IndicatorsGenerator D)
  on_trade_ticker t g =
      asserted
        (leb g.last_ts t.arrived_ts
          && (length g.imbalances_01 == length g.buy_trade_prices)
          && (length g.imbalances_1 == length g.buy_trade_prices)
          && (length g.imbalances_10 == length g.buy_trade_prices))
        (ok (traded t g))

  abbrev pub collected : D → D → D → ℕ → IndicatorsGenerator D → IndicatorsGenerator D
  collected i01 i1 i10 ts g =
      let volume = d.add g.market_sell_vol g.market_buy_vol in
      record g {
        sell_trade_prices = d.div g.sell_weighted_price_sum volume ∷ g.sell_trade_prices;
        buy_trade_prices = d.div g.buy_weighted_price_sum volume ∷ g.buy_trade_prices;
        imbalances_01 = i01 ∷ g.imbalances_01;
        imbalances_1 = i1 ∷ g.imbalances_1;
        imbalances_10 = i10 ∷ g.imbalances_10;
        sell_volumes = g.market_sell_vol ∷ g.sell_volumes;
        buy_volumes = g.market_buy_vol ∷ g.buy_volumes;
        mid_prices = g.mid_price ∷ g.mid_prices;
        sell_weighted_price_sum = d.of_ℕ 0;
        buy_weighted_price_sum = d.of_ℕ 0;
        market_sell_vol = d.of_ℕ 0;
        market_buy_vol = d.of_ℕ 0;
        last_ts = ts;
      }

  unfoldable pub on_order_book_update :
      OrderBook D → IndicatorsGenerator D → Outcome (IndicatorsGenerator D)
  unfolding calculate_imbalance
  on_order_book_update ob g = do
    i01 ← calculate_imbalance ob (d.lit 1 3)
    i1 ← calculate_imbalance ob (d.lit 1 2)
    i10 ← calculate_imbalance ob (d.lit 10 2)
    asserted
        (leb g.last_ts ob.last_update.arrived_ts
          && (length g.imbalances_01 == length g.sell_trade_prices)
          && (length g.imbalances_1 == length g.sell_trade_prices)
          && (length g.imbalances_10 == length g.sell_trade_prices))
        (ok (collected i01 i1 i10 ob.last_update.arrived_ts g))
