-- ===== src/Results/Tests.antt =====
-- Tests and witnesses for backtest/backtest_results_processor.cc.
use crypto_bot.Prelude.{◌≡◌, refl, none, some, [], ◌∷◌, out_of_range}
use crypto_bot.Prelude.Int.{ℤ, pos, ◌+ℤ◌}
use crypto_bot.Assoc.{insert_or_assign}
use crypto_bot.Symbol.{btc, usdt, string_key}
use crypto_bot.Double.{exact}
use crypto_bot.AccountBalance.{AccountBalance}
use crypto_bot.Results.{ResultsProcessor, on_account_balance_update}
use crypto_bot.Results.Sums.{on_account_balance_update-totals}

abbrev processor : ResultsProcessor ℤ
processor = record {
  symbols = btc ∷ usdt ∷ [];
  exchange_balances = ("binance", (btc, pos 2) ∷ (usdt, pos 70) ∷ []) ∷ [];
}

abbrev kraken_balance : AccountBalance ℤ
kraken_balance = record {
  asset_balance_map = (usdt, pos 30) ∷ [];
  locked_balance_map = [];
  exchange = "kraken";
}

-- No exchange has reported bitcoins when the first row is written.
asset_missing :
    (on_account_balance_update kraken_balance (record processor { exchange_balances = [] })).1
    ≡ ([], some out_of_range)
unfolding on_account_balance_update
asset_missing = refl

on_account_balance_update-totals_example :
    (on_account_balance_update kraken_balance processor).1 ≡ (pos 2 ∷ pos 100 ∷ [], none)
unfolding insert_or_assign ◌+ℤ◌
on_account_balance_update-totals_example =
    on_account_balance_update-totals kraken_balance processor (refl, (refl, tt))
