-- ===== src/Results.antt =====
-- backtest/backtest_results_processor.cc: the balances over all exchanges, one row for each update.
-- The texts of the numbers and the file are not modelled.
pub mod Sums
mod Tests
use crypto_bot.Prelude.{ℕ, Option, none, some, String, List, [], ◌∷◌, Fault, out_of_range}
use crypto_bot.Assoc.{find, insert_or_assign}
use crypto_bot.Symbol.{SymbolId, asset_eq_key, string_key}
use crypto_bot.Double.{Double}
use crypto_bot.AccountBalance.{AccountBalance}

abbrev pub Balances {ℓ} : Type ℓ → Type ℓ
Balances D = List (SymbolId × D)

-- `BacktestResultsProcessor`
pub record ResultsProcessor {ℓ} (D : Type ℓ) : Type ℓ where
  pub symbols : List SymbolId
  pub exchange_balances : List (String × Balances D)

module _ {ℓ} {D : Type ℓ} ⦃d : Double D⦄ where
  abbrev amount_or_nought : Option D → D
  amount_or_nought none = d.of_ℕ 0
  amount_or_nought (some x) = x

  -- The inner loop of `GetCumulativeBalances`.
  unfoldable pub add_balances : Balances D → Balances D → Balances D
  unfolding find insert_or_assign
  add_balances [] res = res
  add_balances ((asset, x) ∷ m) res =
      add_balances m (insert_or_assign asset (d.add (amount_or_nought (find asset res)) x) res)

  abbrev add_exchanges : List (String × Balances D) → Balances D → Balances D
  unfolding add_balances
  add_exchanges [] res = res
  add_exchanges ((exchange, m) ∷ ms) res = add_exchanges ms (add_balances m res)

  unfoldable pub get_cumulative_balances : List (String × Balances D) → Balances D
  unfolding add_exchanges
  get_cumulative_balances ms = add_exchanges ms []

  -- A row: what is written before the end or the exception.
  unfoldable pub write_row : Balances D → List SymbolId → List D × Option Fault
  unfolding find
  write_row balances [] = ([], none)
  write_row balances (a ∷ as') =
      let rest = write_row balances as' in
      elim (find a balances) [ none ↦ ([], some out_of_range) | some x ↦ (x ∷ rest.0, rest.1) ]

  -- `OnAccountBalanceUpdate`
  unfoldable pub on_account_balance_update :
      AccountBalance D → ResultsProcessor D → ResultsProcessor D × (List D × Option Fault)
  unfolding insert_or_assign get_cumulative_balances write_row
  on_account_balance_update b s =
      let balances = insert_or_assign b.exchange b.asset_balance_map s.exchange_balances in
      (
        record s { exchange_balances = balances },
        write_row (get_cumulative_balances balances) s.symbols,
      )
