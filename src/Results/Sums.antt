-- ===== src/Results/Sums.antt =====
-- What the rows of backtest/backtest_results_processor.cc hold, on amounts that are integers.
use crypto_bot.Prelude.{
  ◌≡◌, refl, sym, ap, ◌∙◌, inl, inr, Bool, true, false, ◌||◌, Option, none, some, String, List, [],
  ◌∷◌, map, All, if◌then◌else◌, Bool-cases,
}
use crypto_bot.Prelude.Int.{ℤ, pos, ◌+ℤ◌, int_laws}
use crypto_bot.Assoc.{find, insert_or_assign, find-insert_or_assign, beq_refl, eq_of_beq}
use crypto_bot.Symbol.{SymbolId, asset_eq, asset_eq_key, string_key}
use crypto_bot.Double.{exact}
use crypto_bot.AccountBalance.{AccountBalance}
use crypto_bot.Results.{
  Balances, ResultsProcessor, amount_or_nought, add_balances, add_exchanges,
  get_cumulative_balances, write_row, on_account_balance_update,
}

-- What the balances of an exchange hold of an asset, and whether they name it.
abbrev pub holding : SymbolId → Balances ℤ → ℤ
holding a [] = pos 0
holding a ((b, x) ∷ m) = if asset_eq b a then x +ℤ holding a m else holding a m

abbrev pub names : SymbolId → Balances ℤ → Bool
names a [] = false
names a ((b, x) ∷ m) = asset_eq b a || names a m

-- The same over all exchanges.
abbrev pub total_holding : SymbolId → List (String × Balances ℤ) → ℤ
total_holding a [] = pos 0
total_holding a ((e, m) ∷ ms) = holding a m +ℤ total_holding a ms

abbrev pub is_named : SymbolId → List (String × Balances ℤ) → Bool
is_named a [] = false
is_named a ((e, m) ∷ ms) = names a m || is_named a ms

-- An entry with more added to it.
abbrev raised : Bool → ℤ → Option ℤ → Option ℤ
raised false x old = old
raised true x none = some x
raised true x (some y) = some (y +ℤ x)

holding_unnamed : (a : SymbolId) (m : Balances ℤ) → names a m ≡ false → holding a m ≡ pos 0
holding_unnamed a [] h = refl
holding_unnamed a ((b, x) ∷ m) h = elim (Bool-cases (asset_eq b a)) [
  | inl e ↦ absurd (true_is_not_false (sym (ap (λ t. t || names a m) e) ∙ h))
  | inr e ↦ rw e (holding_unnamed a m (sym (ap (λ t. t || names a m) e) ∙ h))
]
  where
    true_is_not_false : true ≡ false → ⊥
    true_is_not_false t = cc

raised_twice :
    (n : Bool) (h x : ℤ) (o : Option ℤ)
    → (n ≡ false → h ≡ pos 0)
    → raised n h (some (amount_or_nought o +ℤ x)) ≡ raised true (x +ℤ h) o
raised_twice false h x none z = rw (z refl) (ap some (omega int_laws))
raised_twice false h x (some y) z = rw (z refl) (ap some (omega int_laws))
raised_twice true h x none z = ap some (omega int_laws)
raised_twice true h x (some y) z = ap some (omega int_laws)

find-add_balances :
    (a : SymbolId) (m res : Balances ℤ)
    → find a (add_balances m res) ≡ raised (names a m) (holding a m) (find a res)
unfolding add_balances
find-add_balances a [] res = refl
find-add_balances a ((b, x) ∷ m) res =
    find-add_balances a m (insert_or_assign b (amount_or_nought (find b res) +ℤ x) res)
    ∙ ap (raised (names a m) (holding a m))
        (find-insert_or_assign b a (amount_or_nought (find b res) +ℤ x) res)
    ∙ elim (Bool-cases (asset_eq b a)) [
      | inl e ↦
          let same : b ≡ a = eq_of_beq b a e in
          rw (same, beq_refl a)
            (raised_twice (names a m) (holding a m) x (find a res) (holding_unnamed a m))
      | inr e ↦ rw e refl
    ]

total_unnamed :
    (a : SymbolId) (ms : List (String × Balances ℤ))
    → is_named a ms ≡ false
    → total_holding a ms ≡ pos 0
total_unnamed a [] h = refl
total_unnamed a ((e, m) ∷ ms) h =
    by_first (names a m) (is_named a ms) h (holding_unnamed a m) (total_unnamed a ms)
  where
    by_first :
        (n k : Bool)
        → (n || k) ≡ false
        → (n ≡ false → holding a m ≡ pos 0)
        → (k ≡ false → total_holding a ms ≡ pos 0)
        → holding a m +ℤ total_holding a ms ≡ pos 0
    by_first true k t z y = absurd cc
    by_first false true t z y = absurd cc
    by_first false false t z y = rw (z refl, y refl) (omega int_laws)

raised_both :
    (n k : Bool) (h t : ℤ) (o : Option ℤ)
    → (n ≡ false → h ≡ pos 0)
    → (k ≡ false → t ≡ pos 0)
    → raised k t (raised n h o) ≡ raised (n || k) (h +ℤ t) o
raised_both false false h t o z y = refl
raised_both false true h t none z y = rw (z refl) (ap some (omega int_laws))
raised_both false true h t (some x) z y = rw (z refl) (ap some (omega int_laws))
raised_both true false h t none z y = rw (y refl) (ap some (omega int_laws))
raised_both true false h t (some x) z y = rw (y refl) (ap some (omega int_laws))
raised_both true true h t none z y = refl
raised_both true true h t (some x) z y = ap some (omega int_laws)

find-add_exchanges :
    (a : SymbolId) (ms : List (String × Balances ℤ)) (res : Balances ℤ)
    → find a (add_exchanges ms res) ≡ raised (is_named a ms) (total_holding a ms) (find a res)
unfolding add_exchanges
find-add_exchanges a [] res = refl
find-add_exchanges a ((e, m) ∷ ms) res =
    find-add_exchanges a ms (add_balances m res)
    ∙ ap (raised (is_named a ms) (total_holding a ms)) (find-add_balances a m res)
    ∙ raised_both (names a m) (is_named a ms) (holding a m) (total_holding a ms) (find a res)
        (holding_unnamed a m) (total_unnamed a ms)

find-get_cumulative_balances :
    (a : SymbolId) (ms : List (String × Balances ℤ))
    → is_named a ms ≡ true
    → find a (get_cumulative_balances ms) ≡ some (total_holding a ms)
unfolding get_cumulative_balances find
find-get_cumulative_balances a ms h = find-add_exchanges a ms [] ∙ rw h refl

write_row-totals :
    (ms : List (String × Balances ℤ)) (symbols : List SymbolId)
    → All (λ a. is_named a ms ≡ true) symbols
    → write_row (get_cumulative_balances ms) symbols ≡ (map (λ a. total_holding a ms) symbols, none)
unfolding write_row
write_row-totals ms [] h = refl
write_row-totals ms (a ∷ as') (h, hs) =
    rw (find-get_cumulative_balances a ms h, write_row-totals ms as' hs, write_row) refl

-- An exchange reports its balances. When each asset of the rows is named by the balances of some
-- exchange, that exchange's newest and the last ones of all others, then the row that is written
-- has for each asset what all the exchanges hold of it together.
pub on_account_balance_update-totals :
    (b : AccountBalance ℤ) (s : ResultsProcessor ℤ)
    → All
        (λ a.
          is_named a (insert_or_assign b.exchange b.asset_balance_map s.exchange_balances) ≡ true)
        s.symbols
    → (on_account_balance_update b s).1 ≡ (
      map
          (λ a.
            total_holding a (insert_or_assign b.exchange b.asset_balance_map s.exchange_balances))
          s.symbols,
      none,
    )
unfolding on_account_balance_update
on_account_balance_update-totals b s h =
    write_row-totals (insert_or_assign b.exchange b.asset_balance_map s.exchange_balances) s.symbols
      h
