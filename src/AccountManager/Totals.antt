-- ===== src/AccountManager/Totals.antt =====
-- What a closed order of exchange/account_manager_impl.cc does to the total balances.
use mathlib.Core.Path.{subst}
use crypto_bot.Prelude.{
  ◌≡◌, ◌≢◌, refl, sym, ap, ◌∙◌, inl, inr, Bool, true, false, if◌then◌else◌, none, some, ok,
  Bool-cases,
}
use crypto_bot.Prelude.Int.{ℤ, pos, ◌+ℤ◌, ◌-ℤ◌, ◌*ℤ◌, int_laws}
use crypto_bot.Assoc.{find}
use crypto_bot.Symbol.{SymbolId, unknown, pair_eq, string_key, asset_eq_key, asset_eq, asset_eq_iff}
use crypto_bot.Symbol.Pair.{get_base_asset, get_quote_asset}
use crypto_bot.Double.{exact}
use crypto_bot.Order.{Order, OrderStatus, Side, buy, sell, canceled, filled, rejected, expired}
use crypto_bot.AccountBalance.{
  AccountBalance, or_nought, get_total_balance, set_total_balance,
  get_total_balance-set_total_balance,
}
use crypto_bot.AccountManager.{AccountManager, adjust_balance_closed_order, move_totals}
use crypto_bot.AccountManager.Updates.{on_order_update}
use crypto_bot.AccountManager.Locks.{IsUnlocked, subtract_locked_balance-IsUnlocked}
use crypto_bot.AccountManager.RoundTrip.{subtract_locked_balance_known}

-- What an execution adds to the total of an asset.
abbrev pub gain : Side → SymbolId → SymbolId → ℤ → ℤ → SymbolId → ℤ
gain buy base quote quantity cost x =
    (if asset_eq base x then quantity else pos 0) -ℤ (if asset_eq quote x then cost else pos 0)
gain sell base quote quantity cost x =
    (if asset_eq quote x then cost else pos 0) -ℤ (if asset_eq base x then quantity else pos 0)

add_zero : (a : ℤ) → a +ℤ pos 0 ≡ a
add_zero a = omega int_laws

sub_zero : (a : ℤ) → a -ℤ pos 0 ≡ a
sub_zero a = omega int_laws

set_total_add :
    (b : AccountBalance ℤ) (a x : SymbolId) (v : ℤ)
    → get_total_balance (set_total_balance b a (get_total_balance b a +ℤ v)) x
      ≡ get_total_balance b x +ℤ (if asset_eq a x then v else pos 0)
set_total_add b a x v = elim (Bool-cases (asset_eq a x)) [
  | inl e ↦
      get_total_balance-set_total_balance b a x (get_total_balance b a +ℤ v)
      ∙ rw e (ap (λ y. get_total_balance b y +ℤ v) ((asset_eq_iff a x).0 e))
  | inr e ↦
      get_total_balance-set_total_balance b a x (get_total_balance b a +ℤ v)
      ∙ rw e (sym (add_zero (get_total_balance b x)))
]

set_total_sub :
    (b : AccountBalance ℤ) (a x : SymbolId) (v : ℤ)
    → get_total_balance (set_total_balance b a (get_total_balance b a -ℤ v)) x
      ≡ get_total_balance b x -ℤ (if asset_eq a x then v else pos 0)
set_total_sub b a x v = elim (Bool-cases (asset_eq a x)) [
  | inl e ↦
      get_total_balance-set_total_balance b a x (get_total_balance b a -ℤ v)
      ∙ rw e (ap (λ y. get_total_balance b y -ℤ v) ((asset_eq_iff a x).0 e))
  | inr e ↦
      get_total_balance-set_total_balance b a x (get_total_balance b a -ℤ v)
      ∙ rw e (sym (sub_zero (get_total_balance b x)))
]

add_sub : (a b c : ℤ) → a +ℤ b -ℤ c ≡ a +ℤ (b -ℤ c)
add_sub a b c = omega int_laws

sub_add : (a b c : ℤ) → a -ℤ b +ℤ c ≡ a +ℤ (c -ℤ b)
sub_add a b c = omega int_laws

move_totals_lem :
    (s : Side) (o : Order ℤ) (base quote : SymbolId) (b : AccountBalance ℤ) (x : SymbolId)
    → get_total_balance (move_totals s o base quote b) x
      ≡ get_total_balance b x +ℤ gain s base quote o.executed_quantity o.total_cost x
move_totals_lem buy o base quote b x =
    set_total_sub _ quote x o.total_cost
    ∙ ap (λ t. t -ℤ (if asset_eq quote x then o.total_cost else pos 0))
        (set_total_add b base x o.executed_quantity)
    ∙ add_sub (get_total_balance b x) _ _
move_totals_lem sell o base quote b x =
    set_total_add _ quote x o.total_cost
    ∙ ap (λ t. t +ℤ (if asset_eq quote x then o.total_cost else pos 0))
        (set_total_sub b base x o.executed_quantity)
    ∙ sub_add (get_total_balance b x) _ _

-- `AdjustBalanceClosedOrder` moves the totals by the execution that the order records.
pub adjust_balance_closed_order_totals :
    (o : Order ℤ) (b : AccountBalance ℤ) (base quote : SymbolId)
    → get_base_asset o.symbol_id ≡ ok base
    → get_quote_asset o.symbol_id ≡ ok quote
    → o.symbol_id ≢ unknown
    → (b' : AccountBalance ℤ) × (adjust_balance_closed_order o b ≡ ok b')
      × ((x : SymbolId)
          → get_total_balance b' x
            ≡ get_total_balance b x +ℤ gain o.side base quote o.executed_quantity o.total_cost x)
unfolding adjust_balance_closed_order get_total_balance
adjust_balance_closed_order_totals o b base quote eb eq n =
    let (b1, l1) = subtract_locked_balance_known o b n in
    let unlocked : IsUnlocked o b (ok b1) =
      subst (IsUnlocked o b) l1 (subtract_locked_balance-IsUnlocked b o) in
    (
      move_totals o.side o base quote b1,
      rw (l1, eb, eq),
      λ x.
          move_totals_lem o.side o base quote b1 x
          ∙ ap
              (λ m.
                or_nought (find x m) +ℤ gain o.side base quote o.executed_quantity o.total_cost x)
              unlocked.1,
    )

-- The statuses by which an order ends.
abbrev pub is_closing : OrderStatus → Bool
is_closing filled = true
is_closing canceled = true
is_closing rejected = true
is_closing expired = true
is_closing _ = false

-- A FILLED update of an order of ours moves the totals by the quantity and the price with which the
-- order was placed, in its direction.
pub our_filled_totals :
    (am : AccountManager ℤ) (u o : Order ℤ) (base quote : SymbolId)
    → u.status ≡ filled
    → pair_eq u.symbol_id unknown ≡ false
    → find u.id am.our_orders ≡ some o
    → o.symbol_id ≢ unknown
    → get_base_asset o.symbol_id ≡ ok base
    → get_quote_asset o.symbol_id ≡ ok quote
    → let (after, fault) = on_order_update u am in
      (fault ≡ none)
      × ((x : SymbolId)
          → get_total_balance after.account_balance x
            ≡ get_total_balance am.account_balance x
              +ℤ gain o.side base quote o.quantity (o.quantity *ℤ o.price) x)
unfolding on_order_update
our_filled_totals am u o base quote s k f n eb eq =
    let done : Order ℤ = record o {
      executed_quantity = o.quantity;
      total_cost = o.quantity *ℤ o.price;
      status = filled;
    } in
    let (b, adjusted, totals) =
      adjust_balance_closed_order_totals done am.account_balance base quote eb eq n in
    rw (k, f, s, adjusted) (refl, totals)
