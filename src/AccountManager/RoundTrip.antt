-- ===== src/AccountManager/RoundTrip.antt =====
-- An order of exchange/account_manager_impl.cc from its placing to its end.
use mathlib.Core.Path.{subst}
use crypto_bot.Prelude.{
  ◌≡◌, ◌≢◌, refl, sym, ap, ◌∙◌, inl, inr, true, false, none, some, ok, throws, Outcome-cases, Fault,
}
use crypto_bot.Prelude.Int.{ℤ, ◌-ℤ◌, +ℤ_cancel}
use crypto_bot.Assoc.{
  find, insert_or_assign, erase, find-insert_or_assign, erase-insert_or_assign,
  insert_or_assign-insert_or_assign, beq_refl,
}
use crypto_bot.Symbol.{SymbolId, unknown, pair_eq, string_key}
use crypto_bot.Symbol.Pair.{get_base_asset, get_quote_asset, assets_of_pair}
use crypto_bot.Double.{exact, Double}
use crypto_bot.Exchange.{Result, succeeded, get}
use crypto_bot.Order.{Order, Side, buy, sell, moved_from, canceled}
use crypto_bot.AccountBalance.{AccountBalance, get_locked_balance}
use crypto_bot.AccountManager.{
  AccountManager, adjust_side, add_locked_balance, subtract_locked_balance,
}
use crypto_bot.AccountManager.Updates.{on_order_update}
use crypto_bot.AccountManager.Requests.{limit_order}
use crypto_bot.AccountManager.Locks.{
  lock_of, lock_of_terms, IsLocked, IsUnlocked, add_locked_balance-IsLocked,
  subtract_locked_balance-IsUnlocked,
}

module _ {ℓ} {D : Type ℓ} ⦃d : Double D⦄ where
  limit_order_placed :
      (am : AccountManager D) (res : Result (Order D)) (o : Order D) (price : D)
      (b : AccountBalance D)
      → succeeded res ≡ true
      → get res ≡ ok o
      → add_locked_balance (record o { price = price }) am.account_balance ≡ ok b
      → limit_order res price am ≡ (
        record am {
          our_orders = insert_or_assign o.id (record o { price = price }) am.our_orders;
          account_balance = b;
          is_account_synced = true;
        },
        ok (record res { result_object = some (moved_from (record o { price = price })) }),
      )
  unfolding limit_order
  limit_order_placed am res o price b s g a = rw (s, g, a)

  limit_order_failed :
      (am : AccountManager D) (res : Result (Order D)) (o : Order D) (price : D) (t : Fault)
      → succeeded res ≡ true
      → get res ≡ ok o
      → add_locked_balance (record o { price = price }) am.account_balance ≡ throws t
      → limit_order res price am ≡ (
        record am {
          our_orders = insert_or_assign o.id (record o { price = price }) am.our_orders;
          is_account_synced = false;
        },
        throws t,
      )
  unfolding limit_order
  limit_order_failed am res o price t s g a = rw (s, g, a)

  canceled_lem :
      (am : AccountManager D) (u o : Order D) (b : AccountBalance D)
      → u.status ≡ canceled
      → pair_eq u.symbol_id unknown ≡ false
      → find u.id am.our_orders ≡ some o
      → subtract_locked_balance (record o { status = canceled }) am.account_balance ≡ ok b
      → on_order_update u am ≡ (
        record am {
          our_orders =
              erase o.id (insert_or_assign u.id (record o { status = canceled }) am.our_orders);
          account_balance = b;
        },
        none,
      )
  unfolding on_order_update
  canceled_lem am u o b s k f l = rw (k, f, s, l)

-- An order for a known pair can be locked.
add_locked_balance_known :
    (o : Order ℤ) (b : AccountBalance ℤ)
    → o.symbol_id ≢ unknown
    → (b' : AccountBalance ℤ) × (add_locked_balance o b ≡ ok b')
unfolding add_locked_balance
add_locked_balance_known o b n = elim (assets_of_pair o.symbol_id) [
  | inr (e, _, _) ↦ absurd (n e)
  | inl (base, quote, e, f) ↦ by_side base quote e f o.side
]
  where
    by_side :
        (base quote : SymbolId)
        → get_base_asset o.symbol_id ≡ ok base
        → get_quote_asset o.symbol_id ≡ ok quote
        → (s : Side) → (b' : AccountBalance ℤ) × (adjust_side s exact.add o b ≡ ok b')
    by_side base quote e f buy = rw f (_, refl)
    by_side base quote e f sell = rw e (_, refl)

pub subtract_locked_balance_known :
    (o : Order ℤ) (b : AccountBalance ℤ)
    → o.symbol_id ≢ unknown
    → (b' : AccountBalance ℤ) × (subtract_locked_balance o b ≡ ok b')
unfolding subtract_locked_balance
subtract_locked_balance_known o b n = elim (assets_of_pair o.symbol_id) [
  | inr (e, _, _) ↦ absurd (n e)
  | inl (base, quote, e, f) ↦ by_side base quote e f o.side
]
  where
    by_side :
        (base quote : SymbolId)
        → get_base_asset o.symbol_id ≡ ok base
        → get_quote_asset o.symbol_id ≡ ok quote
        → (s : Side) → (b' : AccountBalance ℤ) × (adjust_side s exact.sub o b ≡ ok b')
    by_side base quote e f buy = rw f (_, refl)
    by_side base quote e f sell = rw e (_, refl)

-- Placing a limit order for a known pair under a new id and cancelling it changes nothing but the
-- flag of the account: the orders, the locked amount of every asset and the totals are as before.
pub limit_order_canceled :
    (am : AccountManager ℤ) (res : Result (Order ℤ)) (o u : Order ℤ) (price : ℤ)
    → succeeded res ≡ true
    → get res ≡ ok o
    → o.symbol_id ≢ unknown
    → find o.id am.our_orders ≡ none
    → u.id ≡ o.id
    → u.status ≡ canceled
    → pair_eq u.symbol_id unknown ≡ false
    → let (after, fault) = on_order_update u (limit_order res price am).0 in
      (fault ≡ none)
      × (after.our_orders ≡ am.our_orders)
      × (after.external_orders ≡ am.external_orders)
      × ((x : SymbolId)
          → get_locked_balance after.account_balance x ≡ get_locked_balance am.account_balance x)
      × (after.account_balance.asset_balance_map ≡ am.account_balance.asset_balance_map)
limit_order_canceled am res o u price s g n f i c k =
    let placed_order : Order ℤ = record o { price = price } in
    let cancelled_order : Order ℤ = record placed_order { status = canceled } in
    let (b1, l1) = add_locked_balance_known placed_order am.account_balance n in
    let (b2, l2) = subtract_locked_balance_known cancelled_order b1 n in
    let locked : IsLocked placed_order am.account_balance (ok b1) =
      subst (IsLocked placed_order am.account_balance) l1
        (add_locked_balance-IsLocked am.account_balance placed_order) in
    let unlocked : IsUnlocked cancelled_order b1 (ok b2) =
      subst (IsUnlocked cancelled_order b1) l2
        (subtract_locked_balance-IsUnlocked b1 cancelled_order) in
    let orders = insert_or_assign o.id placed_order am.our_orders in
    let found : find u.id orders ≡ some placed_order =
      ap (λ j. find j orders) i
      ∙ find-insert_or_assign o.id o.id placed_order am.our_orders
      ∙ rw (beq_refl o.id) in
    let end =
      canceled_lem
        (record am { our_orders = orders; account_balance = b1; is_account_synced = true }) u
        placed_order b2 c k found l2 in
    let whole =
      ap (λ r. on_order_update u r.0) (limit_order_placed am res o price b1 s g l1) ∙ end in
    rw whole (
      refl,
      ap (λ j. erase o.id (insert_or_assign j cancelled_order orders)) i
          ∙ ap (erase o.id)
              (insert_or_assign-insert_or_assign o.id placed_order cancelled_order am.our_orders)
          ∙ erase-insert_or_assign o.id cancelled_order am.our_orders f,
      refl,
      (λ x.
          unlocked.0 x
          ∙ ap (λ l. get_locked_balance b1 x -ℤ l)
              (lock_of_terms cancelled_order placed_order x (refl, refl, refl, refl))
          ∙ ap (λ l. l -ℤ lock_of placed_order x) (locked.0 x)
          ∙ +ℤ_cancel (get_locked_balance am.account_balance x) (lock_of placed_order x)),
      unlocked.1 ∙ locked.1,
    )

ok_injective {ℓ} : {A : Type ℓ} → {x y : A} → ok x ≡ ok y → x ≡ y
ok_injective e = cc

ok_not_throws {ℓ} : {A : Type ℓ} → {x : A} → {t : Fault} → throws t ≡ ok x → ⊥
ok_not_throws e = cc

-- After `LimitOrder` succeeds, the order stands in the map under its id, with the price that was
-- asked for. The order that the caller is given is what the move into the map has left: the same,
-- but with an empty id and an empty client id.
pub limit_order_reply :
    (am after : AccountManager ℤ) (res r : Result (Order ℤ)) (o : Order ℤ) (price : ℤ)
    → succeeded res ≡ true
    → get res ≡ ok o
    → limit_order res price am ≡ (after, ok r)
    → (find o.id after.our_orders ≡ some (record o { price = price }))
      × (get r ≡ ok (record o { price = price; id = ""; client_id = "" }))
unfolding moved_from get
limit_order_reply am after res r o price s g e =
    elim (Outcome-cases (add_locked_balance (record o { price = price }) am.account_balance)) [
      | inl (b, a) ↦
          let both = sym e ∙ limit_order_placed am res o price b s g a in
          let same : r
              ≡ record res { result_object = some (moved_from (record o { price = price })) } =
            ok_injective (ap (λ x. x.1) both) in
          (
            ap (λ x. find o.id x.0.our_orders) both
                ∙ find-insert_or_assign o.id o.id (record o { price = price }) am.our_orders
                ∙ rw (beq_refl o.id),
            ap get same,
          )
      | inr (t, a) ↦
          absurd (
            ok_not_throws (sym (ap (λ x. x.1) (sym e ∙ limit_order_failed am res o price t s g a))))
    ]
