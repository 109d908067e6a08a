-- ===== src/AccountManager/Placing.antt =====
-- Orders that exchange/account_manager_impl.cc places, and the refresh of its balances.
use mathlib.Core.Path.{subst}
use crypto_bot.Prelude.{
  ◌≡◌, refl, sym, ap, ◌∙◌, inl, inr, Bool, true, false, Option, none, some, String, List, [], ◌∷◌,
  Outcome, ok, throws, Bool-cases, Outcome-cases, Fault,
}
use crypto_bot.Prelude.Int.{ℤ, pos, ◌+ℤ◌, +ℤ_assoc, int_laws}
use crypto_bot.Assoc.{find}
use crypto_bot.Symbol.{SymbolId, string_key}
use crypto_bot.Double.{exact}
use crypto_bot.Exchange.{Result, succeeded, get}
use crypto_bot.Order.{Order}
use crypto_bot.AccountBalance.{AccountBalance, get_locked_balance, assign_balance}
use crypto_bot.AccountManager.{AccountManager, add_locked_balance, with_balance}
use crypto_bot.AccountManager.Updates.{store_our}
use crypto_bot.AccountManager.Requests.{
  market_order, register_order, placed, replay, replay_after, refreshed, refresh_from,
  refresh_account_balance,
}
use crypto_bot.AccountManager.Locks.{
  lock_of, total_lock, IsLocked, add_locked_balance-IsLocked, total_lock_insert,
}
use crypto_bot.AccountManager.Invariant.{IsConsistent, insert_or_assign-IsKeyed}

add_zero : (a : ℤ) → a +ℤ pos 0 ≡ a
add_zero a = omega int_laws

move_last : (b t e l : ℤ) → b +ℤ t +ℤ e +ℤ l ≡ b +ℤ (t +ℤ l) +ℤ e
move_last b t e l = omega int_laws

with_flag :
    (base : SymbolId → ℤ) (am : AccountManager ℤ) (v : Bool)
    → IsConsistent base am
    → IsConsistent base (record am { is_account_synced = v })
with_flag base am v c = record { our_keyed = c.our_keyed; balanced = c.balanced }

-- The order in a reply is new to the manager.
abbrev pub IsFresh : Outcome (Order ℤ) → AccountManager ℤ → Type 0
IsFresh (throws e) am = Unit
IsFresh (ok o) am = find o.id am.our_orders ≡ none

module _ (base : SymbolId → ℤ) (am : AccountManager ℤ) (c : IsConsistent base am) where
  placed-IsConsistent :
      (res : Result (Order ℤ)) (o : Order ℤ) (r : Outcome (AccountBalance ℤ))
      → find o.id am.our_orders ≡ none
      → IsLocked o am.account_balance r
      → IsConsistent base
          (placed res o
            (with_balance (store_our o.id o am) r (λ s. record s { is_account_synced = true }))).0
  placed-IsConsistent res o (throws t) f l = record {
    our_keyed = insert_or_assign-IsKeyed o.id o am.our_orders refl c.our_keyed;
    balanced = λ x.
        c.balanced x
        ∙ sym (
            ap (λ t. base x +ℤ t +ℤ total_lock am.external_orders x)
              (total_lock_insert o.id o am.our_orders x f
                ∙ ap (◌+ℤ◌ (total_lock am.our_orders x)) (l x)
                ∙ add_zero (total_lock am.our_orders x)));
  }
  placed-IsConsistent res o (ok b) f l = record {
    our_keyed = insert_or_assign-IsKeyed o.id o am.our_orders refl c.our_keyed;
    balanced = λ x.
        l.0 x
        ∙ ap (λ t. t +ℤ lock_of o x) (c.balanced x)
        ∙ move_last (base x) (total_lock am.our_orders x) (total_lock am.external_orders x)
            (lock_of o x)
        ∙ ap (λ t. base x +ℤ t +ℤ total_lock am.external_orders x)
            (sym (total_lock_insert o.id o am.our_orders x f));
  }

  register_order-IsConsistent :
      (res : Result (Order ℤ)) (r : Outcome (Order ℤ))
      → IsFresh r am
      → IsConsistent base (register_order res r am).0
  register_order-IsConsistent res (throws e) f = c
  register_order-IsConsistent res (ok o) f =
      placed-IsConsistent res o (add_locked_balance o am.account_balance) f
        (add_locked_balance-IsLocked am.account_balance o)

-- Placing a market order keeps the locked amounts those of the open orders, whatever the exchange
-- replies, if the id of the order in the reply is new.
pub market_order-IsConsistent :
    (base : SymbolId → ℤ) (am : AccountManager ℤ) (res : Result (Order ℤ))
    → IsConsistent base am
    → IsFresh (get res) am
    → IsConsistent base (market_order res am).0
unfolding market_order
market_order-IsConsistent base am res c f = elim (Bool-cases (succeeded res)) [
  | inl e ↦ rw e (
      register_order-IsConsistent base _ (with_flag base am false c) res (get res)
        (fresh (get res) f))
  | inr e ↦ rw e (with_flag base am true c)
]
  where
    fresh :
        (r : Outcome (Order ℤ)) → IsFresh r am → IsFresh r (record am { is_account_synced = false })
    fresh (ok o) f = f
    fresh (throws e) f = tt

-- Replaying a map of orders locks what they need, or stops at an exception.
replay_lem :
    (m : List (String × Order ℤ)) (b b' : AccountBalance ℤ) (x : SymbolId)
    → replay m b ≡ (b', none)
    → get_locked_balance b' x ≡ get_locked_balance b x +ℤ total_lock m x
unfolding replay total_lock
replay_lem [] b b' x e =
    ap (λ r. get_locked_balance r.0 x) (sym e) ∙ sym (add_zero (get_locked_balance b x))
replay_lem ((k, o) ∷ m) b b' x e = elim (Outcome-cases (add_locked_balance o b)) [
  | inr (t, f) ↦ absurd (cc (rw (f, replay) at e))
  | inl (b1, f) ↦
      let locked : IsLocked o b (ok b1) =
        subst (IsLocked o b) f (add_locked_balance-IsLocked b o) in
      replay_lem m b1 b' x (rw (f, replay) at e)
      ∙ ap (λ t. t +ℤ total_lock m x) (locked.0 x)
      ∙ +ℤ_assoc (get_locked_balance b x) (lock_of o x) (total_lock m x)
]

abbrev IsRefreshed : AccountManager ℤ → AccountBalance ℤ → AccountManager ℤ × Option Fault → Type 0
IsRefreshed am b (after, fault) =
    fault ≡ none
    → (after.is_account_synced ≡ true)
      × ((x : SymbolId)
          → get_locked_balance after.account_balance x
            ≡ get_locked_balance b x
              +ℤ total_lock am.our_orders x
              +ℤ total_lock am.external_orders x)

swap_last : (a e o : ℤ) → a +ℤ e +ℤ o ≡ a +ℤ o +ℤ e
swap_last a e o = omega int_laws

assign_locked :
    (a b : AccountBalance ℤ) (x : SymbolId)
    → get_locked_balance (assign_balance a b) x ≡ get_locked_balance b x
unfolding assign_balance get_locked_balance
assign_locked a b x = refl

module _ (am : AccountManager ℤ) (b : AccountBalance ℤ) where
  refreshed-IsRefreshed :
      (r : AccountBalance ℤ × Option Fault)
      → replay am.external_orders (assign_balance am.account_balance b) ≡ r
      → IsRefreshed am b (refreshed am (replay_after am.our_orders r))
  refreshed-IsRefreshed (b1, some e) f = λ n. absurd (cc)
  refreshed-IsRefreshed (b1, none) f = our_replayed (replay am.our_orders b1) refl
    where
      our_replayed :
          (r : AccountBalance ℤ × Option Fault)
          → replay am.our_orders b1 ≡ r
          → IsRefreshed am b (refreshed am r)
      our_replayed (b2, some e) g = λ n. absurd (cc)
      our_replayed (b2, none) g = λ n. (
        refl,
        λ x.
            replay_lem am.our_orders b1 b2 x g
            ∙ ap (λ t. t +ℤ total_lock am.our_orders x) (replay_lem am.external_orders _ b1 x f)
            ∙ ap (λ t. t +ℤ total_lock am.external_orders x +ℤ total_lock am.our_orders x)
                (assign_locked am.account_balance b x)
            ∙ swap_last (get_locked_balance b x) (total_lock am.external_orders x)
                (total_lock am.our_orders x),
      )

-- A refresh that ends without an exception leaves the account synced, and locks on top of what the
-- exchange reports as locked just what the open orders need: no lock is lost or counted twice,
-- whatever was locked before.
pub refresh_account_balance_locks :
    (am after : AccountManager ℤ) (res : Result (AccountBalance ℤ)) (b : AccountBalance ℤ)
    → get res ≡ ok b
    → succeeded res ≡ true
    → refresh_account_balance res am ≡ (after, none)
    → (after.is_account_synced ≡ true)
      × ((x : SymbolId)
          → get_locked_balance after.account_balance x
            ≡ get_locked_balance b x
              +ℤ total_lock am.our_orders x
              +ℤ total_lock am.external_orders x)
unfolding refresh_account_balance
refresh_account_balance_locks am after res b g s e = ends _ e' (
    refreshed-IsRefreshed am b (replay am.external_orders (assign_balance am.account_balance b))
      refl)
  where
    e' : refresh_from (ok b) am ≡ (after, none)
    e' = rw (g, s) at e

    ends :
        (r : AccountManager ℤ × Option Fault)
        → r ≡ (after, none)
        → IsRefreshed am b r
        → (after.is_account_synced ≡ true)
          × ((x : SymbolId)
              → get_locked_balance after.account_balance x
                ≡ get_locked_balance b x
                  +ℤ total_lock am.our_orders x
                  +ℤ total_lock am.external_orders x)
    ends r q =
        subst
          (λ r.
            IsRefreshed am b r
            → (after.is_account_synced ≡ true)
              × ((x : SymbolId)
                  → get_locked_balance after.account_balance x
                    ≡ get_locked_balance b x
                      +ℤ total_lock am.our_orders x
                      +ℤ total_lock am.external_orders x))
          (sym q) (λ h. h refl)
