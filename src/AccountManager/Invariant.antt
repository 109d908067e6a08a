-- ===== src/AccountManager/Invariant.antt =====
-- The books of exchange/account_manager_impl.cc balance: at every moment the locked amounts are
-- those of the open orders, for amounts that do not round.
use mathlib.Core.Option.{some-injective}
use mathlib.Core.Path.{subst}
use crypto_bot.Prelude.{
  ◌≡◌, refl, sym, ap, ◌∙◌, inl, inr, Option, none, some, String, List, [], ◌∷◌, Outcome, ok, throws,
  All, arith, Bool-cases, ◌>>=◌,
}
use crypto_bot.Prelude.Int.{ℤ, pos, ◌+ℤ◌, ◌-ℤ◌, +ℤ_assoc, int_laws}
use crypto_bot.Assoc.{
  find, insert_or_assign, emplace_absent, erase, find-insert_or_assign, beq_refl, eq_of_beq,
}
use crypto_bot.Symbol.{SymbolId, unknown, pair_eq, string_key}
use crypto_bot.Symbol.Pair.{get_base_asset, get_quote_asset, assets_of_pair}
use crypto_bot.Double.{exact}
use crypto_bot.Order.{
  Order, Side, sell, buy, OrderStatus, new, partially_filled, filled, canceled, expired, rejected,
  pending_cancel, unknown_status,
}
use crypto_bot.AccountBalance.{AccountBalance, get_locked_balance, set_total_balance}
use crypto_bot.AccountManager.{
  AccountManager, add_locked_balance, subtract_locked_balance, adjust_balance_closed_order,
  move_totals, with_balance,
}
use crypto_bot.AccountManager.Updates.{
  store_our, erase_our, update_our_order, update_by_status, handle_external_order,
  external_by_status, close_external, update_found, on_order_update,
}
use crypto_bot.AccountManager.Locks.{
  lock_of, lock_of_unpaired, lock_of_terms, total_lock, SameTerms, IsLocked, IsUnlocked,
  add_locked_balance-IsLocked, subtract_locked_balance-IsUnlocked, total_lock_insert,
  total_lock_assign, total_lock-erase,
}

-- Every order stands under its own id.
abbrev pub IsKeyed : List (String × Order ℤ) → Type 0
IsKeyed = All (λ p. p.1.id ≡ p.0)

-- `base` is what is locked by no order that the manager knows.
pub record IsConsistent (base : SymbolId → ℤ) (am : AccountManager ℤ) : Type 0 where
  pub our_keyed : IsKeyed am.our_orders
  pub balanced :
      (x : SymbolId)
      → get_locked_balance am.account_balance x
        ≡ base x +ℤ total_lock am.our_orders x +ℤ total_lock am.external_orders x

find-IsKeyed :
    (k : String) (m : List (String × Order ℤ)) (o : Order ℤ)
    → IsKeyed m
    → find k m ≡ some o
    → o.id ≡ k
unfolding find
find-IsKeyed k [] o h e = cc
find-IsKeyed k ((j, p) ∷ m) o (h, hs) e = elim (Bool-cases (string_key.beq j k)) [
  | inl t ↦ ap (λ r. r.id) (sym (some-injective p o (rw (t, find) at e))) ∙ h ∙ eq_of_beq j k t
  | inr t ↦ find-IsKeyed k m o hs (rw (t, find) at e)
]

pub insert_or_assign-IsKeyed :
    (k : String) (o : Order ℤ) (m : List (String × Order ℤ))
    → o.id ≡ k
    → IsKeyed m
    → IsKeyed (insert_or_assign k o m)
unfolding insert_or_assign
insert_or_assign-IsKeyed k o [] e h = (e, tt)
insert_or_assign-IsKeyed k o ((j, p) ∷ m) e (h, hs) =
    ground (arith, insert_or_assign-IsKeyed k o m e hs)

erase-IsKeyed : (k : String) (m : List (String × Order ℤ)) → IsKeyed m → IsKeyed (erase k m)
unfolding erase
erase-IsKeyed k [] h = tt
erase-IsKeyed k ((j, p) ∷ m) (h, hs) = ground (arith, erase-IsKeyed k m hs)

find-insert_self :
    (k : String) (o : Order ℤ) (m : List (String × Order ℤ))
    → find k (insert_or_assign k o m) ≡ some o
find-insert_self k o m = find-insert_or_assign k k o m ∙ rw (beq_refl k)

-- The part of an unlocked balance that concerns the locks.
abbrev Unlocks : Order ℤ → AccountBalance ℤ → Outcome (AccountBalance ℤ) → Type 0
Unlocks o b (ok b') =
    (x : SymbolId) → get_locked_balance b' x ≡ get_locked_balance b x -ℤ lock_of o x
Unlocks o b (throws e) = (x : SymbolId) → lock_of o x ≡ pos 0

IsUnlocked-Unlocks :
    (o : Order ℤ) (b : AccountBalance ℤ) (r : Outcome (AccountBalance ℤ))
    → IsUnlocked o b r
    → Unlocks o b r
IsUnlocked-Unlocks o b (ok b') h = h.0
IsUnlocked-Unlocks o b (throws e) h = h

move_totals_locked :
    (s : Side) (o : Order ℤ) (base quote : SymbolId) (b : AccountBalance ℤ) (x : SymbolId)
    → get_locked_balance (move_totals s o base quote b) x ≡ get_locked_balance b x
unfolding get_locked_balance set_total_balance
move_totals_locked buy o base quote b x = refl
move_totals_locked sell o base quote b x = refl

adjust_balance_closed_order-Unlocks :
    (o : Order ℤ) (b : AccountBalance ℤ) → Unlocks o b (adjust_balance_closed_order o b)
unfolding adjust_balance_closed_order
adjust_balance_closed_order-Unlocks o b =
    after (subtract_locked_balance o b) (subtract_locked_balance-IsUnlocked b o)
  where
    after :
        (r : Outcome (AccountBalance ℤ))
        → IsUnlocked o b r
        → Unlocks o b (
            r >>= λ b1. get_base_asset o.symbol_id >>= λ base.
            get_quote_asset o.symbol_id >>= λ quote. ok (move_totals o.side o base quote b1))
    after (throws e) h = h
    after (ok b1) h = elim (assets_of_pair o.symbol_id) [
      | inl (base, quote, e, f) ↦
          rw (e, f) (λ x. move_totals_locked o.side o base quote b1 x ∙ h.0 x)
      | inr (_, e, f) ↦ rw e (λ x. lock_of_unpaired o x e f)
    ]

add_zero : (a : ℤ) → a +ℤ pos 0 ≡ a
add_zero a = omega int_laws

cancel_our : (b t l x : ℤ) → b +ℤ (t +ℤ l) +ℤ x -ℤ l ≡ b +ℤ t +ℤ x
cancel_our b t l x = omega int_laws

cancel_external : (b t x l : ℤ) → b +ℤ t +ℤ (x +ℤ l) -ℤ l ≡ b +ℤ t +ℤ x
cancel_external b t x l = omega int_laws

module _ (base : SymbolId → ℤ) (am : AccountManager ℤ) (c : IsConsistent base am) where
  -- The three ways in which a handler touches a map of orders.
  store_our-IsConsistent :
      (k : String) (o p : Order ℤ)
      → find k am.our_orders ≡ some p
      → o.id ≡ k
      → ((x : SymbolId) → lock_of o x ≡ lock_of p x)
      → IsConsistent base (store_our k o am)
  store_our-IsConsistent k o p f e l = record {
    our_keyed = insert_or_assign-IsKeyed k o am.our_orders e c.our_keyed;
    balanced = λ x.
        c.balanced x
        ∙ ap (λ t. base x +ℤ t +ℤ total_lock am.external_orders x)
            (sym (total_lock_assign k o p am.our_orders x f (l x)));
  }

  close_our-IsConsistent :
      (k : String) (o p : Order ℤ) (r : Outcome (AccountBalance ℤ))
      → find k am.our_orders ≡ some p
      → o.id ≡ k
      → ((x : SymbolId) → lock_of o x ≡ lock_of p x)
      → Unlocks o am.account_balance r
      → IsConsistent base (with_balance (store_our k o am) r (erase_our o.id)).0
  close_our-IsConsistent k o p (throws t) f e l u = store_our-IsConsistent k o p f e l
  close_our-IsConsistent k o p (ok b) f e l u = record {
    our_keyed = erase-IsKeyed o.id _ (insert_or_assign-IsKeyed k o am.our_orders e c.our_keyed);
    balanced = λ x.
        u x
        ∙ ap (λ t. t -ℤ lock_of o x) ((store_our-IsConsistent k o p f e l).balanced x)
        ∙ ap (λ t. base x +ℤ t +ℤ total_lock am.external_orders x -ℤ lock_of o x)
            (total_lock-erase o.id o (insert_or_assign k o am.our_orders) x (
              subst (λ j. find j (insert_or_assign k o am.our_orders) ≡ some o) (sym e)
                (find-insert_self k o am.our_orders)))
        ∙ cancel_our (base x) _ (lock_of o x) (total_lock am.external_orders x);
  }

  open_external-IsConsistent :
      (u : Order ℤ) (r : Outcome (AccountBalance ℤ))
      → find u.id am.external_orders ≡ none
      → IsLocked u am.account_balance r
      → IsConsistent base
          (with_balance
            (record am { external_orders = insert_or_assign u.id u am.external_orders })
            r
            (λ s. s)).0
  open_external-IsConsistent u (throws t) f l = record {
    our_keyed = c.our_keyed;
    balanced = λ x.
        c.balanced x
        ∙ sym (
            ap (λ t. base x +ℤ total_lock am.our_orders x +ℤ t)
              (total_lock_insert u.id u am.external_orders x f
                ∙ ap (◌+ℤ◌ (total_lock am.external_orders x)) (l x)
                ∙ add_zero (total_lock am.external_orders x)));
  }
  open_external-IsConsistent u (ok b) f l = record {
    our_keyed = c.our_keyed;
    balanced = λ x.
        l.0 x
        ∙ ap (λ t. t +ℤ lock_of u x) (c.balanced x)
        ∙ +ℤ_assoc _ (total_lock am.external_orders x) (lock_of u x)
        ∙ ap (λ t. base x +ℤ total_lock am.our_orders x +ℤ t)
            (sym (total_lock_insert u.id u am.external_orders x f));
  }

  close_external-IsConsistent :
      (k : String) (o p : Order ℤ) (r : Outcome (AccountBalance ℤ))
      → find k am.external_orders ≡ some p
      → ((x : SymbolId) → lock_of o x ≡ lock_of p x)
      → Unlocks o am.account_balance r
      → IsConsistent base
          (with_balance
            (record am { external_orders = insert_or_assign k o am.external_orders })
            r
            (λ s. record s { external_orders = erase k s.external_orders })).0
  close_external-IsConsistent k o p (throws t) f l u = record {
    our_keyed = c.our_keyed;
    balanced = λ x.
        c.balanced x
        ∙ ap (λ t. base x +ℤ total_lock am.our_orders x +ℤ t)
            (sym (total_lock_assign k o p am.external_orders x f (l x)));
  }
  close_external-IsConsistent k o p (ok b) f l u = record {
    our_keyed = c.our_keyed;
    balanced = λ x.
        u x
        ∙ ap (λ t. t -ℤ lock_of o x)
            (c.balanced x
              ∙ ap (λ t. base x +ℤ total_lock am.our_orders x +ℤ t)
                  (sym (total_lock_assign k o p am.external_orders x f (l x))
                    ∙ total_lock-erase k o (insert_or_assign k o am.external_orders) x
                        (find-insert_self k o am.external_orders)))
        ∙ cancel_external (base x) (total_lock am.our_orders x) _ (lock_of o x);
  }

  close_found :
      (u : Order ℤ) (found : Option (Order ℤ))
      → find u.id am.external_orders ≡ found
      → IsConsistent base (close_external u found am).0
  close_found u none f = c
  close_found u (some o) f =
      close_external-IsConsistent u.id _ o (adjust_balance_closed_order _ am.account_balance) f
        (λ x. lock_of_terms _ o x (refl, refl, refl, refl))
        (adjust_balance_closed_order-Unlocks _ am.account_balance)

  -- An external order, by the status of its update.
  external_by_status-IsConsistent :
      (s : OrderStatus) (u : Order ℤ) (found : Option (Order ℤ))
      → find u.id am.external_orders ≡ found
      → IsConsistent base (external_by_status s u found am).0
  external_by_status-IsConsistent new u none f =
      subst
        (λ m.
          IsConsistent base
            (with_balance (record am { external_orders = m })
              (add_locked_balance u am.account_balance) (λ s. s)).0)
        (sym (emplace_absent u.id u am.external_orders f))
        (open_external-IsConsistent u (add_locked_balance u am.account_balance) f
          (add_locked_balance-IsLocked am.account_balance u))
  external_by_status-IsConsistent new u (some o) f = c
  external_by_status-IsConsistent filled u found f = close_found u found f
  external_by_status-IsConsistent canceled u found f = close_found u found f
  external_by_status-IsConsistent rejected u found f = close_found u found f
  external_by_status-IsConsistent expired u found f = close_found u found f
  external_by_status-IsConsistent pending_cancel u found f = c
  external_by_status-IsConsistent partially_filled u found f = c
  external_by_status-IsConsistent unknown_status u found f = c

  -- One of our orders, by the status of its update. A NEW update replaces the stored order, so it
  -- must have the terms of that one.
  update_by_status-IsConsistent :
      (s : OrderStatus) (u o p : Order ℤ)
      → find u.id am.our_orders ≡ some p
      → SameTerms o p
      → o.id ≡ u.id
      → (s ≡ new → SameTerms u p)
      → IsConsistent base (update_by_status s u.id u o am).0
  update_by_status-IsConsistent new u o p f t e n =
      store_our-IsConsistent u.id u p f refl (λ x. lock_of_terms u p x (n refl))
  update_by_status-IsConsistent partially_filled u o p f t e n =
      store_our-IsConsistent u.id _ p f e (λ x. lock_of_terms _ p x t)
  update_by_status-IsConsistent filled u o p f t e n =
      close_our-IsConsistent u.id _ p (adjust_balance_closed_order _ am.account_balance) f e
        (λ x. lock_of_terms _ p x t) (adjust_balance_closed_order-Unlocks _ am.account_balance)
  update_by_status-IsConsistent canceled u o p f t e n =
      close_our-IsConsistent u.id o p (subtract_locked_balance o am.account_balance) f e
        (λ x. lock_of_terms o p x t)
        (IsUnlocked-Unlocks o _ _ (subtract_locked_balance-IsUnlocked am.account_balance o))
  update_by_status-IsConsistent expired u o p f t e n =
      close_our-IsConsistent u.id o p (subtract_locked_balance o am.account_balance) f e
        (λ x. lock_of_terms o p x t)
        (IsUnlocked-Unlocks o _ _ (subtract_locked_balance-IsUnlocked am.account_balance o))
  update_by_status-IsConsistent pending_cancel u o p f t e n =
      store_our-IsConsistent u.id o p f e (λ x. lock_of_terms o p x t)
  update_by_status-IsConsistent rejected u o p f t e n =
      store_our-IsConsistent u.id o p f e (λ x. lock_of_terms o p x t)
  update_by_status-IsConsistent unknown_status u o p f t e n =
      store_our-IsConsistent u.id o p f e (λ x. lock_of_terms o p x t)

  update_found-IsConsistent :
      (u : Order ℤ) (found : Option (Order ℤ))
      → find u.id am.our_orders ≡ found
      → ((p : Order ℤ) → u.status ≡ new → found ≡ some p → SameTerms u p)
      → IsConsistent base (update_found found u am).0
  unfolding update_our_order handle_external_order
  update_found-IsConsistent u none f n =
      external_by_status-IsConsistent u.status u (find u.id am.external_orders) refl
  update_found-IsConsistent u (some p) f n =
      update_by_status-IsConsistent u.status u (record p { status = u.status }) p f
        (refl, refl, refl, refl) (find-IsKeyed u.id am.our_orders p c.our_keyed f) (λ e. n p e refl)

  -- Whatever update of an order arrives, ours or external, and also where the handler leaves by an
  -- exception: the locked amount of every asset stays what the open orders lock, above `base`. A
  -- NEW update of an order of ours must not change its pair, side, quantity or price.
  pub on_order_update-IsConsistent :
      (u : Order ℤ)
      → ((p : Order ℤ) → u.status ≡ new → find u.id am.our_orders ≡ some p → SameTerms u p)
      → IsConsistent base (on_order_update u am).0
  unfolding on_order_update
  on_order_update-IsConsistent u n = elim (Bool-cases (pair_eq u.symbol_id unknown)) [
    | inl e ↦ rw e c
    | inr e ↦ rw e (update_found-IsConsistent u (find u.id am.our_orders) refl n)
  ]
