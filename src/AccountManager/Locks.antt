-- ===== src/AccountManager/Locks.antt =====
-- What the open orders of exchange/account_manager_impl.cc lock, for amounts that do not round.
use mathlib.Core.Option.{some-injective}
use crypto_bot.Prelude.{
  ◌≡◌, refl, sym, ap, ◌∙◌, inl, inr, if◌then◌else◌, none, some, String, List, [], ◌∷◌, Outcome, ok,
  throws, arith, Bool-cases, Outcome-cases, Fault,
}
use crypto_bot.Prelude.Int.{ℤ, pos, ◌+ℤ◌, ◌-ℤ◌, ◌*ℤ◌, +ℤ_assoc, +ℤ_comm, int_laws}
use crypto_bot.Assoc.{find, insert_or_assign, erase}
use crypto_bot.Symbol.{SymbolPairId, SymbolId, asset_eq, asset_eq_iff, string_key}
use crypto_bot.Symbol.Pair.{get_base_asset, get_quote_asset}
use crypto_bot.Double.{exact}
use crypto_bot.Order.{Order, Side, sell, buy}
use crypto_bot.AccountBalance.{
  AccountBalance, get_locked_balance, set_locked_balance, get_locked_balance-set_locked_balance,
}
use crypto_bot.AccountManager.{adjust_side, add_locked_balance, subtract_locked_balance}

-- An amount of one asset, and none of the others; none at all for a pair that has no assets.
abbrev pub amount_of : Outcome SymbolId → ℤ → SymbolId → ℤ
amount_of (ok a) v x = if asset_eq a x then v else pos 0
amount_of (throws e) v x = pos 0

abbrev pub lock_on : Side → SymbolPairId → ℤ → ℤ → SymbolId → ℤ
lock_on buy pair quantity price x = amount_of (get_quote_asset pair) (quantity *ℤ price) x
lock_on sell pair quantity price x = amount_of (get_base_asset pair) quantity x

-- What an open order locks of an asset.
unfoldable pub lock_of : Order ℤ → SymbolId → ℤ
lock_of o x = lock_on o.side o.symbol_id o.quantity o.price x

unfoldable pub total_lock : List (String × Order ℤ) → SymbolId → ℤ
total_lock [] x = pos 0
total_lock ((k, o) ∷ m) x = lock_of o x +ℤ total_lock m x

abbrev pub SameTerms : Order ℤ → Order ℤ → Type 0
SameTerms u o =
    (u.symbol_id ≡ o.symbol_id)
    × (u.side ≡ o.side)
    × (u.quantity ≡ o.quantity)
    × (u.price ≡ o.price)

pub lock_of_terms : (u o : Order ℤ) (x : SymbolId) → SameTerms u o → lock_of u x ≡ lock_of o x
unfolding lock_of
lock_of_terms u o x (s, d, q, p) = cc

pub lock_of_unpaired :
    (o : Order ℤ) (x : SymbolId) {e f : Fault}
    → get_base_asset o.symbol_id ≡ throws e
    → get_quote_asset o.symbol_id ≡ throws f
    → lock_of o x ≡ pos 0
unfolding lock_of
lock_of_unpaired o x b q = by_side o.side
  where
    by_side : (s : Side) → lock_on s o.symbol_id o.quantity o.price x ≡ pos 0
    by_side buy = rw q
    by_side sell = rw b

-- A balance after an order is locked, or after its lock is taken off.
abbrev pub IsLocked : Order ℤ → AccountBalance ℤ → Outcome (AccountBalance ℤ) → Type 0
IsLocked o b (ok b') =
    ((x : SymbolId) → get_locked_balance b' x ≡ get_locked_balance b x +ℤ lock_of o x)
    × (b'.asset_balance_map ≡ b.asset_balance_map)
IsLocked o b (throws e) = (x : SymbolId) → lock_of o x ≡ pos 0

abbrev pub IsUnlocked : Order ℤ → AccountBalance ℤ → Outcome (AccountBalance ℤ) → Type 0
IsUnlocked o b (ok b') =
    ((x : SymbolId) → get_locked_balance b' x ≡ get_locked_balance b x -ℤ lock_of o x)
    × (b'.asset_balance_map ≡ b.asset_balance_map)
IsUnlocked o b (throws e) = (x : SymbolId) → lock_of o x ≡ pos 0

add_zero : (a : ℤ) → a +ℤ pos 0 ≡ a
add_zero a = omega int_laws

sub_zero : (a : ℤ) → a -ℤ pos 0 ≡ a
sub_zero a = omega int_laws

set_locked_add :
    (b : AccountBalance ℤ) (a x : SymbolId) (v : ℤ)
    → get_locked_balance (set_locked_balance b a (get_locked_balance b a +ℤ v)) x
      ≡ get_locked_balance b x +ℤ (if asset_eq a x then v else pos 0)
set_locked_add b a x v = elim (Bool-cases (asset_eq a x)) [
  | inl e ↦
      get_locked_balance-set_locked_balance b a x (get_locked_balance b a +ℤ v)
      ∙ rw e (ap (λ y. get_locked_balance b y +ℤ v) ((asset_eq_iff a x).0 e))
  | inr e ↦
      get_locked_balance-set_locked_balance b a x (get_locked_balance b a +ℤ v)
      ∙ rw e (sym (add_zero (get_locked_balance b x)))
]

set_locked_sub :
    (b : AccountBalance ℤ) (a x : SymbolId) (v : ℤ)
    → get_locked_balance (set_locked_balance b a (get_locked_balance b a -ℤ v)) x
      ≡ get_locked_balance b x -ℤ (if asset_eq a x then v else pos 0)
set_locked_sub b a x v = elim (Bool-cases (asset_eq a x)) [
  | inl e ↦
      get_locked_balance-set_locked_balance b a x (get_locked_balance b a -ℤ v)
      ∙ rw e (ap (λ y. get_locked_balance b y -ℤ v) ((asset_eq_iff a x).0 e))
  | inr e ↦
      get_locked_balance-set_locked_balance b a x (get_locked_balance b a -ℤ v)
      ∙ rw e (sym (sub_zero (get_locked_balance b x)))
]

module _ (b : AccountBalance ℤ) (o : Order ℤ) where
  lock_of_buy :
      (x : SymbolId)
      → o.side ≡ buy
      → lock_of o x ≡ amount_of (get_quote_asset o.symbol_id) (o.quantity *ℤ o.price) x
  unfolding lock_of
  lock_of_buy x e = rw e

  lock_of_sell :
      (x : SymbolId)
      → o.side ≡ sell
      → lock_of o x ≡ amount_of (get_base_asset o.symbol_id) o.quantity x
  unfolding lock_of
  lock_of_sell x e = rw e

  lock_side : (s : Side) → o.side ≡ s → IsLocked o b (adjust_side s ◌+ℤ◌ o b)
  unfolding set_locked_balance
  lock_side buy e = elim (Outcome-cases (get_quote_asset o.symbol_id)) [
    | inl (q, t) ↦ rw t (
      (λ x.
          set_locked_add b q x (o.quantity *ℤ o.price)
          ∙ ap (◌+ℤ◌ (get_locked_balance b x)) (sym (lock_of_buy x e ∙ rw t))),
      refl,
    )
    | inr (f, t) ↦ rw t (λ x. lock_of_buy x e ∙ rw t)
  ]
  lock_side sell e = elim (Outcome-cases (get_base_asset o.symbol_id)) [
    | inl (q, t) ↦ rw t (
      (λ x.
          set_locked_add b q x o.quantity
          ∙ ap (◌+ℤ◌ (get_locked_balance b x)) (sym (lock_of_sell x e ∙ rw t))),
      refl,
    )
    | inr (f, t) ↦ rw t (λ x. lock_of_sell x e ∙ rw t)
  ]

  unlock_side : (s : Side) → o.side ≡ s → IsUnlocked o b (adjust_side s ◌-ℤ◌ o b)
  unfolding set_locked_balance
  unlock_side buy e = elim (Outcome-cases (get_quote_asset o.symbol_id)) [
    | inl (q, t) ↦ rw t (
      (λ x.
          set_locked_sub b q x (o.quantity *ℤ o.price)
          ∙ ap (◌-ℤ◌ (get_locked_balance b x)) (sym (lock_of_buy x e ∙ rw t))),
      refl,
    )
    | inr (f, t) ↦ rw t (λ x. lock_of_buy x e ∙ rw t)
  ]
  unlock_side sell e = elim (Outcome-cases (get_base_asset o.symbol_id)) [
    | inl (q, t) ↦ rw t (
      (λ x.
          set_locked_sub b q x o.quantity
          ∙ ap (◌-ℤ◌ (get_locked_balance b x)) (sym (lock_of_sell x e ∙ rw t))),
      refl,
    )
    | inr (f, t) ↦ rw t (λ x. lock_of_sell x e ∙ rw t)
  ]

  -- `AddLockedBalance` locks what the order needs, and moves no total.
  pub add_locked_balance-IsLocked : IsLocked o b (add_locked_balance o b)
  unfolding add_locked_balance
  add_locked_balance-IsLocked = lock_side o.side refl

  pub subtract_locked_balance-IsUnlocked : IsUnlocked o b (subtract_locked_balance o b)
  unfolding subtract_locked_balance
  subtract_locked_balance-IsUnlocked = unlock_side o.side refl

-- Maps of orders.
pub total_lock_insert :
    (k : String) (o : Order ℤ) (m : List (String × Order ℤ)) (x : SymbolId)
    → find k m ≡ none
    → total_lock (insert_or_assign k o m) x ≡ total_lock m x +ℤ lock_of o x
unfolding total_lock find insert_or_assign
total_lock_insert k o [] x h = +ℤ_comm (lock_of o x) (pos 0)
total_lock_insert k o ((j, p) ∷ m) x h = elim (Bool-cases (string_key.beq j k)) [
  | inl e ↦ absurd (cc (rw (e, find) at h))
  | inr e ↦ rw e (
      ap (◌+ℤ◌ (lock_of p x)) (total_lock_insert k o m x (rw (e, find) at h))
      ∙ sym (+ℤ_assoc (lock_of p x) (total_lock m x) (lock_of o x)))
]

pub total_lock_assign :
    (k : String) (o p : Order ℤ) (m : List (String × Order ℤ)) (x : SymbolId)
    → find k m ≡ some p
    → lock_of o x ≡ lock_of p x
    → total_lock (insert_or_assign k o m) x ≡ total_lock m x
unfolding total_lock find insert_or_assign
total_lock_assign k o p [] x h e = cc
total_lock_assign k o p ((j, q) ∷ m) x h e = elim (Bool-cases (string_key.beq j k)) [
  | inl t ↦ rw t (
      ap (λ v. v +ℤ total_lock m x)
        (e ∙ ap (λ r. lock_of r x) (sym (some-injective q p (rw (t, find) at h)))))
  | inr t ↦ rw t (ap (◌+ℤ◌ (lock_of q x)) (total_lock_assign k o p m x (ground arith) e))
]

pub total_lock-erase :
    (k : String) (p : Order ℤ) (m : List (String × Order ℤ)) (x : SymbolId)
    → find k m ≡ some p
    → total_lock m x ≡ total_lock (erase k m) x +ℤ lock_of p x
unfolding total_lock find erase
total_lock-erase k p [] x h = cc
total_lock-erase k p ((j, q) ∷ m) x h = elim (Bool-cases (string_key.beq j k)) [
  | inl t ↦ rw t (
      +ℤ_comm (lock_of q x) (total_lock m x)
      ∙ ap (λ r. total_lock m x +ℤ lock_of r x) (some-injective q p (rw (t, find) at h)))
  | inr t ↦ rw t (
      ap (◌+ℤ◌ (lock_of q x)) (total_lock-erase k p m x (rw (t, find) at h))
      ∙ sym (+ℤ_assoc (lock_of q x) (total_lock (erase k m) x) (lock_of p x)))
]
