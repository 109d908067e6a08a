-- ===== src/AccountBalance.antt =====
-- model/account_balance.h: the total and the locked amount of each asset.
use crypto_bot.Prelude.{
  ◌≡◌, inl, inr, arith, Option-cases, if◌then◌else◌, Option, none, some, String, List, [], ◌∷◌,
}
use crypto_bot.Assoc.{find, insert_or_assign, find-insert_or_assign}
use crypto_bot.Symbol
use crypto_bot.Symbol.{SymbolId, asset_eq_key}
use crypto_bot.Double.{Double, exact}
use crypto_bot.Prelude.Int.{ℤ, pos, ◌+ℤ◌}

pub record AccountBalance {ℓ} (D : Type ℓ) : Type ℓ where
  pub asset_balance_map : List (SymbolId × D)
  pub locked_balance_map : List (SymbolId × D)
  pub exchange : String

module _ {ℓ} {D : Type ℓ} ⦃d : Double D⦄ where
  abbrev pub or_nought : Option D → D
  or_nought none = d.of_ℕ 0
  or_nought (some v) = v

  unfoldable pub get_total_balance : AccountBalance D → SymbolId → D
  get_total_balance b a = or_nought (find a b.asset_balance_map)

  unfoldable pub get_locked_balance : AccountBalance D → SymbolId → D
  get_locked_balance b a = or_nought (find a b.locked_balance_map)

  unfoldable pub get_free_balance : AccountBalance D → SymbolId → D
  unfolding get_total_balance get_locked_balance
  get_free_balance b a = d.sub (get_total_balance b a) (get_locked_balance b a)

  unfoldable pub set_total_balance : AccountBalance D → SymbolId → D → AccountBalance D
  set_total_balance b a v = record b {
    asset_balance_map = insert_or_assign a v b.asset_balance_map;
  }

  unfoldable pub set_locked_balance : AccountBalance D → SymbolId → D → AccountBalance D
  set_locked_balance b a v = record b {
    locked_balance_map = insert_or_assign a v b.locked_balance_map;
  }

  -- `AddBalance` sets the amount of an asset that is not there, and adds to one that is.
  unfoldable pub add_balance : AccountBalance D → SymbolId → D → AccountBalance D
  add_balance b a v = elim (find a b.asset_balance_map) [
    | none ↦ record b { asset_balance_map = insert_or_assign a v b.asset_balance_map }
    | some w ↦ record b { asset_balance_map = insert_or_assign a (d.add w v) b.asset_balance_map }
  ]

  -- The loop of `UpdateTotalBalance`.
  unfoldable pub set_total_balances : AccountBalance D → List (SymbolId × D) → AccountBalance D
  unfolding set_total_balance
  set_total_balances b [] = b
  set_total_balances b ((a, v) ∷ m) = set_total_balances (set_total_balance b a v) m

  unfoldable pub update_total_balance : AccountBalance D → AccountBalance D → AccountBalance D
  unfolding set_total_balances
  update_total_balance b other = set_total_balances b other.asset_balance_map

  -- The assignment operators copy the two maps and leave the name of the exchange.
  unfoldable pub assign_balance : AccountBalance D → AccountBalance D → AccountBalance D
  assign_balance b other = record b {
    asset_balance_map = other.asset_balance_map;
    locked_balance_map = other.locked_balance_map;
  }

  -- The copy constructor does not copy the name of the exchange.
  unfoldable pub copy_balance : AccountBalance D → AccountBalance D
  copy_balance b = record b { exchange = "" }

  -- What each setter does to what the getters read.
  pub get_locked_balance-set_locked_balance :
      (b : AccountBalance D) (a x : SymbolId) (v : D)
      → get_locked_balance (set_locked_balance b a v) x
        ≡ (if Symbol.asset_eq a x then v else get_locked_balance b x)
  unfolding get_locked_balance set_locked_balance
  get_locked_balance-set_locked_balance b a x v =
      ground (arith, find-insert_or_assign a x v b.locked_balance_map)

  pub get_total_balance-set_total_balance :
      (b : AccountBalance D) (a x : SymbolId) (v : D)
      → get_total_balance (set_total_balance b a v) x
        ≡ (if Symbol.asset_eq a x then v else get_total_balance b x)
  unfolding get_total_balance set_total_balance
  get_total_balance-set_total_balance b a x v =
      ground (arith, find-insert_or_assign a x v b.asset_balance_map)

nought_add : (v : ℤ) → pos 0 +ℤ v ≡ v
unfolding ◌+ℤ◌
nought_add v = ground arith

-- Where a sum with 0 does not round, `AddBalance` adds to an asset that is not there too.
pub get_total_balance-add_balance :
    (b : AccountBalance ℤ) (a x : SymbolId) (v : ℤ)
    → get_total_balance (add_balance b a v) x
      ≡ (if Symbol.asset_eq a x then get_total_balance b a +ℤ v else get_total_balance b x)
unfolding get_total_balance add_balance
get_total_balance-add_balance b a x v = elim (Option-cases (find a b.asset_balance_map)) [
  | inl e ↦
      rw (e, add_balance)
        (ground (arith, find-insert_or_assign a x v b.asset_balance_map, nought_add v))
  | inr (w, e) ↦
      rw (e, add_balance) (ground (arith, find-insert_or_assign a x (w +ℤ v) b.asset_balance_map))
]
