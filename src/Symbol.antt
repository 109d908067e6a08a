-- ===== src/Symbol.antt =====
-- model/symbol.h: the assets and the trading pairs. The children hold the tables of model/symbol.cc
-- and model/symbol.h, the class SymbolPair, and the theorems on both.
pub mod Tables
pub mod Pair
pub mod RoundTrip
mod Tests
use Prim.Native.String.{String}
use text.Mathlib.Text.{◌==◌ as str_eq}
use text.Mathlib.TextEquality.{eq_iff}
use crypto_bot.Prelude.{ℕ, zero, suc, ◌≡◌, refl, sym, ap, ◌∙◌, Bool, true, ◌==◌, ==_iff, ◌↔◌}
use crypto_bot.Assoc.{Eq}

pub data SymbolPairId : Type 0 where
  ada_usdt bnb_usdt btc_usdt doge_usdt dot_usdt eth_usdt eos_usdt : SymbolPairId
  ada_btc bnb_btc dot_btc eth_btc eos_btc eos_eth xlm_btc unknown : SymbolPairId

pub data SymbolId : Type 0 where
  ada bnb btc doge dot eth eos usdt xlm unknown_asset : SymbolId

-- The values of the enumerators.
abbrev pub pair_value : SymbolPairId → ℕ
pair_value ada_usdt = 0
pair_value bnb_usdt = 1
pair_value btc_usdt = 2
pair_value doge_usdt = 3
pair_value dot_usdt = 4
pair_value eth_usdt = 5
pair_value eos_usdt = 6
pair_value ada_btc = 7
pair_value bnb_btc = 8
pair_value dot_btc = 9
pair_value eth_btc = 10
pair_value eos_btc = 11
pair_value eos_eth = 12
pair_value xlm_btc = 13
pair_value unknown = 14

abbrev pub asset_value : SymbolId → ℕ
asset_value ada = 0
asset_value bnb = 1
asset_value btc = 2
asset_value doge = 3
asset_value dot = 4
asset_value eth = 5
asset_value eos = 6
asset_value usdt = 7
asset_value xlm = 8
asset_value unknown_asset = 9

pair_of_value : ℕ → SymbolPairId
pair_of_value zero = ada_usdt
pair_of_value (suc zero) = bnb_usdt
pair_of_value (suc (suc zero)) = btc_usdt
pair_of_value (suc (suc (suc zero))) = doge_usdt
pair_of_value (suc (suc (suc (suc zero)))) = dot_usdt
pair_of_value (suc (suc (suc (suc (suc zero))))) = eth_usdt
pair_of_value (suc (suc (suc (suc (suc (suc zero)))))) = eos_usdt
pair_of_value (suc (suc (suc (suc (suc (suc (suc zero))))))) = ada_btc
pair_of_value (suc (suc (suc (suc (suc (suc (suc (suc zero)))))))) = bnb_btc
pair_of_value (suc (suc (suc (suc (suc (suc (suc (suc (suc zero))))))))) = dot_btc
pair_of_value (suc (suc (suc (suc (suc (suc (suc (suc (suc (suc zero)))))))))) = eth_btc
pair_of_value (suc (suc (suc (suc (suc (suc (suc (suc (suc (suc (suc zero))))))))))) = eos_btc
pair_of_value (suc (suc (suc (suc (suc (suc (suc (suc (suc (suc (suc (suc zero)))))))))))) = eos_eth
pair_of_value (suc (suc (suc (suc (suc (suc (suc (suc (suc (suc (suc (suc (suc zero))))))))))))) =
    xlm_btc
pair_of_value _ = unknown

asset_of_value : ℕ → SymbolId
asset_of_value zero = ada
asset_of_value (suc zero) = bnb
asset_of_value (suc (suc zero)) = btc
asset_of_value (suc (suc (suc zero))) = doge
asset_of_value (suc (suc (suc (suc zero)))) = dot
asset_of_value (suc (suc (suc (suc (suc zero))))) = eth
asset_of_value (suc (suc (suc (suc (suc (suc zero)))))) = eos
asset_of_value (suc (suc (suc (suc (suc (suc (suc zero))))))) = usdt
asset_of_value (suc (suc (suc (suc (suc (suc (suc (suc zero)))))))) = xlm
asset_of_value _ = unknown_asset

pair_of_value-pair_value : (a : SymbolPairId) → pair_of_value (pair_value a) ≡ a
unfolding pair_of_value
pair_of_value-pair_value ada_usdt = refl
pair_of_value-pair_value bnb_usdt = refl
pair_of_value-pair_value btc_usdt = refl
pair_of_value-pair_value doge_usdt = refl
pair_of_value-pair_value dot_usdt = refl
pair_of_value-pair_value eth_usdt = refl
pair_of_value-pair_value eos_usdt = refl
pair_of_value-pair_value ada_btc = refl
pair_of_value-pair_value bnb_btc = refl
pair_of_value-pair_value dot_btc = refl
pair_of_value-pair_value eth_btc = refl
pair_of_value-pair_value eos_btc = refl
pair_of_value-pair_value eos_eth = refl
pair_of_value-pair_value xlm_btc = refl
pair_of_value-pair_value unknown = refl

abbrev pub pair_eq : SymbolPairId → SymbolPairId → Bool
pair_eq a b = pair_value a == pair_value b

pub pair_eq_iff : (a b : SymbolPairId) → (pair_eq a b ≡ true) ↔ (a ≡ b)
pair_eq_iff a b = (
  λ h.
      sym (pair_of_value-pair_value a)
      ∙ ap pair_of_value ((==_iff (pair_value a) (pair_value b)).0 h)
      ∙ pair_of_value-pair_value b,
  λ h. (==_iff (pair_value a) (pair_value b)).1 (ap pair_value h),
)

instance abbrev pub pair_eq_key : Eq SymbolPairId
pair_eq_key = record { beq = pair_eq; beq_iff = pair_eq_iff }

asset_of_value-asset_value : (a : SymbolId) → asset_of_value (asset_value a) ≡ a
unfolding asset_of_value
asset_of_value-asset_value ada = refl
asset_of_value-asset_value bnb = refl
asset_of_value-asset_value btc = refl
asset_of_value-asset_value doge = refl
asset_of_value-asset_value dot = refl
asset_of_value-asset_value eth = refl
asset_of_value-asset_value eos = refl
asset_of_value-asset_value usdt = refl
asset_of_value-asset_value xlm = refl
asset_of_value-asset_value unknown_asset = refl

abbrev pub asset_eq : SymbolId → SymbolId → Bool
asset_eq a b = asset_value a == asset_value b

pub asset_eq_iff : (a b : SymbolId) → (asset_eq a b ≡ true) ↔ (a ≡ b)
asset_eq_iff a b = (
  λ h.
      sym (asset_of_value-asset_value a)
      ∙ ap asset_of_value ((==_iff (asset_value a) (asset_value b)).0 h)
      ∙ asset_of_value-asset_value b,
  λ h. (==_iff (asset_value a) (asset_value b)).1 (ap asset_value h),
)

instance abbrev pub asset_eq_key : Eq SymbolId
asset_eq_key = record { beq = asset_eq; beq_iff = asset_eq_iff }

instance abbrev pub string_key : Eq String
string_key = record { beq = str_eq; beq_iff = eq_iff }
