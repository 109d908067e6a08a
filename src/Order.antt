-- ===== src/Order.antt =====
-- model/order.h: orders, their status, and the comparison of two orders.
use text.Mathlib.Text.{◌==◌ as str_eq}
use crypto_bot.Prelude.{
  ℕ, Bool, false, not, ◌&&◌, if◌then◌else◌, Option, none, some, String, List, [], ◌∷◌,
}
use crypto_bot.Assoc.{find}
use crypto_bot.Symbol.{SymbolPairId, string_key}
use crypto_bot.Double.{Double}

pub data Side : Type 0 where
  sell buy : Side

pub data OrderType : Type 0 where
  market limit unknown_type : OrderType

pub data OrderStatus : Type 0 where
  new partially_filled filled canceled : OrderStatus
  pending_cancel rejected expired unknown_status : OrderStatus

pub record Order {ℓ} (D : Type ℓ) : Type ℓ where
  pub id : String
  pub client_id : String
  pub symbol_id : SymbolPairId
  pub side : Side
  pub order_type : OrderType
  pub quantity : D
  pub price : D
  pub status : OrderStatus
  pub creation_time_us : ℕ
  pub executed_quantity : D
  pub total_cost : D

-- `Order::Builder`. Its members are not initialised: a builder is given with what its memory holds.
pub record Builder {ℓ} (D : Type ℓ) : Type ℓ where
  pub id : String
  pub client_id : String
  pub symbol_id : SymbolPairId
  pub side : Side
  pub order_type : OrderType
  pub quantity : D
  pub price : D
  pub status : OrderStatus
  pub creation_time_us : ℕ

-- The table of `GetStatus`: Binance's names, then Kraken's.
abbrev pub status_map : List (String × OrderStatus)
status_map =
    ("NEW", new)
    ∷ ("PARTIALLY_FILLED", partially_filled)
    ∷ ("FILLED", filled)
    ∷ ("CANCELED", canceled)
    ∷ ("PENDING_CANCEL", pending_cancel)
    ∷ ("REJECTED", rejected)
    ∷ ("EXPIRED", expired)
    ∷ ("pending", new)
    ∷ ("open", new)
    ∷ ("closed", filled)
    ∷ ("canceled", canceled)
    ∷ ("expired", expired)
    ∷ []

abbrev status_or_unknown : Option OrderStatus → OrderStatus
status_or_unknown none = unknown_status
status_or_unknown (some s) = s

-- `Order::GetStatus(const std::string&)`
unfoldable pub get_status : String → OrderStatus
unfolding find
get_status s = status_or_unknown (find s status_map)

-- `operator<<` of a status.
unfoldable pub print_status : OrderStatus → String
print_status new = "NEW"
print_status partially_filled = "PARTIALLY_FILLED"
print_status filled = "FILLED"
print_status canceled = "CANCELED"
print_status pending_cancel = "PENDING_CANCEL"
print_status rejected = "REJECTED"
print_status expired = "EXPIRED"
print_status unknown_status = "UNKNOWN"

abbrev is_empty : String → Bool
is_empty s = str_eq s ""

module _ {ℓ} {D : Type ℓ} where
  -- What `std::move` leaves of an order: its two texts are empty, all else stays.
  unfoldable pub moved_from : Order D → Order D
  moved_from o = record o { id = ""; client_id = "" }

  -- The part of `operator==` for orders of which one has no id.
  abbrev pub by_client_id : Order D → Order D → Bool
  by_client_id a b =
      if not (is_empty a.client_id) && not (is_empty b.client_id)
      then str_eq a.client_id b.client_id
      else false

  -- `operator==`: by id if both have one, else by client id if both have one.
  unfoldable pub order_eq : Order D → Order D → Bool
  order_eq a b =
      if not (is_empty a.id) && not (is_empty b.id) then str_eq a.id b.id else by_client_id a b

module _ {ℓ} {D : Type ℓ} ⦃d : Double D⦄ where
  unfoldable pub build : Builder D → Order D
  build b = record {
    id = b.id;
    client_id = b.client_id;
    symbol_id = b.symbol_id;
    side = b.side;
    order_type = b.order_type;
    quantity = b.quantity;
    price = b.price;
    status = b.status;
    creation_time_us = b.creation_time_us;
    executed_quantity = d.of_ℕ 0;
    total_cost = d.of_ℕ 0;
  }
