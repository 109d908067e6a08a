-- ===== src/BinanceClient/Orders.antt =====
-- What http/binance_client.hpp answers to a request for an order.
use crypto_bot.Prelude.{
  ℕ, ◌≡◌, refl, inl, inr, String, Outcome, ok, throws, Outcome-cases, ok-injective, not_thrown,
  Yields, Yields-ok, Bool-cases,
}
use crypto_bot.Prelude.Int.{ℤ}
use crypto_bot.Symbol.{SymbolPairId}
use crypto_bot.Double.{Double}
use crypto_bot.Json.{Json, text_field, int_field, double_field}
use crypto_bot.Settings.{PairSettings}
use crypto_bot.Order.{Order, Side, OrderType, market}
use crypto_bot.Exchange.{Result, success, failure}
use crypto_bot.Http.{Request, Reply, is_success}
use crypto_bot.BinanceClient.{
  new_order, error_of, market_from, market_order_of, read_body, read_order, market_order,
  market_order_request,
}

module _ {ℓ} {D : Type ℓ} ⦃d : Double D⦄ where
  -- An order as it was asked for.
  pub record IsAsked (symbol : SymbolPairId) (side : Side) (type : OrderType) (qty : D)
      (o : Order D) : Type ℓ where
    pub same_symbol : o.symbol_id ≡ symbol
    pub same_side : o.side ≡ side
    pub same_type : o.order_type ≡ type
    pub same_quantity : o.quantity ≡ qty

  -- A result with the text of the reply: an order that `P` holds of, or an error.
  pub data IsAnswer (P : Order D → Type ℓ) : Result (Order D) → Type ℓ where
    placed : (response : String) (o : Order D) → P o → IsAnswer P (success response o)
    refused : (response msg : String) → IsAnswer P (failure response msg)

market_from-Yields {ℓ κ} :
    {D : Type ℓ} (Q : Order D → Type κ) (make : D → ℤ → String → String → ℤ → Order D)
    (f1 : Outcome ℤ) (f2 : Outcome String) (f3 : Outcome D) (f4 : Outcome ℤ) (f5 : Outcome String)
    → ((g : D) (a : ℤ) (b c : String) (e : ℤ) → Q (make g a b c e))
    → Yields Q (market_from make f1 f2 f3 f4 f5)
market_from-Yields Q make (throws x) f2 f3 f4 f5 q = λ o h. absurd (not_thrown h)
market_from-Yields Q make (ok a) (throws x) f3 f4 f5 q = λ o h. absurd (not_thrown h)
market_from-Yields Q make (ok a) (ok b) (throws x) f4 f5 q = λ o h. absurd (not_thrown h)
market_from-Yields Q make (ok a) (ok b) (ok c) (throws x) f5 q = λ o h. absurd (not_thrown h)
market_from-Yields Q make (ok a) (ok b) (ok c) (ok e) (throws x) q = λ o h. absurd (not_thrown h)
market_from-Yields Q make (ok a) (ok b) (ok g) (ok e) (ok c) q =
    Yields-ok Q (make g a b c e) (q g a b c e)

module _ {ℓ} {J : Type 0} {D : Type ℓ} ⦃j : Json J⦄ ⦃d : Double D⦄ where
  error_of-IsAnswer :
      (P : Order D → Type ℓ) (response : String) (v : J) (r : Result (Order D))
      → error_of response v ≡ ok r
      → IsAnswer P r
  error_of-IsAnswer P response v r h = elim (Outcome-cases (text_field v "msg")) [
    | inl (msg, e) ↦ rw (← ok-injective (rw e at h)) (IsAnswer.refused response msg)
    | inr (x, e) ↦ absurd (not_thrown (rw e at h))
  ]

  module _ (P : Order D → Type ℓ) (read : J → Outcome (Order D))
      (reads : (v : J) (o : Order D) → read v ≡ ok o → P o) where
    read_body-IsAnswer :
        (response : String) (v : J) (r : Result (Order D))
        → read_body read response v ≡ ok r
        → IsAnswer P r
    read_body-IsAnswer response v r h = elim (Bool-cases (j.contains v "orderId")) [
      | inr without ↦ error_of-IsAnswer P response v r (rw without at h)
      | inl found ↦ elim (Outcome-cases (read v)) [
        | inl (o, e) ↦
            rw (← ok-injective (rw (found, e) at h)) (IsAnswer.placed response o (reads v o e))
        | inr (x, e) ↦ absurd (not_thrown (rw (found, e) at h))
      ]
    ]

    read_order-IsAnswer :
        (res : Reply) (r : Result (Order D)) → read_order read res ≡ ok r → IsAnswer P r
    unfolding read_order
    read_order-IsAnswer res r h = elim (Bool-cases (is_success res)) [
      | inr failed ↦ rw (← ok-injective (rw failed at h)) (IsAnswer.refused res.response res.errmsg)
      | inl answered ↦ elim (Outcome-cases (j.parse res.response)) [
        | inl (v, e) ↦ read_body-IsAnswer res.response v r (rw (answered, e) at h)
        | inr (x, e) ↦ absurd (not_thrown (rw (answered, e) at h))
      ]
    ]

module _ {ℓ} (J : Type 0) {D : Type ℓ} ⦃j : Json J⦄ ⦃d : Double D⦄ (http : Request → Reply)
    (api_key : String) (format : D → ℕ → String) (settings : PairSettings D) where
  -- A market order that the client reports as placed has the pair, the side and the quantity that
  -- were asked for, whatever Binance answers; every other answer is an error, unless the call
  -- leaves by an exception.
  pub market_order-IsAnswer :
      (symbol : SymbolPairId) (side : Side) (qty : D) (r : Result (Order D))
      → market_order J http api_key format settings symbol side qty ≡ ok r
      → IsAnswer (IsAsked symbol side market qty) r
  unfolding market_order
  market_order-IsAnswer symbol side qty r h =
      elim (Outcome-cases (market_order_request api_key format settings symbol side qty)) [
        | inr (x, e) ↦ absurd (not_thrown (rw e at h))
        | inl (req, e) ↦
            read_order-IsAnswer {J = J} (IsAsked symbol side market qty)
              (market_order_of symbol side qty)
              (λ v.
                market_from-Yields (IsAsked symbol side market qty)
                  (λ cost. new_order symbol side market qty (d.div cost qty))
                  (int_field v "orderId") (text_field v "clientOrderId")
                  (double_field v "cummulativeQuoteQty") (int_field v "transactTime")
                  (text_field v "status")
                  (λ g a b c t. record {
                    same_symbol = refl;
                    same_side = refl;
                    same_type = refl;
                    same_quantity = refl;
                  }))
              (http req) r (rw e at h)
      ]
