-- ===== src/Http/Tests.antt =====
-- Tests and witnesses for http/http_client.hpp.
use crypto_bot.Prelude.{ℕ, ◌-◌, ◌≡◌, refl, true, none, [], ◌∷◌, ltb}
use crypto_bot.Http.{Request, new_request, query_param, get, Network, HttpClient, add_params}
use crypto_bot.Http.Query.{join_pairs, add_params-join_pairs}

-- A network that fails as often as its state says, and then answers.
abbrev flaky : Network ℕ
flaky = record {
  sign = λ w r query. (r.headers, query);
  open_connection = λ host port w. (w, (true, none));
  exchange = λ message w. (w - 1, (ltb 0 w, "answer"));
}

abbrev request : Request
unfolding query_param
request = query_param "symbol" "BTCUSDT" (new_request "api.binance.com" "443" "/api/v3/depth" get)

abbrev client : HttpClient
client = record { retry_count = 1; stream = none }

add_params-join_pairs_example :
    add_params (("a", "1") ∷ ("", "") ∷ ("b", "2") ∷ []) ""
    ≡ join_pairs (("a", "1") ∷ ("", "") ∷ ("b", "2") ∷ [])
add_params-join_pairs_example = add_params-join_pairs (("a", "1") ∷ ("", "") ∷ ("b", "2") ∷ [])

joined : add_params (("a", "1") ∷ ("", "") ∷ ("b", "2") ∷ []) "" ≡ "a=1&=&b=2"
unfolding add_params
joined = refl
