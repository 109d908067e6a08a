-- ===== src/Http.antt =====
-- http/http_client.hpp: requests, and how they are sent and sent again. What OpenSSL, the resolver
-- and Boost's streams do is a `Network`: functions on a state of the world.
pub mod Query
pub mod Retries
mod Tests
use Prim.Native.String.{◌++◌ as str_append}
use text.Mathlib.Text.{◌==◌ as str_eq}
use crypto_bot.Prelude.{
  ℕ, zero, suc, ◌+◌, Bool, true, false, if◌then◌else◌, Option, none, some, String, List, [], ◌∷◌,
  ltb,
}
use crypto_bot.Assoc.{insert_or_assign}
use crypto_bot.Symbol.{string_key}

-- `HttpClient::Result`
pub record Reply : Type 0 where
  pub errmsg : String
  pub response : String

unfoldable pub is_success : Reply → Bool
is_success r = str_eq r.errmsg ""

pub data Method : Type 0 where
  get post put delete_ : Method

-- `HttpClient::Request`. `m_body` is never set, and the signing function is an argument of `build`.
pub record Request : Type 0 where
  pub host : String
  pub port : String
  pub path : String
  pub method : Method
  pub query_params : List (String × String)
  pub headers : List (String × String)
  pub retries : ℕ

abbrev pub new_request : String → String → String → Method → Request
new_request host port path method = record {
  host = host;
  port = port;
  path = path;
  method = method;
  query_params = [];
  headers = [];
  retries = 0;
}

unfoldable pub query_param : String → String → Request → Request
unfolding insert_or_assign
query_param key value r = record r { query_params = insert_or_assign key value r.query_params }

unfoldable pub header : String → String → Request → Request
unfolding insert_or_assign
header name value r = record r { headers = insert_or_assign name value r.headers }

-- The loop of `build` over the parameters.
unfoldable pub add_params : List (String × String) → String → String
add_params [] query = query
add_params ((key, value) ∷ params) query =
    let joined = if str_eq query "" then query else str_append query "&" in
    add_params params (str_append (str_append (str_append joined key) "=") value)

-- The message that `build` makes: its target, its body and its custom headers.
pub record Built : Type 0 where
  pub target : String
  pub body : String
  pub headers : List (String × String)

abbrev pub with_query : Request → List (String × String) × String → Method → Built × Request
with_query r (headers, query) get = (
  record { target = str_append (str_append r.path "?") query; body = ""; headers = headers },
  record r { headers = headers },
)
with_query r (headers, query) _ =
    (record { target = r.path; body = query; headers = headers }, record r { headers = headers })

-- The four steps of `OpenConnection` that can fail.
pub data Stage : Type 0 where
  host_name resolving connecting handshaking : Stage

-- What is outside: `sign` is the signing function of the request, which changes the query and may
-- add headers to those of the request (it reads a clock); opening a stream ends with an error or
-- none, and with the stream open or not; an exchange writes a message and reads the answer, and
-- ends with an error or a body.
pub record Network (W : Type 0) : Type 0 where
  pub sign : W → Request → String → List (String × String) × String
  pub open_connection : String → String → W → W × (Bool × Option (Stage × String))
  pub exchange : Built → W → W × (Bool × String)

-- The client: the stream, if there is one, with whether it is open. Timers and logs are left out.
pub record HttpClient : Type 0 where
  pub retry_count : ℕ
  pub stream : Option Bool

-- The text that `__MAKE_ERRMSG` puts before a message.
abbrev pub place_of : Stage → String
place_of host_name = "src/http/http_client.hpp(237)"
place_of resolving = "src/http/http_client.hpp(247)"
place_of connecting = "src/http/http_client.hpp(255)"
place_of handshaking = "src/http/http_client.hpp(267)"

abbrev pub make_errmsg : String → String → String
make_errmsg place msg = str_append (str_append place ": ") msg

abbrev pub is_open : Option Bool → Bool
is_open none = false
is_open (some b) = b

-- What a call of `send` leaves. `exchanges` counts how often a message was written.
pub record Sent (W : Type 0) : Type 0 where
  pub reply : Reply
  pub request : Request
  pub client : HttpClient
  pub world : W
  pub exchanges : ℕ

module _ {W : Type 0} (net : Network W) where
  unfoldable pub build : W → Request → Built × Request
  unfolding add_params
  build w r = with_query r (net.sign w r (add_params r.query_params "")) r.method

  abbrev pub after_open :
      Request
      → HttpClient
      → ℕ
      → (HttpClient → W → Option (Sent W))
      → W × (Bool × Option (Stage × String))
      → Option (Sent W)
  after_open r c n go_on (w, (opened, none)) = go_on (record c { stream = some opened }) w
  after_open r c n go_on (w, (opened, some (stage, msg))) = some (record {
    reply = record { errmsg = make_errmsg (place_of stage) msg; response = "" };
    request = r;
    client = record c { stream = some opened };
    world = w;
    exchanges = n;
  })

  -- Opens a connection if there is none, and goes on.
  abbrev pub with_connection :
      Request → HttpClient → W → ℕ → (HttpClient → W → Option (Sent W)) → Option (Sent W)
  with_connection r c w n go_on =
      if is_open c.stream
      then go_on c w
      else after_open r c n go_on (net.open_connection r.host r.port w)

  abbrev pub given_up : Request → HttpClient → ℕ → W → String → Sent W
  given_up r c n w msg = record {
    reply = record { errmsg = make_errmsg "src/http/http_client.hpp(203)" msg; response = "" };
    request = r;
    client = record c { stream = none };
    world = w;
    exchanges = n;
  }

  -- After an exchange: the body, or the error, with which the stream is given up and the request
  -- sent again while it has retries left.
  abbrev pub after_exchange :
      Request
      → HttpClient
      → ℕ
      → (Request → HttpClient → W → Option (Sent W))
      → W × (Bool × String)
      → Option (Sent W)
  after_exchange r c n again (w, (false, body)) = some (record {
    reply = record { errmsg = ""; response = body };
    request = r;
    client = c;
    world = w;
    exchanges = n;
  })
  after_exchange r c n again (w, (true, msg)) =
      let retried = again (record r { retries = r.retries + 1 }) (record c { stream = none }) w in
      if ltb r.retries c.retry_count then retried else some (given_up r c n w msg)

  -- `HttpClient::send`, on a bound for its depth.
  unfoldable pub send_within : ℕ → Request → HttpClient → W → ℕ → Option (Sent W)
  unfolding build
  send_within zero r c w n = none
  send_within (suc fuel) r c w n = with_connection r c w n (λ c1 w1.
      after_exchange (build w1 r).1 c1 (n + 1) (λ r2 c2 w2. send_within fuel r2 c2 w2 (n + 1))
        (net.exchange (build w1 r).0 w1))

  -- Each retry takes one more level.
  unfoldable pub send : Request → HttpClient → W → Option (Sent W)
  unfolding send_within
  send r c w = send_within (c.retry_count + 1) r c w 0
