-- ===== src/Connection.antt =====
-- websocket/websocket_client.hpp: a connection that is opened again when it fails or closes. The
-- handlers of a derived class are a parameter, and so is what websocketpp makes of an address. An
-- exception that leaves a handler other than that of a message ends the program.
pub mod Promises
mod Tests
use crypto_bot.Prelude.{
  ◌≡◌, Bool, true, false, if◌then◌else◌, Option, String, Fault, Outcome, ok, throws, ◌>>=◌, exited,
  future_error,
}

-- A connection that is asked for, one that is open, and none.
pub data Phase : Type 0 where
  idle connecting connected : Phase

-- `OnOpen`, `OnClose` and `OnMessage` of a derived class, and its address.
pub record Handlers {ℓ} (S : Type ℓ) (M : Type 0) : Type ℓ where
  pub uri : S → String
  pub opened : S → Outcome S
  pub closed : S → Outcome S
  pub received : M → S → S × Option Fault

-- `WebsocketClient`: the derived class, the promise of the last start, and the address that it has
-- gone to.
pub record WebsocketClient {ℓ} (S : Type ℓ) : Type ℓ where
  pub own : S
  pub do_reconnect : Bool
  pub promise_set : Bool
  pub phase : Phase
  pub target : String

module _ {ℓ} {S : Type ℓ} {M : Type 0} (h : Handlers S M) (accepts : String → Bool) where
  -- `get_connection` fails on an address that it does not accept, and then nothing follows.
  abbrev pub connect : WebsocketClient S → WebsocketClient S
  connect c =
      if accepts (h.uri c.own)
      then record c { phase = connecting; target = h.uri c.own }
      else record c { phase = idle }

  -- `start`, with a new promise.
  unfoldable pub start : WebsocketClient S → WebsocketClient S
  start c = connect (record c { promise_set = false })

  -- `set_value` throws on a promise that has its value.
  unfoldable pub on_open : WebsocketClient S → Outcome (WebsocketClient S)
  on_open c =
      let opened = (do
        own ← h.opened c.own
        ok (record c { own = own; promise_set = true; phase = connected })) in
      if c.promise_set then throws future_error else opened

  unfoldable pub reconnect : WebsocketClient S → Outcome (WebsocketClient S)
  unfolding start
  reconnect c = if c.do_reconnect then ok (start c) else throws exited

  unfoldable pub on_close : WebsocketClient S → Outcome (WebsocketClient S)
  unfolding reconnect
  on_close c = do own ← h.closed c.own; reconnect (record c { own = own })

  unfoldable pub on_fail : WebsocketClient S → Outcome (WebsocketClient S)
  unfolding reconnect
  on_fail c = reconnect c

  -- An exception of `OnMessage` is logged.
  unfoldable pub on_message : M → WebsocketClient S → WebsocketClient S
  on_message m c = record c { own = (h.received m c.own).0 }

  -- What websocketpp calls: a connection that is asked for opens or fails, and one that is open has
  -- messages and closes.
  pub data Step (c : WebsocketClient S) : WebsocketClient S → Type ℓ where
    opens : {c' : WebsocketClient S} → c.phase ≡ connecting → on_open c ≡ ok c' → Step c c'
    fails : {c' : WebsocketClient S} → c.phase ≡ connecting → on_fail c ≡ ok c' → Step c c'
    closes : {c' : WebsocketClient S} → c.phase ≡ connected → on_close c ≡ ok c' → Step c c'
    receives : (m : M) → c.phase ≡ connected → Step c (on_message m c)

  -- Any calls since the start.
  pub data Run (c : WebsocketClient S) : WebsocketClient S → Type ℓ where
    started : Run c (start c)
    next_call : {a b : WebsocketClient S} → Run c a → Step a b → Run c b
