-- ===== src/Connection/Tests.antt =====
-- Tests and witnesses for websocket/websocket_client.hpp, with the user data stream of Binance as
-- the derived class.
use crypto_bot.Prelude.{
  ℕ, ◌≡◌, refl, Bool, true, false, Option, none, some, String, Outcome, ok, throws, undefined,
  exited,
}
use crypto_bot.UserDataStream
use crypto_bot.UserDataStream.{UserDataStream, Answers, new_stream, stream_uri}
use crypto_bot.Connection.{
  Handlers, WebsocketClient, idle, connected, start, on_open, on_close, on_fail, Run, started,
  next_call, opens, closes,
}
use crypto_bot.Connection.Promises.{on_open-IsOpened}

abbrev answers : Answers
answers k = ok (some "key2")

abbrev or_endless : Option (Outcome UserDataStream) → Outcome UserDataStream
or_endless none = throws undefined
or_endless (some r) = r

abbrev closed : UserDataStream → Outcome UserDataStream
closed s = or_endless (UserDataStream.on_close 1 answers s)

abbrev handlers : Handlers UserDataStream ℕ
handlers = record {
  uri = λ s. s.uri;
  opened = λ s. ok s;
  closed = closed;
  received = λ m s. (s, none);
}

abbrev accepts : String → Bool
accepts uri = true

abbrev client : WebsocketClient UserDataStream
client = record {
  own = new_stream "key1" 7;
  do_reconnect = true;
  promise_set = true;
  phase = idle;
  target = "";
}

abbrev opened_client : WebsocketClient UserDataStream
unfolding start
opened_client = record (start handlers accepts client) { promise_set = true; phase = connected }

abbrev renewed : UserDataStream
renewed = record (new_stream "key1" 7) { uri = stream_uri "key2" }

abbrev closed_client : WebsocketClient UserDataStream
unfolding start
closed_client = start handlers accepts (record opened_client { own = renewed })

closed-Run : Run handlers accepts client closed_client
unfolding on_open on_close start UserDataStream.on_close
closed-Run = next_call (next_call started (opens refl refl)) (closes refl refl)

-- Without `m_do_reconnect` a connection that fails ends the program.
no_reconnect : on_fail handlers accepts (record client { do_reconnect = false }) ≡ throws exited
unfolding on_fail
no_reconnect = refl

on_open-IsOpened_example :
    (on_open handlers accepts closed_client
      ≡ ok (record closed_client { own = renewed; promise_set = true; phase = connected }))
    × (closed_client.target ≡ stream_uri "key2")
unfolding start
on_open-IsOpened_example = on_open-IsOpened handlers accepts closed-Run refl
