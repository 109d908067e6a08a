-- ===== src/Lib.antt =====
-- crypto_bot: trading on exchanges of crypto currencies. The program keeps a local copy of what an
-- exchange knows (its order book, the account's balances and open orders) from messages and
-- replies that arrive one at a time, and decides on orders by it. A simulated exchange stands in
-- for a real one in a backtest.
--
-- The paths below stand under src/ of the repository. Symbol models model/symbol.h and
-- model/symbol.cc: the assets, the trading pairs, and the tables between pairs, their assets and
-- their names on Binance and Kraken. OrderBook models model/order_book.h: `upsert_bid` is
-- UpsertBid, `delete_ask` is DeleteAsk, `update` is Update, and so on; a book is two lists of
-- levels with the best one last, as in the code. QuickMath is utils/math.cc, by which a book turns
-- a price into an integer. Order, AccountBalance, Ticker and Exchange model model/order.h,
-- model/account_balance.h, model/ticker.h and class Result of exchange/exchange_client.h.
--
-- AccountManager models exchange/account_manager_impl.cc. AccountManager.Updates has the updates
-- of orders (OnOrderUpdate, UpdateOurOrder, HandleExternalOrder), AccountManager.Requests what is
-- asked of the exchange (MarketOrder, LimitOrder, RefreshAccountBalance, Initialize). Every
-- handler holds one mutex, so a handler is one step on the state; the reply of the exchange is an
-- argument of it.
--
-- Backtest models backtest/backtest_exchange_client.hpp: the requests of a client stand in
-- Backtest, the handlers of a ticker in Backtest.Execution. The calls to the listeners are a list
-- in the state.
--
-- Arbitrage models strategy/arbitrage: the matcher (`find_match`), the calculator of orders
-- (`calculate`) and, in Arbitrage.Strategy, the handler of a ticker. An account manager is a
-- record of what it answers. BinanceStream models websocket/binance_order_book_stream.hpp:
-- messages come parsed, and the future that holds a snapshot is part of the state. TickersWatcher
-- models websocket/tickers_watcher.hpp. KrakenBook models websocket/kraken_order_book_handler.hpp
-- on the fields of a message, with boost's sum over a text as a parameter. Indicator models
-- simple_moving_average.hpp and average_true_range.hpp of strategy/indicator, and model/candle.h;
-- Indicator.Strength models relative_strength_index.cc there. Generator models
-- indicators_generator.hpp and order_book_imbalance.cc there.
--
-- MarketMaking models strategy/market_making: the signal, in MarketMaking.Risk the manager of the
-- orders, in MarketMaking.Strategy the two joined. Spinlock models utils/spinlock.hpp as a step
-- relation. Http models http/http_client.hpp on functions that stand for the network. Json is the
-- interface to the JSON library; Settings (exchange/binance_settings.hpp, utils/string.cc) and
-- BinanceClient (http/binance_client.hpp) read its values. KrakenStream models
-- websocket/kraken_websocket_client.hpp, which holds the books that KrakenBook changes.
-- UserDataStream models websocket/binance_user_data_stream.hpp, whose events go to AccountManager;
-- the loop that asks for a new key is on a bound, and ends with the first answer that has one.
-- Producer models db/mongo_ticker_producer.hpp: the loop over the documents and the calls of the
-- listeners. Store models db/mongo_ticker_consumer.hpp, and the part of the producer that reads
-- what it has stored (Store/Reading), on an interface to the values of BSON. Results models
-- backtest/backtest_results_processor.cc. Connection models websocket/websocket_client.hpp, from
-- which the streams derive, as a step relation; the reconnection of UserDataStream is a witness of
-- it. BinanceTickers models the streams of book tickers and of trades.
--
-- A call that can throw gives an Outcome (Prelude.Faults), a handler that can throw gives the
-- state that it leaves and the exception; std::exit and a failed assertion are exceptions that
-- nothing catches. Double has the operations on `double` as a record: the definitions take any
-- type with these operations, and the theorems that need laws of arithmetic are stated for
-- integers, which do not round. Assoc has the maps as association lists, in the order in which
-- they are iterated over. Loops over containers are recursion on lists; the loops on fuel are the
-- printing of a number (Numerals), where 20 digits are enough for 64 bits, and the retries of a
-- request (Http), where one more level than there are retries is enough.
--
-- Logging is not modelled, except where the logged expression can throw (the value of the account
-- in a backtest). Not modelled: the queries to MongoDB, the formats of JSON and BSON themselves,
-- threads and timers, the main programs, the Kraken client of HTTP (it calls a constructor that
-- does not exist) and the user data stream that uses it, the signal of mean reversion and the
-- clients of other exchanges, which are written for interfaces that the program has no more.
pub mod Prelude
pub mod Double
pub mod Assoc
pub mod Symbol
pub mod QuickMath
pub mod OrderBook
pub mod Order
pub mod AccountBalance
pub mod Exchange
pub mod AccountManager
pub mod Ticker
pub mod Numerals
pub mod Backtest
pub mod Arbitrage
pub mod TickersWatcher
pub mod Spinlock
pub mod BinanceStream
pub mod Indicator
pub mod KrakenBook
pub mod Generator
pub mod KrakenStream
pub mod BinanceTickers
pub mod Connection
pub mod Results
pub mod Store
pub mod Producer
pub mod UserDataStream
pub mod BinanceClient
pub mod Json
pub mod Settings
pub mod Http
pub mod MarketMaking
