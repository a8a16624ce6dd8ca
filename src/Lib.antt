-- ===== src/Lib.antt =====
-- mExchange: a matching engine, the service around it, the gateway that shows its book to clients, the
-- UDP protocol between them and the accounts that fills are settled in.
--
-- An order command reaches matching_engine_service over UDP. The engine matches it against the book, each
-- fill is settled with the accounts service, and the events are sent to the gateway; ten times a second the
-- top of the book is sent there too, whole or as changes. The files follow these parts:
--   Common     numbers, lists, texts, and the maps: `BTreeMap` is a sorted list of entries (SortedMap),
--              `HashMap` a list of entries (IdMap).
--   Engine     matching_engine/src/lib.rs. Orders has the data, Matching is `match_order` with its two loops,
--              Operations has the methods that change the book, Queries those that read it. Loops, Levels,
--              Sweep and Validity hold the proofs, from one round of matching up to the whole order;
--              Reachable is the relation of what a book can come to, Spreads is about its top.
--   Events     the events and commands of matching_engine_service/src/events.rs and gateway/src/events.rs.
--   Publisher  `OrderBookPublisher` of matching_engine_service/src/main.rs.
--   Service    `process_order_command` of the same file (Commands) and the client of
--              matching_engine_service/src/settlement.rs (Settlement).
--   Gateway    `OrderBookState` of gateway/src/channel_updates.rs. Deltas, Sync and Rounds relate it to the
--              publisher.
--              Clients is `ChannelManager` of gateway/src/websocket.rs, Remote its calls of the accounts
--              service, Handlers and Sessions the requests of a connection; Broadcast and Bots are the tasks
--              and handlers of gateway/src/server.rs.
--   Codec      udp_proto/src/binary.rs (Binary) over the tables of its schema (Flat), and the conversions of
--              the two udp_transport.rs (Convert).
--   Wire       udp_proto/src/protocol.rs: headers, packets and `PacketBuilder`.
--   Transport  the workers of udp_proto/src/sender.rs and udp_proto/src/receiver.rs.
--   Accounts   accounts/src/models: ledger.rs, order.rs, trade.rs and balance.rs over the tables of
--              accounts/migrations, and the one-time codes of otp.rs (Otps).
--   Routes     accounts/src/routes: orders.rs (Replies, Placing, Orders), internal.rs (Internal and
--              Internal.Orders), balances.rs (Money) and faucet.rs (Faucet). Signs, Taking, Agreeing, Pages, Privacy, Returning, Claims and
--              Resettling hold the proofs.
--   Candles    accounts/src/models/ohlcv.rs and market_data/src/ohlcv.rs. Aggregates follows one row of the
--              table, Summaries and Describing say what it holds, Agreeing relates the services.
--
-- Conventions. A method takes the state and returns the new one. A panic is `none`; an error is a value, and
-- a failed transaction returns no tables. A Decimal is an integer in units of 10^-28, the finest scale of
-- rust_decimal; its overflow is not modelled, and where the scale itself matters (accounts) it is kept beside
-- the value, with rounding, products and quotients as parameters. u64, u32 and u16 wrap where the source adds.
-- UUIDs are numbers. Doubles, JSON, sockets, the clock and the HTTP client are parameters or inputs.
--
-- Loops. The loops over prices, deltas, messages and entries are structural. The loop on a price level has
-- one more round of fuel than the level has orders, and each round removes an order or fills the taker. The
-- loop of `settle_fill` has three rounds, the number of attempts after which every answer is final.
--
-- Not modelled: threads and the locks between them, so that two settlements never run at the same time; the
-- bytes of FlatBuffers and of JSON; sign-in and its tokens, mail and log; the
-- trading bot, the frontend and the Python tools.
pub mod Common
pub mod Engine
pub mod Events
pub mod Publisher
pub mod Service
pub mod Gateway
pub mod Codec
pub mod Accounts
pub mod Candles
pub mod Routes
pub mod Wire
pub mod Transport
