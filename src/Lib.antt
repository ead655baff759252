-- ===== src/Lib.antt =====
-- TradeAlpha's trading core (apps/api): orders, positions, the double-entry ledger, the valuation
-- of portfolios, the market session, execution prices, the matching of ticks with open orders,
-- candles, liquidation, the outbox with the dispatch of its events, the end of a session, the price
-- feed and its lease, accounts and keys, webhooks, and what a client may do and see.
--
-- The program. `placeOrder` validates a request, locks cash, margin or shares and stores the order;
-- `markOrderPending` opens it for execution; `processFill` books an execution on the order, the
-- portfolio, the position and the ledger; `cancelOrder` and `expireOrder` close it and give the
-- locks back. Each call is one transaction of the database, which rows locked by `FOR UPDATE`
-- serialize; calls interleave between transactions.
--
-- The files, with the code they model (below apps/api/src, but for Chart):
--   Base, Int, Dict         shared names, signed integers, insertion-ordered maps
--   Column                  decimal columns: what a rounding write is known to do
--   Store                   prisma/schema.prisma: rows, tables, transactions that roll back
--   Session                 services/market-session.service.ts
--   Ledger                  services/ledger.service.ts
--   Liquidity               engine/liquidity.config.ts
--   Valuation               services/portfolio-valuation.service.ts
--   Positions               services/position.service.ts
--   Orders                  services/order.service.ts: Status (the table of transitions), Placing,
--                           Pending, Filling, Closing, and Steps, where committed transactions are
--                           a step relation
--   Lease                   the scripts on a lease in Redis, which the feed and the engine share
--   Engine                  engine/trading-engine.ts: Engine (books, triggers, jobs), Engine.Handlers
--                           (messages, hydration, reconciliation), Engine.Leases (its leases) and
--                           Engine.Cluster (several engines)
--   Simulator               services/market-simulator.service.ts
--   Feed                    main.feed.ts; Feed.Single runs several processes
--   Execution               workers/execution.worker.ts: the job that calls `processFill`
--   Candles                 services/market-candle.service.ts
--   Aggregator              workers/ohlcv-aggregator.worker.ts: one-minute candles out of ticks
--   Liquidation             workers/liquidation.worker.ts; Liquidation.System runs it among the
--                           calls of the order service
--   LiquidationTrigger      services/liquidation-trigger.service.ts
--   Outbox                  workers/outbox.worker.ts: claims, publication and retries
--   Dispatcher              workers/domain-event-dispatcher.worker.ts: where an event goes
--   EodSweep                services/eod-sweep.service.ts: expiry of orders and snapshots
--   PriceCache              services/price-cache.service.ts
--   Gateway                 websocket.ts: connections, rooms and subscriptions
--   PortfolioApi            controllers/portfolio.controller.ts: access, pages, positions, history
--   OrderApi, MarketApi     controllers/order.controller.ts, controllers/market.controller.ts
--   Auth                    controllers/auth.controller.ts, middlewares/auth.middleware.ts,
--                           middlewares/csrf.middleware.ts
--   ApiKeys                 services/api-keys.service.ts, middlewares/api-key.middleware.ts,
--                           controllers/api-keys.controller.ts, middlewares/rate-limit.middleware.ts
--   Webhooks                controllers/webhooks.controller.ts, workers/webhook.worker.ts
--   Chart                   apps/web/src/components/terminal/chart.tsx: the candles it merges
--
-- The engine keeps the open orders of the symbols it owns. A tick triggers executions, which it
-- queues as jobs and which end in `processFill`; an order that is queued waits until the database
-- has caught up. What other handlers do while the engine awaits the database is a parameter
-- `interim`; the answer to an activation comes before the next order of a tick is evaluated. The
-- objects of the books have names, so that an activation changes the object that it has captured,
-- and not one that has replaced it in the meantime; of an object that is no longer in a book only
-- what it was when it was captured is known. An
-- exception of a missing price, which the handlers log, ends the evaluation of that order only.
--
-- The sweep at the end of a session expires one order after the other, each in a transaction; what
-- other calls commit before each of them is a parameter `between`. The snapshots that follow are of
-- one state of the database.
--
-- Every transaction writes its events to the outbox. The outbox worker hands them to a queue, and
-- the dispatcher takes them from there: an accepted order becomes pending and its engine is told,
-- a fill asks for an evaluation of the portfolio, which the liquidation worker carries out in a
-- transaction of its own.
--
-- Each function of the code is a definition of its name in snake case; a Prisma transaction is a
-- function of the store that returns a new one or an error, and an error rolls back.
--
-- Numbers. A decimal is an integer that counts units of 10^-4, the scale of the columns
-- DECIMAL(19,4); products count units of 10^-8 and so on, as comments say. decimal.js computes
-- these sums and products exactly as long as they have at most 20 significant digits. Quotients and
-- column writes round: the rounding is the parameter `Column`, of which it is known that it is
-- monotone and leaves alone what a column can hold. Column.HalfAway is PostgreSQL's rounding, which
-- the tests use. Overflow of DECIMAL(19,4) is not modelled.
-- Identifiers are uuids that the code only compares: they are numbers, and a new row gets one that
-- no row has. Instants are seconds of the wall clock of Asia/Kolkata, or milliseconds where a file
-- says so.
-- Loops over positions, entries, orders and events are structural recursion. The loop over the pages
-- of portfolios is recursion on fuel; the code's call of it gets two more than there are hundreds of
-- portfolios.
--
-- Redis. A lease is a key with a holder and an expiry; `Lease` has the commands on one key as Redis
-- documents them. A command is answered, does not arrive, or is carried out and its answer is lost.
-- The time that passes between the steps of processes is arbitrary, and so is their order. The field
-- `confirmed_at` of a feed, and `confirmed` of a cluster, only serve statements about time.
--
-- Parameters for what the repository does not hold: the prices that Valuation, Liquidation and
-- EodSweep read (PriceCache gives such a function), the order of texts and the text of a key
-- (`Surroundings` of Liquidation), how the publication of an event ends and which rows are locked
-- (Outbox), whether Redis answers (PriceCache, Gateway), what the library says of a token (Gateway),
-- the hashes and the parse of a number (`Crypto` of ApiKeys), bcrypt and jsonwebtoken (`Libraries` of
-- Auth), floating point (`Floats` of Simulator), the texts of Prisma's errors and what a query does
-- with a negative number (OrderApi), and signatures and the answers of addresses (Webhooks).
--
-- Not modelled: requests with decimals of more than four places, which nothing in the code refuses;
-- what web sockets pass on, telemetry and start-up, which are glue around the services;
-- the counting of rate limits, the attributes of cookies, the queues and the timers, which are those
-- of libraries; the channel that ticks are published on; seed data; and the rest of the web front
-- end, which shows what the handlers answer.
pub mod Base
pub mod Int
pub mod Column
pub mod Store
pub mod Dict
pub mod Session
pub mod Ledger
pub mod Liquidity
pub mod Valuation
pub mod Positions
pub mod Orders
pub mod Engine
pub mod Execution
pub mod Candles
pub mod Aggregator
pub mod ApiKeys
pub mod Auth
pub mod Chart
pub mod Dispatcher
pub mod EodSweep
pub mod Feed
pub mod Gateway
pub mod Lease
pub mod Liquidation
pub mod LiquidationTrigger
pub mod MarketApi
pub mod OrderApi
pub mod Outbox
pub mod PortfolioApi
pub mod PriceCache
pub mod Simulator
pub mod Webhooks
