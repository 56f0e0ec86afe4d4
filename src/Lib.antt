-- ===== src/Lib.antt =====
-- poly-maker: a market maker for binary prediction markets. Each market has a YES and a NO token; the
-- program posts BUY orders on both, sells inventory it holds, and merges matched pairs.
--
-- The parts and how they interact. The user stream (src/polymaker/userstream) parses frames and
-- delivers trade and order events to the event processor (src/polymaker/state/tracker.py), which
-- changes the state store (src/polymaker/state/store.py) and reports fills to the risk manager
-- (src/polymaker/risk/manager.py). The market stream (src/polymaker/marketdata) keeps the books. For
-- each market the engine (src/polymaker/engine.py) feeds the estimators
-- (src/polymaker/strategy/estimators.py), asks the risk manager and the regime machine
-- (src/polymaker/strategy/regime.py) for a posture, constructs the target quotes
-- (src/polymaker/strategy/quoting.py) and diffs them against the live orders
-- (src/polymaker/execution/reconciler.py); it sends the difference through the gateway
-- (src/polymaker/execution/gateway.py) within a rate budget (src/polymaker/execution/ratelimit.py) and
-- merges matched pairs (src/polymaker/merge.py). REST reads correct the store. The scanner
-- (src/polymaker/catalog) caches the markets that Gamma lists, ranked by
-- src/polymaker/catalog/scoring.py; the engine looks its markets up in Gamma, and in that cache.
--
-- The files:
--   Prelude (Tests, Lists, Dicts, Int): library names passed on, Boolean tests, lists, dictionaries
--     with text keys, integers.
--   Float (Order, Scaled): Python's `float` as an instance with laws, and a concrete one.
--   Domain, Config: src/polymaker/domain.py and the settings of src/polymaker/config.py.
--   Store: every call of StateStore; Store/Calls is a history of calls; Store/Positions holds the
--     theorems on positions, fills, restarts and reconciliation, Store/Orders and Store/Guarded those on
--     open orders and on the in-flight guard.
--   Tracker: on_trade and on_order of UserEventProcessor; Tracker/Counted: what is reported to the
--     risk manager; Tracker/Lifecycle: what settles a trade.
--   Regime: RegimeMachine.decide; Regime/Cooloff.
--   Reconciler: reconcile; Reconciler/Match, Count and Converge.
--   Quoting: construct_quotes and its helpers; Quoting/Safety.
--   Orderbook: OrderBook and BookView (src/polymaker/marketdata/orderbook.py), over an interface for
--     sortedcontainers.SortedDict; Orderbook/Touch: its best prices after any updates;
--     Orderbook/Depth: the depth that a view sums.
--   Risk: RiskManager; Risk/Limits for the caps, the taper and the cash ledger, Risk/Window for the
--     error window.
--   Estimators: the time-decayed means and markouts; Estimators/Clock and Markouts.
--   Scoring: the market scores; Scoring/Income.
--   Config/Entries: the trade list, overrides and preflight; Config/Preflight.
--   Catalog: Gamma is parse_market (src/polymaker/catalog/gamma.py), Scan the book depth and Sweep
--     run_scan with its pages (src/polymaker/catalog/scanner.py), Store the cache
--     (src/polymaker/catalog/store.py); Usable, Thinnest, Swept and Ranking prove what they give.
--   MoneyDoctor: the live self-test (src/polymaker/moneydoctor.py); MoneyDoctor/Flat and Sales.
--   Ledger: the ledger of a version and the forms of position ids (src/polymaker/execution/ledger.py);
--     Ledger/Bytes.
--   Wire: decoded JSON values and Python's reading of them. Domain/Names: enums by their names.
--   UserStream: the handlers of the user websocket; UserStream/Parse its messages.
--   MarketStream: the handlers of the market websocket; MarketStream/Parse its messages,
--     MarketStream/Sound its books after any frames.
--   Gateway: the heartbeat, cancels and retries; Gateway/Orders: posting and the open orders;
--     Gateway/Account: positions and balances; Gateway/Binding, Listing and Routed: what their answers
--     say.
--   RateLimit: the token bucket; RateLimit/Granted.
--   Merger: the merge transactions; Merger/Task: the engine's merge task; Merger/Bounded.
--   Engine: its state, callbacks and clocks; Engine/Sync: resyncs, reconcile and heartbeat rounds;
--     Engine/Inputs and Engine/Requote: a pass of the quoter (_recompute_locked);
--     Engine/Resolve and Refresh: startup, metadata and books; Engine/Registered and Fallback:
--     which markets a startup registers; Engine/Halts, Requests, Fills, Unreadable and
--     Divergence: what passes ask for, what fills count and what reads of the account leave.
--   Tests (Account, Strategy, Limits, Sorted, Live, Wired, Listed, Cached, Startup, Trades, Onchain, Streamed):
--     sample data, and the theorems at concrete inputs.
--
-- How state and operations correspond. A class is a record and a method a function from the record to
-- the new one, with its result beside it; the store that several classes share is passed explicitly.
-- Clock reads are arguments. A SQLite table is a dictionary by its key, and a restart keeps the tables
-- and drops the memory. A callback is a log of the calls made. A list that a helper appends to is the
-- list that the helper returns. A `float` is an abstract carrier with the operations the code uses; a
-- theorem that needs laws of it takes the record IsFloat, whose laws hold of finite doubles, and
-- Float/Scaled shows that they can be met.
--
-- A pass of the engine is a function of its state, the clock and the gateway's answers; what it asks of
-- the exchange is a log in its state. A call of a third-party package is its decoded answer, none where
-- it raised.
--
-- Bounds and fuel. Loops are structural on a list or on a count where they can be. The chunk loop of
-- `place` has the number of quotes as fuel, and place_acknowledged shows that it is enough; the page
-- loops have the source's bounds (50 pages of positions and of rates, 25 of markets); the wait of the
-- token bucket has fuel that stands for the rounds waited so far, and every theorem on it holds for
-- any fuel. Counters are natural numbers, as Python's integers that start at zero and grow.
--
-- Not modelled: the sockets and HTTP calls themselves, signing and RPC endpoints, the
-- other command line tools, logging, the journal and alerts, which are input and
-- output; the asyncio tasks, locks and the supervisor; in the store the P&L table, the WAL checkpoint
-- and the schema migration; formatted texts of reasons and log lines; letters beyond ASCII where case
-- is ignored.
pub mod Prelude
pub mod Float
pub mod Domain
pub mod Config
pub mod Regime
pub mod Reconciler
pub mod Store
pub mod Tracker
pub mod Orderbook
pub mod Quoting
pub mod Risk
pub mod Estimators
pub mod Scoring
pub mod Catalog
pub mod MoneyDoctor
pub mod Ledger
pub mod Wire
pub mod UserStream
pub mod Gateway
pub mod RateLimit
pub mod Merger
pub mod Engine
pub mod MarketStream
pub mod Tests
