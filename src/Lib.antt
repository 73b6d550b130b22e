-- ===== src/Lib.antt =====
-- CoinHQ: the backend of a service that shows a user's holdings at several exchanges, shares them by
-- links, and lets the holders of a link trade within limits. This library models the Python code
-- under backend/app.
--
-- The parts, and how they call one another:
--   Base            lists, dictionaries, text, decimal numbers and integers as the code uses them
--   Number          Python's float, as an interface (below)
--   Store           the tables of backend/app/models, and the shape of a handler: it reads and
--                   writes the database and returns, raises an HTTPException with a status code, or
--                   ends in another exception
--   Config          core/config.py, the settings and their validators
--   Startup         core/migrations.py, and Startup.Script scripts/migrate_or_stamp.py: a run is the
--                   list of the calls that it makes
--   Auth            core/security.py and api/v1/auth.py. Auth.Tokens holds the session tokens,
--                   Auth.State the signed OAuth state, Auth.KeyRing the encryption keys, and
--                   Auth.Google the login and its callback
--   Limits          core/limits.py, the limits of the tiers
--   TradeLimits     core/trade_limits.py, check_delegate_trade
--   Trade           services/trade_service.py (spent_today_usd, execute_trade) and api/v1/trade.py.
--                   execute_trade is authorize, which reads, followed by settle, which writes; between
--                   them the code waits for the exchange
--   Exchanges       exchanges/factory.py, and the helpers of exchanges/base.py
--   Adapters        the adapters of the single exchanges: Adapters.Orders is what place_order sends,
--                   Adapters.Permissions are validate_key and validate_trade_key, Adapters.Quotes
--                   get_prices, Adapters.Holdings get_balances. Adapters.Binance.Walk is get_fills of
--                   exchanges/binance.py: walks over its markets that share a budget of calls.
--                   Adapters.Pages is get_fills of OKX, Coinbase and Kraken, and Adapters.Fills
--                   their _parse_fill
--   Prices          services/price_service.py: Prices.Symbols is the map from ticker symbols to coins,
--                   Prices.Search the search for single symbols, Prices.Service get_usd_prices
--   Profiles        api/v1/profiles.py, with the cascade of a deletion
--   Keys            api/v1/keys.py, which asks Limits and Exchanges
--   Portfolio       services/portfolio_service.py; Portfolio.Aggregate is get_aggregate_portfolio,
--                   Portfolio.Endpoints api/v1/portfolio.py
--   Share           api/v1/share.py, the owner's and the followers' side; Share.Public is the public
--                   side, which calls Portfolio and Trade
--   Pnl             services/pnl_service.py and api/v1/pnl.py
--   CostBasis       services/cost_basis_service.py: compute_avco; CostBasis.Service is get_cost_basis,
--                   which calls Portfolio, and keeps its answers in a memo
--   Waitlist        api/v1/waitlist.py
--   History         api/v1/history.py
--   Tests           the theorems at concrete inputs
-- The other child modules of a part hold its proofs, named for what they prove.
--
-- Conventions of the model:
--   Amounts are values of a type with the operations of Number. Where a theorem needs arithmetic, it
--   takes Number.Laws.IsOrdered, which finite IEEE numbers satisfy, or IsExact, arithmetic without
--   rounding. There is no NaN and no infinity, and one zero. Number.Cents shows that whole numbers
--   satisfy both.
--   A time is a number of seconds, given to a handler as an argument; in Auth.State, which compares
--   the clock with a whole second, it is one of milliseconds. Text is a list of code points; upper,
--   lower and strip act on ASCII. `int` reads numbers of any length.
--   All tables draw their ids from one counter. A query for one row takes the first that passes,
--   where the code has a unique constraint. The order of listed rows is left out, but where the code
--   computes with it.
--   A request body has passed its schema. Of an HTTPException the status code is kept. An exception
--   that nothing catches is a crash, with the writes committed before it.
--   A memo in the process's memory is a value that a call takes and returns; an entry that has
--   expired stays in it, and is not read. What is written to Redis is left out, and what a later call
--   reads of it is an argument.
--   Calls that run at once, the walks over Binance's markets, take the order of their answers as an
--   argument. The other loops are recursion over lists; nothing takes fuel.
--
-- Arguments of the model, as they are not this program's code: the exchanges' answers, CoinGecko's
-- and Google's, Redis, the JWT library, HMAC, the ciphers (Fernet), the database server's and
-- alembic's answers to a migration, the hash of an exchange's name, and random tokens. To the parts
-- that call them, Trade, Keys, Portfolio and CostBasis, the adapters and the prices are arguments
-- too; Adapters and Prices model them for themselves. So are the average prices of a public view,
-- which CostBasis.Service models.
--
-- Not modelled: the trade histories of Bybit, Gate.io and Binance TR, how a row of Bybit, Binance or
-- Binance TR is read, the prices of Kraken and Coinbase, the signatures of requests, the data of the paper
-- exchange, the list of trades, the cost basis endpoint, the administrator's counts, the maintenance
-- scripts, the wiring of the application, and the frontend.
pub mod Base
pub mod Number
pub mod Store
pub mod Config
pub mod Startup
pub mod Auth
pub mod Limits
pub mod TradeLimits
pub mod Trade
pub mod Exchanges
pub mod Adapters
pub mod Prices
pub mod Profiles
pub mod Keys
pub mod Portfolio
pub mod Share
pub mod Pnl
pub mod CostBasis
pub mod Waitlist
pub mod History
pub mod Tests
