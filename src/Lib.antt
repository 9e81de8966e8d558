-- ===== src/Lib.antt =====
-- dora-service-utils: the shared Go library of the Dora services. This library models its financial
-- core and states what makes it correct.
--
-- The parts and their files:
--   Ledger (ledger/types): Amount is amount.go, unsigned amounts with checked arithmetic; Balance is
--     balance.go, one asset with a uint64 that is also read as int64; Balances is balances*.go, a Go
--     map from asset IDs to int64, with Selection for balances_misc.go and balances_iter.go,
--     Calculus for balances_math.go and Json for balances_json.go; AssetId is ValidAssetID of
--     assetID.go and Balances.Special its InterpretSpecialPrefix; Position is position.go, a user's
--     sets of balances with the sequence number of its changes; Module is module.go, the same for
--     the totals of the platform.
--   Math (math): SafeMath is safemath.go, BigInt the integer functions of math.go and arithmetic.go,
--     BigFloat the calls of package math/big's floats and Float64 float64, each as a record of
--     operations that clients take.
--   OrderBook (orderbook/orderbook.go): the IDs that join two assets by a hyphen.
--   Pools (pools/types/pools.go): a liquidity pool, its reserves, fees and assets, with AddLiquidity
--     and RemoveLiquidity in Pools.Liquidity, the swap against a product pool in Pools.Swap and the
--     yield curve, the swap against a yield pool and prices in Pools.Yield.
--   Helpers (helpers): AssetData is asset.go, what is known of each asset and its coupons, with the
--     values of a position in AssetData.Sums; Stablecoin is users.go, which fills a balance with
--     other stablecoins and undoes that later.
--   Kafka (kafka): the options of a client, messages and the lags of a consumer group; Settings is
--     config.go.
--   Cache (cache): a cache that goroutines fill from Kafka. The state has the goroutines with their
--     contexts, and a list of events, the calls and the parts of the goroutines between two points
--     at which others may run, is one interleaving; Options and Consume are options.go.
--   Redis (redis/utils.go): keys and retried transactions over a store of hashes, which other
--     clients may change before each attempt; Positions is ledger/redis/positions.go, Interest is
--     ledger/redis/interest.go with the accrual in Interest.Lending, Pools is pools/redis/pools.go
--     and Prices is prices/redis/prices.go. Hashes has the commands on hashes, and Appending the
--     reads that append to a variable.
--   Migration (migration/parser.go): the statements and the version of a migration file; Runner is
--     migration.go, which applies them.
--   Metrics (metrics): the collectors of instrumentation.go and options.go; Recording is what is
--     recorded of a call, with interceptors.go and middleware.go, and Server is server.go.
-- Pools and Stablecoin call Ledger, which calls Math; Stablecoin reads AssetData. Base has the shared
-- types: error results (Base.Result), machine words (Base.Word, Base.Signed), byte strings
-- (Base.Text) and Go maps (Base.Dict). Tests has the runs of the theorems on concrete values.
--
-- How the code is read: an operation keeps its Go name in lower case with underscores, in the module
-- of its type. uint64 is a native number below 2 ^ 64 and int64 an integer, each with its wrap-around
-- written out; a string is its bytes, and case is folded as for ASCII; a map is an association list
-- in an arbitrary order, which stands for the order of a range loop; a value with an error is a
-- Result, of which only the type of the error is kept and not its text; a method that writes through
-- its receiver returns what it leaves. A panic that the code can reach is none. No loop needs fuel:
-- each is a recursion on the list or the number that it ranges over.
--
-- What is not in the repository is a parameter: big.Float and the decimals (BigFloat), float64
-- (Float64), JSON (Json), the texts of values in redis and their scan (Format, Codec), the collectors
-- of prometheus (Prometheus, Library), the Kafka client, the database behind the Spanner client
-- (Database), what happens between two attempts of a redis transaction (Attempt), the trimming of
-- spaces in migrations and the parsing of dates.
--
-- Not modelled: logging, validation of decimals, cloud secrets, the options of database and redis
-- clients and generated fakes, which are calls of other libraries; the JSON of amounts; and
-- exchange rates and roots of big.Float.
pub mod Base
pub mod Math
pub mod Ledger
pub mod OrderBook
pub mod Pools
pub mod Helpers
pub mod Kafka
pub mod Cache
pub mod Redis
pub mod Migration
pub mod Metrics
pub mod Tests
