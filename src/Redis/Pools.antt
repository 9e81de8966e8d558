-- ===== src/Redis/Pools.antt =====
-- pools/redis/pools.go: the pools in the store, a hash for each. How go-redis writes a value, and how
-- its Scan fills the tagged fields of a pool, is a parameter. HMGET never answers with redis.Nil, so
-- the branch of GetPool on that error is left out.
pub mod Scanning
pub mod RoundTrip
pub mod Read
use dora_service_utils.Base.{ℕ, Bool, Option, none, some, List, [], ◌∷◌, ◌++◌, false}
use dora_service_utils.Base.Int.{ℤ, pos}
use dora_service_utils.Base.Text.{Str, codes}
use dora_service_utils.Base.Result.{Result, ok, err, Error}
use dora_service_utils.OrderBook.{order_book_id}
use dora_service_utils.Pools.{Pool}
use dora_service_utils.Redis.{Store, Attempt, Body, hgetall, try_transaction}
use dora_service_utils.Redis.Hashes.{
  Command, hget_all, hm_get, h_set, hset_fields, apply_command, read_fields, all_fields,
}
use dora_service_utils.Redis.Appending.{appending}
use dora_service_utils.Redis.Positions.{returned}

unfoldable pub pool_keys : List Str
pool_keys =
    codes "pool_id"
    ∷ codes "base_asset"
    ∷ codes "quote_asset"
    ∷ codes "is_product_pool"
    ∷ codes "amount_shares"
    ∷ codes "amount_base"
    ∷ codes "amount_quote"
    ∷ codes "fee_factor"
    ∷ codes "created_at"
    ∷ codes "maturity_at"
    ∷ codes "fees_collected_base"
    ∷ codes "fees_collected_quote"
    ∷ codes "initial_assets_ratio"
    ∷ codes "display_name"
    ∷ codes "sequence"
    ∷ []

unfoldable pub pool_key : Str → Str
pool_key pool_id = codes "pools:" ++ pool_id

-- The arguments of HSet that go-redis writes as texts, decimal.Decimal and its String, and Scan,
-- which fills a struct from fields with their values, none for a field that is not there.
pub record Codec (D : Type 0) : Type 0 where
  pub zero_decimal : D
  pub number : ℕ → Str
  pub integer : ℤ → Str
  pub boolean : Bool → Str
  pub decimal : D → Str
  pub scan : List (Str × Option Str) → Pool D → Pool D × Result (Unit {0})

-- The numbers that UpdatePoolBalance writes.
pub record PoolBalance : Type 0 where
  pub shares : ℕ
  pub base : ℕ
  pub quote : ℕ
  pub fees_base : ℕ
  pub fees_quote : ℕ
  pub sequence : ℕ

module _ {D : Type 0} (codec : Codec D) where
  open codec use {zero_decimal, number, integer, boolean, decimal, scan}

  -- `new(types.Pool)`
  unfoldable pub new_pool : Pool D
  new_pool = record {
    pool_id = [];
    base_asset = [];
    quote_asset = [];
    is_product_pool = false;
    amount_shares = 0;
    amount_base = 0;
    amount_quote = 0;
    fees_collected_base = 0;
    fees_collected_quote = 0;
    fee_factor = zero_decimal;
    created_at = pos 0;
    maturity_at = pos 0;
    initial_assets_ratio = zero_decimal;
    display_name = [];
    sequence = 0;
  }

  -- The fields and values of UpdatePool.
  unfoldable pub pool_fields : Pool D → List (Str × Str)
  pool_fields pool =
      (codes "pool_id", pool.pool_id)
      ∷ (codes "base_asset", pool.base_asset)
      ∷ (codes "quote_asset", pool.quote_asset)
      ∷ (codes "is_product_pool", boolean pool.is_product_pool)
      ∷ (codes "amount_shares", number pool.amount_shares)
      ∷ (codes "amount_base", number pool.amount_base)
      ∷ (codes "amount_quote", number pool.amount_quote)
      ∷ (codes "fee_factor", decimal pool.fee_factor)
      ∷ (codes "created_at", integer pool.created_at)
      ∷ (codes "maturity_at", integer pool.maturity_at)
      ∷ (codes "fees_collected_base", number pool.fees_collected_base)
      ∷ (codes "fees_collected_quote", number pool.fees_collected_quote)
      ∷ (codes "initial_assets_ratio", decimal pool.initial_assets_ratio)
      ∷ (codes "display_name", pool.display_name)
      ∷ (codes "sequence", number pool.sequence)
      ∷ []

  -- The fields and values of UpdatePoolBalance.
  unfoldable pub balance_fields : PoolBalance → List (Str × Str)
  balance_fields b =
      (codes "amount_shares", number b.shares)
      ∷ (codes "amount_base", number b.base)
      ∷ (codes "amount_quote", number b.quote)
      ∷ (codes "fees_collected_base", number b.fees_base)
      ∷ (codes "fees_collected_quote", number b.fees_quote)
      ∷ (codes "sequence", number b.sequence)
      ∷ []

  scanned_then :
      Pool D × Result (Unit {0})
      → List (Pool D) × Result (Unit {0})
      → List (Pool D) × Result (Unit {0})
  scanned_then (p, err e) rest = ([], err e)
  scanned_then (p, ok u) (pools, r) = (p ∷ pools, r)

  -- The loop of GetPools over the replies, each scanned into a new pool: what it appends.
  unfoldable pub read_pools : List Str → Store → List (Pool D) × Result (Unit {0})
  unfolding scanned_then new_pool
  read_pools [] store = ([], ok tt)
  read_pools (pool_id ∷ pool_ids) store =
      scanned_then (scan (all_fields (hgetall (pool_key pool_id) store)) new_pool)
        (read_pools pool_ids store)

  -- GetPools
  unfoldable pub get_pools : List Str → Attempt → List Attempt → Store → Result (List (Pool D))
  unfolding read_pools returned appending try_transaction
  get_pools pool_ids a attempts store =
      returned (try_transaction (appending (read_pools pool_ids)) a attempts (store, []))

  -- The transaction of GetPool scans into the one variable.
  get_pool_body : Str → Body (Pool D)
  unfolding read_fields pool_keys pool_key
  get_pool_body pool_id (some e) (store, pool) = ((store, pool), err e)
  get_pool_body pool_id none (store, pool) =
      let (p, r) = scan (read_fields pool_keys (hgetall (pool_key pool_id) store)) pool in
      ((store, p), r)

  -- GetPool
  unfoldable pub get_pool : Str → Attempt → List Attempt → Store → Result (Pool D)
  unfolding get_pool_body new_pool returned try_transaction
  get_pool pool_id a attempts store =
      returned (try_transaction (get_pool_body pool_id) a attempts (store, new_pool))

  unfoldable pub get_pools_cmd : List Str → List Command
  get_pools_cmd [] = []
  get_pools_cmd (pool_id ∷ pool_ids) = hget_all (pool_key pool_id) ∷ get_pools_cmd pool_ids

  unfoldable pub get_pool_cmd : Str → Command
  get_pool_cmd pool_id = hm_get (pool_key pool_id) pool_keys

  -- UpdatePoolCmd and UpdatePoolBalanceCmd: the command that they send.
  unfoldable pub update_pool_cmd : Pool D → Command
  unfolding pool_fields pool_key
  update_pool_cmd pool = h_set (pool_key pool.pool_id) (pool_fields pool)

  unfoldable pub update_pool_balance_cmd : Str → PoolBalance → Command
  unfolding balance_fields pool_key
  update_pool_balance_cmd pool_id b = h_set (pool_key pool_id) (balance_fields b)

  -- A transaction of one HSet.
  hset_body : Str → List (Str × Str) → Body (Unit {0})
  unfolding hset_fields
  hset_body k fields (some e) x = (x, err e)
  hset_body k fields none (store, u) = ((hset_fields k fields store, u), ok tt)

  store_of : (Store × Unit {0}) × Result (Unit {0}) → Store × Result (Unit {0})
  store_of ((store, u), r) = (store, r)

  -- UpdatePool
  unfoldable pub update_pool :
      Pool D → Str → Attempt → List Attempt → Store → Store × Result (Unit {0})
  unfolding hset_body pool_fields pool_key store_of try_transaction
  update_pool pool pool_id a attempts store =
      store_of
        (try_transaction (hset_body (pool_key pool_id) (pool_fields pool)) a attempts (store, tt))

  -- UpdatePoolBalance
  unfoldable pub update_pool_balance :
      Str → PoolBalance → Attempt → List Attempt → Store → Store × Result (Unit {0})
  unfolding hset_body balance_fields pool_key store_of try_transaction
  update_pool_balance pool_id b a attempts store =
      store_of
        (try_transaction (hset_body (pool_key pool_id) (balance_fields b)) a attempts (store, tt))

  -- CreatePool gives the pool its ID and stores it; the pool is its caller's.
  unfoldable pub create_pool :
      Pool D → Attempt → List Attempt → Store → Pool D × (Store × Result (Unit {0}))
  unfolding update_pool
  create_pool pool a attempts store =
      let pool_id = order_book_id pool.base_asset pool.quote_asset in
      let named = record pool { pool_id = pool_id } in
      (named, update_pool named pool_id a attempts store)
