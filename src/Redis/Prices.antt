-- ===== src/Redis/Prices.antt =====
-- prices/redis/prices.go and prices/types/price.go: the prices of assets, one hash with a text for
-- each asset. `F` is float64 and goccy/go-json is a parameter. HMGET and HSET refuse to be called
-- with no field.
pub mod RoundTrip
use dora_service_utils.Base.{Option, none, some, List, [], ◌∷◌}
use dora_service_utils.Base.Text.{Str, codes}
use dora_service_utils.Base.Dict.{Dict}
use dora_service_utils.Base.Result.{Result, ok, err, Error, plain}
use dora_service_utils.Redis.{Store, Attempt, Body, hgetall, try_transaction}
use dora_service_utils.Redis.Hashes.{Command, hm_get, hset_fields, read_fields}
use dora_service_utils.Redis.Appending.{appending}
use dora_service_utils.Redis.Positions.{returned}

pub record Price (F : Type 0) : Type 0 where
  pub asset_id : Str
  pub price : F

-- MarshalBinary and UnmarshalBinary of Price: the second also gives what an error leaves.
pub record Json (F : Type 0) : Type 0 where
  pub zero_float : F
  pub marshal : Price F → Result Str
  pub unmarshal : Str → Price F → Price F × Result (Unit {0})

abbrev pub prices_key : Str
prices_key = codes "prices"

unfoldable pub get_prices_cmd : List Str → Command
get_prices_cmd asset_ids = hm_get prices_key asset_ids

module _ {F : Type 0} (json : Json F) where
  open json use {zero_float, marshal, unmarshal}

  -- `types.Price{}`
  abbrev pub zero_price : Price F
  zero_price = record { asset_id = []; price = zero_float }

  -- One value of the reply: no value is the zero price.
  unfoldable pub read_value : Option Str → Price F × Result (Unit {0})
  read_value none = (zero_price, ok tt)
  read_value (some v) = unmarshal v zero_price

  append_price :
      Price F × Result (Unit {0})
      → List (Price F) × Result (Unit {0})
      → List (Price F) × Result (Unit {0})
  append_price (p, err e) rest = ([], err e)
  append_price (p, ok u) (prices, r) = (p ∷ prices, r)

  -- The loop over the reply: what it appends.
  unfoldable pub read_values : List (Str × Option Str) → List (Price F) × Result (Unit {0})
  unfolding read_value append_price
  read_values [] = ([], ok tt)
  read_values ((field, v) ∷ res) = append_price (read_value v) (read_values res)

  -- HMGet and the loop.
  unfoldable pub read_prices : Str → List Str → Store → List (Price F) × Result (Unit {0})
  unfolding read_values read_fields
  read_prices key [] store = ([], err plain)
  read_prices key (id ∷ ids) store = read_values (read_fields (id ∷ ids) (hgetall key store))

  -- GetPrices
  unfoldable pub get_prices : List Str → Attempt → List Attempt → Store → Result (List (Price F))
  unfolding read_prices returned appending try_transaction
  get_prices asset_ids a attempts store =
      returned
        (try_transaction (appending (read_prices prices_key asset_ids)) a attempts (store, []))

  with_field : Str → Result Str → Result (List (Str × Str)) → Result (List (Str × Str))
  with_field asset_id (err e) rest = err e
  with_field asset_id (ok j) (err e) = err e
  with_field asset_id (ok j) (ok fields) = ok ((asset_id, j) ∷ fields)

  -- The fields of SetPrices, each price marshalled as HSet takes its arguments.
  unfoldable pub price_fields : Dict Str F → Result (List (Str × Str))
  unfolding with_field
  price_fields [] = ok []
  price_fields ((asset_id, price) ∷ reqs) =
      with_field asset_id (marshal (record { asset_id = asset_id; price = price }))
        (price_fields reqs)

  -- HSet of the fields, or its error.
  unfoldable pub write_prices : Result (List (Str × Str)) → Store → Store × Result (Unit {0})
  write_prices (err e) store = (store, err e)
  write_prices (ok []) store = (store, err plain)
  write_prices (ok (f ∷ fields)) store = (hset_fields prices_key (f ∷ fields) store, ok tt)

  prices_body : Dict Str F → Body (Unit {0})
  unfolding write_prices price_fields
  prices_body reqs (some e) x = (x, err e)
  prices_body reqs none (store, u) =
      let (written, r) = write_prices (price_fields reqs) store in ((written, u), r)

  -- SetPrices
  unfoldable pub set_prices :
      Dict Str F → Attempt → List Attempt → Store → Store × Result (Unit {0})
  unfolding prices_body try_transaction
  set_prices reqs a attempts store =
      let ((written, u), r) = try_transaction (prices_body reqs) a attempts (store, tt) in
      (written, r)
