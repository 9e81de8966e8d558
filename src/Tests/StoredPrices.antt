-- ===== src/Tests/StoredPrices.antt =====
-- Runs of the theorems on the prices in the store. The text of a price is its asset, after a byte that
-- stands for the price.
use dora_service_utils.Base.{ℕ, ◌≡◌, ◌≢◌, refl, map, List, [], ◌∷◌, arith}
use dora_service_utils.Base.Text.{Str, codes}
use dora_service_utils.Base.Dict.{Dict}
use dora_service_utils.Base.Result.{Result, ok, err, plain}
use dora_service_utils.Redis.{quiet}
use dora_service_utils.Redis.Prices.{Price, Json, get_prices, set_prices}
use dora_service_utils.Redis.Prices.RoundTrip.{price_of, get_prices-set_prices}

write_price : Price ℕ → Result Str
write_price p = ok (p.price ∷ p.asset_id)

read_price : Str → Price ℕ → Price ℕ × Result (Unit {0})
read_price [] p = (p, err plain)
read_price (n ∷ s) p = (record { asset_id = s; price = n }, ok tt)

abbrev one_byte : Json ℕ
one_byte = record { zero_float = 0; marshal = write_price; unmarshal = read_price }

abbrev requests : Dict Str ℕ
requests = (codes "USD", 1) ∷ (codes "BTC", 60000) ∷ []

abbrev asked : List Str
asked = codes "BTC" ∷ codes "ETH" ∷ codes "USD" ∷ []

get_prices-set_prices_example :
    ((set_prices one_byte requests quiet [] []).1 ≡ ok tt)
    × (get_prices one_byte asked quiet [] (set_prices one_byte requests quiet [] []).0
        ≡ ok (map (price_of one_byte requests) asked))
unfolding write_price read_price dora_service_utils.Base.Dict.get
    dora_service_utils.Base.Text.str_beq
get_prices-set_prices_example =
    get_prices-set_prices one_byte requests asked []
      ((1 ∷ codes "USD", refl, refl), ((60000 ∷ codes "BTC", refl, refl), tt)) (refl, (refl, tt))
      (cc) (cc) refl
