-- ===== src/OrderBook.antt =====
-- orderbook/orderbook.go: an order book's ID is the base and the quote joined by a hyphen.
pub mod RoundTrip
use dora_service_utils.Base.{List, [], ◌∷◌, ◌++◌}
use dora_service_utils.Base.Text.{Str, codes, hyphen, split_byte}

abbrev pub order_book_id : Str → Str → Str
order_book_id base_id quote_id = base_id ++ (hyphen ∷ quote_id)

pub data Side : Type 0 where
  buy sell : Side

abbrev pub side_str : Side → Str
side_str Side.buy = codes "buy"
side_str Side.sell = codes "sell"

first_of_two : List Str → Str
first_of_two (a ∷ b ∷ []) = a
first_of_two _ = []

second_of_two : List Str → Str
second_of_two (a ∷ b ∷ []) = b
second_of_two _ = []

unfoldable pub get_base_from_order_book_id : Str → Str
unfolding first_of_two split_byte
get_base_from_order_book_id id = first_of_two (split_byte hyphen id)

unfoldable pub get_quote_from_order_book_id : Str → Str
unfolding second_of_two split_byte
get_quote_from_order_book_id id = second_of_two (split_byte hyphen id)
