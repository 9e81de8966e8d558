-- ===== src/OrderBook/RoundTrip.antt =====
-- orderbook/orderbook.go: the ID of an order book and the lookups of its two halves.
use dora_service_utils.Base.{
  ◌+◌, ◌≡◌, ◌≢◌, refl, ◌||◌, List, [], ◌∷◌, arith, length, if◌then◌else◌, inl, inr, Bool-cases,
}
use dora_service_utils.Base.Text.{
  Str, hyphen, split_byte, contains_byte, count_byte, split_byte-no_sep, split_byte-sep,
  length-split_byte, count_byte-append, contains_byte-count,
}
use dora_service_utils.OrderBook.{
  first_of_two, second_of_two, order_book_id, get_base_from_order_book_id,
  get_quote_from_order_book_id,
}

halves_of_other : (ps : List Str) → length ps ≢ 2 → (first_of_two ps ≡ []) × (second_of_two ps ≡ [])
unfolding first_of_two second_of_two
halves_of_other [] h = (refl, refl)
halves_of_other (a ∷ []) h = (refl, refl)
halves_of_other (a ∷ b ∷ []) h = absurd (h refl)
halves_of_other (a ∷ b ∷ c ∷ ps) h = (refl, refl)

-- The number of pieces of an ID: one more than its hyphens, of which one joins the two assets.
length-split-order_book_id :
    (b q : Str)
    → length (split_byte hyphen (order_book_id b q)) ≡ count_byte hyphen b + count_byte hyphen q + 2
unfolding count_byte
length-split-order_book_id b q =
    omega
      (arith, length-split_byte hyphen (order_book_id b q), count_byte-append hyphen b (hyphen ∷ q))

-- Where neither asset holds a hyphen, the ID that joins them gives both back; where one of them
-- does (as a pool share does), both lookups return the empty string.
pub halves-order_book_id :
    (b q : Str)
    → (get_base_from_order_book_id (order_book_id b q)
        ≡ (if contains_byte hyphen b || contains_byte hyphen q then [] else b))
      × (get_quote_from_order_book_id (order_book_id b q)
          ≡ (if contains_byte hyphen b || contains_byte hyphen q then [] else q))
unfolding get_base_from_order_book_id get_quote_from_order_book_id
halves-order_book_id b q = elim (Bool-cases (contains_byte hyphen b || contains_byte hyphen q)) [
  | inl some_hyphen ↦
      let (first, second) = halves_of_other (split_byte hyphen (order_book_id b q)) (
        ground (
          arith,
          length-split-order_book_id b q,
          contains_byte-count hyphen b,
          contains_byte-count hyphen q,
        )) in
      (rw some_hyphen first, rw some_hyphen second)
  | inr no_hyphen ↦
      let whole = split_byte-sep hyphen b q (ground arith) in
      let rest = split_byte-no_sep hyphen q (ground arith) in
      (rw (no_hyphen, whole, rest), rw (no_hyphen, whole, rest))
]
