-- ===== src/Redis.antt =====
-- redis/utils.go and redis/consts.go: the keys of the store and the retried transactions on it. The
-- store is the hashes behind the go-redis client, and the client and the backoff strategy are an
-- environment: a transaction runs for as many attempts as the strategy allows, and other clients may
-- change the store before each of them. NewClient, which only fills in the options of go-redis, is
-- left out.
pub mod Positions
pub mod Interest
pub mod Hashes
pub mod Appending
pub mod Pools
pub mod Prices
use dora_service_utils.Base.{
  ◌≡◌, refl, Option, none, some, List, [], ◌∷◌, ◌++◌, Option-cases, inl, inr,
}
use dora_service_utils.Base.Text.{Str, join, codes, str_eq}
use dora_service_utils.Base.Dict.{Dict, get, insert}
use dora_service_utils.Base.Result.{Result, ok, err, Error}

unfoldable pub key : List Str → Str
unfolding join
key elems = join (codes ":") elems

abbrev pub sequence_number_key : Str → Str
sequence_number_key user_id = key (codes "sequence_number" ∷ user_id ∷ [])

abbrev pub order_book_orders_key : Str → Str
order_book_orders_key order_book_id = key (codes "order_book" ∷ order_book_id ∷ [])

abbrev pub order_book_prices_key : Str → Str → Str
order_book_prices_key order_book_id side =
    key (codes "order_book" ∷ order_book_id ∷ codes "prices" ∷ side ∷ [])

abbrev pub orders_at_price_key : Str → Str → Str → Str
orders_at_price_key order_book_id side price =
    key (codes "order_book" ∷ order_book_id ∷ price ∷ side ∷ [])

abbrev pub order_key : Str → Str
order_key order_id = key (codes "order" ∷ order_id ∷ [])

abbrev pub balances_key : Str → Str
balances_key entity_id = key (codes "balances" ∷ entity_id ∷ [])

abbrev pub seq_num_offset_key : Str → Str → Str
seq_num_offset_key user_id topic = key (codes "seq_num_offset_mapping" ∷ user_id ∷ topic ∷ [])

unfoldable pub watch_keys : (Str → Str) → List Str → List Str
watch_keys f [] = []
watch_keys f (k ∷ keys) = f k ∷ watch_keys f keys

-- Hashes by their keys.
abbrev pub Store : Type 0
Store = Dict Str (Dict Str Str)

abbrev pub hash_of : Option (Dict Str Str) → Dict Str Str
hash_of none = []
hash_of (some h) = h

-- HGETALL; a key that is not there is an empty hash.
abbrev pub hgetall : Str → Store → Dict Str Str
hgetall k store = hash_of (get k store)

-- HSET of one field
abbrev pub hset : Str → Str → Str → Store → Store
hset k field value store = insert k (insert field value (hgetall k store)) store

-- One attempt: what others do before it, the error of Watch itself, and the error of a pipelined
-- transaction in it, as where a watched key has changed, or of the first command of a body.
pub record Attempt : Type 0 where
  pub others : Store → Store
  pub refused : Option Error
  pub conflict : Option Error

-- An attempt on a store that no one else changes.
abbrev pub quiet : Attempt
quiet = record { others = λ store. store; refused = none; conflict = none }

-- The body of a transaction, on the store and the variables that it captures.
abbrev pub Body : Type 0 → Type 0
Body S = Option Error → Store × S → (Store × S) × Result (Unit {0})

module _ {S : Type 0} (f : Body S) where
  unfoldable pub attempt : Attempt → Store × S → (Store × S) × Result (Unit {0})
  attempt a (store, s) = elim a.refused [
    | some e ↦ ((a.others store, s), err e)
    | none ↦ f a.conflict (a.others store, s)
  ]

  retry : (Store × S) × Result (Unit {0}) → List Attempt → (Store × S) × Result (Unit {0})
  unfolding attempt
  retry (x, ok u) attempts = (x, ok u)
  retry (x, err e) [] = (x, err e)
  retry (x, err e) (a ∷ attempts) = retry (attempt a x) attempts

  -- TryTransaction: the first attempt, and those that the backoff strategy still allows.
  unfoldable pub try_transaction :
      Attempt → List Attempt → Store × S → (Store × S) × Result (Unit {0})
  unfolding retry attempt
  try_transaction a attempts x = retry (attempt a x) attempts

  attempt_keeps :
      (P : S → Type 0)
      → ((e : Option Error) (x : Store × S) → P x.1 → P (f e x).0.1)
      → (a : Attempt) (x : Store × S) → P x.1
      → P (attempt a x).0.1
  unfolding attempt
  attempt_keeps P keeps a (store, s) h = elim (Option-cases a.refused) [
    | inl n ↦ rw n (keeps a.conflict (a.others store, s) h)
    | inr (e, r) ↦ rw r h
  ]

  -- What the body keeps of the captured variables, the transaction keeps.
  retry_keeps :
      (P : S → Type 0)
      → ((e : Option Error) (x : Store × S) → P x.1 → P (f e x).0.1)
      → (r : (Store × S) × Result (Unit {0})) (attempts : List Attempt) → P r.0.1
      → P (retry r attempts).0.1
  unfolding retry
  retry_keeps P keeps (x, ok u) attempts h = h
  retry_keeps P keeps (x, err e) [] h = h
  retry_keeps P keeps (x, err e) (a ∷ attempts) h =
      retry_keeps P keeps (attempt a x) attempts (attempt_keeps P keeps a x h)

  pub try_transaction_keeps :
      (P : S → Type 0)
      → ((e : Option Error) (x : Store × S) → P x.1 → P (f e x).0.1)
      → (a : Attempt) (attempts : List Attempt) (x : Store × S) → P x.1
      → P (try_transaction a attempts x).0.1
  unfolding try_transaction
  try_transaction_keeps P keeps a attempts x h =
      retry_keeps P keeps (attempt a x) attempts (attempt_keeps P keeps a x h)

  retry_none : (r : (Store × S) × Result (Unit {0})) → retry r [] ≡ r
  unfolding retry
  retry_none (x, ok u) = refl
  retry_none (x, err e) = refl

  -- One attempt on a store of one's own is a call of the body.
  pub try_transaction-quiet : (x : Store × S) → try_transaction quiet [] x ≡ f none x
  unfolding try_transaction attempt
  try_transaction-quiet x = retry_none (f none x)
