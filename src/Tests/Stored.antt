-- ===== src/Tests/Stored.antt =====
-- Runs of the theorems on the positions in the store.
use dora_service_utils.Base.{ℕ, arith, ◌≡◌, ◌≢◌, refl, true, false, ltb, none, some, [], ◌∷◌}
use dora_service_utils.Base.Int.{ℤ, pos, negsuc, pos_part, ltb_ℤ, leb_ℤ, beq_ℤ}
use dora_service_utils.Base.Text.{Str, codes, str_eq}
use dora_service_utils.Base.Dict.{get}
use dora_service_utils.Base.Result.{ok, plain}
use dora_service_utils.Ledger.Balances.{Balances, empty_balances, of_map}
use dora_service_utils.Ledger.Position
use dora_service_utils.Ledger.Position.{Exported, Position, present, is_modified, initial_position}
use dora_service_utils.Redis.{quiet, Attempt, Store, hgetall}
use dora_service_utils.Redis.Interest.{Format, Interest, parse_uint64, user_interest_key}
use dora_service_utils.Redis.Interest.Lending.{Clock, LendingAccrual, no_failures, accrued, accrue}
use dora_service_utils.Math.Float64.{Float64}
use dora_service_utils.Helpers.AssetData.{AssetData}
use dora_service_utils.Redis.Interest.Accrual.{Readable, accrue_forgets}
use dora_service_utils.Redis.Positions.{
  Positions, read_position, get_users_position, set_users_position,
}
use dora_service_utils.Redis.Positions.RoundTrip.{get_users_position-set_users_position}

abbrev bob : Str
bob = codes "bob"

abbrev fields : Exported Balances
fields = record {
  user_id = bob;
  owned = of_map ((codes "USD", pos 5) ∷ []);
  locked = empty_balances;
  supplied = empty_balances;
  sseq = empty_balances;
  inactive = empty_balances;
  interest_sources = empty_balances;
  native_asset = codes "USD";
  last_updated = pos 0;
  sequence = 3;
}

-- The only text is that of these fields.
abbrev one_text : Position.Json
one_text = record { marshal = λ e. ok (codes "x"); unmarshal = λ s e. (present fields, ok tt) }

abbrev position : Position Balances
position = record { exported = fields; original = []; original_sequence = 0 }

get_users_position-set_users_position_example :
    ((set_users_position one_text ((bob, position) ∷ []) quiet [] []).1 ≡ ok tt)
    × (ps : Positions) × (q : Position Balances) × (get_users_position one_text
          (bob ∷ [])
          quiet
          []
          (set_users_position one_text ((bob, position) ∷ []) quiet [] []).0
        ≡ ok ps)
    × (get bob ps ≡ some q)
    × (q.exported ≡ fields)
    × (is_modified one_text q ≡ false)
unfolding get
get_users_position-set_users_position_example =
    get_users_position-set_users_position one_text position (codes "x") [] refl (λ e. cc) refl refl

-- An attempt that cannot reach the store.
abbrev unreachable : Attempt
unreachable = record quiet { refused = some plain }

abbrev found : Positions
found = (bob, initial_position one_text bob) ∷ []

-- The only number is 7, and the only time 0.
abbrev sevens : Format
sevens = record {
  Time = ℕ;
  zero_time = 0;
  number = λ n. codes "7";
  time = λ t. codes "0";
  parse_time = λ s. ok 0;
}

abbrev seven : Interest ℕ
seven = record { earned = 7; owed = 7; claimed = 7; paid = 7; last_updated = 0 }

-- Interest of 5 is stored for the user already.
abbrev owing_five : Store
owing_five = (codes "interest:users:bob", (codes "owed", codes "5") ∷ []) ∷ []

seven-Readable : Readable sevens seven
unfolding parse_uint64
seven-Readable = record {
  earned = refl;
  owed = refl;
  claimed = refl;
  paid = refl;
  last_updated = refl;
}

-- A float64 is an integer here, and a product is its second factor.
abbrev floats : Float64
floats = record {
  F = ℤ;
  zero = pos 0;
  one = pos 1;
  is_nan = λ x. false;
  is_inf = λ x. false;
  lt = ltb_ℤ;
  le = leb_ℤ;
  beq = beq_ℤ;
  add = λ x y. y;
  sub = λ x y. x;
  mul = λ x y. y;
  div = λ x y. x;
  of_int = λ x. x;
  pow10 = λ x. x;
  pow = λ x y. x;
  new_float_int = λ x. some x;
  to_uint64 = pos_part;
}

abbrev clock : Clock ℕ ℤ
clock = record { after = λ a b. ltb b a; unix = pos; format_float = λ x. codes "7" }

abbrev priced : AssetData ℤ
priced = record {
  decimals = some ((codes "USD", pos 0) ∷ []);
  collateral_weights = none;
  liquidation_thresholds = none;
  is_currency = none;
  is_bond = none;
  can_trade = none;
  can_borrow = none;
  is_virtual_borrow = none;
  is_interest = none;
  coupons = none;
  prices = some ((codes "USD", pos 1) ∷ []);
  initialized = true;
}

-- The only text is that of a debt of 7.
abbrev debt : Exported Balances
debt = record fields { owned = of_map ((codes "USD", negsuc 6) ∷ []) }

abbrev debt_text : Position.Json
debt_text = record { marshal = λ e. ok (codes "x"); unmarshal = λ s e. (present debt, ok tt) }

-- The position of the user, and interest of 5 that is stored already.
abbrev owing_store : Store
owing_store =
    (codes "interest:users:bob", (codes "owed", codes "5") ∷ [])
    ∷ (codes "positions:users:bob", (bob, codes "x") ∷ [])
    ∷ []

abbrev bobs : Position Balances
bobs = (read_position debt_text (codes "x")).0

accrue_forgets_example :
    (written : Store) × (record_of : LendingAccrual) × (accrue sevens debt_text floats clock priced
        (pos 1)
        no_failures
        9
        9
        bob
        owing_store
      ≡ (written, ok record_of))
    × (get (codes "owed") (hgetall (user_interest_key bob) written)
        ≡ some (sevens.number (accrued sevens debt_text floats clock priced (pos 1) (pos 1) 9 0)))
unfolding get dora_service_utils.Base.Text.str_beq
    dora_service_utils.Redis.Interest.Lending.find_position
    dora_service_utils.Redis.Positions.user_position_key read_position
    dora_service_utils.Ledger.Position.initial_position
    dora_service_utils.Ledger.Position.unmarshal_binary dora_service_utils.Ledger.Position.init
    dora_service_utils.Helpers.AssetData.Sums.exact_borrowed_value
    dora_service_utils.Helpers.AssetData.Sums.sum_of
    dora_service_utils.Helpers.AssetData.Sums.borrowed_term
    dora_service_utils.Helpers.AssetData.Sums.added
    dora_service_utils.Helpers.AssetData.asset_value_in_usd
    dora_service_utils.Helpers.AssetData.decimals_of dora_service_utils.Helpers.AssetData.price_of
    dora_service_utils.Ledger.Balances.Selection.iterate
    dora_service_utils.Ledger.Balances.Selection.iterate_entries dora_service_utils.Base.Word.neg_i
    accrued present
accrue_forgets_example =
    accrue_forgets sevens debt_text floats clock priced (pos 1) 9 9 bob owing_store bobs (pos 1)
      refl refl refl (omega arith) refl refl
