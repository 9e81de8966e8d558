-- ===== src/Tests/StoredPools.antt =====
-- Runs of the theorems on the pools in the store. A number is written as so many ones.
use dora_service_utils.Base.{
  ℕ, zero, suc, ◌<◌, ◌≡◌, ◌≢◌, refl, ap, Bool, true, false, Option, none, some, List, [], ◌∷◌, ◌++◌,
  arith, length, if◌then◌else◌,
}
use dora_service_utils.Base.Int.{ℤ, pos, negsuc}
use dora_service_utils.Base.Text.{Str, codes, str_beq}
use dora_service_utils.Base.Result.{Result, ok, err, plain}
use dora_service_utils.Pools.{Pool}
use dora_service_utils.Redis.{Store, Attempt, quiet}
use dora_service_utils.Redis.Pools.{
  Codec, PoolBalance, get_pool, get_pools, read_pools, update_pool, update_pool_balance,
  create_pool,
}
use dora_service_utils.Redis.Pools.Scanning.{InRange, Scans}
use dora_service_utils.Redis.Appending.{IsSeen}
use dora_service_utils.Redis.Pools.RoundTrip.{
  with_balance, get_pool-create_pool, get_pool-update_pool_balance,
}
use dora_service_utils.Redis.Pools.Read.{Reads, get_pools-Reads, get_pools_repeats}

ones : ℕ → Str
ones zero = []
ones (suc n) = b'1' ∷ ones n

length-ones : (n : ℕ) → length (ones n) ≡ n
unfolding ones
length-ones zero = refl
length-ones (suc n) = ap suc (length-ones n)

is_one : Str → Bool
is_one [] = false
is_one (c ∷ s) = true

write_bool : Bool → Str
write_bool true = b'1' ∷ []
write_bool false = []

is_one_lem : (b : Bool) → is_one (write_bool b) ≡ b
unfolding is_one write_bool
is_one_lem true = refl
is_one_lem false = refl

write_integer : ℤ → Str
unfolding ones
write_integer (pos n) = b'+' ∷ ones n
write_integer (negsuc n) = b'-' ∷ ones n

read_integer : Str → ℤ
read_integer [] = pos 0
read_integer (c ∷ s) = if str_beq (c ∷ []) (codes "+") then pos (length s) else negsuc (length s)

read_integer_lem : (z : ℤ) → read_integer (write_integer z) ≡ z
unfolding read_integer write_integer str_beq
read_integer_lem (pos n) = ap (λ m. pos m) (length-ones n)
read_integer_lem (negsuc n) = ap (λ m. negsuc m) (length-ones n)

-- The field with the tag; other fields are passed over.
set_field : Str → Str → Pool ℕ → Pool ℕ
unfolding is_one read_integer str_beq
set_field field v p =
    if str_beq field (codes "pool_id")
    then record p { pool_id = v }
    else if str_beq field (codes "base_asset")
    then record p { base_asset = v }
    else if str_beq field (codes "quote_asset")
    then record p { quote_asset = v }
    else if str_beq field (codes "is_product_pool")
    then record p { is_product_pool = is_one v }
    else if str_beq field (codes "amount_shares")
    then record p { amount_shares = length v }
    else if str_beq field (codes "amount_base")
    then record p { amount_base = length v }
    else if str_beq field (codes "amount_quote")
    then record p { amount_quote = length v }
    else if str_beq field (codes "fee_factor")
    then record p { fee_factor = length v }
    else if str_beq field (codes "created_at")
    then record p { created_at = read_integer v }
    else if str_beq field (codes "maturity_at")
    then record p { maturity_at = read_integer v }
    else if str_beq field (codes "fees_collected_base")
    then record p { fees_collected_base = length v }
    else if str_beq field (codes "fees_collected_quote")
    then record p { fees_collected_quote = length v }
    else if str_beq field (codes "initial_assets_ratio")
    then record p { initial_assets_ratio = length v }
    else if str_beq field (codes "display_name")
    then record p { display_name = v }
    else if str_beq field (codes "sequence")
    then record p { sequence = length v }
    else p

scan_all : List (Str × Option Str) → Pool ℕ → Pool ℕ × Result (Unit {0})
unfolding set_field
scan_all [] p = (p, ok tt)
scan_all ((field, none) ∷ rest) p = scan_all rest p
scan_all ((field, some v) ∷ rest) p = scan_all rest (set_field field v p)

abbrev in_ones : Codec ℕ
in_ones = record {
  zero_decimal = 0;
  number = ones;
  integer = write_integer;
  boolean = write_bool;
  decimal = ones;
  scan = scan_all;
}

in_ones-Scans : Scans in_ones
unfolding scan_all set_field str_beq
in_ones-Scans = record {
  nothing = λ p. refl;
  pool_id = λ v rest p. refl;
  base_asset = λ v rest p. refl;
  quote_asset = λ v rest p. refl;
  is_product_pool = λ b rest p.
      ap (λ (t : Bool). scan_all rest (record p { is_product_pool = t })) (is_one_lem b);
  amount_shares =
      λ n lt rest p. ap (λ (t : ℕ). scan_all rest (record p { amount_shares = t })) (length-ones n);
  amount_base =
      λ n lt rest p. ap (λ (t : ℕ). scan_all rest (record p { amount_base = t })) (length-ones n);
  amount_quote =
      λ n lt rest p. ap (λ (t : ℕ). scan_all rest (record p { amount_quote = t })) (length-ones n);
  fee_factor =
      λ n rest p. ap (λ (t : ℕ). scan_all rest (record p { fee_factor = t })) (length-ones n);
  created_at = λ z range rest p.
      ap (λ (t : ℤ). scan_all rest (record p { created_at = t })) (read_integer_lem z);
  maturity_at = λ z range rest p.
      ap (λ (t : ℤ). scan_all rest (record p { maturity_at = t })) (read_integer_lem z);
  fees_collected_base = λ n lt rest p.
      ap (λ (t : ℕ). scan_all rest (record p { fees_collected_base = t })) (length-ones n);
  fees_collected_quote = λ n lt rest p.
      ap (λ (t : ℕ). scan_all rest (record p { fees_collected_quote = t })) (length-ones n);
  initial_assets_ratio = λ n rest p.
      ap (λ (t : ℕ). scan_all rest (record p { initial_assets_ratio = t })) (length-ones n);
  display_name = λ v rest p. refl;
  sequence =
      λ n lt rest p. ap (λ (t : ℕ). scan_all rest (record p { sequence = t })) (length-ones n);
}

abbrev pool : Pool ℕ
pool = record {
  pool_id = [];
  base_asset = codes "BOND";
  quote_asset = codes "USD";
  is_product_pool = true;
  amount_shares = 3;
  amount_base = 4;
  amount_quote = 5;
  fees_collected_base = 0;
  fees_collected_quote = 1;
  fee_factor = 2;
  created_at = pos 2;
  maturity_at = negsuc 1;
  initial_assets_ratio = 1;
  display_name = codes "Bond";
  sequence = 7;
}

pool-InRange : InRange pool
pool-InRange = record {
  amount_shares = omega arith;
  amount_base = omega arith;
  amount_quote = omega arith;
  created_at = omega arith;
  maturity_at = omega arith;
  fees_collected_base = omega arith;
  fees_collected_quote = omega arith;
  sequence = omega arith;
}

get_pool-create_pool_example :
    ((create_pool in_ones pool quiet [] []).0 ≡ record pool { pool_id = codes "BOND-USD" })
    × ((create_pool in_ones pool quiet [] []).1.1 ≡ ok tt)
    × (get_pool in_ones (codes "BOND-USD") quiet [] (create_pool in_ones pool quiet [] []).1.0
        ≡ ok (record pool { pool_id = codes "BOND-USD" }))
    × (get_pool in_ones (codes "X-Y") quiet [] (create_pool in_ones pool quiet [] []).1.0
        ≡ get_pool in_ones (codes "X-Y") quiet [] [])
get_pool-create_pool_example =
    get_pool-create_pool in_ones in_ones-Scans pool [] (codes "X-Y") pool-InRange (cc)

abbrev new_balance : PoolBalance
new_balance = record {
  shares = 8;
  base = 9;
  quote = 10;
  fees_base = 1;
  fees_quote = 2;
  sequence = 8;
}

new_balance-InRange : InRange (with_balance in_ones pool new_balance)
new_balance-InRange = record {
  amount_shares = omega arith;
  amount_base = omega arith;
  amount_quote = omega arith;
  created_at = omega arith;
  maturity_at = omega arith;
  fees_collected_base = omega arith;
  fees_collected_quote = omega arith;
  sequence = omega arith;
}

get_pool-update_pool_balance_example :
    ((update_pool_balance in_ones
        (codes "p")
        new_balance
        quiet
        []
        (update_pool in_ones pool (codes "p") quiet [] []).0).1
      ≡ ok tt)
    × (get_pool in_ones
          (codes "p")
          quiet
          []
          (update_pool_balance in_ones
            (codes "p")
            new_balance
            quiet
            []
            (update_pool in_ones pool (codes "p") quiet [] []).0).0
        ≡ ok (with_balance in_ones pool new_balance))
get_pool-update_pool_balance_example =
    get_pool-update_pool_balance in_ones in_ones-Scans pool new_balance (codes "p") []
      new_balance-InRange

-- Scan refuses a hash whose first field has no value.
refuse : List (Str × Option Str) → Pool ℕ → Pool ℕ × Result (Unit {0})
refuse [] p = (p, ok tt)
refuse ((field, none) ∷ rest) p = refuse rest p
refuse ((field, some []) ∷ rest) p = (p, err plain)
refuse ((field, some (c ∷ v)) ∷ rest) p = (record p { pool_id = c ∷ v }, ok tt)

abbrev strict : Codec ℕ
strict = record in_ones { scan = refuse }

-- The second pool has an empty ID, until someone repairs it.
abbrev broken : Store
broken =
    (codes "pools:a", (codes "pool_id", codes "a") ∷ [])
    ∷ (codes "pools:b", (codes "pool_id", []) ∷ [])
    ∷ []

abbrev repaired : Store
repaired =
    (codes "pools:a", (codes "pool_id", codes "a") ∷ [])
    ∷ (codes "pools:b", (codes "pool_id", codes "b") ∷ [])
    ∷ []

abbrev both : List Str
both = codes "a" ∷ codes "b" ∷ []

abbrev second_attempt : List Attempt
second_attempt = record quiet { others = λ s. repaired } ∷ []

get_pools_repeats_example :
    get_pools strict both quiet second_attempt broken
    ≡ ok ((read_pools strict both broken).0 ++ (read_pools strict both repaired).0)
unfolding read_pools dora_service_utils.Redis.Hashes.all_fields refuse str_beq
    dora_service_utils.Base.Dict.get dora_service_utils.Redis.Pools.pool_key
get_pools_repeats_example = get_pools_repeats strict both broken repaired plain refl refl

get_pools-Reads_example :
    (last : Store) × (before fresh : List (Pool ℕ)) × IsSeen (quiet ∷ second_attempt) broken last
    × ((read_pools strict both broken).0 ++ (read_pools strict both repaired).0 ≡ before ++ fresh)
    × Reads strict both last fresh
unfolding read_pools dora_service_utils.Redis.Hashes.all_fields refuse str_beq
    dora_service_utils.Base.Dict.get dora_service_utils.Redis.Pools.pool_key
get_pools-Reads_example =
    get_pools-Reads strict both quiet second_attempt broken
      ((read_pools strict both broken).0 ++ (read_pools strict both repaired).0)
      (get_pools_repeats strict both broken repaired plain refl refl)
