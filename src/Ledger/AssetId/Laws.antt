-- ===== src/Ledger/AssetId/Laws.antt =====
-- What ValidAssetID accepts, and the IDs of pool shares.
use dora_service_utils.Base.{
  ℕ, true, length, ap, ◌≤◌, ◌≡◌, ◌≢◌, refl, false, [], ◌∷◌, ◌++◌, arith, if◌then◌else◌, ◌∙◌,
}
use dora_service_utils.Base.Text.{
  Str, all_bytes, hyphen, str_beq, str_beq_iff, has_prefix, ends_with, count_byte, contains_byte,
  split_byte, has_prefix-sep, ends_with-append, ends_with-contains, contains_byte-count,
  count_byte-append, split_byte-sep, split_byte-no_sep,
}
use dora_service_utils.Base.Result.{ok, err, typed, invalid_data}
use dora_service_utils.Ledger.AssetId.{
  is_id_byte, trimmed, check_split, valid_asset_id, coupon_prefix, snapshot_prefix,
}
use dora_service_utils.OrderBook.{order_book_id}

-- An ID that gets past each test of the code.
pub record PassesGuards (id : Str) : Type 0 where
  pub no_coupon : has_prefix id coupon_prefix ≡ false
  pub no_snapshot : has_prefix id snapshot_prefix ≡ false
  pub not_empty : id ≢ []
  pub clean : trimmed id ≡ id
  pub no_first : has_prefix id (hyphen ∷ []) ≡ false
  pub no_last : ends_with id hyphen ≡ false
  pub one_hyphen : count_byte hyphen id ≤ 1
  pub pieces : check_split (split_byte hyphen id) ≡ ok tt

pub valid_asset_id-PassesGuards : (id : Str) → valid_asset_id id ≡ ok tt → PassesGuards id
unfolding valid_asset_id
valid_asset_id-PassesGuards id e = record {
  no_coupon = ground arith;
  no_snapshot = ground arith;
  not_empty = ground (arith, str_beq_iff id []);
  clean = ground (arith, str_beq_iff id (trimmed id));
  no_first = ground arith;
  no_last = ground arith;
  one_hyphen = ground arith;
  pieces = ground arith;
}

pub PassesGuards-valid_asset_id : (id : Str) → PassesGuards id → valid_asset_id id ≡ ok tt
unfolding valid_asset_id
PassesGuards-valid_asset_id id h = ground (arith, str_beq_iff id [], str_beq_iff id (trimmed id))

length-trimmed : (s : Str) → length (trimmed s) ≤ length s
unfolding trimmed
length-trimmed [] = omega arith
length-trimmed (c ∷ s) = ground (arith, length-trimmed s)

trimmed-no_growth : (c : ℕ) (s : Str) → trimmed s ≢ c ∷ s
trimmed-no_growth c s e = omega (arith, length-trimmed s, ap length e)

pub all_bytes-trimmed : (s : Str) → trimmed s ≡ s → all_bytes is_id_byte s ≡ true
unfolding trimmed all_bytes
all_bytes-trimmed [] h = refl
all_bytes-trimmed (c ∷ s) h = ground (arith, all_bytes-trimmed s, trimmed-no_growth c s)

trimmed-append : (s t : Str) → trimmed (s ++ t) ≡ trimmed s ++ trimmed t
unfolding trimmed
trimmed-append [] t = refl
trimmed-append (x ∷ s) t = ground (arith, trimmed-append s t)

trimmed-hyphen : (t : Str) → trimmed (hyphen ∷ t) ≡ hyphen ∷ trimmed t
unfolding trimmed
trimmed-hyphen t = refl

-- An ID that starts with no hyphen still starts with none where another is joined to it.
first_byte :
    (b t : Str)
    → b ≢ []
    → has_prefix b (hyphen ∷ []) ≡ false
    → has_prefix (b ++ t) (hyphen ∷ []) ≡ false
unfolding has_prefix
first_byte [] t ne h = absurd (ne refl)
first_byte (x ∷ b) t ne h = ground arith

last_byte :
    (b q : Str)
    → contains_byte hyphen q ≡ false
    → q ≢ []
    → ends_with (order_book_id b q) hyphen ≡ false
last_byte b [] h ne = absurd (ne refl)
last_byte b (y ∷ q) h ne =
    rw ends_with-append (unfold ends_with in ends_with-contains hyphen (y ∷ q) h)

hyphen_count :
    (b q : Str)
    → contains_byte hyphen b ≡ false
    → contains_byte hyphen q ≡ false
    → count_byte hyphen (order_book_id b q) ≤ 1
unfolding count_byte
hyphen_count b q hb hq = ground (
  arith,
  count_byte-append hyphen b (hyphen ∷ q),
  contains_byte-count hyphen b,
  contains_byte-count hyphen q,
)

check_split_pair :
    (b q : Str)
    → PassesGuards q
    → check_split (b ∷ q ∷ []) ≡ (if str_beq b q then err (typed invalid_data) else ok tt)
unfolding check_split
check_split_pair b q h = ground (arith, h.no_coupon, h.no_snapshot)

-- An ID that passes every other test is judged by its pieces.
past_guards :
    (id : Str)
    → has_prefix id coupon_prefix ≡ false
    → has_prefix id snapshot_prefix ≡ false
    → str_beq id [] ≡ false
    → trimmed id ≡ id
    → has_prefix id (hyphen ∷ []) ≡ false
    → ends_with id hyphen ≡ false
    → count_byte hyphen id ≤ 1
    → valid_asset_id id ≡ check_split (split_byte hyphen id)
unfolding valid_asset_id
past_guards id p s ne clean first last one = ground (arith, str_beq_iff id (trimmed id))

clean_pair :
    (b q : Str) → trimmed b ≡ b → trimmed q ≡ q → trimmed (order_book_id b q) ≡ order_book_id b q
clean_pair b q hb hq = rw (trimmed-append, trimmed-hyphen, hb, hq)

nonempty_pair : (b q : Str) → str_beq (order_book_id b q) [] ≡ false
unfolding str_beq
nonempty_pair [] q = refl
nonempty_pair (x ∷ b) q = refl

-- Two IDs that ValidAssetID accepts and that hold no hyphen make an ID that it accepts, by a hyphen
-- between them, exactly where they differ: a pool share of two different assets is an asset ID,
-- and one of an asset with itself is rejected as invalid data.
pub valid_asset_id-pool_share :
    (b q : Str)
    → valid_asset_id b ≡ ok tt
    → valid_asset_id q ≡ ok tt
    → contains_byte hyphen b ≡ false
    → contains_byte hyphen q ≡ false
    → valid_asset_id (order_book_id b q) ≡ (if str_beq b q then err (typed invalid_data) else ok tt)
valid_asset_id-pool_share b q vb vq hb hq =
    let kb = valid_asset_id-PassesGuards b vb in
    let kq = valid_asset_id-PassesGuards q vq in
    past_guards (order_book_id b q)
      (has_prefix-sep hyphen b q coupon_prefix (unfold contains_byte in refl) ∙ kb.no_coupon)
      (has_prefix-sep hyphen b q snapshot_prefix (unfold contains_byte in refl) ∙ kb.no_snapshot)
      (nonempty_pair b q) (clean_pair b q kb.clean kq.clean)
      (first_byte b (hyphen ∷ q) kb.not_empty kb.no_first) (last_byte b q hq kq.not_empty)
      (hyphen_count b q hb hq)
    ∙ rw (split_byte-sep hyphen b q hb, split_byte-no_sep hyphen q hq) (check_split_pair b q kq)
