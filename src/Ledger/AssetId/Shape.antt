-- ===== src/Ledger/AssetId/Shape.antt =====
-- Which strings ValidAssetID accepts, in terms of their bytes and of what stands around the hyphen.
use dora_service_utils.Base.{
  ℕ, ◌≤◌, ◌≡◌, ◌≢◌, ◌↔◌, inl, inr, refl, sym, ap, ◌∙◌, true, false, [], ◌∷◌, ◌++◌, arith,
  Bool-cases,
}
use mathlib.Core.List.{append_assoc}
use dora_service_utils.Base.Int.{ℤ}
use dora_service_utils.Base.Text.{
  Str, hyphen, codes, has_prefix, trim_prefix, count_byte, contains_byte, split_byte, all_bytes,
  str_beq_iff, split_byte-sep, split_byte-no_sep,
}
use dora_service_utils.Base.Text.Parts.{
  has_prefix-append, trim_prefix-append, trim_prefix_lem, no_prefix_iff, no_last_iff, split_first,
  sides_clean,
}
use dora_service_utils.Base.ParseInt.{parse_int}
use dora_service_utils.Base.Result.{ok, Result-cases}
use dora_service_utils.Ledger.AssetId.{
  trimmed, check_split, check_period, valid_asset_id, coupon_prefix, snapshot_prefix, is_id_byte,
}
use dora_service_utils.Ledger.AssetId.Laws.{
  PassesGuards, valid_asset_id-PassesGuards, PassesGuards-valid_asset_id, all_bytes-trimmed,
}

-- The bytes of an ID, written out.
abbrev pub id_bytes : Str
id_bytes = codes "ABCDEFGHIJKLMNOPQRSTUVWXYZabcdefghijklmnopqrstuvwxyz0123456789_-"

-- What may stand on the two sides of a hyphen: a second part that starts with a reserved prefix goes
-- on with a number, and the two sides differ.
pub record ArePieces (base second : Str) : Type 0 where
  pub coupon :
      (period : Str) → second ≡ coupon_prefix ++ period → (n : ℤ) × (parse_int period ≡ ok n)
  pub snapshot :
      (period : Str) → second ≡ snapshot_prefix ++ period → (n : ℤ) × (parse_int period ≡ ok n)
  pub differ : base ≢ second

pub record IsAssetId (id : Str) : Type 0 where
  pub no_coupon : (rest : Str) → id ≢ coupon_prefix ++ rest
  pub no_snapshot : (rest : Str) → id ≢ snapshot_prefix ++ rest
  pub not_empty : id ≢ []
  pub clean : all_bytes (λ c. contains_byte c id_bytes) id ≡ true
  pub no_first : (rest : Str) → id ≢ hyphen ∷ rest
  pub no_last : (rest : Str) → id ≢ rest ++ (hyphen ∷ [])
  pub one_hyphen : count_byte hyphen id ≤ 1
  pub pieces : (base second : Str) → id ≡ base ++ (hyphen ∷ second) → ArePieces base second

id_byte_lem : (c : ℕ) → contains_byte c id_bytes ≡ is_id_byte c
unfolding contains_byte
id_byte_lem c = ground arith

all_bytes-trimmed_id :
    (s : Str) → all_bytes (λ c. contains_byte c id_bytes) s ≡ all_bytes is_id_byte s
unfolding all_bytes
all_bytes-trimmed_id [] = refl
all_bytes-trimmed_id (c ∷ s) = rw (id_byte_lem c, all_bytes-trimmed_id s) refl

trimmed_all : (s : Str) → all_bytes is_id_byte s ≡ true → trimmed s ≡ s
unfolding all_bytes trimmed
trimmed_all [] h = refl
trimmed_all (c ∷ s) h = ground (arith, trimmed_all s)

split_pair :
    (b t : Str)
    → count_byte hyphen (b ++ (hyphen ∷ t)) ≤ 1
    → split_byte hyphen (b ++ (hyphen ∷ t)) ≡ b ∷ t ∷ []
split_pair b t h =
    let (clean_b, clean_t) = sides_clean hyphen b t h in
    split_byte-sep hyphen b t clean_b ∙ ap (λ l. b ∷ l) (split_byte-no_sep hyphen t clean_t)

not_both : (period : Str) → has_prefix (snapshot_prefix ++ period) coupon_prefix ≡ false
unfolding has_prefix
not_both period = refl

check_period_iff :
    (period : Str) → (check_period period ≡ ok tt) ↔ ((n : ℤ) × (parse_int period ≡ ok n))
unfolding check_period
check_period_iff period = (
  λ h. elim (Result-cases (parse_int period)) [
    | inl (n, e) ↦ (n, e)
    | inr (x, e) ↦ absurd (ground (arith, h, e))
  ],
  λ (n, e). ground (arith, e),
)

-- What the two reserved prefixes ask of the second part.
numbered : (period p second : Str) → second ≡ p ++ period → trim_prefix second p ≡ period
numbered period p second e = rw e (trim_prefix-append p period)

-- The rules for two parts, of which the first does not start with a reserved prefix.
check_split-ArePieces :
    (base second : Str)
    → ((rest : Str) → base ≢ coupon_prefix ++ rest)
    → ((rest : Str) → base ≢ snapshot_prefix ++ rest)
    → check_split (base ∷ second ∷ []) ≡ ok tt
    → ArePieces base second
unfolding check_split
check_split-ArePieces base second nc ns h = record {
  coupon = λ period e. (check_period_iff period).0 (
      ground (
        arith,
        h,
        numbered period coupon_prefix second e,
        e,
        has_prefix-append coupon_prefix period,
      ));
  snapshot = λ period e. (check_period_iff period).0 (
      ground (
        arith,
        h,
        numbered period snapshot_prefix second e,
        e,
        has_prefix-append snapshot_prefix period,
        not_both period,
      ));
  differ = λ same. elim (Bool-cases (has_prefix second coupon_prefix)) [
    | inl y ↦ nc (trim_prefix second coupon_prefix) (same ∙ trim_prefix_lem second coupon_prefix y)
    | inr n ↦ elim (Bool-cases (has_prefix second snapshot_prefix)) [
      | inl y ↦
          ns (trim_prefix second snapshot_prefix) (same ∙ trim_prefix_lem second snapshot_prefix y)
      | inr m ↦ ground (arith, h, n, m, same, str_beq_iff base second)
    ]
  ];
}

ArePieces-check_split :
    (base second : Str) → ArePieces base second → check_split (base ∷ second ∷ []) ≡ ok tt
unfolding check_split
ArePieces-check_split base second k = elim (Bool-cases (has_prefix second coupon_prefix)) [
  | inl y ↦
      let period = trim_prefix second coupon_prefix in
      ground (
        arith,
        y,
        (check_period_iff period).1 (k.coupon period (trim_prefix_lem second coupon_prefix y)),
      )
  | inr n ↦ elim (Bool-cases (has_prefix second snapshot_prefix)) [
    | inl y ↦
        let period = trim_prefix second snapshot_prefix in
        ground (
          arith,
          n,
          y,
          (check_period_iff period).1
              (k.snapshot period (trim_prefix_lem second snapshot_prefix y)),
        )
    | inr m ↦ ground (arith, n, m, k.differ, str_beq_iff base second)
  ]
]

-- A prefix of the first part is one of the whole.
prefix_of_base :
    (p base t id : Str)
    → id ≡ base ++ t
    → ((rest : Str) → id ≢ p ++ rest)
    → (rest : Str) → base ≢ p ++ rest
prefix_of_base p base t id e n rest h =
    n (rest ++ t) (e ∙ ap (λ (s : Str). s ++ t) h ∙ append_assoc p rest t)

PassesGuards-IsAssetId : (id : Str) → PassesGuards id → IsAssetId id
PassesGuards-IsAssetId id h =
    let nc = (no_prefix_iff id coupon_prefix).0 h.no_coupon in
    let ns = (no_prefix_iff id snapshot_prefix).0 h.no_snapshot in
    record {
      no_coupon = nc;
      no_snapshot = ns;
      not_empty = h.not_empty;
      clean = all_bytes-trimmed_id id ∙ all_bytes-trimmed id h.clean;
      no_first = (no_prefix_iff id (hyphen ∷ [])).0 h.no_first;
      no_last = (no_last_iff id hyphen).0 h.no_last;
      one_hyphen = h.one_hyphen;
      pieces = λ base second e.
          check_split-ArePieces base second
            (prefix_of_base coupon_prefix base (hyphen ∷ second) id e nc)
            (prefix_of_base snapshot_prefix base (hyphen ∷ second) id e ns)
            (sym (
                ap check_split
                  (ap (split_byte hyphen) e ∙ split_pair base second (rw e at h.one_hyphen)))
              ∙ h.pieces);
    }

-- The rules for the parts are met where there is no hyphen, and else where its two sides meet them.
check_split-id : (id : Str) → IsAssetId id → check_split (split_byte hyphen id) ≡ ok tt
check_split-id id h = elim (Bool-cases (contains_byte hyphen id)) [
  | inl y ↦
      let (base, second, e) = split_first hyphen id y in
      ap check_split (ap (split_byte hyphen) e ∙ split_pair base second (rw e at h.one_hyphen))
      ∙ ArePieces-check_split base second (h.pieces base second e)
  | inr n ↦ ap check_split (split_byte-no_sep hyphen id n) ∙ unfold check_split in refl
]

IsAssetId-PassesGuards : (id : Str) → IsAssetId id → PassesGuards id
IsAssetId-PassesGuards id h = record {
  no_coupon = (no_prefix_iff id coupon_prefix).1 h.no_coupon;
  no_snapshot = (no_prefix_iff id snapshot_prefix).1 h.no_snapshot;
  not_empty = h.not_empty;
  clean = trimmed_all id (sym (all_bytes-trimmed_id id) ∙ h.clean);
  no_first = (no_prefix_iff id (hyphen ∷ [])).1 h.no_first;
  no_last = (no_last_iff id hyphen).1 h.no_last;
  one_hyphen = h.one_hyphen;
  pieces = check_split-id id h;
}

-- ValidAssetID accepts exactly the IDs that are not empty, start neither with "Coupon_" nor with
-- "Snapshot_", hold letters, digits, underscores and hyphens alone, neither start nor end with a
-- hyphen, have at most one, and where they have one: the part after it is not the part before it, and
-- goes on with a number that ParseInt reads if it starts with "Coupon_" or with "Snapshot_".
pub valid_asset_id_iff : (id : Str) → (valid_asset_id id ≡ ok tt) ↔ IsAssetId id
valid_asset_id_iff id = (
  λ e. PassesGuards-IsAssetId id (valid_asset_id-PassesGuards id e),
  λ h. PassesGuards-valid_asset_id id (IsAssetId-PassesGuards id h),
)
