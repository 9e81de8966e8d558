-- ===== src/Redis/Pools/Scanning.antt =====
-- What Scan of the fields that pools/redis/pools.go stores is relied on to do: a parameter of the
-- model, since Scan is code of the redis client.
use dora_service_utils.Base.{ℕ, ◌<◌, ◌≡◌, ◌∙◌, Bool, Option, some, List, [], ◌∷◌}
use dora_service_utils.Base.Int.{ℤ}
use dora_service_utils.Base.Word.{u64_mod, InI64}
use dora_service_utils.Base.Text.{Str, codes, str_beq, str_eq}
use dora_service_utils.Base.Dict.{Dict}
use dora_service_utils.Base.Result.{ok}
use dora_service_utils.Pools.{Pool}
use dora_service_utils.Redis.Hashes.{overlay}
use dora_service_utils.Redis.Pools.{Codec, pool_keys, pool_fields}

-- The numbers of a pool are those of the Go types.
pub record InRange {D : Type 0} (p : Pool D) : Type 0 where
  pub amount_shares : p.amount_shares < u64_mod
  pub amount_base : p.amount_base < u64_mod
  pub amount_quote : p.amount_quote < u64_mod
  pub created_at : InI64 p.created_at
  pub maturity_at : InI64 p.maturity_at
  pub fees_collected_base : p.fees_collected_base < u64_mod
  pub fees_collected_quote : p.fees_collected_quote < u64_mod
  pub sequence : p.sequence < u64_mod

-- Scan sets one field and goes on.
abbrev pub Sets : {D : Type 0} → Codec D → Str → Str → (Pool D → Pool D) → Type 0
Sets {D} codec field text f =
    (rest : List (Str × Option Str)) (p : Pool D)
    → codec.scan ((field, some text) ∷ rest) p ≡ codec.scan rest (f p)

module _ {D : Type 0} (codec : Codec D) where
  open codec use {number, integer, boolean, decimal, scan}

  -- Scan reads each text that was written into the field with its tag.
  pub record Scans : Type 0 where
    pub nothing : (p : Pool D) → scan [] p ≡ (p, ok tt)
    pub pool_id : (v : Str) → Sets codec (codes "pool_id") v (λ p. record p { pool_id = v })
    pub base_asset :
        (v : Str) → Sets codec (codes "base_asset") v (λ p. record p { base_asset = v })
    pub quote_asset :
        (v : Str) → Sets codec (codes "quote_asset") v (λ p. record p { quote_asset = v })
    pub is_product_pool :
        (b : Bool)
        → Sets codec (codes "is_product_pool") (boolean b) (λ p. record p { is_product_pool = b })
    pub amount_shares :
        (n : ℕ)
        → n < u64_mod
        → Sets codec (codes "amount_shares") (number n) (λ p. record p { amount_shares = n })
    pub amount_base :
        (n : ℕ)
        → n < u64_mod
        → Sets codec (codes "amount_base") (number n) (λ p. record p { amount_base = n })
    pub amount_quote :
        (n : ℕ)
        → n < u64_mod
        → Sets codec (codes "amount_quote") (number n) (λ p. record p { amount_quote = n })
    pub fee_factor :
        (d : D) → Sets codec (codes "fee_factor") (decimal d) (λ p. record p { fee_factor = d })
    pub created_at :
        (z : ℤ)
        → InI64 z
        → Sets codec (codes "created_at") (integer z) (λ p. record p { created_at = z })
    pub maturity_at :
        (z : ℤ)
        → InI64 z
        → Sets codec (codes "maturity_at") (integer z) (λ p. record p { maturity_at = z })
    pub fees_collected_base :
        (n : ℕ)
        → n < u64_mod
        → Sets codec
            (codes "fees_collected_base")
            (number n)
            (λ p. record p { fees_collected_base = n })
    pub fees_collected_quote :
        (n : ℕ)
        → n < u64_mod
        → Sets codec
            (codes "fees_collected_quote")
            (number n)
            (λ p. record p { fees_collected_quote = n })
    pub initial_assets_ratio :
        (d : D)
        → Sets codec
            (codes "initial_assets_ratio")
            (decimal d)
            (λ p. record p { initial_assets_ratio = d })
    pub display_name :
        (v : Str) → Sets codec (codes "display_name") v (λ p. record p { display_name = v })
    pub sequence :
        (n : ℕ)
        → n < u64_mod
        → Sets codec (codes "sequence") (number n) (λ p. record p { sequence = n })

  module _ (s : Scans) (p : Pool D) (r : InRange p) where
    pub scan_fields :
        (h : Dict Str Str) (q : Pool D)
        → scan (overlay pool_keys (pool_fields codec p) h) q ≡ (p, ok tt)
    unfolding pool_keys pool_fields str_beq
    scan_fields h q =
        s.pool_id p.pool_id _ _
        ∙ s.base_asset p.base_asset _ _
        ∙ s.quote_asset p.quote_asset _ _
        ∙ s.is_product_pool p.is_product_pool _ _
        ∙ s.amount_shares p.amount_shares r.amount_shares _ _
        ∙ s.amount_base p.amount_base r.amount_base _ _
        ∙ s.amount_quote p.amount_quote r.amount_quote _ _
        ∙ s.fee_factor p.fee_factor _ _
        ∙ s.created_at p.created_at r.created_at _ _
        ∙ s.maturity_at p.maturity_at r.maturity_at _ _
        ∙ s.fees_collected_base p.fees_collected_base r.fees_collected_base _ _
        ∙ s.fees_collected_quote p.fees_collected_quote r.fees_collected_quote _ _
        ∙ s.initial_assets_ratio p.initial_assets_ratio _ _
        ∙ s.display_name p.display_name _ _
        ∙ s.sequence p.sequence r.sequence _ _
        ∙ s.nothing _
