-- ===== src/Base/Text/Parts.antt =====
-- Prefixes, last bytes and separators of byte strings, in terms of what stands before and behind them.
use dora_service_utils.Base.{
  ℕ, ◌≤◌, ◌≡◌, ◌≢◌, ◌↔◌, inl, inr, refl, ap, ◌∙◌, true, false, [], ◌∷◌, ◌++◌, arith, nat_beq,
  Bool-cases,
}
use dora_service_utils.Base.Text.{
  Str, has_prefix, trim_prefix, drop_prefix, ends_with, count_byte, contains_byte,
  contains_byte-count, count_byte-append, ends_with-append,
}

-- A prefix is what can be split off.
drop_prefix-append : (p s : Str) → drop_prefix (p ++ s) p ≡ s
unfolding drop_prefix
drop_prefix-append [] s = refl
drop_prefix-append (c ∷ p) s = drop_prefix-append p s

pub has_prefix-append : (p s : Str) → has_prefix (p ++ s) p ≡ true
unfolding has_prefix
has_prefix-append [] s = refl
has_prefix-append (c ∷ p) s = ground (arith, has_prefix-append p s)

pub trim_prefix-append : (p s : Str) → trim_prefix (p ++ s) p ≡ s
unfolding trim_prefix
trim_prefix-append p s = rw (has_prefix-append p s) (drop_prefix-append p s)

split_prefix : (s p : Str) → has_prefix s p ≡ true → s ≡ p ++ drop_prefix s p
unfolding has_prefix drop_prefix
split_prefix s [] h = refl
split_prefix [] (c ∷ p) h = ground arith
split_prefix (x ∷ s) (c ∷ p) h = ground (arith, split_prefix s p)

pub trim_prefix_lem : (s p : Str) → has_prefix s p ≡ true → s ≡ p ++ trim_prefix s p
unfolding trim_prefix
trim_prefix_lem s p h = rw h (split_prefix s p h)

pub no_prefix_iff : (s p : Str) → (has_prefix s p ≡ false) ↔ ((rest : Str) → s ≢ p ++ rest)
no_prefix_iff s p = (
  λ h rest e. ground (arith, h, e, has_prefix-append p rest),
  λ n. elim (Bool-cases (has_prefix s p)) [
    | inl y ↦ absurd (n (trim_prefix s p) (trim_prefix_lem s p y))
    | inr h ↦ h
  ],
)

-- The last byte.
split_last : (s : Str) (c : ℕ) → ends_with s c ≡ true → (rest : Str) × (s ≡ rest ++ (c ∷ []))
unfolding ends_with
split_last [] c h = ground arith
split_last (x ∷ []) c h = ([], ground arith)
split_last (x ∷ y ∷ s) c h =
    let (rest, e) = split_last (y ∷ s) c h in (x ∷ rest, ap (λ (t : Str). x ∷ t) e)

ends_with-last : (rest : Str) (c : ℕ) → ends_with (rest ++ (c ∷ [])) c ≡ true
ends_with-last rest c = ends_with-append c rest c [] ∙ unfold ends_with in ground arith

pub no_last_iff :
    (s : Str) (c : ℕ) → (ends_with s c ≡ false) ↔ ((rest : Str) → s ≢ rest ++ (c ∷ []))
no_last_iff s c = (
  λ h rest e. ground (arith, h, e, ends_with-last rest c),
  λ n. elim (Bool-cases (ends_with s c)) [
    | inl y ↦ let (rest, e) = split_last s c y in absurd (n rest e)
    | inr h ↦ h
  ],
)

-- The first separator.
pub split_first :
    (c : ℕ) (s : Str) → contains_byte c s ≡ true → (b : Str) × (t : Str) × (s ≡ b ++ (c ∷ t))
unfolding contains_byte
split_first c [] h = ground arith
split_first c (x ∷ s) h = elim (Bool-cases (nat_beq x c)) [
  | inl y ↦ ([], s, ground (arith, y))
  | inr n ↦
      let (b, t, e) = split_first c s (ground (arith, h, n)) in
      (x ∷ b, t, ap (λ (l : Str). x ∷ l) e)
]

-- The sides of the only separator hold none.
pub sides_clean :
    (c : ℕ) (b t : Str)
    → count_byte c (b ++ (c ∷ t)) ≤ 1
    → (contains_byte c b ≡ false) × (contains_byte c t ≡ false)
unfolding count_byte
sides_clean c b t h =
    ground (arith, count_byte-append c b (c ∷ t), contains_byte-count c b, contains_byte-count c t)
