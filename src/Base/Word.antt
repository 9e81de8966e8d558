-- ===== src/Base/Word.antt =====
-- Go's uint64 as a number below 2 ^ 64 and int64 as an integer, with the wrap-around written out.
use dora_service_utils.Base.{
  ℕ, ◌+◌, ◌-◌, ◌*◌, ◌/◌, ◌%◌, ◌^◌, ◌≤◌, ◌<◌, ◌≡◌, ◌∙◌, arith, ltb, if◌then◌else◌,
}
use dora_service_utils.Base.Int.{
  ℤ, pos, negsuc, pos_part, neg_part, ◌+ℤ◌, ◌-ℤ◌, neg, +ℤ_parts, -ℤ_parts, neg_parts,
}

abbrev pub u64_mod : ℕ
u64_mod = 2 ^ 64

abbrev pub i64_half : ℕ
i64_half = 2 ^ 63

-- An integer's residue: the bit pattern of `uint64(x)`.
unfoldable pub to_u64 : ℤ → ℕ
to_u64 (pos n) = n % u64_mod
to_u64 (negsuc n) = u64_mod - 1 - n % u64_mod

-- The int64 that a bit pattern stands for: `int64(w)`.
unfoldable pub to_i64 : ℕ → ℤ
to_i64 w = if ltb w i64_half then pos w else negsuc (u64_mod - w - 1)

-- The int64 that a computation with the exact result `z` leaves.
unfoldable pub wrap64 : ℤ → ℤ
unfolding to_u64 to_i64
wrap64 z = to_i64 (to_u64 z)

-- The values of int64.
abbrev pub InI64 : ℤ → Type 0
InI64 z = (pos_part z < i64_half) × (neg_part z ≤ i64_half)

infixl 65 ◌+i◌ ◌-i◌
unfoldable pub ◌+i◌ : ℤ → ℤ → ℤ
a +i b = wrap64 (a +ℤ b)

unfoldable pub ◌-i◌ : ℤ → ℤ → ℤ
a -i b = wrap64 (a -ℤ b)

-- `-1 * a` and `a * -1`
unfoldable pub neg_i : ℤ → ℤ
neg_i a = wrap64 (neg a)

pub to_u64-lt : (z : ℤ) → to_u64 z < u64_mod
unfolding to_u64
to_u64-lt (pos n) = omega arith
to_u64-lt (negsuc n) = omega arith

pub to_i64-InI64 : (w : ℕ) → w < u64_mod → InI64 (to_i64 w)
unfolding to_i64
to_i64-InI64 w h = ground arith

pub wrap64-InI64 : (z : ℤ) → InI64 (wrap64 z)
unfolding wrap64
wrap64-InI64 z = to_i64-InI64 (to_u64 z) (to_u64-lt z)

-- A value of int64 is left as it is.
pub wrap64_id : (z : ℤ) → InI64 z → wrap64 z ≡ z
unfolding wrap64
wrap64_id (pos n) h = ground arith
wrap64_id (negsuc n) h = ground arith

pub to_u64-to_i64 : (w : ℕ) → w < u64_mod → to_u64 (to_i64 w) ≡ w
unfolding to_u64 to_i64
to_u64-to_i64 w h = ground arith

pub to_u64-wrap64 : (z : ℤ) → to_u64 (wrap64 z) ≡ to_u64 z
unfolding wrap64
to_u64-wrap64 z = to_u64-to_i64 (to_u64 z) (to_u64-lt z)

-- The residue, from the two parts of an integer.
to_u64_parts : (z : ℤ) → (to_u64 z + neg_part z) % u64_mod ≡ pos_part z % u64_mod
unfolding to_u64
to_u64_parts (pos n) = omega arith
to_u64_parts (negsuc n) = omega arith

-- Two integers with equal residues of their parts have the same bit pattern.
to_u64_unique :
    (z : ℤ) (w : ℕ) → w < u64_mod → (w + neg_part z) % u64_mod ≡ pos_part z % u64_mod → to_u64 z ≡ w
to_u64_unique z w h e = omega (arith, to_u64_parts z, to_u64-lt z)

pub to_u64-+ℤ : (a b : ℤ) → to_u64 (a +ℤ b) ≡ (to_u64 a + to_u64 b) % u64_mod
to_u64-+ℤ a b =
    to_u64_unique (a +ℤ b) _ (omega arith)
      (omega (arith, to_u64_parts a, to_u64_parts b, +ℤ_parts a b))

pub to_u64--ℤ : (a b : ℤ) → to_u64 (a -ℤ b) ≡ (to_u64 a + (u64_mod - to_u64 b)) % u64_mod
to_u64--ℤ a b =
    to_u64_unique (a -ℤ b) _ (omega arith)
      (omega (arith, to_u64_parts a, to_u64_parts b, to_u64-lt b, -ℤ_parts a b))

pub to_u64-neg : (a : ℤ) → to_u64 (neg a) ≡ (u64_mod - to_u64 a) % u64_mod
to_u64-neg a =
    to_u64_unique (neg a) _ (omega arith) (omega (arith, to_u64_parts a, to_u64-lt a, neg_parts a))

pub to_u64-+i : (a b : ℤ) → to_u64 (a +i b) ≡ (to_u64 a + to_u64 b) % u64_mod
unfolding ◌+i◌
to_u64-+i a b = to_u64-wrap64 (a +ℤ b) ∙ to_u64-+ℤ a b

pub to_u64--i : (a b : ℤ) → to_u64 (a -i b) ≡ (to_u64 a + (u64_mod - to_u64 b)) % u64_mod
unfolding ◌-i◌
to_u64--i a b = to_u64-wrap64 (a -ℤ b) ∙ to_u64--ℤ a b

pub to_u64-neg_i : (a : ℤ) → to_u64 (neg_i a) ≡ (u64_mod - to_u64 a) % u64_mod
unfolding neg_i
to_u64-neg_i a = to_u64-wrap64 (neg a) ∙ to_u64-neg a

-- Two values of int64 with one bit pattern are equal.
pub to_u64-injective : (a b : ℤ) → InI64 a → InI64 b → to_u64 a ≡ to_u64 b → a ≡ b
unfolding to_u64
to_u64-injective (pos m) (pos n) h k e = ground arith
to_u64-injective (pos m) (negsuc n) h k e = ground arith
to_u64-injective (negsuc m) (pos n) h k e = ground arith
to_u64-injective (negsuc m) (negsuc n) h k e = ground arith

pub +i-InI64 : (a b : ℤ) → InI64 (a +i b)
unfolding ◌+i◌
+i-InI64 a b = wrap64-InI64 (a +ℤ b)

pub -i-InI64 : (a b : ℤ) → InI64 (a -i b)
unfolding ◌-i◌
-i-InI64 a b = wrap64-InI64 (a -ℤ b)

pub neg_i-InI64 : (a : ℤ) → InI64 (neg_i a)
unfolding neg_i
neg_i-InI64 a = wrap64-InI64 (neg a)

-- Adding the wrapped negation is subtraction.
pub +i-neg_i : (a b : ℤ) → a +i neg_i b ≡ a -i b
+i-neg_i a b =
    to_u64-injective (a +i neg_i b) (a -i b) (+i-InI64 a (neg_i b)) (-i-InI64 a b)
      (omega (arith, to_u64-+i a (neg_i b), to_u64-neg_i b, to_u64--i a b))

-- Where the exact result is a value of int64, it is the result.
pub +i_exact : (a b : ℤ) → InI64 (a +ℤ b) → a +i b ≡ a +ℤ b
unfolding ◌+i◌
+i_exact a b h = wrap64_id (a +ℤ b) h

pub -i_exact : (a b : ℤ) → InI64 (a -ℤ b) → a -i b ≡ a -ℤ b
unfolding ◌-i◌
-i_exact a b h = wrap64_id (a -ℤ b) h

pub ruleset word_laws = (arith, to_u64-+i, to_u64--i, to_u64-neg_i, to_u64-lt)

-- package math/bits: Add64, Sub64, Mul64 and the quotient of Div64.
abbrev pub bits_add64 : ℕ → ℕ → ℕ → ℕ × ℕ
bits_add64 x y carry = ((x + y + carry) % u64_mod, (x + y + carry) / u64_mod)

abbrev pub bits_sub64 : ℕ → ℕ → ℕ → ℕ × ℕ
bits_sub64 x y borrow =
    ((x + (u64_mod + u64_mod - y - borrow)) % u64_mod, if ltb x (y + borrow) then 1 else 0)

abbrev pub bits_mul64 : ℕ → ℕ → ℕ × ℕ
bits_mul64 x y = (x * y / u64_mod, x * y % u64_mod)

-- The call panics where `y` is not above `hi`; the quotient is then not meant.
abbrev pub bits_div64 : ℕ → ℕ → ℕ → ℕ × ℕ
bits_div64 hi lo y = ((hi * u64_mod + lo) / y, (hi * u64_mod + lo) % y)
