-- ===== src/Base/Text.antt =====
-- Go strings as lists of bytes, with what the sources use of package strings: HasPrefix,
-- TrimPrefix, HasSuffix, Count, Contains, Split and ToLower (at ASCII letters), and `<` on strings.
pub mod Parts
use Prim.Native.Char.{code}
use Prim.Native.String.{String}
use dora_service_utils.Base.{
  ℕ, suc, ◌+◌, ◌≡◌, ◌↔◌, refl, Bool, true, false, ◌&&◌, ◌||◌, List, [], ◌∷◌, ◌++◌, arith, nat_beq,
  ltb, leb, Eq, length, ◌<◌, if◌then◌else◌,
}

abbrev pub Str : Type 0
Str = List ℕ

-- The bytes of a literal (all are ASCII).
abbrev pub codes : String → Str
codes String.[] = []
codes (String.◌∷◌ c s) = code c ∷ codes s

abbrev pub hyphen : ℕ
hyphen = b'-'

unfoldable pub str_beq : Str → Str → Bool
str_beq [] [] = true
str_beq (x ∷ xs) (y ∷ ys) = nat_beq x y && str_beq xs ys
str_beq _ _ = false

pub str_beq_iff : (a b : Str) → (str_beq a b ≡ true) ↔ (a ≡ b)
unfolding str_beq
str_beq_iff (x ∷ a) (y ∷ b) = ground (arith, str_beq_iff a b)
str_beq_iff _ _ = ground arith

instance abbrev pub str_eq : Eq Str
str_eq = record { beq = str_beq; beq_iff = str_beq_iff }

pub str_beq_refl : (s : Str) → str_beq s s ≡ true
str_beq_refl s = (str_beq_iff s s).1 refl

-- `a < b` on strings: bytewise, a prefix first.
unfoldable pub str_ltb : Str → Str → Bool
str_ltb _ [] = false
str_ltb [] (y ∷ ys) = true
str_ltb (x ∷ xs) (y ∷ ys) =
    let rest = str_ltb xs ys in if ltb x y then true else if ltb y x then false else rest

-- strings.HasPrefix(s, p)
unfoldable pub has_prefix : Str → Str → Bool
has_prefix s [] = true
has_prefix [] (p ∷ ps) = false
has_prefix (c ∷ s) (p ∷ ps) = nat_beq c p && has_prefix s ps

-- What is left behind the prefix, for `strings.TrimPrefix`.
unfoldable pub drop_prefix : Str → Str → Str
drop_prefix s [] = s
drop_prefix [] (p ∷ ps) = []
drop_prefix (c ∷ s) (p ∷ ps) = drop_prefix s ps

-- strings.TrimPrefix(s, p)
unfoldable pub trim_prefix : Str → Str → Str
unfolding drop_prefix
trim_prefix s p = if has_prefix s p then drop_prefix s p else s

-- strings.HasSuffix(s, string(c)) for one byte.
unfoldable pub ends_with : Str → ℕ → Bool
ends_with [] c = false
ends_with (x ∷ []) c = nat_beq x c
ends_with (x ∷ y ∷ s) c = ends_with (y ∷ s) c

-- strings.Count(s, string(c)) for one byte.
unfoldable pub count_byte : ℕ → Str → ℕ
count_byte c [] = 0
count_byte c (x ∷ s) = (if nat_beq x c then 1 else 0) + count_byte c s

-- strings.Contains(s, string(c)) for one byte.
unfoldable pub contains_byte : ℕ → Str → Bool
contains_byte c [] = false
contains_byte c (x ∷ s) = nat_beq x c || contains_byte c s

-- strings.Contains(s, sub)
unfoldable pub contains_str : Str → Str → Bool
contains_str sub [] = has_prefix [] sub
contains_str sub (x ∷ s) = has_prefix (x ∷ s) sub || contains_str sub s

-- A further byte of the first piece.
unfoldable pub push_piece : ℕ → List Str → List Str
push_piece x [] = (x ∷ []) ∷ []
push_piece x (p ∷ ps) = (x ∷ p) ∷ ps

-- strings.Split(s, string(c)) for one byte: the pieces between the separators.
unfoldable pub split_byte : ℕ → Str → List Str
unfolding push_piece
split_byte c [] = [] ∷ []
split_byte c (x ∷ s) =
    let rest = split_byte c s in if nat_beq x c then [] ∷ rest else push_piece x rest

unfoldable pub lower_byte : ℕ → ℕ
lower_byte c = if leb b'A' c && leb c b'Z' then c + 32 else c

-- strings.ToLower(s), for ASCII text
unfoldable pub to_lower : Str → Str
unfolding lower_byte
to_lower [] = []
to_lower (c ∷ s) = lower_byte c ∷ to_lower s

-- strings.EqualFold(a, b), for ASCII text
unfoldable pub equal_fold : Str → Str → Bool
equal_fold a b = str_beq (to_lower a) (to_lower b)

abbrev pub is_digit : ℕ → Bool
is_digit c = leb b'0' c && leb c b'9'

unfoldable pub all_bytes : (ℕ → Bool) → Str → Bool
all_bytes p [] = true
all_bytes p (c ∷ s) = p c && all_bytes p s

pub contains_byte-all_bytes :
    (p : ℕ → Bool) (c : ℕ) (s : Str)
    → all_bytes p s ≡ true
    → p c ≡ false
    → contains_byte c s ≡ false
unfolding all_bytes contains_byte
contains_byte-all_bytes p c [] h n = refl
contains_byte-all_bytes p c (x ∷ s) h n = ground (arith, contains_byte-all_bytes p c s)

-- A text with no separator is one piece.
pub split_byte-no_sep : (c : ℕ) (s : Str) → contains_byte c s ≡ false → split_byte c s ≡ s ∷ []
unfolding split_byte contains_byte
split_byte-no_sep c [] h = refl
split_byte-no_sep c (x ∷ s) h = ground (arith, split_byte-no_sep c s)

-- What stands before the first separator is the first piece.
pub split_byte-sep :
    (c : ℕ) (s t : Str)
    → contains_byte c s ≡ false
    → split_byte c (s ++ (c ∷ t)) ≡ s ∷ split_byte c t
unfolding split_byte contains_byte
split_byte-sep c [] t h = ground arith
split_byte-sep c (x ∷ s) t h = ground (arith, split_byte-sep c s t)

pub length-push_piece :
    (x : ℕ) (ps : List Str) → 0 < length ps → length (push_piece x ps) ≡ length ps
unfolding push_piece
length-push_piece x [] h = elim h [ ]
length-push_piece x (p ∷ ps) h = refl

-- One piece more than there are separators.
pub length-split_byte : (c : ℕ) (s : Str) → length (split_byte c s) ≡ suc (count_byte c s)
unfolding split_byte count_byte
length-split_byte c [] = omega arith
length-split_byte c (x ∷ s) =
    ground (arith, length-split_byte c s, length-push_piece x (split_byte c s))

pub count_byte-append :
    (c : ℕ) (s t : Str) → count_byte c (s ++ t) ≡ count_byte c s + count_byte c t
unfolding count_byte
count_byte-append c [] t = omega arith
count_byte-append c (x ∷ s) t = omega (arith, count_byte-append c s t)

pub contains_byte-count : (c : ℕ) (s : Str) → contains_byte c s ≡ ltb 0 (count_byte c s)
unfolding contains_byte count_byte
contains_byte-count c [] = ground arith
contains_byte-count c (x ∷ s) = ground (arith, contains_byte-count c s)

-- A prefix with no separator cannot reach over a separator.
pub has_prefix-sep :
    (c : ℕ) (s t p : Str) → contains_byte c p ≡ false → has_prefix (s ++ (c ∷ t)) p ≡ has_prefix s p
unfolding has_prefix contains_byte
has_prefix-sep c [] t [] h = refl
has_prefix-sep c [] t (x ∷ p) h = ground arith
has_prefix-sep c (y ∷ s) t [] h = refl
has_prefix-sep c (y ∷ s) t (x ∷ p) h = ground (arith, has_prefix-sep c s t p)

pub ends_with-append :
    (c : ℕ) (s : Str) (y : ℕ) (t : Str) → ends_with (s ++ (y ∷ t)) c ≡ ends_with (y ∷ t) c
unfolding ends_with
ends_with-append c [] y t = refl
ends_with-append c (x ∷ []) y t = refl
ends_with-append c (x ∷ z ∷ s) y t = ends_with-append c (z ∷ s) y t

pub ends_with-contains : (c : ℕ) (s : Str) → contains_byte c s ≡ false → ends_with s c ≡ false
unfolding ends_with contains_byte
ends_with-contains c [] h = refl
ends_with-contains c (x ∷ []) h = ground arith
ends_with-contains c (x ∷ y ∷ s) h = ground (arith, ends_with-contains c (y ∷ s))

-- strings.Join
unfoldable pub join : Str → List Str → Str
join sep [] = []
join sep (s ∷ []) = s
join sep (s ∷ t ∷ l) = s ++ sep ++ join sep (t ∷ l)
