-- ===== src/Migration/RoundTrip.antt =====
-- migration/parser.go on files that are written statement by statement.
use dora_service_utils.Base.{
  ◌≡◌, ◌∙◌, sym, ap, refl, true, false, List, [], ◌∷◌, ◌++◌, map, arith, nat_beq, length,
}
use mathlib.Core.List.{append_assoc, append-nil}
use dora_service_utils.Base.Text.{Str, codes, has_prefix, contains_str, to_lower, lower_byte}
use dora_service_utils.Base.Text.Parts.{has_prefix-append}
use dora_service_utils.Migration.{
  is_statement_start, is_statement_end, opens, check_comment, parse_lines, parse_migration_file,
}

-- The text of a statement: its lines one behind the other with nothing between them.
abbrev pub joined : List Str → Str
joined [] = []
joined (line ∷ lines) = line ++ joined lines

-- A statement of a file: the line that starts it, its own lines and the line that ends it.
pub record Section : Type 0 where
  pub start : Str
  pub body : List Str
  pub end : Str

-- The lines of a file that holds the statements.
abbrev pub lines_then : Str → List Str → List Str → List Str
lines_then end [] rest = end ∷ rest
lines_then end (line ∷ lines) rest = line ∷ lines_then end lines rest

abbrev pub file_of : List Section → List Str
file_of [] = []
file_of (s ∷ ss) = s.start ∷ lines_then s.end s.body (file_of ss)

-- Dashes and, behind them, `+start` in any case.
abbrev pub IsStart : Str → Type 0
IsStart line =
    (a : Str) × (word : Str) × (b : Str) × (line ≡ codes "--" ++ (a ++ (word ++ b)))
    × (to_lower word ≡ codes "+start")

-- Dashes and, behind them, `+end` in lower case, and no `+start` in any case.
abbrev pub IsEnd : Str → Type 0
IsEnd line =
    (a : Str) × (b : Str) × (line ≡ codes "--" ++ (a ++ (codes "+end" ++ b)))
    × (contains_str (codes "+start") (to_lower line) ≡ false)

prefix-contains : (s p : Str) → has_prefix s p ≡ true → contains_str p s ≡ true
unfolding contains_str
prefix-contains [] p h = h
prefix-contains (c ∷ s) p h = ground arith

-- Lower case has the same dashes.
lower_dashes : (s : Str) → has_prefix (to_lower s) (codes "--") ≡ has_prefix s (codes "--")
unfolding to_lower has_prefix lower_byte
lower_dashes [] = refl
lower_dashes (c ∷ []) = ground arith
lower_dashes (c ∷ d ∷ s) = ground arith

to_lower-append : (s t : Str) → to_lower (s ++ t) ≡ to_lower s ++ to_lower t
unfolding to_lower
to_lower-append [] t = refl
to_lower-append (c ∷ s) t = ap (λ (l : Str). lower_byte c ∷ l) (to_lower-append s t)

contains_str-append : (a p b : Str) → contains_str p (a ++ (p ++ b)) ≡ true
unfolding contains_str
contains_str-append [] p b = prefix-contains (p ++ b) p (has_prefix-append p b)
contains_str-append (c ∷ a) p b = ground (arith, contains_str-append a p b)

-- The lower case of a line that starts a statement.
lower_start :
    (a word b : Str)
    → to_lower word ≡ codes "+start"
    → to_lower (codes "--" ++ (a ++ (word ++ b)))
      ≡ (codes "--" ++ to_lower a) ++ (codes "+start" ++ to_lower b)
unfolding to_lower lower_byte
lower_start a word b w =
    ap (λ (l : Str). codes "--" ++ l)
      (to_lower-append a (word ++ b)
        ∙ ap (λ (l : Str). to_lower a ++ l)
            (to_lower-append word b ∙ ap (λ (l : Str). l ++ to_lower b) w))

start_starts : (line : Str) → IsStart line → is_statement_start line ≡ true
unfolding is_statement_start
start_starts line (a, word, b, e, w) = ground (
  arith,
  ap to_lower e ∙ lower_start a word b w,
  has_prefix-append (codes "--") (to_lower a ++ (codes "+start" ++ to_lower b)),
  contains_str-append (codes "--" ++ to_lower a) (codes "+start") (to_lower b),
)

end_ends :
    (line : Str) → IsEnd line → (is_statement_start line ≡ false) × (is_statement_end line ≡ true)
unfolding is_statement_start is_statement_end
end_ends line (a, b, e, n) = (
  ground (arith, n),
  ground (
    arith,
    e,
    has_prefix-append (codes "--") (a ++ (codes "+end" ++ b)),
    contains_str-append (codes "--" ++ a) (codes "+end") b,
  ),
)

module _ (trim_space : Str → Str) where
  -- A line that is not blank and neither is nor opens a comment.
  pub record IsPlainLine (line : Str) : Type 0 where
    pub not_blank : nat_beq (length (trim_space line)) 0 ≡ false
    pub no_dashes : has_prefix line (codes "--") ≡ false
    pub no_comment : opens line ≡ false

  abbrev pub ArePlain : List Str → Type 0
  ArePlain [] = Unit
  ArePlain (line ∷ lines) = IsPlainLine line × ArePlain lines

  -- A line of which trimming leaves something.
  abbrev pub IsVisible : Str → Type 0
  IsVisible line = nat_beq (length (trim_space line)) 0 ≡ false

  -- The lines that start and end a statement are such lines, and the lines between them are plain.
  pub record IsSection (s : Section) : Type 0 where
    pub starts : IsStart s.start
    pub start_visible : IsVisible s.start
    pub plain : ArePlain s.body
    pub ends : IsEnd s.end
    pub end_visible : IsVisible s.end

  abbrev pub AllSections : List Section → Type 0
  AllSections [] = Unit
  AllSections (s ∷ ss) = IsSection s × AllSections ss

  -- A plain line is added to the statement.
  parse_lines-plain :
      (statements : List Str) (builder line : Str) (rest : List Str)
      → IsPlainLine line
      → parse_lines trim_space statements builder false (line ∷ rest)
        ≡ parse_lines trim_space statements (builder ++ line) false rest
  unfolding parse_lines is_statement_start is_statement_end check_comment
  parse_lines-plain statements builder line rest h =
      ground (arith, lower_dashes line, prefix-contains line (codes "/*"))

  parse_lines-end :
      (statements : List Str) (builder end : Str) (rest : List Str)
      → IsEnd end
      → IsVisible end
      → parse_lines trim_space statements builder false (end ∷ rest)
        ≡ parse_lines trim_space (statements ++ (builder ∷ [])) [] false rest
  unfolding parse_lines
  parse_lines-end statements builder end rest h k =
      let (other, ends) = end_ends end h in rw other (rw ends (rw k refl))

  parse_lines-start :
      (statements : List Str) (start : Str) (rest : List Str)
      → IsStart start
      → IsVisible start
      → parse_lines trim_space statements [] false (start ∷ rest)
        ≡ parse_lines trim_space statements [] false rest
  unfolding parse_lines
  parse_lines-start statements start rest h k = rw (start_starts start h) (rw k refl)

  -- The lines of a body up to its end marker make one statement.
  parse_lines-body :
      (statements : List Str) (builder end : Str) (body rest : List Str)
      → ArePlain body
      → IsEnd end
      → IsVisible end
      → parse_lines trim_space statements builder false (lines_then end body rest)
        ≡ parse_lines trim_space (statements ++ ((builder ++ joined body) ∷ [])) [] false rest
  unfolding parse_lines
  parse_lines-body statements builder end [] rest h l k =
      parse_lines-end statements builder end rest l k
      ∙ ap (λ (t : Str). parse_lines trim_space (statements ++ (t ∷ [])) [] false rest)
          (sym (append-nil builder))
  parse_lines-body statements builder end (line ∷ body) rest h l k =
      parse_lines-plain statements builder line (lines_then end body rest) h.0
      ∙ parse_lines-body statements (builder ++ line) end body rest h.1 l k
      ∙ ap (λ (t : Str). parse_lines trim_space (statements ++ (t ∷ [])) [] false rest)
          (append_assoc builder line (joined body))

  abbrev pub texts : List Section → List Str
  texts ss = map (λ (s : Section). joined s.body) ss

  file-lines :
      (statements : List Str) (ss : List Section)
      → AllSections ss
      → parse_lines trim_space statements [] false (file_of ss) ≡ statements ++ texts ss
  unfolding parse_lines
  file-lines statements [] h = sym (append-nil statements)
  file-lines statements (s ∷ ss) h =
      parse_lines-start statements s.start (lines_then s.end s.body (file_of ss)) h.0.starts
        h.0.start_visible
      ∙ parse_lines-body statements [] s.end s.body (file_of ss) h.0.plain h.0.ends h.0.end_visible
      ∙ file-lines (statements ++ (joined s.body ∷ [])) ss h.1
      ∙ append_assoc statements (joined s.body ∷ []) (texts ss)

  -- A file that holds statements of any number of lines, none of them blank, beginning with dashes or
  -- holding a comment's opening, each between a line of dashes with `+start` in any case and a line of
  -- dashes with `+end` in lower case and no `+start`, of both of which trimming leaves something,
  -- parses to one text for each statement, in their order: its lines one behind the other with nothing
  -- between them.
  pub parse_migration_file-file_of :
      (ss : List Section) → AllSections ss → parse_migration_file trim_space (file_of ss) ≡ texts ss
  unfolding parse_migration_file
  parse_migration_file-file_of ss h = file-lines [] ss h
