-- ===== src/Review/InlinePositions/Lines.antt =====
-- Texts as lines, for agent/review/inline_positions.go: `strings.Split` at "\n", `strings.HasPrefix`,
-- and the cut of a hunk header.
use Prim.Native.Char.{Char, code}
use Prim.Native.String
use text.Mathlib.TextLemmas.{nil-append, cons-append}
use review.Base.{
  ℕ, String, Bool, true, false, not, ◌||◌, ◌&&◌, if◌then◌else◌, List, [], ◌∷◌, ◌==◌, Option, none,
  some, ◌≡◌, refl, ap, ◌∙◌, arith, All,
}

-- `math.MaxInt64`
abbrev pub max_int : ℕ
max_int = 9223372036854775807

abbrev pub is_newline : Char → Bool
is_newline c = code c == 10

-- A character before the first line.
abbrev pub on_first : Char → List String → List String
on_first c [] = String.◌∷◌ c "" ∷ []
on_first c (line ∷ lines) = String.◌∷◌ c line ∷ lines

-- `strings.Split(patch, "\n")`
unfoldable pub split_lines : String → List String
split_lines String.[] = "" ∷ []
split_lines (String.◌∷◌ c s) =
    let lines = split_lines s in if is_newline c then "" ∷ lines else on_first c lines

unfoldable pub has_prefix : String → String → Bool
has_prefix String.[] s = true
has_prefix (String.◌∷◌ c p) String.[] = false
has_prefix (String.◌∷◌ c p) (String.◌∷◌ d s) = code c == code d && has_prefix p s

-- What stands after the first "+".
unfoldable pub after_plus : String → Option String
after_plus String.[] = none
after_plus (String.◌∷◌ c s) = if code c == 43 then some s else after_plus s

-- What stands before the first ',', ' ' or '@'.
unfoldable pub until_end : String → String
until_end String.[] = ""
until_end (String.◌∷◌ c s) =
    if code c == 44 || code c == 32 || code c == 64 then "" else String.◌∷◌ c (until_end s)

abbrev pub newline_free : String → Bool
newline_free String.[] = true
newline_free (String.◌∷◌ c s) = not (is_newline c) && newline_free s

abbrev newline : Char
newline = "\n"

-- Lines with line feeds between them.
abbrev pub join_lines : String → List String → String
join_lines line [] = line
join_lines line (next ∷ lines) = String.◌++◌ line (String.◌∷◌ newline (join_lines next lines))

split_line : (s : String) → newline_free s ≡ true → split_lines s ≡ s ∷ []
unfolding split_lines
split_line String.[] h = refl
split_line (String.◌∷◌ c s) h = ground (arith, split_line s)

split_first :
    (s rest : String)
    → newline_free s ≡ true
    → split_lines (String.◌++◌ s (String.◌∷◌ newline rest)) ≡ s ∷ split_lines rest
unfolding split_lines
split_first String.[] rest h = ap split_lines (nil-append (String.◌∷◌ newline rest))
split_first (String.◌∷◌ c s) rest h =
    ap split_lines (cons-append c s (String.◌∷◌ newline rest)) ∙ ground (arith, split_first s rest)

pub split_lines-join :
    (line : String) (lines : List String)
    → newline_free line ≡ true
    → All (λ s. newline_free s ≡ true) lines
    → split_lines (join_lines line lines) ≡ line ∷ lines
split_lines-join line [] h a = split_line line h
split_lines-join line (next ∷ lines) h (n, a) =
    split_first line (join_lines next lines) h
    ∙ ap (λ z. line ∷ z) (split_lines-join next lines n a)
