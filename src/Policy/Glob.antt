-- ===== src/Policy/Glob.antt =====
-- agent/policy/compile.go: `globRegexp` and `anyGlob`. The Go code writes a regular expression,
-- byte by byte, and asks regexp to match the whole text; the expressions that it can write are
-- sequences of the four tokens below, and `regexp.Compile` rejects none of them.
pub mod Laws
pub mod Meaning
pub mod Plain
use Prim.Native.Char.{Char, code}
use Prim.Native.String
use review.Base.{
  ℕ, ◌+◌, ◌/◌, ◌%◌, String, Bool, true, false, not, ◌||◌, ◌&&◌, List, [], ◌∷◌, ◌++◌, if◌then◌else◌,
  ltb, ◌==◌, any,
}

-- The code points of a text, which regexp reads.
unfoldable pub codes : String → List ℕ
codes String.[] = []
codes (String.◌∷◌ c s) = code c ∷ codes s

-- The UTF-8 bytes of a code point, which the loop over `pattern[i]` reads.
unfoldable pub utf8 : ℕ → List ℕ
utf8 c =
    if ltb c 0x80
    then c ∷ []
    else if ltb c 0x800
    then (0xC0 + c / 64) ∷ (0x80 + c % 64) ∷ []
    else if ltb c 0x10000
    then (0xE0 + c / 4096) ∷ (0x80 + c / 64 % 64) ∷ (0x80 + c % 64) ∷ []
    else (0xF0 + c / 262144) ∷ (0x80 + c / 4096 % 64) ∷ (0x80 + c / 64 % 64) ∷ (0x80 + c % 64) ∷ []

unfoldable pub bytes : String → List ℕ
unfolding utf8
bytes String.[] = []
bytes (String.◌∷◌ c s) = utf8 (code c) ++ bytes s

-- `.*`, `[^/]*`, `[^/]` and a quoted character. In Go's syntax `.` is no newline.
pub data Token : Type 0 where
  any_run segment_run segment_one : Token
  literal : ℕ → Token

-- A byte that begins no `**`. `string(pattern[i])` is the character whose code point is that byte.
abbrev pub single : ℕ → Token
single b = if b == b'*' then segment_run else if b == b'?' then segment_one else literal b

unfoldable pub glob_tokens : List ℕ → List Token
glob_tokens [] = []
glob_tokens (b ∷ []) = single b ∷ []
glob_tokens (b ∷ c ∷ bs) =
    let past_two = glob_tokens bs in
    let past_one = glob_tokens (c ∷ bs) in
    if b == b'*' && c == b'*' then any_run ∷ past_two else single b ∷ past_one

unfoldable pub matches : List Token → List ℕ → Bool
matches [] [] = true
matches [] (c ∷ cs) = false
matches (literal x ∷ ts) [] = false
matches (literal x ∷ ts) (c ∷ cs) = x == c && matches ts cs
matches (segment_one ∷ ts) [] = false
matches (segment_one ∷ ts) (c ∷ cs) = not (c == b'/') && matches ts cs
matches (segment_run ∷ ts) [] = matches ts []
matches (segment_run ∷ ts) (c ∷ cs) =
    matches ts (c ∷ cs) || not (c == b'/') && matches (segment_run ∷ ts) cs
matches (any_run ∷ ts) [] = matches ts []
matches (any_run ∷ ts) (c ∷ cs) = matches ts (c ∷ cs) || not (c == 10) && matches (any_run ∷ ts) cs

-- `globRegexp(pattern)` and then `re.MatchString(value)`
unfoldable pub glob_match : String → String → Bool
unfolding codes bytes glob_tokens matches
glob_match pattern value = matches (glob_tokens (bytes pattern)) (codes value)

-- `anyGlob`
unfoldable pub any_glob : List String → List String → Bool
any_glob patterns values = any (λ pattern. any (glob_match pattern) values) patterns
