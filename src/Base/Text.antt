-- ===== src/Base/Text.antt =====
-- What the code uses of Go's `strings` and `unicode`, over texts as sequences of characters.
use Prim.Native.Char.{Char, code}
use Prim.Native.String.{String, [], ◌∷◌}
use mathlib.Core.Bool.{Bool, true, false, ◌&&◌, ◌||◌}
use text.Mathlib.Text.{◌==◌ as str_eq}
use review.Base.Tests.{leb, ◌==◌, if◌then◌else◌}

-- unicode.IsSpace
unfoldable pub is_space : Char → Bool
is_space c =
    (leb 9 (code c) && leb (code c) 13)
    || code c == 32
    || code c == 0x85
    || code c == 0xA0
    || code c == 0x1680
    || (leb 0x2000 (code c) && leb (code c) 0x200A)
    || code c == 0x2028
    || code c == 0x2029
    || code c == 0x202F
    || code c == 0x205F
    || code c == 0x3000

unfoldable pub trim_left : String → String
trim_left [] = []
trim_left (c ∷ s) = if is_space c then trim_left s else c ∷ s

abbrev keep_end : Bool → Char → String → String
keep_end true c [] = []
keep_end false c [] = c ∷ []
keep_end blank c (d ∷ s) = c ∷ d ∷ s

unfoldable pub trim_right : String → String
trim_right [] = []
trim_right (c ∷ s) = keep_end (is_space c) c (trim_right s)

-- strings.TrimSpace
unfoldable pub trim_space : String → String
unfolding trim_left trim_right is_space
trim_space s = trim_left (trim_right s)

-- `strings.TrimSpace(s) == ""`
unfoldable pub is_blank : String → Bool
unfolding trim_space
is_blank s = str_eq (trim_space s) ""
