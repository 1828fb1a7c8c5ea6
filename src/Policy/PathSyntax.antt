-- ===== src/Policy/PathSyntax.antt =====
-- What policy validation asks of paths and globs, through Go's `strings` and `path`.
use Prim.Native.Char.{Char, code}
use Prim.Native.String
use mathlib.Core.List.{reverse}
use review.Base.{
  String, Bool, true, false, ◌||◌, ◌&&◌, List, [], ◌∷◌, if◌then◌else◌, ◌==◌, str_eq, Option, none,
  some,
}

-- `strings.Contains(s, t)` for a text `t` of the one byte `b`
unfoldable pub has_byte : String → String → Bool
has_byte String.[] t = false
has_byte (String.◌∷◌ c s) t = str_eq (String.◌∷◌ c String.[]) t || has_byte s t

abbrev pub prepend : Char → List String → List String
prepend c [] = (String.◌∷◌ c String.[]) ∷ []
prepend c (part ∷ parts) = (String.◌∷◌ c part) ∷ parts

-- `strings.Split(s, "/")`
unfoldable pub split_slash : String → List String
split_slash String.[] = "" ∷ []
split_slash (String.◌∷◌ c s) =
    if code c == b'/' then "" ∷ split_slash s else prepend c (split_slash s)

-- `strings.HasPrefix(s, "/")`
unfoldable pub starts_at_root : String → Bool
starts_at_root String.[] = false
starts_at_root (String.◌∷◌ c s) = code c == b'/'

-- `strings.ReplaceAll(s, "**", "*")`
unfoldable pub single_stars : String → String
single_stars String.[] = String.[]
single_stars (String.◌∷◌ c String.[]) = String.◌∷◌ c String.[]
single_stars (String.◌∷◌ c (String.◌∷◌ d s)) =
    let past_two = single_stars s in
    let past_one = single_stars (String.◌∷◌ d s) in
    if code c == b'*' && code d == b'*' then String.◌∷◌ c past_two else String.◌∷◌ c past_one

-- Where `path.Match` stands in a pattern: outside a class, behind its `[`, before an item (and
-- whether there was one), behind an item's first character, and behind its dash.
pub data Place : Type 0 where
  outside opened after_low before_high : Place
  before_item : Bool → Place

-- The place behind a character that may begin an item or end the class; `none` is malformed.
abbrev begin_item : Bool → Char → Option Place
begin_item seen c =
    if code c == b']' && seen
    then some outside
    else if code c == b'-' || code c == b']'
    then none
    else some after_low

abbrev next_place : Place → Char → Option Place
next_place outside c = some (if code c == b'[' then opened else outside)
next_place opened c = if code c == b'^' then some (before_item false) else begin_item false c
next_place (before_item seen) c = begin_item seen c
next_place after_low c = if code c == b'-' then some before_high else begin_item true c
next_place before_high c =
    if code c == b'-' || code c == b']' then none else some (before_item true)

abbrev ends : Place → Bool
ends outside = true
ends _ = false

-- Whether `path.Match` finds the pattern well formed, for patterns without a backslash: it reports
-- `ErrBadPattern` for a class that is not closed, or has an empty or broken item, wherever it is.
unfoldable pub is_well_formed : Place → String → Bool
is_well_formed place String.[] = ends place
is_well_formed place (String.◌∷◌ c s) = elim (next_place place c) [
  | none ↦ false
  | some place' ↦ is_well_formed place' s
]

-- `strings.Join(parts, sep)`
unfoldable pub join : String → List String → String
join sep [] = ""
join sep (part ∷ []) = part
join sep (part ∷ next ∷ parts) = String.◌++◌ part (String.◌++◌ sep (join sep (next ∷ parts)))

abbrev pop_or_keep : Bool → List String → List String
pop_or_keep rooted [] = if rooted then [] else ".." ∷ []
pop_or_keep rooted (last ∷ out) = if str_eq last ".." then ".." ∷ last ∷ out else out

abbrev clean_part : Bool → List String → String → List String
clean_part rooted out part =
    if str_eq part "" || str_eq part "."
    then out
    else if str_eq part ".."
    then pop_or_keep rooted out
    else part ∷ out

-- The elements that `path.Clean` keeps; the stack has the last one at its head.
clean_parts : Bool → List String → List String → List String
clean_parts rooted out [] = reverse out
clean_parts rooted out (part ∷ parts) = clean_parts rooted (clean_part rooted out part) parts

-- `path.Clean`
unfoldable pub clean : String → String
unfolding clean_parts starts_at_root split_slash join
clean s =
    let rooted = starts_at_root s in
    let body = join "/" (clean_parts rooted [] (split_slash s)) in
    if rooted then String.◌++◌ "/" body else if str_eq body "" then "." else body

ext_from : String → String → String
ext_from found String.[] = found
ext_from found (String.◌∷◌ c s) =
    ext_from (if code c == b'/' then "" else if code c == b'.' then String.◌∷◌ c s else found) s

-- `path.Ext`
unfoldable pub ext : String → String
unfolding ext_from
ext s = ext_from "" s
