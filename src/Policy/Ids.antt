-- ===== src/Policy/Ids.antt =====
-- agent/policy/validate.go: identifiers, enumerations and lists of them.
pub mod Laws
use Prim.Native.Char.{Char, code}
use Prim.Native.String
use review.Base.{
  ℕ, String, Bool, true, false, not, ◌||◌, ◌&&◌, List, [], ◌∷◌, if◌then◌else◌, ◌==◌, str_eq, leb,
  ltb, length, any, Option, none, some, Error, new, errorf, ◌>>◌, fail_if,
}
use review.Base.Text.{is_blank}
use review.Base.Names.{contains}
use review.Policy.PathSyntax.{
  has_byte, split_slash, starts_at_root, single_stars, outside, is_well_formed,
}

abbrev is_alnum : Char → Bool
is_alnum c =
    (leb 65 (code c) && leb (code c) 90)
    || (leb 97 (code c) && leb (code c) 122)
    || (leb 48 (code c) && leb (code c) 57)

-- [A-Za-z0-9._:/-]
abbrev is_id_char : Char → Bool
is_id_char c =
    is_alnum c
    || code c == b'.'
    || code c == b'_'
    || code c == b':'
    || code c == b'/'
    || code c == b'-'

unfoldable pub all_id_chars : String → Bool
all_id_chars String.[] = true
all_id_chars (String.◌∷◌ c s) = is_id_char c && all_id_chars s

-- `idPattern`
unfoldable pub matches_id_pattern : String → Bool
unfolding all_id_chars
matches_id_pattern String.[] = false
matches_id_pattern (String.◌∷◌ c s) = is_alnum c && all_id_chars s

-- `validID`
unfoldable pub valid_id : String → Bool
unfolding matches_id_pattern
valid_id value = leb (String.len value) 256 && matches_id_pattern value

-- The loop of `uniqueStrings`; `seen` holds the keys of the map.
unique_from : String → Bool → List String → List String → Option Error
unique_from name nonempty seen [] = none
unique_from name nonempty seen (value ∷ values) =
    let rest = unique_from name nonempty (value ∷ seen) values in
    (do
      fail_if (nonempty && is_blank value) (errorf "policy: %s contains an empty value" (name ∷ []))
      fail_if (contains seen value) (errorf "policy: %s contains duplicate %q" (name ∷ value ∷ []))
      rest)

unfoldable pub unique_strings : String → List String → Bool → Option Error
unfolding unique_from
unique_strings name values nonempty = unique_from name nonempty [] values

check_ids : String → List String → Option Error
check_ids name [] = none
check_ids name (value ∷ values) = do
  fail_if (not (valid_id value)) (errorf "policy: %s contains invalid id %q" (name ∷ value ∷ []))
  check_ids name values

-- `uniqueIDs`; the two bounds are operands of the message, and are left out of it
unfoldable pub unique_ids : String → List String → ℕ → ℕ → Option Error
unfolding check_ids
unique_ids name values min max = do
  fail_if (ltb (length values) min || ltb max (length values))
      (errorf "policy: %s requires %d-%d values" (name ∷ []))
  check_ids name values
  unique_strings name values false

unfoldable pub enum : String → String → List String → Option Error
enum name value allowed =
    if any (str_eq value) allowed
    then none
    else some (errorf "policy: %s has unsupported value %q" (name ∷ value ∷ []))

check_enums : String → List String → List String → Option Error
check_enums name [] allowed = none
check_enums name (value ∷ values) allowed = do
  enum name value allowed
  check_enums name values allowed

-- `uniqueEnum`; the bound is an operand of the message, and is left out of it
unfoldable pub unique_enum : String → List String → ℕ → List String → Option Error
unfolding check_enums
unique_enum name values max allowed = do
  fail_if (ltb max (length values)) (errorf "policy: %s exceeds maximum %d" (name ∷ []))
  unique_strings name values false
  check_enums name values allowed

unfoldable pub check_glob : String → String → Option Error
check_glob name glob = do
  fail_if (str_eq glob "" || starts_at_root glob || has_byte glob "\\")
      (errorf "policy: %s contains invalid repository glob %q" (name ∷ glob ∷ []))
  fail_if (any (str_eq "..") (split_slash glob))
      (errorf "policy: %s glob cannot escape repository" (name ∷ []))
  fail_if (not (is_well_formed outside (single_stars glob)))
      (errorf "policy: %s contains malformed glob %q" (name ∷ glob ∷ []))

check_globs : String → List String → Option Error
check_globs name [] = none
check_globs name (glob ∷ globs) = do check_glob name glob; check_globs name globs

-- `validateGlobs`
unfoldable pub validate_globs : String → List String → Option Error
unfolding check_globs check_glob
validate_globs name globs = do check_globs name globs; unique_strings name globs false
