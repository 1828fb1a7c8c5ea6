-- ===== src/Policy/DocumentRefs.antt =====
-- agent/policy/references.go: which paths may name a pack or a rule document.
pub mod Laws
use Prim.Native.Char.{Char, code}
use Prim.Native.String
use text.Mathlib.Text.{starts_with}
use review.Base.{
  String, Bool, true, false, not, ◌||◌, ◌&&◌, List, [], ◌∷◌, if◌then◌else◌, ◌==◌, leb, ltb, str_eq,
  length, any, Option, none, some, Error, errorf, ◌>>◌, fail_if,
}
use review.Base.Names.{contains}
use review.Policy.PathSyntax.{has_byte, split_slash, clean, ext}

-- [A-Za-z0-9._/-]
abbrev is_path_char : Char → Bool
is_path_char c =
    (leb 65 (code c) && leb (code c) 90)
    || (leb 97 (code c) && leb (code c) 122)
    || (leb 48 (code c) && leb (code c) 57)
    || code c == b'.'
    || code c == b'_'
    || code c == b'/'
    || code c == b'-'

unfoldable pub all_path_chars : String → Bool
all_path_chars String.[] = true
all_path_chars (String.◌∷◌ c s) = is_path_char c && all_path_chars s

-- `documentPathPattern`
unfoldable pub matches_path_pattern : String → Bool
unfolding all_path_chars
matches_path_pattern s = not (str_eq s "") && all_path_chars s

-- The `switch` on the extension.
check_ext : String → String → String → Option Error
check_ext field ref directory =
    if str_eq (ext ref) ".json" || str_eq (ext ref) ".yaml" || str_eq (ext ref) ".yml"
    then none
    else if str_eq (ext ref) ".md"
    then fail_if (not (str_eq directory "rules"))
        (errorf "policy: %s forbids markdown pack documents" (field ∷ []))
    else some (errorf "policy: %s unsupported document extension %q" (field ∷ ext ref ∷ []))

abbrev pub root_of : String → String
root_of directory = String.◌++◌ ".7review/" (String.◌++◌ directory "/")

-- One round of the loop.
check_ref : String → String → List String → String → Option Error
check_ref field directory seen ref = do
  fail_if (contains seen ref) (errorf "policy: duplicate %s reference %q" (field ∷ ref ∷ []))
  fail_if
      (not (matches_path_pattern ref)
        || not (starts_with ref (root_of directory))
        || not (str_eq (clean ref) ref)
        || has_byte ref "\\")
      (errorf "policy: %s path %q must stay inside .7review/%s" (field ∷ ref ∷ directory ∷ []))
  fail_if (any (str_eq "..") (split_slash ref))
      (errorf "policy: %s forbids parent traversal" (field ∷ []))
  check_ext field ref directory

check_refs : String → String → List String → List String → Option Error
check_refs field directory seen [] = none
check_refs field directory seen (ref ∷ refs) =
    let rest = check_refs field directory (ref ∷ seen) refs in
    (do check_ref field directory seen ref; rest)

-- `validateDocumentRefs`
unfoldable pub validate_document_refs : String → List String → String → Option Error
unfolding check_refs check_ref check_ext
validate_document_refs field refs directory = do
  fail_if (ltb 256 (length refs)) (errorf "policy: %s exceeds maximum 256" (field ∷ []))
  check_refs field directory [] refs
