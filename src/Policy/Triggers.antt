-- ===== src/Policy/Triggers.antt =====
-- agent/policy/validate.go: `validateTriggers` and `validateMappings`. The Go loop over the six
-- lists runs in no fixed order, which decides only which of several errors is returned; here it runs
-- in the order of the literal.
use Prim.Native.String
use review.Base.{
  String, Bool, true, false, not, ◌||◌, List, [], ◌∷◌, ltb, str_eq, length, is_empty, Option, none,
  Error, errorf, ◌>>◌, fail_if,
}
use review.Policy.Schema.{Triggers}
use review.Policy.Ids.{valid_id, unique_strings, validate_globs}

check_lengths : String → List String → Option Error
check_lengths name [] = none
check_lengths name (value ∷ values) = do
  fail_if (ltb 256 (String.len value))
      (errorf "policy: triggers.%s value exceeds 256 bytes" (name ∷ []))
  check_lengths name values

check_trigger : String → List String → Option Error
unfolding check_lengths
check_trigger name values = do
  fail_if (ltb 128 (length values)) (errorf "policy: triggers.%s exceeds maximum 128" (name ∷ []))
  unique_strings (String.◌++◌ "triggers." name) values true
  check_lengths name values

-- `validateTriggers`
unfoldable pub validate_triggers : Triggers → Option Error
unfolding check_trigger
validate_triggers t = do
  check_trigger "include_branches" t.include_branches
  check_trigger "exclude_branches" t.exclude_branches
  check_trigger "include_authors" t.include_authors
  check_trigger "exclude_authors" t.exclude_authors
  check_trigger "include_labels" t.include_labels
  check_trigger "exclude_labels" t.exclude_labels

check_mappings : String → List (String × List String) → Option Error
check_mappings name [] = none
check_mappings name ((id, globs) ∷ mappings) = do
  fail_if (not (valid_id id)) (errorf "policy: %s has invalid id %q" (name ∷ id ∷ []))
  fail_if (is_empty globs || ltb 128 (length globs))
      (errorf "policy: %s.%s requires 1-128 path globs" (name ∷ id ∷ []))
  validate_globs (String.◌++◌ name (String.◌++◌ "." id)) globs
  check_mappings name mappings

-- `validateMappings`
unfoldable pub validate_mappings : String → List (String × List String) → Option Error
unfolding check_mappings
validate_mappings name mappings = do
  fail_if (ltb 256 (length mappings)) (errorf "policy: %s exceeds maximum 256" (name ∷ []))
  check_mappings name mappings

-- `_, exists := m[key]`
abbrev pub has_key {ℓ} : {V : Type ℓ} → String → List (String × V) → Bool
has_key key [] = false
has_key key ((k, v) ∷ entries) = str_eq k key || has_key key entries
