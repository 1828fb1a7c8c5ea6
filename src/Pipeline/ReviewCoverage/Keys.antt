-- ===== src/Pipeline/ReviewCoverage/Keys.antt =====
-- About the map of checks of `mergeReviewCoverage` of agent/pipeline/ci_gate.go and its keys.
use review.Base.{
  String, Bool, true, List, [], ◌∷◌, str_eq, Option, some, ◌≡◌, refl, inl, inr, arith, eq_iff,
  Bool-cases, Option-cases, All, Some,
}
use review.Base.Names.{contains}
use review.Review.Check.{Check}
use review.Policy.Schema.{lookup}
use review.Pipeline.CiGate.{CheckMap, checks_at}
use review.Pipeline.ReviewCoverage.{
  SkillActivation, SkillCoverage, merge_gate_check, candidate_of, name_key, merge_into,
  merge_checks, merge_activations, check_map,
}

-- Each check stands at its own name.
abbrev pub IsKeyed : CheckMap → Type 0
IsKeyed checks = (id : String) (c : Check) → lookup id checks ≡ some c → c.id ≡ id

pub merge_gate_check-id :
    (a b : Check) (id : String) → a.id ≡ id → b.id ≡ id → (merge_gate_check (some a) b).id ≡ id
unfolding merge_gate_check
merge_gate_check-id a b id e f = ground arith

pub empty-IsKeyed : IsKeyed []
unfolding lookup
empty-IsKeyed id c l = absurd (cc)

cons-IsKeyed :
    (checks : CheckMap) (key : String) (c : Check)
    → c.id ≡ key
    → IsKeyed checks
    → IsKeyed ((key, c) ∷ checks)
unfolding lookup
cons-IsKeyed checks key c e k id d l = elim (Bool-cases (str_eq key id)) [
  | inl q ↦ ground (arith, eq_iff key id)
  | inr q ↦ k id d (ground arith)
]

pub checks_at-Some :
    (checks : CheckMap) (ids : List String) (w : String) (P : Check → Type 0) {c : Check}
    → lookup w checks ≡ some c
    → contains ids w ≡ true
    → P c
    → Some P (checks_at checks ids)
unfolding checks_at contains
checks_at-Some checks [] w P l h p = absurd (cc)
checks_at-Some checks (id ∷ ids) w P {c} l h p = elim (Bool-cases (str_eq id w)) [
  | inl q ↦ rw ((eq_iff id w).0 q, checks_at, l) (inl p)
  | inr q ↦ elim (Option-cases (lookup id checks)) [
    | inl n ↦ rw (checks_at, n) (checks_at-Some checks ids w P l (ground arith) p)
    | inr (d, n) ↦ rw (checks_at, n) (inr (checks_at-Some checks ids w P l (ground arith) p))
  ]
]

pub checks_at-All :
    (checks : CheckMap) (ids : List String) (P : Check → Type 0)
    → ((id : String) (c : Check) → lookup id checks ≡ some c → P c)
    → All P (checks_at checks ids)
unfolding checks_at
checks_at-All checks [] P k = tt
checks_at-All checks (id ∷ ids) P k = elim (Option-cases (lookup id checks)) [
  | inl n ↦ rw (checks_at, n) (checks_at-All checks ids P k)
  | inr (c, n) ↦ rw (checks_at, n) (k id c n, checks_at-All checks ids P k)
]

module _ (to_lower : String → String) (equal_fold : String → String → Bool) where
  pub candidate_id :
      (required : List String) (item : Option SkillCoverage) (a : SkillActivation) (id : String)
      → (candidate_of to_lower equal_fold required item a id).id ≡ id
  unfolding candidate_of
  candidate_id required item a id = ground arith

  pub merge_into-IsKeyed :
      (checks : CheckMap) (id : String) (b : Check)
      → b.id ≡ id
      → IsKeyed checks
      → IsKeyed (merge_into to_lower equal_fold checks id b)
  unfolding merge_gate_check
  merge_into-IsKeyed checks id b e k =
      cons-IsKeyed checks id (merge_gate_check (lookup id checks) b)
        (elim (Option-cases (lookup id checks)) [
          | inl n ↦ rw n e
          | inr (c, n) ↦ rw n (merge_gate_check-id c b id (k id c n) e)
        ])
        k

  pub merge_checks-IsKeyed :
      (required : List String) (item : Option SkillCoverage) (a : SkillActivation)
      (ids : List String) (checks : CheckMap)
      → IsKeyed checks
      → IsKeyed (merge_checks to_lower equal_fold required item a ids checks)
  unfolding merge_checks
  merge_checks-IsKeyed required item a [] checks k = k
  merge_checks-IsKeyed required item a (id ∷ ids) checks k =
      merge_checks-IsKeyed required item a ids _ (
        merge_into-IsKeyed checks id (candidate_of to_lower equal_fold required item a id)
          (candidate_id required item a id) k)

  pub merge_activations-IsKeyed :
      (required : List String) (skills : List (String × SkillCoverage))
      (activations : List SkillActivation) (checks : CheckMap)
      → IsKeyed checks
      → IsKeyed (merge_activations to_lower equal_fold required skills activations checks)
  unfolding merge_activations
  merge_activations-IsKeyed required skills [] checks k = k
  merge_activations-IsKeyed required skills (a ∷ activations) checks k =
      merge_activations-IsKeyed required skills activations _ (
        merge_checks-IsKeyed required (lookup (name_key to_lower equal_fold a.name) skills) a
          a.required_checks checks k)

  pub check_map-IsKeyed :
      (entries : CheckMap) (checks : List Check)
      → IsKeyed entries
      → IsKeyed (check_map to_lower equal_fold entries checks)
  unfolding check_map
  check_map-IsKeyed entries [] k = k
  check_map-IsKeyed entries (c ∷ checks) k =
      check_map-IsKeyed ((c.id, c) ∷ entries) checks (cons-IsKeyed entries c.id c refl k)
