-- ===== src/Pipeline/ReviewCoverage/Doubts.antt =====
-- About the checks that a review's methods leave in doubt, in `mergeReviewCoverage` of
-- agent/pipeline/ci_gate.go.
use review.Base.{
  String, Bool, true, false, List, [], ◌∷◌, str_eq, Option, some, ◌≡◌, ◌≢◌, ◌≤◌, refl, sym, ap,
  subst, ◌∙◌, ◌⊎◌, inl, inr, arith, eq_iff, Bool-cases, Option-cases,
}
use review.Base.Names.{contains}
use review.Review.Check.{Check, unknown}
use review.Policy.Schema.{lookup}
use review.Pipeline.CiGate.{CheckMap}
use review.Pipeline.ReviewCoverage.{
  SkillActivation, SkillCoverage, rank, merge_gate_check, candidate_of, establishes, name_key,
  merge_into, merge_checks, merge_activations,
}
use review.Pipeline.ReviewCoverage.Keys.{
  IsKeyed, merge_gate_check-id, candidate_id, merge_into-IsKeyed, merge_checks-IsKeyed,
}
use review.Pipeline.ReviewCoverage.Laws.{merge_gate_check-IsMerged}

-- The map holds a check of that name at the key whose status is at least as bad as unknown.
abbrev pub Doubts : String → CheckMap → Type 0
Doubts w checks = (c : Check) × (lookup w checks ≡ some c) × (4 ≤ rank c.status) × (c.id ≡ w)

module _ (to_lower : String → String) (equal_fold : String → String → Bool) (w : String) where
  -- An activation that asks for the check, whose skill does not establish it.
  abbrev pub Unproven : List (String × SkillCoverage) → List SkillActivation → Type 0
  Unproven skills [] = ⊥
  Unproven skills (a ∷ activations) =
      ((contains a.required_checks w ≡ true)
        × (establishes to_lower equal_fold (lookup (name_key to_lower equal_fold a.name) skills) w
            ≡ false))
      ⊎ Unproven skills activations

module _ (to_lower : String → String) (equal_fold : String → String → Bool) (w : String)
    (named : w ≢ "") where
  keeps :
      (checks : CheckMap) (id : String) (b : Check)
      → b.id ≡ id
      → Doubts w checks
      → Doubts w (merge_into to_lower equal_fold checks id b)
  unfolding lookup
  keeps checks id b e (c, l, r, n) = elim (Bool-cases (str_eq id w)) [
    | inr q ↦ (c, ground (arith, l), r, n)
    | inl q ↦
        let same = (eq_iff id w).0 q in
        let m = merge_gate_check-IsMerged c b (λ z. named (sym n ∙ z)) in
        (
          merge_gate_check (some c) b,
          rw (same, (eq_iff w w).1 refl, l) refl,
          (let (x, y) = m.worst in omega arith),
          merge_gate_check-id c b w n (e ∙ same),
        )
  ]

  starts :
      (checks : CheckMap) (b : Check)
      → IsKeyed checks
      → b.id ≡ w
      → b.status ≡ unknown
      → Doubts w (merge_into to_lower equal_fold checks w b)
  unfolding lookup merge_gate_check
  starts checks b k e s = elim (Option-cases (lookup w checks)) [
    | inl n ↦ (b, rw ((eq_iff w w).1 refl, n) refl, rw s (omega arith), e)
    | inr (c, l) ↦
        let m = merge_gate_check-IsMerged c b (λ z. named (sym (k w c l) ∙ z)) in
        (
          merge_gate_check (some c) b,
          rw ((eq_iff w w).1 refl, l) refl,
          (let (x, y) = m.worst in omega (arith, ap rank s)),
          merge_gate_check-id c b w (k w c l) e,
        )
  ]

  candidate_unknown :
      (required : List String) (item : Option SkillCoverage) (a : SkillActivation) (id : String)
      → establishes to_lower equal_fold item id ≡ false
      → (candidate_of to_lower equal_fold required item a id).status ≡ unknown
  unfolding candidate_of
  candidate_unknown required item a id h = ground arith

  merge_checks-keeps :
      (required : List String) (item : Option SkillCoverage) (a : SkillActivation)
      (ids : List String) (checks : CheckMap)
      → Doubts w checks
      → Doubts w (merge_checks to_lower equal_fold required item a ids checks)
  unfolding merge_checks
  merge_checks-keeps required item a [] checks d = d
  merge_checks-keeps required item a (id ∷ ids) checks d =
      merge_checks-keeps required item a ids _ (
        keeps checks id (candidate_of to_lower equal_fold required item a id)
          (candidate_id to_lower equal_fold required item a id) d)

  merge_checks-starts :
      (required : List String) (item : Option SkillCoverage) (a : SkillActivation)
      (ids : List String) (checks : CheckMap)
      → IsKeyed checks
      → contains ids w ≡ true
      → establishes to_lower equal_fold item w ≡ false
      → Doubts w (merge_checks to_lower equal_fold required item a ids checks)
  unfolding merge_checks contains
  merge_checks-starts required item a [] checks k h f = absurd (cc)
  merge_checks-starts required item a (id ∷ ids) checks k h f = elim (Bool-cases (str_eq id w)) [
    | inr q ↦
        merge_checks-starts required item a ids _
          (merge_into-IsKeyed to_lower equal_fold checks id
            (candidate_of to_lower equal_fold required item a id)
            (candidate_id to_lower equal_fold required item a id) k)
          (ground arith) f
    | inl q ↦ merge_checks-keeps required item a ids _ (
        subst
          (λ z. Doubts w (
            merge_into to_lower equal_fold checks z
              (candidate_of to_lower equal_fold required item a z)))
          (sym ((eq_iff id w).0 q))
          (starts checks (candidate_of to_lower equal_fold required item a w) k
            (candidate_id to_lower equal_fold required item a w)
            (candidate_unknown required item a w f)))
  ]

  merge_activations-keeps :
      (required : List String) (skills : List (String × SkillCoverage))
      (activations : List SkillActivation) (checks : CheckMap)
      → Doubts w checks
      → Doubts w (merge_activations to_lower equal_fold required skills activations checks)
  unfolding merge_activations
  merge_activations-keeps required skills [] checks d = d
  merge_activations-keeps required skills (a ∷ activations) checks d =
      merge_activations-keeps required skills activations _ (
        merge_checks-keeps required (lookup (name_key to_lower equal_fold a.name) skills) a
          a.required_checks checks d)

  pub merge_activations-starts :
      (required : List String) (skills : List (String × SkillCoverage))
      (activations : List SkillActivation) (checks : CheckMap)
      → IsKeyed checks
      → Unproven to_lower equal_fold w skills activations
      → Doubts w (merge_activations to_lower equal_fold required skills activations checks)
  unfolding merge_activations
  merge_activations-starts required skills [] checks k u = absurd u
  merge_activations-starts required skills (a ∷ activations) checks k (inl (c, f)) =
      merge_activations-keeps required skills activations _ (
        merge_checks-starts required (lookup (name_key to_lower equal_fold a.name) skills) a
          a.required_checks checks k c f)
  merge_activations-starts required skills (a ∷ activations) checks k (inr u) =
      merge_activations-starts required skills activations _
        (merge_checks-IsKeyed to_lower equal_fold required
          (lookup (name_key to_lower equal_fold a.name) skills) a a.required_checks checks k)
        u
