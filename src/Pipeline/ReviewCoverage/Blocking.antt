-- ===== src/Pipeline/ReviewCoverage/Blocking.antt =====
-- About the methods of a review that establish no coverage, in `mergeReviewCoverage` of
-- agent/pipeline/ci_gate.go.
use review.Base.{
  String, Bool, true, false, ◌&&◌, List, [], ◌∷◌, ◌++◌, str_eq, some, ◌≡◌, ◌≢◌, ◌≤◌, refl, sym, ap,
  ◌∙◌, inl, inr, arith, eq_iff, Bool-cases, All, Some,
}
use review.Base.Names.{contains, sorted_copy}
use review.Base.Names.Membership.{contains-sorted_copy, contains-append, not_contains_of_empty}
use review.Review.Check.{
  Check, CheckStatus, pending, running, satisfied, violated, unknown, not_applicable,
  CoverageProjection,
}
use review.Policy.Schema.{lookup, EffectivePolicy}
use review.Pipeline.CiGate.{CheckMap, keys, is_open, ids_of}
use review.Pipeline.CiGate.Laws.{contains-keys, contains-ids_of}
use review.Pipeline.ReviewCoverage.{
  Source, rank, covered_skills, check_map, merged_checks, open_required, missing_required,
  is_missing, merge_review_coverage,
}
use review.Pipeline.ReviewCoverage.Keys.{
  IsKeyed, empty-IsKeyed, checks_at-Some, checks_at-All, merge_activations-IsKeyed,
  check_map-IsKeyed,
}
use review.Pipeline.ReviewCoverage.Doubts.{Doubts, Unproven, merge_activations-starts}

contains-open_required :
    (required : List String) (checks : CheckMap) (ids : List String) (w : String)
    (to_lower : String → String) (equal_fold : String → String → Bool)
    → contains (open_required to_lower equal_fold required checks ids) w
      ≡ (contains ids w && contains required w && is_open (lookup w checks))
unfolding open_required contains
contains-open_required required checks [] w tl ef = refl
contains-open_required required checks (id ∷ ids) w tl ef = elim (Bool-cases (str_eq id w)) [
  | inl e ↦
      rw (← (eq_iff id w).0 e)
        (ground (arith, contains-open_required required checks ids id tl ef, eq_iff id id))
  | inr e ↦ ground (arith, contains-open_required required checks ids w tl ef)
]

contains-missing_required :
    (checks : CheckMap) (ids : List String) (w : String) (to_lower : String → String)
    (equal_fold : String → String → Bool)
    → contains (missing_required to_lower equal_fold checks ids) w
      ≡ (contains ids w && is_missing to_lower equal_fold (lookup w checks))
unfolding missing_required contains
contains-missing_required checks [] w tl ef = refl
contains-missing_required checks (id ∷ ids) w tl ef = elim (Bool-cases (str_eq id w)) [
  | inl e ↦
      rw (← (eq_iff id w).0 e)
        (ground (arith, contains-missing_required checks ids id tl ef, eq_iff id id))
  | inr e ↦ ground (arith, contains-missing_required checks ids w tl ef)
]

module _ (to_lower : String → String) (equal_fold : String → String → Bool)
    (effective : EffectivePolicy) (coverage : CoverageProjection) (source : Source)
    (w : String) where
  abbrev required_of : List String
  required_of = effective.quality_gate.required_coverage

  abbrev merged : CheckMap
  merged = merged_checks to_lower equal_fold required_of coverage source

  complete_closed :
      (merge_review_coverage to_lower equal_fold effective coverage source).complete ≡ true
      → contains required_of w ≡ true
      → {c : Check} → lookup w merged ≡ some c
      → is_open (some c) ≡ false
  unfolding merge_review_coverage
  complete_closed h r {c} l =
      let ids = sorted_copy (keys (ids_of merged)) in
      let a = open_required to_lower equal_fold required_of merged ids in
      let b = missing_required to_lower equal_fold merged (keys required_of) in
      let none_open = not_contains_of_empty (sorted_copy (a ++ b)) w h in
      let known = contains-ids_of merged w l in
      ground (
        arith,
        none_open,
        contains-sorted_copy (a ++ b) w,
        contains-append a b w,
        contains-open_required required_of merged ids w to_lower equal_fold,
        contains-sorted_copy (keys (ids_of merged)) w,
        contains-keys (ids_of merged) w,
        l,
      )

  worst_closed :
      (s : CheckStatus)
      → 4 ≤ rank s
      → (c : Check) → c.status ≡ s
      → is_open (some c) ≡ false
      → s ≡ violated
  worst_closed pending r c e o = absurd (omega arith)
  worst_closed running r c e o = absurd (omega arith)
  worst_closed satisfied r c e o = absurd (omega arith)
  worst_closed violated r c e o = refl
  worst_closed unknown r c e o = absurd (ground arith)
  worst_closed not_applicable r c e o = absurd (omega arith)
  worst_closed (CheckStatus.other x) r c e o = absurd (omega arith)

  known :
      {c : Check}
      → lookup w merged ≡ some c
      → contains (sorted_copy (keys (ids_of merged))) w ≡ true
  known {c} l =
      let there = contains-ids_of merged w l in
      ground
        (arith, contains-sorted_copy (keys (ids_of merged)) w, contains-keys (ids_of merged) w, l)

  same_status :
      {c d : Check} {id : String}
      → c.status ≡ violated
      → lookup w merged ≡ some c
      → lookup id merged ≡ some d
      → id ≡ w
      → d.status ≡ violated
  same_status bad l found q = let e = ap (λ z. lookup z merged) q in cc

  merged-IsKeyed : IsKeyed merged
  unfolding merged_checks
  merged-IsKeyed =
      merge_activations-IsKeyed to_lower equal_fold required_of
        (covered_skills to_lower equal_fold [] source.skill_coverage) source.skill_activations
        (check_map to_lower equal_fold [] coverage.checks)
        (check_map-IsKeyed to_lower equal_fold [] coverage.checks empty-IsKeyed)

  doubtful :
      w ≢ ""
      → Unproven to_lower equal_fold w
          (covered_skills to_lower equal_fold [] source.skill_coverage)
          source.skill_activations
      → Doubts w merged
  unfolding merged_checks
  doubtful named u =
      merge_activations-starts to_lower equal_fold w named required_of
        (covered_skills to_lower equal_fold [] source.skill_coverage) source.skill_activations
        (check_map to_lower equal_fold [] coverage.checks)
        (check_map-IsKeyed to_lower equal_fold [] coverage.checks empty-IsKeyed) u

  -- If an active skill asks for a required check and does not establish it, a merged coverage that is
  -- complete reports a check of that name, and each such check as violated: no satisfied check of CI or
  -- of another skill stands in for it.
  pub Unproven-blocks :
      w ≢ ""
      → contains effective.quality_gate.required_coverage w ≡ true
      → Unproven to_lower equal_fold w
          (covered_skills to_lower equal_fold [] source.skill_coverage)
          source.skill_activations
      → (merge_review_coverage to_lower equal_fold effective coverage source).complete ≡ true
      → let checks = (merge_review_coverage to_lower equal_fold effective coverage source).checks in
        Some (λ (c : Check). (c.id ≡ w) × (c.status ≡ violated)) checks
        × All (λ (c : Check). c.id ≡ w → c.status ≡ violated) checks
  unfolding merge_review_coverage
  Unproven-blocks named r u h =
      let (c, l, rk, n) = doubtful named u in
      let bad = worst_closed c.status rk c refl (complete_closed h r l) in
      let ids = sorted_copy (keys (ids_of merged)) in
      (
        checks_at-Some merged ids w (λ (z : Check). (z.id ≡ w) × (z.status ≡ violated)) l (known l)
            (n, bad),
        checks_at-All merged ids (λ (z : Check). z.id ≡ w → z.status ≡ violated)
            (λ id d found e. same_status bad l found (sym (merged-IsKeyed id d found) ∙ e)),
      )
