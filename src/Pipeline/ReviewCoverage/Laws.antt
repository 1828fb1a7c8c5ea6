-- ===== src/Pipeline/ReviewCoverage/Laws.antt =====
-- About `mergeGateCheck` and `mergeReviewCoverage` of agent/pipeline/ci_gate.go.
use review.Base.{
  String, not, ◌||◌, ◌&&◌, List, [], ◌∷◌, ◌++◌, str_eq, some, ◌≡◌, ◌≢◌, ◌≤◌, refl, ◌∙◌, ◌⊎◌, inl,
  inr, arith, eq_iff, Bool-cases,
}
use review.Base.Text.{is_blank}
use review.Base.Names.{contains}
use review.Base.Names.Membership.{contains-sorted_copy, contains-append}
use review.Review.Check.{Check}
use review.Pipeline.ReviewCoverage.{present_keys, unique_sorted_strings, rank, merge_gate_check}

contains-present_keys :
    (xs : List String) (w : String)
    → contains (present_keys xs) w ≡ (contains xs w && not (is_blank w))
unfolding contains present_keys
contains-present_keys [] w = refl
contains-present_keys (x ∷ xs) w = elim (Bool-cases (str_eq x w)) [
  | inl e ↦ rw (← (eq_iff x w).0 e) (ground (arith, contains-present_keys xs x, eq_iff x x))
  | inr e ↦ ground (arith, contains-present_keys xs w)
]

contains-unique_sorted :
    (xs : List String) (w : String)
    → contains (unique_sorted_strings xs) w ≡ (contains xs w && not (is_blank w))
unfolding unique_sorted_strings
contains-unique_sorted xs w = contains-sorted_copy (present_keys xs) w ∙ contains-present_keys xs w

-- What two checks of one ID become.
pub record IsMerged (a b m : Check) : Type 0 where
  pub status : (m.status ≡ a.status) ⊎ (m.status ≡ b.status)
  pub worst : (rank a.status ≤ rank m.status) × (rank b.status ≤ rank m.status)
  pub required : m.required ≡ (a.required || b.required)
  pub evidence :
      (w : String)
      → contains m.evidence_refs w
        ≡ ((contains a.evidence_refs w || contains b.evidence_refs w) && not (is_blank w))

-- A check that is merged into one with an ID takes the status of the higher rank of the two, is
-- required if one of them is, and has exactly the evidence of both that is not blank.
pub merge_gate_check-IsMerged :
    (a b : Check) → a.id ≢ "" → IsMerged a b (merge_gate_check (some a) b)
unfolding merge_gate_check
merge_gate_check-IsMerged a b n = record {
  status = ground (arith, eq_iff a.id "");
  worst = ground (arith, eq_iff a.id "");
  required = ground (arith, eq_iff a.id "");
  evidence = λ w. ground (
    arith,
    eq_iff a.id "",
    contains-unique_sorted (b.evidence_refs ++ a.evidence_refs) w,
    contains-unique_sorted (a.evidence_refs ++ b.evidence_refs) w,
    contains-append b.evidence_refs a.evidence_refs w,
    contains-append a.evidence_refs b.evidence_refs w,
  );
}
