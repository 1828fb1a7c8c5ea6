-- ===== src/Policy/Coverage/Laws.antt =====
-- Which obligations the gate takes for open or violated.
use review.Base.{String, Bool, ◌||◌, ◌&&◌, ◌≡◌, refl, List, [], ◌∷◌, str_eq, eq_iff, arith, any}
use review.Base.Names.{contains}
use review.Base.Names.Membership.{contains-append}
use review.Review.Check.{Check, CoverageProjection}
use review.Policy.Coverage.{
  is_open, status_of, open_required, missing_required_coverage, is_violated, violated_checks,
}

contains-open_required :
    (required : List String) (checks : List Check) (w : String)
    → contains (open_required required checks) w
      ≡ (contains required w && is_open (status_of checks w))
unfolding open_required contains
contains-open_required [] checks w = refl
contains-open_required (id ∷ required) checks w =
    ground (arith, contains-open_required required checks w, eq_iff id w)

-- An obligation is missing if the coverage says that it is unknown, or if it is required and its
-- last check is absent, pending, running or unknown.
pub contains-missing_required_coverage :
    (required : List String) (coverage : CoverageProjection) (w : String)
    → contains (missing_required_coverage required coverage) w ≡ (
        contains coverage.unknown_check_ids w
        || contains required w && is_open (status_of coverage.checks w))
unfolding missing_required_coverage
contains-missing_required_coverage required coverage w = ground (
  arith,
  contains-append coverage.unknown_check_ids (open_required required coverage.checks) w,
  contains-open_required required coverage.checks w,
)

abbrev pub violates : String → Check → Bool
violates w check = str_eq check.id w && is_violated check.status

pub contains-violated_checks :
    (required : List String) (checks : List Check) (w : String)
    → contains (violated_checks required checks) w
      ≡ (contains required w && any (violates w) checks)
unfolding violated_checks contains
contains-violated_checks required [] w = ground arith
contains-violated_checks required (check ∷ checks) w =
    ground (arith, contains-violated_checks required checks w, eq_iff check.id w)
