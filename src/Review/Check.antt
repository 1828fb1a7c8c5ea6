-- ===== src/Review/Check.antt =====
-- agent/review/domain.go: obligations of a review and the coverage that they add up to.
pub mod Laws
use review.Base.{
  String, Bool, true, false, not, ◌||◌, Option, none, some, Error, new, errorf, ◌>>◌, fail_if, List,
  [], ◌∷◌, is_empty,
}
use review.Base.Text.{is_blank}

-- `CheckStatus`; `other` holds a spelling that is none of the constants.
pub data CheckStatus : Type 0 where
  pending running satisfied violated unknown not_applicable : CheckStatus
  other : String → CheckStatus

pub record Check : Type 0 where
  pub id : String
  pub method_id : String
  pub scope : String
  pub required : Bool
  pub applicability_reason : String
  pub status : CheckStatus
  pub evidence_refs : List String
  pub status_reason : String

-- The `switch` on the status.
validate_status : CheckStatus → Check → Option Error
validate_status satisfied c =
    fail_if (is_empty c.evidence_refs) (new "satisfied or violated check requires evidence")
validate_status violated c =
    fail_if (is_empty c.evidence_refs) (new "satisfied or violated check requires evidence")
validate_status not_applicable c =
    fail_if (is_blank c.status_reason) (new "not-applicable or unknown check requires a reason")
validate_status unknown c =
    fail_if (is_blank c.status_reason) (new "not-applicable or unknown check requires a reason")
validate_status pending c = none
validate_status running c = none
validate_status (other s) c = some (errorf "unsupported check status %q" (s ∷ []))

-- `Check.Validate`
unfoldable pub validate_check : Check → Option Error
unfolding validate_status
validate_check c = do
  fail_if (is_blank c.id || is_blank c.method_id || is_blank c.scope)
      (new "check ID, method and scope are required")
  fail_if (is_blank c.applicability_reason) (new "check applicability reason is required")
  validate_status c.status c

pub record CoverageProjection : Type 0 where
  pub checks : List Check
  pub complete : Bool
  pub unknown_check_ids : List String
