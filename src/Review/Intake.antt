-- ===== src/Review/Intake.antt =====
-- agent/review/intake.go: the attestation of a snapshot, the readiness of a change and the evidence
-- that its tests ran. `sha256` stands for the hexadecimal SHA-256 of the bytes of a text.
pub mod Laws
mod Tests
use Prim.Native.Char.{nul}
use Prim.Native.String
use review.Base.{
  String, Bool, true, false, not, ◌||◌, ◌&&◌, if◌then◌else◌, List, [], ◌∷◌, is_empty, str_eq,
  Option, none, some, Error, new, errorf, wrap, ◌>>◌, fail_if, is_nil, Result, ok, ◌then_ok◌,
}
use review.Base.Text.{is_blank}
use review.Base.Time.{Time, is_zero}
use review.Review.Change.{ChangeKey, SnapshotIdentity, validate_change_key, validate_snapshot}
use review.Review.CiProvenance.{is_canonical_digest, wrap_error}

pub record SnapshotAttestation : Type 0 where
  pub snapshot : SnapshotIdentity
  pub producer_id : String
  pub comparison_tree : String
  pub verified_at : Time
  pub verified : Bool

-- `SnapshotAttestation.ValidateSnapshot`
unfoldable pub validate_attested_snapshot : SnapshotAttestation → Option Error
validate_attested_snapshot a = do
  fail_if (not a.verified) (new "snapshot attestation is not verified")
  validate_snapshot a.snapshot
  fail_if (not (is_canonical_digest a.snapshot.file_manifest_digest))
      (new "verified snapshot requires a canonical file manifest digest")
  fail_if
      (not (str_eq a.snapshot.local_snapshot_digest "")
        && not (is_canonical_digest a.snapshot.local_snapshot_digest))
      (new "verified local snapshot requires a canonical local digest")
  fail_if
      (not (str_eq a.snapshot.source_to_merge_mapping_digest "")
        && not (is_canonical_digest a.snapshot.source_to_merge_mapping_digest))
      (new "verified synthetic merge snapshot requires a canonical source-to-merge mapping digest")
  fail_if (is_blank a.producer_id || is_blank a.comparison_tree || is_zero a.verified_at)
      (new "verified snapshot requires producer, comparison tree and verification time")
  fail_if
      (not (str_eq a.snapshot.synthetic_merge_revision "")
        && not (str_eq a.comparison_tree a.snapshot.synthetic_merge_revision))
      (new "verified comparison tree does not match synthetic merge revision")

-- `SnapshotAttestation.Validate`
unfoldable pub validate_attestation : SnapshotAttestation → ChangeKey → Option Error
validate_attestation a change = do
  validate_attested_snapshot a
  validate_change_key change
  fail_if (not (str_eq change.repository_id a.snapshot.repository_id))
      (new "snapshot attestation repository does not match change")

-- `strings.Join(values, "\x00")`
unfoldable pub join_nul : List String → String
join_nul [] = ""
join_nul (value ∷ []) = value
join_nul (value ∷ next ∷ values) = String.◌++◌ value (String.◌∷◌ nul (join_nul (next ∷ values)))

abbrev pub attested_parts : SnapshotAttestation → List String
attested_parts a =
    a.snapshot.repository_id ∷ a.snapshot.base_revision ∷ a.snapshot.head_revision
    ∷ a.snapshot.synthetic_merge_revision ∷ a.snapshot.source_to_merge_mapping_digest
    ∷ a.snapshot.local_snapshot_digest ∷ a.snapshot.file_manifest_digest ∷ a.producer_id
    ∷ a.comparison_tree ∷ []

-- `SnapshotAttestation.Digest`
unfoldable pub attestation_digest : (String → String) → SnapshotAttestation → Result String
attestation_digest sha256 a =
    validate_snapshot a.snapshot
    then_ok ok (String.◌++◌ "sha256:" (sha256 (join_nul (attested_parts a))))

-- `ReadinessStatus`; `other` holds a spelling that is none of the constants.
pub data ReadinessStatus : Type 0 where
  present missing not_applicable contradictory : ReadinessStatus
  other : String → ReadinessStatus

pub record ReadinessField : Type 0 where
  pub status : ReadinessStatus
  pub provenance : List String
  pub reason : String

abbrev is_supported : ReadinessStatus → Bool
is_supported (other s) = false
is_supported _ = true

abbrev status_text : ReadinessStatus → String
status_text present = "present"
status_text missing = "missing"
status_text not_applicable = "not_applicable"
status_text contradictory = "contradictory"
status_text (other s) = s

abbrev needs_provenance : ReadinessStatus → Bool
needs_provenance present = true
needs_provenance contradictory = true
needs_provenance _ = false

-- `ReadinessField.Validate`
unfoldable pub validate_readiness_field : ReadinessField → Option Error
validate_readiness_field f = do
  fail_if (not (is_supported f.status))
      (errorf "unsupported readiness status %q" (status_text f.status ∷ []))
  fail_if (is_blank f.reason) (new "readiness reason is required")
  fail_if (needs_provenance f.status && is_empty f.provenance)
      (new "present or contradictory readiness requires provenance")

pub record ReadinessProjection : Type 0 where
  pub intent_summary : ReadinessField
  pub acceptance_criteria : ReadinessField
  pub test_evidence : ReadinessField

-- `ReadinessProjection.Validate`; the loop over the three fields is written out.
unfoldable pub validate_readiness : ReadinessProjection → Option Error
validate_readiness r = do
  wrap_error "intent_summary: %w" (validate_readiness_field r.intent_summary)
  wrap_error "acceptance_criteria: %w" (validate_readiness_field r.acceptance_criteria)
  wrap_error "test_evidence: %w" (validate_readiness_field r.test_evidence)

-- `EvidenceVerification`; `other` holds a spelling that is none of the constants.
pub data EvidenceVerification : Type 0 where
  verified unverified unknown : EvidenceVerification
  other : String → EvidenceVerification

pub record TestExecutionEvidence : Type 0 where
  pub revision : String
  pub check_name : String
  pub result : String
  pub source_ref : String
  pub executed_at : Time
  pub producer_id : String
  pub verification : EvidenceVerification

abbrev is_verified : EvidenceVerification → Bool
is_verified verified = true
is_verified _ = false

abbrev verification_error : EvidenceVerification → Option Error
verification_error (other s) = some (errorf "unsupported evidence verification %q" (s ∷ []))
verification_error _ = none

-- `TestExecutionEvidence.Validate`
unfoldable pub validate_test_evidence : TestExecutionEvidence → Option Error
validate_test_evidence e = do
  fail_if
      (is_blank e.revision
        || is_blank e.check_name
        || is_blank e.result
        || is_blank e.source_ref
        || is_blank e.producer_id
        || is_zero e.executed_at)
      (new "test evidence requires revision, check, result, source, execution time and producer")
  verification_error e.verification

-- The test of one round of the loop.
unfoldable pub proves_tests : SnapshotIdentity → TestExecutionEvidence → Bool
proves_tests snapshot item =
    is_nil (validate_test_evidence item)
    && is_verified item.verification
    && str_eq item.revision snapshot.head_revision

-- The loop of `TestEvidenceReadiness` with the return below it.
unfoldable pub find_test_evidence : SnapshotIdentity → List TestExecutionEvidence → ReadinessField
find_test_evidence snapshot [] = record {
  status = missing;
  provenance = [];
  reason = "test evidence is unverified, invalid, or bound to another revision";
}
find_test_evidence snapshot (item ∷ evidence) =
    if proves_tests snapshot item
    then record {
      status = present;
      provenance = item.source_ref ∷ [];
      reason = "verified test execution is bound to the current revision";
    }
    else find_test_evidence snapshot evidence

-- `TestEvidenceReadiness`
unfoldable pub test_evidence_readiness :
    SnapshotIdentity → List TestExecutionEvidence → ReadinessField
test_evidence_readiness snapshot [] = record {
  status = missing;
  provenance = [];
  reason = "no test execution evidence supplied";
}
test_evidence_readiness snapshot (item ∷ evidence) = find_test_evidence snapshot (item ∷ evidence)
