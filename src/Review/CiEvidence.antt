-- ===== src/Review/CiEvidence.antt =====
-- agent/review/ci_quality.go: quality evidence that CI produced.
-- An import reads JSON: `decode` stands for the decoder of encoding/json with the walk for duplicate
-- keys and the test for trailing data, and `digest_of` for "sha256:" and the SHA-256 of the bytes.
-- The index of a signal is left out of errors.
pub mod Laws
use Prim.Native.Char.{Char, code}
use Prim.Native.String
use review.Base.{
  ℕ, zero, suc, String, Bool, true, false, not, ◌||◌, ◌&&◌, List, [], ◌∷◌, if◌then◌else◌, ◌==◌, leb,
  ltb, str_eq, length, any, Option, none, some, Error, new, errorf, wrap, ◌>>◌, fail_if, Result, ok,
  err, bind, ◌then_ok◌,
}
use review.Base.Int.{ℤ, pos, eqb_ℤ}
use review.Base.Text.{is_blank, trim_space}
use review.Base.Time.{Time, is_zero}
use review.Base.Names.{contains}
use review.Review.CiProvenance.{
  is_canonical_digest, wrap_error, CiArtifactProvenance, validate_provenance,
}
use review.Review.Change.{SnapshotIdentity}
use review.Review.Execution.{ExecutionContext}
use review.Review.Check.{
  Check, CheckStatus, satisfied, violated, unknown, not_applicable, validate_check,
}

pub record CiQualitySignal : Type 0 where
  pub key : String
  pub rule_id : String
  pub severity : String
  pub strength : String
  pub message : String
  pub in_changed_scope : Bool

pub record CiQualityArtifact : Type 0 where
  pub schema_version : ℤ
  pub kind : String
  pub check_id : String
  pub method_id : String
  pub scope : String
  pub status : String
  pub summary : String
  pub signals : List CiQualitySignal

pub record ImportedCiQualityEvidence : Type 0 where
  pub kind : String
  pub check : Check
  pub signals : List CiQualitySignal
  pub provenance : CiArtifactProvenance
  pub verified : Bool

-- `validateCIQualitySignal`
unfoldable pub validate_signal : CiQualitySignal → Option Error
validate_signal signal = do
  fail_if (is_blank signal.key || is_blank signal.rule_id || is_blank signal.message)
      (new "CI quality signal %d requires key, rule and message")
  fail_if
      (not (any (str_eq signal.severity) ("info" ∷ "low" ∷ "medium" ∷ "high" ∷ "critical" ∷ [])))
      (errorf "CI quality signal %d has unsupported severity %q" (signal.severity ∷ []))
  fail_if (not (any (str_eq signal.strength) ("confirmed" ∷ "human_check" ∷ "note" ∷ [])))
      (errorf "CI quality signal %d has unsupported strength %q" (signal.strength ∷ []))

unfoldable pub validate_signals : List CiQualitySignal → Option Error
validate_signals [] = none
validate_signals (signal ∷ signals) = do validate_signal signal; validate_signals signals

-- `ImportedCIQualityEvidence.Validate`
unfoldable pub validate_evidence : ImportedCiQualityEvidence → Option Error
validate_evidence e = do
  fail_if
      (not e.verified
        || not e.provenance.provider_verified
        || not (is_canonical_digest e.provenance.artifact_digest))
      (new "CI quality evidence was not produced by verified import")
  validate_check e.check
  validate_signals e.signals

-- The loop over the signals; `seen` holds the keys of the map.
check_signals : List String → List CiQualitySignal → Option Error
check_signals seen [] = none
check_signals seen (signal ∷ signals) =
    let rest = check_signals (signal.key ∷ seen) signals in
    (do
      fail_if (contains seen signal.key)
          (errorf "duplicate CI quality signal key %q" (signal.key ∷ []))
      validate_signal signal
      rest)

-- The `switch` on the status.
check_status : CiQualityArtifact → Option Error
check_status artifact =
    if any (str_eq artifact.status) ("passed" ∷ "failed" ∷ [])
    then none
    else if any (str_eq artifact.status) ("error" ∷ "skipped" ∷ [])
    then fail_if (is_blank artifact.summary)
        (new "error or skipped CI quality artifact requires a summary")
    else some (errorf "unsupported CI quality artifact status %q" (artifact.status ∷ []))

-- `validateCIQualityArtifact`
unfoldable pub validate_artifact : CiQualityArtifact → Option Error
unfolding check_signals check_status
validate_artifact artifact = do
  fail_if (not (eqb_ℤ artifact.schema_version (pos 1)))
      (new "unsupported CI quality artifact schema version %d")
  fail_if (not (any (str_eq artifact.kind) ("test" ∷ "lint" ∷ "security" ∷ "coverage" ∷ [])))
      (errorf "unsupported CI quality artifact kind %q" (artifact.kind ∷ []))
  check_status artifact
  fail_if (is_blank artifact.check_id || is_blank artifact.method_id || is_blank artifact.scope)
      (new "CI quality artifact requires check, method and scope")
  fail_if (ltb 4096 (length artifact.signals)) (new "CI quality artifact exceeds 4096 signals")
  check_signals [] artifact.signals

-- The second `switch` on the status, which leaves the empty status where no case applies.
unfoldable pub to_check_status : String → CheckStatus
to_check_status status =
    if str_eq status "passed"
    then satisfied
    else if str_eq status "failed"
    then violated
    else if str_eq status "error"
    then unknown
    else if str_eq status "skipped"
    then not_applicable
    else CheckStatus.other ""

abbrev pub evidence_ref : CiArtifactProvenance → String
evidence_ref p = String.◌++◌ "ci:" (
    String.◌++◌ p.pipeline_id
      (String.◌++◌ "/" (String.◌++◌ p.job_id (String.◌++◌ ":" p.artifact_digest))))

unfoldable pub imported_check : CiQualityArtifact → CiArtifactProvenance → Check
imported_check artifact provenance = record {
  id = artifact.check_id;
  method_id = artifact.method_id;
  scope = artifact.scope;
  required = false;
  applicability_reason =
      String.◌++◌ "verified " (String.◌++◌ artifact.kind " artifact imported from CI");
  status = to_check_status artifact.status;
  evidence_refs = evidence_ref provenance ∷ [];
  status_reason = trim_space artifact.summary;
}

unfoldable pub finish_import :
    CiQualityArtifact → CiArtifactProvenance → Result ImportedCiQualityEvidence
finish_import artifact provenance =
    (validate_artifact artifact
      >> wrap_error "CI quality check: %w" (validate_check (imported_check artifact provenance)))
    then_ok ok (record {
      kind = artifact.kind;
      check = imported_check artifact provenance;
      signals = artifact.signals;
      provenance = provenance;
      verified = true;
    })

unfoldable pub admit_import :
    (String → String)
    → String
    → CiArtifactProvenance
    → SnapshotIdentity
    → ExecutionContext
    → Option Error
admit_import digest_of payload provenance snapshot execution = do
  fail_if (String.len payload == 0) (new "CI quality artifact is empty")
  fail_if (ltb 4194304 (String.len payload)) (new "CI quality artifact exceeds %d bytes")
  validate_provenance provenance snapshot execution
  fail_if (not (str_eq provenance.artifact_digest (digest_of payload)))
      (new "CI quality artifact digest does not match provenance")

-- `ImportCIQualityEvidence`
unfoldable pub import_ci_quality_evidence :
    (String → String)
    → (String → Result CiQualityArtifact)
    → String
    → CiArtifactProvenance
    → SnapshotIdentity
    → ExecutionContext
    → Result ImportedCiQualityEvidence
import_ci_quality_evidence digest_of decode payload provenance snapshot execution =
    admit_import digest_of payload provenance snapshot execution
    then_ok bind (decode payload) λ artifact. finish_import artifact provenance
