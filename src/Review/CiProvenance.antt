-- ===== src/Review/CiProvenance.antt =====
-- agent/review/ci_provenance.go and the digest pattern of intake.go: where CI evidence comes from.
use Prim.Native.Char.{Char, code}
use review.Base.{
  ℕ, zero, suc, String, Bool, true, false, not, ◌||◌, ◌&&◌, if◌then◌else◌, ◌==◌, leb, str_eq,
  Option, none, some, Error, new, wrap, ◌>>◌, fail_if,
}
use review.Base.Text.{is_blank}
use review.Base.Time.{Time, is_zero}
use review.Review.Change.{SnapshotIdentity, validate_snapshot}
use review.Review.Execution.{ExecutionContext, validate_execution}

abbrev is_hex : Char → Bool
is_hex c = (leb 48 (code c) && leb (code c) 57) || (leb 97 (code c) && leb (code c) 102)

-- [0-9a-f]{n}
hex_digits : ℕ → String → Bool
hex_digits zero String.[] = true
hex_digits zero (String.◌∷◌ c s) = false
hex_digits (suc n) String.[] = false
hex_digits (suc n) (String.◌∷◌ c s) = is_hex c && hex_digits n s

after_prefix : String → String → Option String
after_prefix String.[] s = some s
after_prefix (String.◌∷◌ c p) String.[] = none
after_prefix (String.◌∷◌ c p) (String.◌∷◌ d s) = if code c == code d then after_prefix p s else none

-- `canonicalDigestPattern`, ^sha256:[0-9a-f]{64}$
unfoldable pub is_canonical_digest : String → Bool
unfolding hex_digits after_prefix
is_canonical_digest s = elim (after_prefix "sha256:" s) [
  | none ↦ false
  | some digits ↦ hex_digits 64 digits
]

pub record CiArtifactProvenance : Type 0 where
  pub pipeline_id : String
  pub job_id : String
  pub source_revision : String
  pub comparison_tree : String
  pub provider_artifact_id : String
  pub provider_archive_digest : String
  pub artifact_digest : String
  pub producer_id : String
  pub verified_at : Time
  pub provider_verified : Bool

abbrev pub wrap_error : String → Option Error → Option Error
wrap_error text none = none
wrap_error text (some e) = some (wrap text e)

-- `CIArtifactProvenance.Validate`
unfoldable pub validate_provenance :
    CiArtifactProvenance → SnapshotIdentity → ExecutionContext → Option Error
validate_provenance p snapshot execution = do
  wrap_error "CI artifact snapshot: %w" (validate_snapshot snapshot)
  wrap_error "CI artifact execution: %w" (validate_execution execution)
  fail_if (not (is_canonical_digest snapshot.file_manifest_digest))
      (new "CI artifact snapshot requires a canonical manifest digest")
  fail_if (not p.provider_verified) (new "CI artifact provenance is not provider verified")
  fail_if
      (is_blank p.pipeline_id
        || is_blank p.job_id
        || is_blank p.producer_id
        || is_zero p.verified_at)
      (new "CI artifact provenance requires pipeline, job, producer and verification time")
  fail_if (not (is_canonical_digest p.artifact_digest))
      (new "CI artifact requires a canonical digest")
  fail_if
      (not (str_eq p.provider_archive_digest "")
        && not (is_canonical_digest p.provider_archive_digest))
      (new "CI artifact requires a canonical provider archive digest")
  fail_if (not (str_eq p.source_revision snapshot.head_revision))
      (new "CI artifact revision does not match snapshot head")
  fail_if (not (str_eq p.comparison_tree execution.comparison_tree))
      (new "CI artifact comparison tree does not match execution")
  fail_if
      (not (str_eq execution.pipeline_id "") && not (str_eq p.pipeline_id execution.pipeline_id))
      (new "CI artifact pipeline does not match execution")
  fail_if (not (str_eq execution.job_id "") && not (str_eq p.job_id execution.job_id))
      (new "CI artifact job does not match execution")
