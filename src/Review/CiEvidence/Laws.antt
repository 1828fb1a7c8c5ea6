-- ===== src/Review/CiEvidence/Laws.antt =====
-- About `ImportCIQualityEvidence` of agent/review/ci_quality.go.
use review.Base.{
  String, true, ◌≡◌, refl, List, [], ◌∷◌, eq_iff, arith, none, Option-cases, Result, ok, bind-eq-ok,
  inl, inr,
}
use review.Review.Change.{SnapshotIdentity, validate_snapshot}
use review.Review.Execution.{ExecutionContext, validate_execution}
use review.Review.CiProvenance.{CiArtifactProvenance, is_canonical_digest, validate_provenance}
use review.Review.CiEvidence.{
  CiQualitySignal, CiQualityArtifact, ImportedCiQualityEvidence, validate_signals,
  validate_evidence, check_signals, validate_artifact, imported_check, finish_import, admit_import,
  import_ci_quality_evidence,
}

check_signals_valid :
    (seen : List String) (signals : List CiQualitySignal)
    → check_signals seen signals ≡ none
    → validate_signals signals ≡ none
unfolding check_signals validate_signals
check_signals_valid seen [] h = refl
check_signals_valid seen (s ∷ ss) h = ground (arith, check_signals_valid (s.key ∷ seen) ss)

artifact_signals_valid :
    (artifact : CiQualityArtifact)
    → validate_artifact artifact ≡ none
    → validate_signals artifact.signals ≡ none
unfolding validate_artifact
artifact_signals_valid artifact h = check_signals_valid [] artifact.signals (ground arith)

-- What the evidence is bound to.
pub record IsBoundTo (bytes_digest : String) (snapshot : SnapshotIdentity)
    (execution : ExecutionContext) (e : ImportedCiQualityEvidence) : Type 0 where
  pub valid : validate_evidence e ≡ none
  pub snapshot_valid : validate_snapshot snapshot ≡ none
  pub execution_valid : validate_execution execution ≡ none
  pub digest : e.provenance.artifact_digest ≡ bytes_digest
  pub revision : e.provenance.source_revision ≡ snapshot.head_revision
  pub tree : e.provenance.comparison_tree ≡ execution.comparison_tree

provenance_parts :
    (p : CiArtifactProvenance) (snapshot : SnapshotIdentity) (execution : ExecutionContext)
    → validate_provenance p snapshot execution ≡ none
    → (validate_snapshot snapshot ≡ none)
      × (validate_execution execution ≡ none)
      × (p.provider_verified ≡ true)
      × (is_canonical_digest p.artifact_digest ≡ true)
      × (p.source_revision ≡ snapshot.head_revision)
      × (p.comparison_tree ≡ execution.comparison_tree)
unfolding validate_provenance
provenance_parts p snapshot execution h = ground (
  arith,
  eq_iff p.source_revision snapshot.head_revision,
  eq_iff p.comparison_tree execution.comparison_tree,
)

admit_parts :
    (digest_of : String → String) (payload : String) (p : CiArtifactProvenance)
    (snapshot : SnapshotIdentity) (execution : ExecutionContext)
    → admit_import digest_of payload p snapshot execution ≡ none
    → (validate_provenance p snapshot execution ≡ none) × (p.artifact_digest ≡ digest_of payload)
unfolding admit_import
admit_parts digest_of payload p snapshot execution h =
    ground (arith, eq_iff p.artifact_digest (digest_of payload))

finish_import_valid :
    (artifact : CiQualityArtifact) (p : CiArtifactProvenance) {e : ImportedCiQualityEvidence}
    → p.provider_verified ≡ true
    → is_canonical_digest p.artifact_digest ≡ true
    → finish_import artifact p ≡ ok e
    → (validate_evidence e ≡ none)
      × (e.provenance ≡ p)
      × (e.check ≡ imported_check artifact p)
      × (validate_artifact artifact ≡ none)
unfolding finish_import validate_evidence
finish_import_valid artifact p {e} v d h = ground (arith, artifact_signals_valid artifact)

-- If an import succeeds, its evidence passes its own validation, and it is bound to the digest of the
-- payload, to the head of a valid snapshot and to the comparison tree of a valid execution.
pub import_ci_quality_evidence-IsBoundTo :
    (digest_of : String → String) (decode : String → Result CiQualityArtifact) (payload : String)
    (p : CiArtifactProvenance) (snapshot : SnapshotIdentity) (execution : ExecutionContext)
    (e : ImportedCiQualityEvidence)
    → import_ci_quality_evidence digest_of decode payload p snapshot execution ≡ ok e
    → IsBoundTo (digest_of payload) snapshot execution e
unfolding import_ci_quality_evidence
import_ci_quality_evidence-IsBoundTo digest_of decode payload p snapshot execution e h =
    elim (Option-cases (admit_import digest_of payload p snapshot execution)) [
      | inr (er, a) ↦ absurd (let k = (rw a at h) in cc)
      | inl a ↦
          let (artifact, d, f) = bind-eq-ok (decode payload) (λ x. finish_import x p) (rw a at h) in
          let (v, bound) = admit_parts digest_of payload p snapshot execution a in
          let parts = provenance_parts p snapshot execution v in
          let (valid, same, check, q) = finish_import_valid artifact p parts.2 parts.3 f in
          record {
            valid = valid;
            snapshot_valid = parts.0;
            execution_valid = parts.1;
            digest = rw same bound;
            revision = rw same parts.4;
            tree = rw same parts.5;
          }
    ]
