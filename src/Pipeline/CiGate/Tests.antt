-- ===== src/Pipeline/CiGate/Tests.antt =====
-- A unit test report, imported and held against a gate that requires it.
use review.Base.{String, true, false, ◌≡◌, refl, [], ◌∷◌, Option, none, some, Result, ok, Error}
use review.Base.Int.{pos}
use review.Base.Text.{is_blank, trim_space}
use review.Base.Names.{contains, sorted_unique, nonempty_keys, sorted_copy, insert_sorted}
use review.Review.Change.{SnapshotIdentity, validate_snapshot, validate_synthetic_merge}
use review.Review.Execution.{
  ExecutionContext, ExecutionMode, PersistenceBoundary, validate_execution,
}
use review.Review.Check.{validate_check, CoverageProjection}
use review.Review.Gate.{GateResult, GateOutcome, pass, validate_assessment, validate_gate_result}
use review.Review.CiProvenance.{is_canonical_digest, CiArtifactProvenance, validate_provenance}
use review.Review.CiEvidence.{
  CiQualityArtifact, ImportedCiQualityEvidence, validate_signal, validate_signals,
  validate_evidence, validate_artifact, to_check_status, imported_check, finish_import,
  admit_import, import_ci_quality_evidence,
}
use review.Review.CiEvidence.Laws.{IsBoundTo, import_ci_quality_evidence-IsBoundTo}
use review.Policy.Schema.{lookup}
use review.Policy.Baseline.{validate_baseline, same_set}
use review.Policy.Coverage.{missing_required_coverage, violated_required_coverage, status_of}
use review.Policy.Findings.{counts, matching_violations, severity_rank, strength_rank}
use review.Policy.Gate.{
  admit_gate, gate_result, decide_outcome, unknown_obligations, violated_rules,
  evaluate_quality_gate,
}
use review.Policy.Gate.Tests.{policy, baseline, quiet}
use review.Pipeline.CiGate.{
  admit_evidence, collect_evidence, keys, open_ids, checks_at, coverage_of, build_ci_gate_inputs,
  downgrade, evaluate_imported_ci_gate,
}
use review.Pipeline.CiGate.Laws.{Backed, ci_gate_pass-Backed}

abbrev digest : String
digest = "sha256:0123456789abcdef0123456789abcdef0123456789abcdef0123456789abcdef"

abbrev snapshot : SnapshotIdentity
snapshot = record {
  repository_id = "r1";
  base_revision = "b0";
  head_revision = "h1";
  synthetic_merge_revision = "";
  source_to_merge_mapping_digest = "";
  local_snapshot_digest = "";
  file_manifest_digest = digest;
}

abbrev execution : ExecutionContext
execution = record {
  mode = ExecutionMode.ephemeral;
  producer_id = "runner";
  pipeline_id = "p1";
  job_id = "j1";
  comparison_tree = "t1";
  persistence = PersistenceBoundary.job_local;
  trusted_boundary_id = "tb";
  deadline_at = 100;
}

abbrev provenance : CiArtifactProvenance
provenance = record {
  pipeline_id = "p1";
  job_id = "j1";
  source_revision = "h1";
  comparison_tree = "t1";
  provider_artifact_id = "";
  provider_archive_digest = "";
  artifact_digest = digest;
  producer_id = "runner";
  verified_at = 90;
  provider_verified = true;
}

abbrev artifact : CiQualityArtifact
artifact = record {
  schema_version = pos 1;
  kind = "test";
  check_id = "unit";
  method_id = "ci";
  scope = "project";
  status = "passed";
  summary = "";
  signals =
      (record {
        key = "k1";
        rule_id = "slow";
        severity = "low";
        strength = "note";
        message = "slow test";
        in_changed_scope = false;
      })
      ∷ [];
}

abbrev digest_of : String → String
digest_of payload = digest

abbrev decode : String → Result CiQualityArtifact
decode payload = ok artifact

abbrev evidence : ImportedCiQualityEvidence
evidence = record {
  kind = "test";
  check = imported_check artifact provenance;
  signals = artifact.signals;
  provenance = provenance;
  verified = true;
}

imports :
    import_ci_quality_evidence digest_of decode "{}" provenance snapshot execution ≡ ok evidence
unfolding import_ci_quality_evidence admit_import validate_provenance validate_snapshot
    validate_synthetic_merge validate_execution is_blank is_canonical_digest finish_import
    validate_artifact validate_signal imported_check to_check_status validate_check contains
    trim_space
imports = refl

import_ci_quality_evidence-IsBoundTo_example : IsBoundTo digest snapshot execution evidence
import_ci_quality_evidence-IsBoundTo_example =
    import_ci_quality_evidence-IsBoundTo digest_of decode "{}" provenance snapshot execution
      evidence imports

abbrev run : CoverageProjection × GateResult × Option Error
run =
    evaluate_imported_ci_gate policy quiet.assessment "sha256:3" (evidence ∷ []) (some baseline) 20

passes : (run.2 ≡ none) × (run.1.outcome ≡ pass)
unfolding evaluate_imported_ci_gate build_ci_gate_inputs collect_evidence admit_evidence
    validate_evidence validate_signals validate_signal imported_check to_check_status validate_check
    keys open_ids checks_at coverage_of downgrade lookup is_canonical_digest trim_space
    evaluate_quality_gate admit_gate validate_assessment validate_gate_result is_blank gate_result
    decide_outcome unknown_obligations violated_rules matching_violations counts severity_rank
    strength_rank contains missing_required_coverage violated_required_coverage status_of
    validate_baseline same_set sorted_unique nonempty_keys sorted_copy insert_sorted
passes = (refl, refl)

-- With no evidence the complete assessment is made partial, and the gate is incomplete.
withheld :
    (evaluate_imported_ci_gate policy quiet.assessment "sha256:3" [] (some baseline) 20).1.outcome
    ≡ GateOutcome.incomplete
unfolding evaluate_imported_ci_gate build_ci_gate_inputs collect_evidence keys open_ids checks_at
    coverage_of downgrade lookup evaluate_quality_gate admit_gate validate_assessment
    validate_gate_result is_blank gate_result decide_outcome unknown_obligations violated_rules
    matching_violations counts severity_rank strength_rank contains missing_required_coverage
    violated_required_coverage status_of validate_baseline same_set sorted_unique nonempty_keys
    sorted_copy insert_sorted
withheld = refl

unit_required : contains policy.quality_gate.required_coverage "unit" ≡ true
unfolding contains
unit_required = refl

ci_gate_pass-Backed_example : Backed "unit" (evidence ∷ [])
ci_gate_pass-Backed_example =
    ci_gate_pass-Backed policy quiet.assessment "sha256:3" (evidence ∷ []) (some baseline) 20
      passes.0 passes.1 "unit" (λ h. cc) unit_required
