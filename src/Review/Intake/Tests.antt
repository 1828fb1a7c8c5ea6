-- ===== src/Review/Intake/Tests.antt =====
-- An attested snapshot and a test run on its head.
use review.Base.{String, true, [], ◌∷◌, ok, ◌≡◌, refl, ◌⊎◌}
use review.Base.Text.{is_blank}
use review.Review.Tests.{snapshot}
use review.Review.Change.{validate_snapshot, validate_synthetic_merge}
use review.Review.Intake.{
  SnapshotAttestation, attestation_digest, attested_parts, missing, TestExecutionEvidence, verified,
  test_evidence_readiness, find_test_evidence, proves_tests, validate_test_evidence,
}
use review.Review.Intake.Laws.{Collision, attestation_digest-injective}

abbrev evidence : TestExecutionEvidence
evidence = record {
  revision = "h1";
  check_name = "unit";
  result = "passed";
  source_ref = "ci:1";
  executed_at = 5;
  producer_id = "runner";
  verification = verified;
}

-- Evidence of another revision does not count.
stale :
    (test_evidence_readiness snapshot (record evidence { revision = "h0" } ∷ [])).status ≡ missing
unfolding test_evidence_readiness find_test_evidence proves_tests validate_test_evidence is_blank
stale = refl

abbrev attestation : SnapshotAttestation
attestation = record {
  snapshot = snapshot;
  producer_id = "runner";
  comparison_tree = "m1";
  verified_at = 5;
  verified = true;
}

abbrev hash : String → String
hash s = "00"

digests : attestation_digest hash attestation ≡ ok "sha256:00"
unfolding attestation_digest validate_snapshot validate_synthetic_merge is_blank
digests = refl

attestation_digest-injective_example :
    (attested_parts attestation ≡ attested_parts attestation) ⊎ Collision hash
attestation_digest-injective_example =
    attestation_digest-injective hash attestation attestation "sha256:00"
      (refl, (refl, (refl, (refl, (refl, (refl, (refl, (refl, (refl, tt)))))))))
      (refl, (refl, (refl, (refl, (refl, (refl, (refl, (refl, (refl, tt))))))))) digests digests
