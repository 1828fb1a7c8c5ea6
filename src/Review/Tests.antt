-- ===== src/Review/Tests.antt =====
-- One attempt on a merge request, its parts, and its life.
use review.Base.{true, ◌≡◌, ◌≢◌, ◌↔◌, refl, List, [], ◌∷◌, none}
use review.Base.Text.{is_blank}
use review.Review.Change.{
  ChangeKey, SnapshotIdentity, validate_change_key, validate_snapshot, validate_synthetic_merge,
}
use review.Review.Execution.{ExecutionContext, ExecutionMode, PersistenceBoundary}
use review.Review.Attempt.{
  AttemptIdentity, AttemptState, WorkIntentKind, accepted, ready, investigating, assessed,
  superseded, validate_attempt, can_transition,
}
use review.Review.Attempt.Lifecycle.{
  live_waiting, ◌⟶◌, can_transition_iff, IsRun, final, Visits, assessed_was_investigated,
  live_can_be_assessed,
}
use review.Review.Check.{Check, satisfied}

abbrev pub change : ChangeKey
change = record {
  provider = "gitlab";
  host = "gitlab.example";
  repository_id = "r1";
  change_number = "7";
  workspace_id = "";
  comparison_id = "";
}

abbrev pub snapshot : SnapshotIdentity
snapshot = record {
  repository_id = "r1";
  base_revision = "b0";
  head_revision = "h1";
  synthetic_merge_revision = "m1";
  source_to_merge_mapping_digest = "sha256:4";
  local_snapshot_digest = "";
  file_manifest_digest = "sha256:5";
}

abbrev pub attempt : AttemptIdentity
attempt = record {
  attempt_id = "a1";
  work_intent_id = "w1";
  intent_kind = WorkIntentKind.automatic;
  change = change;
  snapshot = snapshot;
  policy_digest = "sha256:1";
  generation = 1;
  predecessor_attempt_id = "";
  state = ready;
  version = 2;
  created_at = 10;
  updated_at = 12;
}

abbrev pub execution : ExecutionContext
execution = record {
  mode = ExecutionMode.ephemeral;
  producer_id = "runner";
  pipeline_id = "p1";
  job_id = "j1";
  comparison_tree = "t1";
  persistence = PersistenceBoundary.job_local;
  trusted_boundary_id = "tb";
  deadline_at = 100;
}

abbrev check : Check
check = record {
  id = "unit";
  method_id = "ci";
  scope = "project";
  required = true;
  applicability_reason = "always";
  status = satisfied;
  evidence_refs = "ci:1" ∷ [];
  status_reason = "";
}

snapshot_valid : validate_snapshot snapshot ≡ none
unfolding validate_snapshot validate_synthetic_merge is_blank
snapshot_valid = refl

attempt_valid : validate_attempt attempt ≡ none
unfolding validate_attempt validate_change_key validate_snapshot validate_synthetic_merge is_blank
attempt_valid = refl

blank_key : validate_change_key (record change { host = "  " }) ≢ none
unfolding validate_change_key is_blank
blank_key h = cc

run : IsRun accepted (ready ∷ investigating ∷ assessed ∷ [])
unfolding can_transition
run = (refl, (refl, (refl, tt)))

can_transition_iff_example : (can_transition ready superseded ≡ true) ↔ (ready ⟶ superseded)
can_transition_iff_example = can_transition_iff ready superseded

assessed_was_investigated_example :
    Visits ready (ready ∷ investigating ∷ assessed ∷ [])
    × Visits investigating (ready ∷ investigating ∷ assessed ∷ [])
assessed_was_investigated_example =
    assessed_was_investigated (ready ∷ investigating ∷ assessed ∷ []) run refl

live_can_be_assessed_example :
    (ts : List AttemptState) × IsRun AttemptState.waiting ts
    × (final AttemptState.waiting ts ≡ assessed)
live_can_be_assessed_example = live_can_be_assessed live_waiting
