-- ===== src/Review/Records/Laws.antt =====
-- About the `Validate` methods of the records of agent/review/domain.go.
use review.Base.{String, false, ◌≡◌, ◌≢◌, ◌↔◌, none, arith, List, [], ◌∷◌, All}
use review.Base.Text.{is_blank}
use review.Review.Records.{
  Observation, AttemptEvent, HumanDecision, ExecutionDecision, validate_observation, validate_event,
  validate_human_decision, validate_execution_decision,
}

abbrev pub AllGiven : List String → Type 0
AllGiven = All (λ s. is_blank s ≡ false)

abbrev pub IsObservation : Observation → Type 0
IsObservation o =
    AllGiven (
      o.id ∷ o.action_id ∷ o.source ∷ o.repository_id ∷ o.revision ∷ o.producer_version
      ∷ o.content_digest ∷ o.authority ∷ o.completeness ∷ [])
    × (o.observed_at ≢ 0)

validate_observation_iff : (o : Observation) → (validate_observation o ≡ none) ↔ IsObservation o
unfolding validate_observation
validate_observation_iff o = (λ h. ground arith, λ h. ground arith)

abbrev pub IsEvent : AttemptEvent → Type 0
IsEvent e =
    AllGiven (
      e.id ∷ e.attempt_id ∷ e.kind ∷ e.actor_principal ∷ e.subject_revision ∷ e.payload_digest ∷ [])
    × (e.expected_version ≢ 0)
    × (e.occurred_at ≢ 0)

validate_event_iff : (e : AttemptEvent) → (validate_event e ≡ none) ↔ IsEvent e
unfolding validate_event
validate_event_iff e = (λ h. ground arith, λ h. ground arith)

abbrev pub IsHumanDecision : HumanDecision → Type 0
IsHumanDecision d =
    AllGiven (
      d.id ∷ d.actor_principal ∷ d.actor_role ∷ d.action ∷ d.subject_id ∷ d.subject_revision
      ∷ d.reason ∷ [])
    × (d.subject_version ≢ 0)
    × (d.decided_at ≢ 0)

validate_human_decision_iff :
    (d : HumanDecision) → (validate_human_decision d ≡ none) ↔ IsHumanDecision d
unfolding validate_human_decision
validate_human_decision_iff d = (λ h. ground arith, λ h. ground arith)

abbrev pub IsExecutionDecision : ExecutionDecision → Type 0
IsExecutionDecision d =
    AllGiven (d.trigger_event_id ∷ d.action ∷ d.reason ∷ [])
    × (d.sequence ≢ 0)
    × (d.decided_at ≢ 0)
    × (d.input_artifact_refs ≢ [])

validate_execution_decision_iff :
    (d : ExecutionDecision) → (validate_execution_decision d ≡ none) ↔ IsExecutionDecision d
unfolding validate_execution_decision
validate_execution_decision_iff d = (λ h. ground arith, λ h. ground arith)

-- Each of the four records is accepted exactly if its identifying texts are given, its time is not
-- zero, and its version, sequence and input references are there where it has them.
pub records_validated_iff :
    (o : Observation) (e : AttemptEvent) (h : HumanDecision) (d : ExecutionDecision)
    → ((validate_observation o ≡ none) ↔ IsObservation o)
      × ((validate_event e ≡ none) ↔ IsEvent e)
      × ((validate_human_decision h ≡ none) ↔ IsHumanDecision h)
      × ((validate_execution_decision d ≡ none) ↔ IsExecutionDecision d)
records_validated_iff o e h d = (
  validate_observation_iff o,
  validate_event_iff e,
  validate_human_decision_iff h,
  validate_execution_decision_iff d,
)
