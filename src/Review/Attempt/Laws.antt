-- ===== src/Review/Attempt/Laws.antt =====
-- What `AttemptIdentity.Validate` accepts.
use review.Base.{◌≤◌, ◌≡◌, ◌≢◌, ◌↔◌, none, false, arith, eq_iff}
use review.Base.Text.{is_blank}
use review.Review.Change.{validate_change_key, validate_snapshot}
use review.Review.Attempt.{AttemptIdentity, AttemptState, WorkIntentKind, validate_attempt}

abbrev pub IsKnownState : AttemptState → Type 0
IsKnownState (AttemptState.other s) = ⊥
IsKnownState _ = Unit {0}

abbrev pub IsKnownIntent : WorkIntentKind → Type 0
IsKnownIntent (WorkIntentKind.other s) = ⊥
IsKnownIntent _ = Unit {0}

pub record IsValid (a : AttemptIdentity) : Type 0 where
  pub identified : (is_blank a.attempt_id ≡ false) × (is_blank a.work_intent_id ≡ false)
  pub change_valid : validate_change_key a.change ≡ none
  pub snapshot_valid : validate_snapshot a.snapshot ≡ none
  pub same_repository : a.change.repository_id ≡ a.snapshot.repository_id
  pub policy_bound : is_blank a.policy_digest ≡ false
  pub intent_known : IsKnownIntent a.intent_kind
  pub state_known : IsKnownState a.state
  pub counted : (a.generation ≢ 0) × (a.version ≢ 0)
  pub created : a.created_at ≢ 0
  pub updated : a.created_at ≤ a.updated_at

-- An attempt is accepted exactly if its parts are, it names one repository in both, its kind and
-- state are known, its counters are positive and it was not updated before it was created.
pub validate_attempt_iff : (a : AttemptIdentity) → (validate_attempt a ≡ none) ↔ IsValid a
unfolding validate_attempt
validate_attempt_iff a = (
  λ h. ground (arith, eq_iff a.change.repository_id a.snapshot.repository_id),
  λ h. ground (arith, eq_iff a.change.repository_id a.snapshot.repository_id),
)
