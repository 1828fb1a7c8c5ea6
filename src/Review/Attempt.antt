-- ===== src/Review/Attempt.antt =====
-- agent/review/domain.go: the life of an attempt, and its identity record.
pub mod Lifecycle
pub mod Laws
use review.Base.{
  ℕ, String, Bool, true, false, not, ◌||◌, ◌&&◌, Option, none, some, str_eq, Error, new, errorf,
  ◌>>◌, fail_if, if◌then◌else◌, ◌==◌, [], ◌∷◌,
}
use review.Base.Text.{is_blank}
use review.Base.Time.{Time, is_zero, before}
use review.Review.Change.{ChangeKey, SnapshotIdentity, validate_change_key, validate_snapshot}

-- `WorkIntentKind`; `other` holds a spelling that is none of the constants.
pub data WorkIntentKind : Type 0 where
  automatic manual historical local : WorkIntentKind
  other : String → WorkIntentKind

-- `AttemptState`; `other` holds a spelling that is none of the constants.
pub data AttemptState : Type 0 where
  accepted ready investigating waiting assessed incomplete failed cancelled superseded :
      AttemptState
  other : String → AttemptState

abbrev is_accepted : AttemptState → Bool
is_accepted accepted = true
is_accepted _ = false

abbrev is_ready : AttemptState → Bool
is_ready ready = true
is_ready _ = false

abbrev is_investigating : AttemptState → Bool
is_investigating investigating = true
is_investigating _ = false

abbrev is_waiting : AttemptState → Bool
is_waiting waiting = true
is_waiting _ = false

abbrev is_assessed : AttemptState → Bool
is_assessed assessed = true
is_assessed _ = false

-- `from == to`
abbrev same_state : AttemptState → AttemptState → Bool
same_state accepted t = is_accepted t
same_state ready t = is_ready t
same_state investigating t = is_investigating t
same_state waiting t = is_waiting t
same_state assessed t = is_assessed t
same_state incomplete incomplete = true
same_state failed failed = true
same_state cancelled cancelled = true
same_state superseded superseded = true
same_state (other s) (other t) = str_eq s t
same_state _ _ = false

-- `AttemptState.Terminal`
unfoldable pub terminal : AttemptState → Bool
terminal assessed = true
terminal incomplete = true
terminal failed = true
terminal cancelled = true
terminal superseded = true
terminal _ = false

-- The first `switch`, on the target: `none` where no case returns.
to_stop : AttemptState → AttemptState → Option Bool
to_stop from incomplete =
    some (is_accepted from || is_ready from || is_investigating from || is_waiting from)
to_stop from failed =
    some (is_accepted from || is_ready from || is_investigating from || is_waiting from)
to_stop from cancelled =
    some (is_accepted from || is_ready from || is_investigating from || is_waiting from)
to_stop from superseded =
    some (is_accepted from || is_ready from || is_investigating from || is_waiting from)
to_stop from _ = none

-- The second `switch`, on the source.
to_progress : AttemptState → AttemptState → Bool
to_progress accepted to = is_ready to
to_progress ready to = is_investigating to
to_progress investigating to = is_ready to || is_waiting to || is_assessed to
to_progress waiting to = is_ready to
to_progress _ to = false

abbrev return_or : Option Bool → Bool → Bool
return_or none rest = rest
return_or (some b) rest = b

-- `CanTransitionAttempt`
unfoldable pub can_transition : AttemptState → AttemptState → Bool
unfolding terminal to_stop to_progress
can_transition from to =
    if terminal from || same_state from to
    then false
    else return_or (to_stop from to) (to_progress from to)

pub record AttemptIdentity : Type 0 where
  pub attempt_id : String
  pub work_intent_id : String
  pub intent_kind : WorkIntentKind
  pub change : ChangeKey
  pub snapshot : SnapshotIdentity
  pub policy_digest : String
  pub generation : ℕ  -- uint64
  pub predecessor_attempt_id : String
  pub state : AttemptState
  pub version : ℕ  -- uint64
  pub created_at : Time
  pub updated_at : Time

abbrev check_intent : WorkIntentKind → Option Error
check_intent (WorkIntentKind.other s) = some (errorf "unsupported work intent kind %q" (s ∷ []))
check_intent _ = none

abbrev check_state : AttemptState → Option Error
check_state (AttemptState.other s) = some (errorf "unsupported attempt state %q" (s ∷ []))
check_state _ = none

-- `AttemptIdentity.Validate`
unfoldable pub validate_attempt : AttemptIdentity → Option Error
validate_attempt a = do
  fail_if (is_blank a.attempt_id || is_blank a.work_intent_id)
      (new "attempt and work intent IDs are required")
  validate_change_key a.change
  validate_snapshot a.snapshot
  fail_if (not (str_eq a.change.repository_id a.snapshot.repository_id))
      (new "attempt change and snapshot repositories must match")
  fail_if (is_blank a.policy_digest) (new "attempt policy digest is required")
  check_intent a.intent_kind
  check_state a.state
  fail_if (a.generation == 0 || a.version == 0)
      (new "attempt generation and version must be positive")
  fail_if (is_zero a.created_at || is_zero a.updated_at || before a.updated_at a.created_at)
      (new "attempt timestamps are invalid")
