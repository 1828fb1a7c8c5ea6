-- ===== src/Policy/TriggerMatch.antt =====
-- agent/policy/triggers.go: whether a change starts a review by itself.
pub mod Laws
mod Tests
use review.Base.{String, Bool, true, false, not, ◌||◌, ◌&&◌, List, [], ◌∷◌, is_empty, if◌then◌else◌}
use review.Base.Names.{contains, intersects}
use review.Policy.Schema.{Triggers}
use review.Policy.Glob.{any_glob}

pub record TriggerInput : Type 0 where
  pub is_update : Bool
  pub is_draft : Bool
  pub branch : String
  pub author : String
  pub labels : List String

pub record TriggerDecision : Type 0 where
  pub accepted : Bool
  pub reasons : List String

abbrev rejected : String → TriggerDecision
rejected reason = record { accepted = false; reasons = reason ∷ [] }

-- The tests of the include sets.
include_decision : Triggers → TriggerInput → TriggerDecision
include_decision t input =
    if not (is_empty t.include_branches) && not (any_glob t.include_branches (input.branch ∷ []))
    then rejected "branch does not match the include set"
    else if not (is_empty t.include_authors) && not (contains t.include_authors input.author)
    then rejected "author does not match the include set"
    else if not (is_empty t.include_labels) && not (intersects t.include_labels input.labels)
    then rejected "labels do not match the include set"
    else record { accepted = true; reasons = "all trusted trigger conditions matched" ∷ [] }

-- `EvaluateTrigger`
unfoldable pub evaluate_trigger : Triggers → TriggerInput → TriggerDecision
unfolding include_decision
evaluate_trigger t input =
    if not t.enabled
    then rejected "automatic triggers are disabled"
    else if input.is_update && not t.on_updates
    then rejected "updates are excluded"
    else if input.is_draft && not t.include_drafts
    then rejected "draft changes are excluded"
    else if any_glob t.exclude_branches (input.branch ∷ [])
    then rejected "branch matches an exclusion"
    else if contains t.exclude_authors input.author
    then rejected "author matches an exclusion"
    else if intersects t.exclude_labels input.labels
    then rejected "label matches an exclusion"
    else include_decision t input
