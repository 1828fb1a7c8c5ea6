-- ===== src/Policy/TriggerMatch/Tests.antt =====
-- Triggers for the branches under "release/" without those of a bot.
use review.Base.{true, false, [], ◌∷◌, ◌≡◌, refl, ◌↔◌}
use review.Base.Names.{contains}
use review.Policy.Schema.{Triggers}
use review.Policy.Glob.{any_glob, glob_match}
use review.Policy.TriggerMatch.{TriggerInput, evaluate_trigger}
use review.Policy.TriggerMatch.Laws.{IsTrusted, evaluate_trigger_iff}

abbrev triggers : Triggers
triggers = record {
  enabled = true;
  on_updates = false;
  include_drafts = false;
  include_branches = "release/**" ∷ [];
  exclude_branches = [];
  include_authors = [];
  exclude_authors = "bot" ∷ [];
  include_labels = [];
  exclude_labels = "skip" ∷ [];
}

abbrev input : TriggerInput
input = record {
  is_update = false;
  is_draft = false;
  branch = "release/1";
  author = "ann";
  labels = "fix" ∷ [];
}

-- An exclusion wins over an include set that matches.
excluded : (evaluate_trigger triggers (record input { author = "bot" })).accepted ≡ false
unfolding evaluate_trigger any_glob glob_match contains
excluded = refl

evaluate_trigger_iff_example :
    ((evaluate_trigger triggers input).accepted ≡ true) ↔ IsTrusted triggers input
evaluate_trigger_iff_example = evaluate_trigger_iff triggers input
