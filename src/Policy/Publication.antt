-- ===== src/Policy/Publication.antt =====
-- agent/policy/compile.go: how publication constraints combine.
pub mod Laws
use review.Base.{
  ℕ, String, Bool, true, false, not, ◌||◌, ◌&&◌, List, [], ◌∷◌, str_eq, if◌then◌else◌, ltb,
  is_empty,
}
use review.Base.Names.{contains}
use review.Policy.Schema.{PublicationConstraint}

-- `riskRank`, a map literal; a missing key reads 0.
unfoldable pub risk_rank : String → ℕ
risk_rank value =
    if str_eq value "low"
    then 1
    else if str_eq value "medium"
    then 2
    else if str_eq value "high"
    then 3
    else if str_eq value "critical"
    then 4
    else 0

-- The map literal of `restrictivePublication`.
unfoldable pub publication_rank : String → ℕ
publication_rank mode =
    if str_eq mode "setup_grant"
    then 1
    else if str_eq mode "human_authorized"
    then 2
    else if str_eq mode "none"
    then 3
    else 0

unfoldable pub keep_classes : List String → List String → List String
keep_classes allowed [] = []
keep_classes allowed (class ∷ classes) =
    if contains allowed class
    then class ∷ keep_classes allowed classes
    else keep_classes allowed classes

abbrev pub stricter_mode : String → String → String
stricter_mode current next =
    if not (str_eq next "inherit") && ltb (publication_rank current) (publication_rank next)
    then next
    else current

abbrev pub restricts : PublicationConstraint → Bool
restricts next = not (is_empty next.artifact_classes) || next.artifact_classes_restricted

unfoldable pub restrictive_publication :
    PublicationConstraint → PublicationConstraint → PublicationConstraint
restrictive_publication current next = record {
  mode = stricter_mode current.mode next.mode;
  artifact_classes =
      if restricts next
      then keep_classes next.artifact_classes current.artifact_classes
      else current.artifact_classes;
  manual_required = current.manual_required || next.manual_required;
  artifact_classes_restricted = current.artifact_classes_restricted || restricts next;
}
