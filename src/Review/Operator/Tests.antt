-- ===== src/Review/Operator/Tests.antt =====
-- A directory of two operators.
use review.Base.{Some, String, ◌≡◌, refl, [], ◌∷◌, some, none, ok, true, ◌↔◌}
use review.Review.Tests.{change}
use review.Review.Operator.{
  OperatorGrant, OperatorDirectory, OperatorActor, publisher, reviewer, valid_operator_credential,
  principal_of, authenticate, validate_actor, grants_role, authorize,
}
use review.Review.Operator.Laws.{IsIssued, Holds, Owns, authorize_iff, authenticate-IsIssued}

abbrev grant : OperatorGrant
grant = record {
  boundary_id = "tb";
  project_id = "p";
  provider = "gitlab";
  host = "gitlab.example";
  repository_id = "r1";
  roles = reviewer ∷ publisher ∷ [];
}

abbrev directory : OperatorDirectory
directory = record {
  address = 1;
  principals =
      (record { id = "ann"; token_hash = "secret"; grants = grant ∷ [] })
      ∷ (record { id = "bob"; token_hash = "other"; grants = [] })
      ∷ [];
}

abbrev actor_of : String → OperatorActor
actor_of name = record { directory = some 1; principal = name }

enters : authenticate (λ s. s) (some directory) "secret" ≡ ok (actor_of "ann")
unfolding authenticate principal_of valid_operator_credential
enters = refl

publishes : authorize (some directory) (actor_of "ann") "tb" "p" change (publisher ∷ []) ≡ none
unfolding authorize validate_actor grants_role
publishes = refl

authenticate-IsIssued_example :
    IsIssued directory (actor_of "ann")
    × Some (Owns "secret" "ann") directory.principals
    × (valid_operator_credential "secret" ≡ true)
authenticate-IsIssued_example = authenticate-IsIssued (λ s. s) directory "secret" enters

authorize_iff_example :
    (authorize (some directory) (actor_of "ann") "tb" "p" change (publisher ∷ []) ≡ none) ↔ (
      IsIssued directory (actor_of "ann")
      × Some (Holds (actor_of "ann") "tb" "p" change (publisher ∷ [])) directory.principals)
authorize_iff_example = authorize_iff directory (actor_of "ann") "tb" "p" change (publisher ∷ [])
