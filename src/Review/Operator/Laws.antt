-- ===== src/Review/Operator/Laws.antt =====
-- About `Authenticate`, `ValidateActor` and `Authorize` of agent/review/operator.go.
use review.Base.{
  Some, ℕ, String, Bool, true, false, ◌&&◌, List, [], ◌∷◌, any, str_eq, Option, none, some, ok, ◌≡◌,
  ◌≢◌, refl, sym, subst, ◌↔◌, ◌⊎◌, inl, inr, arith, eq_iff, Bool-cases,
}
use review.Review.Change.{ChangeKey}
use review.Review.Operator.{
  OperatorRole, role_text, OperatorGrant, OperatorPrincipal, OperatorDirectory, OperatorActor,
  valid_operator_credential, principal_of, authenticate, validate_actor, same_role, covers,
  grants_role, authorize, is_address,
}

any_iff :
    {A : Type 0} (p : A → Bool) (P : A → Type 0) (xs : List A)
    → ((x : A) → (p x ≡ true) ↔ P x)
    → (any p xs ≡ true) ↔ Some P xs
any_iff p P [] f = (λ h. absurd (cc), λ h. absurd h)
any_iff p P (x ∷ xs) f = (
  λ h. elim (Bool-cases (p x)) [
    | inl e ↦ inl ((f x).0 e)
    | inr e ↦ inr ((any_iff p P xs f).0 (ground arith))
  ],
  λ h. elim h [
    | inl e ↦ let k = (f x).1 e in ground arith
    | inr e ↦ let k = (any_iff p P xs f).1 e in ground arith
  ],
)

-- A grant for the very boundary, project and repository, with one of the roles asked for.
abbrev pub Grants : String → String → ChangeKey → List OperatorRole → OperatorGrant → Type 0
Grants boundary project change roles g =
    (g.boundary_id ≡ boundary)
    × (g.project_id ≡ project)
    × (g.provider ≡ change.provider)
    × (g.host ≡ change.host)
    × (g.repository_id ≡ change.repository_id)
    × Some (λ required. Some (λ granted. role_text required ≡ role_text granted) g.roles) roles

-- The actor was issued by this directory for one of its principals.
abbrev pub IsIssued : OperatorDirectory → OperatorActor → Type 0
IsIssued d actor =
    (actor.directory ≡ some d.address)
    × (actor.principal ≢ "")
    × Some (λ (p : OperatorPrincipal). p.id ≡ actor.principal) d.principals

abbrev pub Holds :
    OperatorActor → String → String → ChangeKey → List OperatorRole → OperatorPrincipal → Type 0
Holds actor boundary project change roles p =
    (p.id ≡ actor.principal) × Some (Grants boundary project change roles) p.grants

role_eq_iff : (a b : OperatorRole) → (same_role a b ≡ true) ↔ (role_text a ≡ role_text b)
role_eq_iff a b = eq_iff (role_text a) (role_text b)

covers_iff :
    (g : OperatorGrant) (boundary project : String) (change : ChangeKey)
    → (covers g boundary project change ≡ true) ↔ (
        (g.boundary_id ≡ boundary)
        × (g.project_id ≡ project)
        × (g.provider ≡ change.provider)
        × (g.host ≡ change.host)
        × (g.repository_id ≡ change.repository_id))
unfolding covers
covers_iff g boundary project change = (
  λ h. ground (
    arith,
    eq_iff g.boundary_id boundary,
    eq_iff g.project_id project,
    eq_iff g.provider change.provider,
    eq_iff g.host change.host,
    eq_iff g.repository_id change.repository_id,
  ),
  λ h. ground (
    arith,
    (eq_iff g.boundary_id boundary).1 h.0,
    (eq_iff g.project_id project).1 h.1,
    (eq_iff g.provider change.provider).1 h.2,
    (eq_iff g.host change.host).1 h.3,
    (eq_iff g.repository_id change.repository_id).1 h.4,
  ),
)

and_iff :
    (a b : Bool) {P Q : Type 0} → (a ≡ true) ↔ P → (b ≡ true) ↔ Q → ((a && b) ≡ true) ↔ (P × Q)
and_iff true b f g = (λ h. (f.0 refl, g.0 h), λ h. g.1 h.1)
and_iff false b f g = (λ h. absurd (cc), λ h. f.1 h.0)

grants_role_iff :
    (grants : List OperatorGrant) (boundary project : String) (change : ChangeKey)
    (roles : List OperatorRole)
    → (grants_role grants boundary project change roles ≡ true)
      ↔ Some (Grants boundary project change roles) grants
unfolding grants_role
grants_role_iff grants boundary project change roles =
    any_iff _ (Grants boundary project change roles) grants λ g.
      let both =
        and_iff (covers g boundary project change)
          (any (λ required. any (same_role required) g.roles) roles)
          (covers_iff g boundary project change)
          (any_iff (λ required. any (same_role required) g.roles)
            (λ required. Some (λ granted. role_text required ≡ role_text granted) g.roles) roles
            λ required.
              any_iff (same_role required) (λ granted. role_text required ≡ role_text granted)
                g.roles (role_eq_iff required)) in
      (
        λ h. let ((a, b, c, d, e), f) = both.0 h in (a, b, c, d, e, f),
        λ (a, b, c, d, e, f). both.1 ((a, b, c, d, e), f),
      )

address_iff : (a : ℕ) (b : Option ℕ) → (is_address a b ≡ true) ↔ (b ≡ some a)
address_iff a none = (λ h. cc, λ h. cc)
address_iff a (some b) = (λ h. ground arith, λ h. ground arith)

-- `ValidateActor` accepts exactly the actors that the directory issued.
validate_actor_iff :
    (d : OperatorDirectory) (actor : OperatorActor)
    → (validate_actor (some d) actor ≡ none) ↔ IsIssued d actor
unfolding validate_actor
validate_actor_iff d actor =
    let known =
      any_iff (λ (p : OperatorPrincipal). str_eq p.id actor.principal)
        (λ (p : OperatorPrincipal). p.id ≡ actor.principal) d.principals
        λ p. eq_iff p.id actor.principal in
    (
      λ h. (
        (address_iff d.address actor.directory).0 (ground arith),
        ground (arith, eq_iff actor.principal ""),
        known.0 (ground arith),
      ),
      λ (a, b, c).
          let x = (address_iff d.address actor.directory).1 a in
          let y = known.1 c in ground (arith, eq_iff actor.principal ""),
    )

-- An actor is authorised exactly if this directory issued it, and one of the grants of its principal
-- is for the very boundary, project, provider, host and repository and holds one of the roles.
pub authorize_iff :
    (d : OperatorDirectory) (actor : OperatorActor) (boundary project : String) (change : ChangeKey)
    (roles : List OperatorRole)
    → (authorize (some d) actor boundary project change roles ≡ none)
      ↔ (IsIssued d actor × Some (Holds actor boundary project change roles) d.principals)
unfolding authorize
authorize_iff d actor boundary project change roles =
    let held =
      any_iff
        (λ (p : OperatorPrincipal).
          str_eq p.id actor.principal && grants_role p.grants boundary project change roles)
        (Holds actor boundary project change roles) d.principals
        λ p.
          and_iff (str_eq p.id actor.principal) (grants_role p.grants boundary project change roles)
            (eq_iff p.id actor.principal)
            (grants_role_iff p.grants boundary project change roles) in
    (
      λ h. ((validate_actor_iff d actor).0 (ground arith), held.0 (ground arith)),
      λ (issued, g).
          let x = (validate_actor_iff d actor).1 issued in let y = held.1 g in ground arith,
    )

-- A principal of the directory whose token has this hash.
abbrev pub Owns : String → String → OperatorPrincipal → Type 0
Owns hash id p = (p.id ≡ id) × (p.token_hash ≡ hash)

principal_of-Owns :
    (hash id : String) (ps : List OperatorPrincipal) (r : String)
    → principal_of hash id ps ≡ r
    → (r ≡ id) ⊎ Some (Owns hash r) ps
unfolding principal_of
principal_of-Owns hash id [] r h = inl (sym h)
principal_of-Owns hash id (p ∷ ps) r h = elim (Bool-cases (str_eq hash p.token_hash)) [
  | inr e ↦ elim (principal_of-Owns hash id ps r (rw e at h)) [
    | inl q ↦ inl q
    | inr q ↦ inr (inr q)
  ]
  | inl e ↦ elim (principal_of-Owns hash p.id ps r (rw e at h)) [
    | inl q ↦ inr (inl (sym q, sym ((eq_iff hash p.token_hash).0 e)))
    | inr q ↦ inr (inr q)
  ]
]

Some-id :
    (hash id : String) (ps : List OperatorPrincipal)
    → Some (Owns hash id) ps
    → Some (λ (p : OperatorPrincipal). p.id ≡ id) ps
Some-id hash id [] s = s
Some-id hash id (p ∷ ps) (inl (e, h)) = inl e
Some-id hash id (p ∷ ps) (inr s) = inr (Some-id hash id ps s)

-- An actor that a token authenticates was issued by the directory, for a principal whose token has the
-- hash of that token, and the token is an acceptable credential.
pub authenticate-IsIssued :
    (sha256 : String → String) (d : OperatorDirectory) (token : String) {actor : OperatorActor}
    → authenticate sha256 (some d) token ≡ ok actor
    → IsIssued d actor
      × Some (Owns (sha256 token) actor.principal) d.principals
      × (valid_operator_credential token ≡ true)
unfolding authenticate
authenticate-IsIssued sha256 d token {actor} h =
    let id = principal_of (sha256 token) "" d.principals in
    let same : record { directory = some d.address; principal = id } ≡ actor = ground arith in
    let given : id ≢ "" = ground (arith, eq_iff id "") in
    let owned : Some (Owns (sha256 token) id) d.principals =
      elim (principal_of-Owns (sha256 token) "" d.principals id refl) [
        | inl q ↦ absurd (given q)
        | inr q ↦ q
      ] in
    subst
      (λ a.
        IsIssued d a
        × Some (Owns (sha256 token) a.principal) d.principals
        × (valid_operator_credential token ≡ true))
      same ((refl, given, Some-id (sha256 token) id d.principals owned), owned, ground arith)
