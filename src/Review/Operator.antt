-- ===== src/Review/Operator.antt =====
-- agent/review/operator.go: who may act. A directory is told from another by the address of its
-- pointer, a number here. `sha256` stands for the hash of the bytes of a token, and two hashes are
-- compared whole: `ConstantTimeCompare` differs from that in its timing alone.
pub mod Laws
mod Tests
use Prim.Native.Char.{Char, code}
use Prim.Native.String
use review.Base.{
  ℕ, String, Bool, true, false, not, ◌||◌, ◌&&◌, if◌then◌else◌, List, [], ◌∷◌, any, leb, ltb, ◌==◌,
  str_eq, Option, none, some, Error, new, Result, ok, err, ◌then_ok◌, fail_if,
}
use review.Review.Change.{ChangeKey}

-- `OperatorRole`; `other` holds a spelling that is none of the constants.
pub data OperatorRole : Type 0 where
  operator reviewer publisher participant memory_curator : OperatorRole
  other : String → OperatorRole

abbrev pub role_text : OperatorRole → String
role_text operator = "operator"
role_text reviewer = "reviewer"
role_text publisher = "publisher"
role_text participant = "participant"
role_text memory_curator = "memory_curator"
role_text (other s) = s

pub record OperatorGrant : Type 0 where
  pub boundary_id : String
  pub project_id : String
  pub provider : String
  pub host : String
  pub repository_id : String
  pub roles : List OperatorRole

pub record OperatorPrincipal : Type 0 where
  pub id : String
  pub token_hash : String
  pub grants : List OperatorGrant

pub record OperatorDirectory : Type 0 where
  pub address : ℕ
  pub principals : List OperatorPrincipal

-- `none` is the nil pointer of the zero actor.
pub record OperatorActor : Type 0 where
  pub directory : Option ℕ
  pub principal : String

abbrev pub unauthorized : Error
unauthorized = new "operator authentication required"

abbrev pub forbidden : Error
forbidden = new "operator authority denied"

printable : String → Bool
printable String.[] = true
printable (String.◌∷◌ c s) = leb 33 (code c) && leb (code c) 126 && printable s

-- `validOperatorCredential`
unfoldable pub valid_operator_credential : String → Bool
unfolding printable
valid_operator_credential token =
    not (str_eq token "") && leb (String.len token) 4096 && printable token

-- The loop of `Authenticate`: the last principal of the hash.
unfoldable pub principal_of : String → String → List OperatorPrincipal → String
principal_of hash id [] = id
principal_of hash id (p ∷ principals) =
    principal_of hash (if str_eq hash p.token_hash then p.id else id) principals

-- `Authenticate`; a nil directory is `none`.
unfoldable pub authenticate :
    (String → String) → Option OperatorDirectory → String → Result OperatorActor
authenticate sha256 none token = err unauthorized
authenticate sha256 (some d) token =
    let id = principal_of (sha256 token) "" d.principals in
    fail_if (not (valid_operator_credential token)) unauthorized
    then_ok fail_if (str_eq id "") unauthorized
    then_ok ok (record { directory = some d.address; principal = id })

abbrev is_address : ℕ → Option ℕ → Bool
is_address a none = false
is_address a (some b) = a == b

-- `ValidateActor`
unfoldable pub validate_actor : Option OperatorDirectory → OperatorActor → Option Error
validate_actor none actor = some unauthorized
validate_actor (some d) actor =
    if not (is_address d.address actor.directory) || str_eq actor.principal ""
    then some unauthorized
    else if any (λ p. str_eq p.id actor.principal) d.principals
    then none
    else some unauthorized

abbrev pub same_role : OperatorRole → OperatorRole → Bool
same_role a b = str_eq (role_text a) (role_text b)

-- The body of the loop over the grants, but for the `continue`.
unfoldable pub covers : OperatorGrant → String → String → ChangeKey → Bool
covers g boundary project change =
    str_eq g.boundary_id boundary
    && str_eq g.project_id project
    && str_eq g.provider change.provider
    && str_eq g.host change.host
    && str_eq g.repository_id change.repository_id

unfoldable pub grants_role :
    List OperatorGrant → String → String → ChangeKey → List OperatorRole → Bool
unfolding covers
grants_role grants boundary project change roles =
    any
      (λ g.
        covers g boundary project change
        && any (λ required. any (same_role required) g.roles) roles)
      grants

-- `Authorize`
unfoldable pub authorize :
    Option OperatorDirectory
    → OperatorActor
    → String
    → String
    → ChangeKey
    → List OperatorRole
    → Option Error
authorize none actor boundary project change roles = some unauthorized
authorize (some d) actor boundary project change roles = elim (validate_actor (some d) actor) [
  | some e ↦ some e
  | none ↦
      if any
        (λ p. str_eq p.id actor.principal && grants_role p.grants boundary project change roles)
        d.principals
      then none
      else some forbidden
]
