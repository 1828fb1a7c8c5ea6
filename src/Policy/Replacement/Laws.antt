-- ===== src/Policy/Replacement/Laws.antt =====
-- When a delegated replacement is authorised, and what it may touch.
use review.Base.{
  ◌≤◌, ◌<◌, String, true, false, not, ◌&&◌, ◌≡◌, ◌≢◌, ◌↔◌, ◌⊎◌, refl, List, [], ◌∷◌, str_eq, eq_iff,
  arith, Option, none, some, ok, is_empty, Bool-cases, inl, inr,
}
use review.Base.Names.{contains}
use review.Base.Names.Membership.{contains-without}
use review.Base.Time.{Time}
use review.Policy.Schema.{EffectivePolicy, MethodPack, Delegation}
use review.Policy.Publication.{risk_rank}
use review.Policy.Replacement.{
  check_expiry, check_allowed, check_replacement, replace_fields, apply_delegated_replacement,
}

-- An empty allowlist allows every name.
abbrev pub AllowedBy : List String → List String → Type 0
AllowedBy allowed names =
    (w : String) → contains names w ≡ true → (is_empty allowed ≡ true) ⊎ (contains allowed w ≡ true)

abbrev pub Unexpired : Option Time → Time → Type 0
Unexpired none at = Unit {0}
Unexpired (some expires_at) at = (at ≢ 0) × (at < expires_at)

pub record IsAuthorised (pack : MethodPack) (d : Delegation) (at : Time) : Type 0 where
  pub unexpired : Unexpired d.constraints.expires_at at
  pub methods : AllowedBy d.constraints.allowed_method_ids pack.methods
  pub checks : AllowedBy d.constraints.allowed_check_ids pack.checks
  pub risk :
      contains d.replace_fields "risk_floor" ≡ true
      → d.constraints.max_risk ≢ ""
      → risk_rank pack.risk_floor ≤ risk_rank d.constraints.max_risk

check_allowed_sound :
    (text : String) (d : Delegation) (allowed names : List String)
    → check_allowed text d allowed names ≡ none
    → AllowedBy allowed names
unfolding check_allowed contains
check_allowed_sound text d allowed [] h w k = cc
check_allowed_sound text d allowed (n ∷ ns) h w k = elim (Bool-cases (str_eq n w)) [
  | inl e ↦ rw (← (eq_iff n w).0 e) (ground arith)
  | inr e ↦ check_allowed_sound text d allowed ns (ground arith) w (ground arith)
]

check_allowed_complete :
    (text : String) (d : Delegation) (allowed names : List String)
    → AllowedBy allowed names
    → check_allowed text d allowed names ≡ none
unfolding check_allowed contains
check_allowed_complete text d allowed [] h = refl
check_allowed_complete text d allowed (n ∷ ns) h =
    let rest = check_allowed_complete text d allowed ns λ w k. h w (ground arith) in
    ground (arith, rest, h n, eq_iff n n)

check_expiry_iff :
    (d : Delegation) (expires_at : Option Time) (at : Time)
    → (check_expiry d expires_at at ≡ none) ↔ Unexpired expires_at at
unfolding check_expiry
check_expiry_iff d none at = (λ h. tt, λ h. refl)
check_expiry_iff d (some t) at = (λ h. ground arith, λ h. ground arith)

check_replacement_sound :
    (pack : MethodPack) (d : Delegation) (at : Time)
    → check_replacement pack d at ≡ none
    → IsAuthorised pack d at
unfolding check_replacement
check_replacement_sound pack d at h = record {
  unexpired = (check_expiry_iff d d.constraints.expires_at at).0 (ground arith);
  methods =
      check_allowed_sound "policy: delegation %q does not allow method %q" d
        d.constraints.allowed_method_ids pack.methods (ground arith);
  checks =
      check_allowed_sound "policy: delegation %q does not allow check %q" d
        d.constraints.allowed_check_ids pack.checks (ground arith);
  risk = λ r m. ground (arith, eq_iff d.constraints.max_risk "");
}

check_replacement_complete :
    (pack : MethodPack) (d : Delegation) (at : Time)
    → IsAuthorised pack d at
    → check_replacement pack d at ≡ none
unfolding check_replacement
check_replacement_complete pack d at a = ground (
  arith,
  (check_expiry_iff d d.constraints.expires_at at).1 a.unexpired,
  check_allowed_complete "policy: delegation %q does not allow method %q" d
      d.constraints.allowed_method_ids pack.methods a.methods,
  check_allowed_complete "policy: delegation %q does not allow check %q" d
      d.constraints.allowed_check_ids pack.checks a.checks,
  a.risk,
  eq_iff d.constraints.max_risk "",
)

-- A delegated replacement succeeds exactly if the delegation has not expired at a given clock, every
-- method and check of the pack is in its allowlist where that is not empty, and a risk floor that it
-- replaces is within its maximum.
pub apply_delegated_replacement_iff :
    (e : EffectivePolicy) (pack : MethodPack) (d : Delegation) (at : Time)
    → ((e' : EffectivePolicy) × (apply_delegated_replacement e pack d at ≡ ok e'))
      ↔ IsAuthorised pack d at
unfolding apply_delegated_replacement
apply_delegated_replacement_iff e pack d at = (
  λ (e', h). check_replacement_sound pack d at (ground arith),
  λ a. (replace_fields e pack d, rw (check_replacement_complete pack d at a) refl),
)

-- A delegated replacement that succeeds removes only methods and checks that the delegation names,
-- and only of the fields that it may replace; the other fields of the policy it names keep what they
-- hold, and the gate's coverage is never touched.
pub apply_delegated_replacement_confined :
    (e : EffectivePolicy) (pack : MethodPack) (d : Delegation) (at : Time) (e' : EffectivePolicy)
    → apply_delegated_replacement e pack d at ≡ ok e'
    → ((w : String)
        → contains e'.methods w ≡ (
            contains e.methods w
            && not (contains d.replace_fields "methods" && contains d.replace_rule_ids w)))
      × ((w : String)
          → contains e'.required_checks w ≡ (
              contains e.required_checks w
              && not (contains d.replace_fields "checks" && contains d.replace_rule_ids w)))
      × (contains d.replace_fields "risk_floor" ≡ false → e'.risk_floor ≡ e.risk_floor)
      × (contains d.replace_fields "independent_review" ≡ false
          → e'.independent_review ≡ e.independent_review)
      × (contains d.replace_fields "publication" ≡ false → e'.publication ≡ e.publication)
      × (e'.quality_gate ≡ e.quality_gate)
unfolding apply_delegated_replacement replace_fields
apply_delegated_replacement_confined e pack d at e' h =
    let eq : replace_fields e pack d ≡ e' = ground arith in
    rw (← eq) (
      (λ w. ground (arith, contains-without e.methods d.replace_rule_ids w)),
      (λ w. ground (arith, contains-without e.required_checks d.replace_rule_ids w)),
      (λ n. ground arith),
      (λ n. ground arith),
      (λ n. ground arith),
      refl,
    )
