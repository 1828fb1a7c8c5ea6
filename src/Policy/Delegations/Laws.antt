-- ===== src/Policy/Delegations/Laws.antt =====
-- Containment of scopes, read at a change.
use review.Base.{
  String, true, false, ◌&&◌, ◌≡◌, refl, List, [], ◌∷◌, any, str_eq, eq_iff, arith, Bool-cases, inl,
  inr, none,
}
use review.Policy.Schema.{ScopeRef, Delegation, ReviewConfig, CompileContext}
use review.Policy.Glob.{any_glob}
use review.Policy.Scopes.{globs_of, scope_matches}
use review.Policy.Delegations.{delegation_scope_contained, validate_delegation}

any_glob-member :
    (globs : List String) (id : String) (paths : List String)
    → any (λ glob. str_eq glob id) globs ≡ true
    → any_glob (id ∷ []) paths ≡ true
    → any_glob globs paths ≡ true
unfolding any_glob
any_glob-member [] id paths h k = cc
any_glob-member (g ∷ gs) id paths h k = elim (Bool-cases (str_eq g id)) [
  | inl e ↦ rw ((eq_iff g id).0 e) (ground arith)
  | inr n ↦ ground (arith, any_glob-member gs id paths)
]

-- The target's kind and name decide whether it matches.
same_scope-matches :
    (g t : ScopeRef) (c : ReviewConfig) (ctx : CompileContext)
    → (str_eq g.kind t.kind && str_eq g.id t.id) ≡ true
    → scope_matches t c ctx ≡ true
    → scope_matches g c ctx ≡ true
unfolding scope_matches
same_scope-matches g t c ctx e h =
    rw ((eq_iff g.kind t.kind).0 (ground arith), (eq_iff g.id t.id).0 (ground arith)) h

path_scope-matches :
    (t : ScopeRef) (c : ReviewConfig) (ctx : CompileContext)
    → t.kind ≡ "path"
    → scope_matches t c ctx ≡ any_glob (t.id ∷ []) ctx.changed_paths
unfolding scope_matches
path_scope-matches t c ctx h = rw h refl

-- A path that one of the grantor's own globs spells.
globbed_scope-matches :
    (g t : ScopeRef) (c : ReviewConfig) (ctx : CompileContext)
    → delegation_scope_contained g t c ≡ true
    → (str_eq g.kind t.kind && str_eq g.id t.id) ≡ false
    → str_eq g.kind "project" ≡ false
    → any_glob (t.id ∷ []) ctx.changed_paths ≡ true
    → scope_matches g c ctx ≡ true
unfolding delegation_scope_contained scope_matches
globbed_scope-matches g t c ctx k n p h = ground (
  arith,
  any_glob-member (globs_of c.domains g.id) t.id ctx.changed_paths,
  any_glob-member (globs_of c.modules g.id) t.id ctx.changed_paths,
  any_glob-member (globs_of c.features g.id) t.id ctx.changed_paths,
  any_glob-member (g.id ∷ []) t.id ctx.changed_paths,
)

project_scope-matches :
    (g t : ScopeRef) (c : ReviewConfig) (ctx : CompileContext)
    → delegation_scope_contained g t c ≡ true
    → str_eq g.kind "project" ≡ true
    → scope_matches g c ctx ≡ true
unfolding delegation_scope_contained scope_matches
project_scope-matches g t c ctx k p = ground arith

contained_path :
    (g t : ScopeRef) (c : ReviewConfig)
    → delegation_scope_contained g t c ≡ true
    → (str_eq g.kind t.kind && str_eq g.id t.id) ≡ false
    → str_eq g.kind "project" ≡ false
    → t.kind ≡ "path"
unfolding delegation_scope_contained
contained_path g t c k n p = ground (arith, eq_iff t.kind "path")

-- Whenever a change lies in the target scope of a delegation and the target is contained in the
-- grantor's scope, the change lies in the grantor's scope.
pub delegation_scope_contained-matches :
    (grantor target : ScopeRef) (c : ReviewConfig) (ctx : CompileContext)
    → delegation_scope_contained grantor target c ≡ true
    → scope_matches target c ctx ≡ true
    → scope_matches grantor c ctx ≡ true
delegation_scope_contained-matches g t c ctx k h =
    elim (Bool-cases (str_eq g.kind t.kind && str_eq g.id t.id)) [
      | inl e ↦ same_scope-matches g t c ctx e h
      | inr n ↦ elim (Bool-cases (str_eq g.kind "project")) [
        | inl p ↦ project_scope-matches g t c ctx k p
        | inr p ↦
            globbed_scope-matches g t c ctx k n p
              (rw (path_scope-matches t c ctx (contained_path g t c k n p)) at h)
      ]
    ]

validated_contained :
    (d : Delegation) (c : ReviewConfig)
    → validate_delegation d c ≡ none
    → delegation_scope_contained d.grantor_scope d.target_scope c ≡ true
unfolding validate_delegation
validated_contained d c h = ground arith

-- A delegation that validates is authoritative for every change in its target scope.
pub validate_delegation-IsAuthoritative :
    (d : Delegation) (c : ReviewConfig) (ctx : CompileContext)
    → validate_delegation d c ≡ none
    → scope_matches d.target_scope c ctx ≡ true
    → scope_matches d.grantor_scope c ctx ≡ true
validate_delegation-IsAuthoritative d c ctx v h =
    delegation_scope_contained-matches d.grantor_scope d.target_scope c ctx
      (validated_contained d c v) h
