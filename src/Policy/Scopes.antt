-- ===== src/Policy/Scopes.antt =====
-- agent/policy/compile.go: which packs a change selects, and which scopes it lies in.
use review.Base.{
  String, Bool, true, false, ◌||◌, ◌&&◌, List, [], ◌∷◌, str_eq, if◌then◌else◌, Option, none, some,
}
use review.Base.Names.{contains, intersects}
use review.Policy.Schema.{lookup, Match, ScopeRef, ReviewConfig, CompileContext}
use review.Policy.Glob.{any_glob}

-- `mappings[id]`, where a missing key reads nil
unfoldable pub globs_of : List (String × List String) → String → List String
unfolding lookup
globs_of mappings id = elim (lookup id mappings) [ none ↦ [] | some globs ↦ globs ]

-- `anyScopeMapping`
unfoldable pub any_scope_mapping : List String → List (String × List String) → List String → Bool
any_scope_mapping [] mappings paths = false
any_scope_mapping (id ∷ ids) mappings paths =
    any_glob (globs_of mappings id) paths || any_scope_mapping ids mappings paths

-- A family that the pack does not declare is not asked; a declared one joins `families`.
abbrev pub family : Option (List String) → (List String → Bool) → Bool
family none test = true
family (some values) test = test values

-- `packMatches`
unfoldable pub pack_matches : Match → ReviewConfig → CompileContext → Bool
pack_matches m c ctx =
    family m.domains (λ ids. any_scope_mapping ids c.domains ctx.changed_paths)
    && family m.modules (λ ids. any_scope_mapping ids c.modules ctx.changed_paths)
    && family m.features (λ ids. any_scope_mapping ids c.features ctx.changed_paths)
    && family m.paths (λ globs. any_glob globs ctx.changed_paths)
    && family m.branches (λ globs. any_glob globs (ctx.branch ∷ []))
    && family m.authors (λ authors. contains authors ctx.author)
    && family m.labels (λ labels. intersects labels ctx.labels)

-- `scopeMatches`
unfoldable pub scope_matches : ScopeRef → ReviewConfig → CompileContext → Bool
scope_matches scope c ctx =
    if str_eq scope.kind "project"
    then str_eq c.project_id "" || str_eq scope.id c.project_id
    else if str_eq scope.kind "domain"
    then any_glob (globs_of c.domains scope.id) ctx.changed_paths
    else if str_eq scope.kind "module"
    then any_glob (globs_of c.modules scope.id) ctx.changed_paths
    else if str_eq scope.kind "feature"
    then any_glob (globs_of c.features scope.id) ctx.changed_paths
    else if str_eq scope.kind "path"
    then any_glob (scope.id ∷ []) ctx.changed_paths
    else false
