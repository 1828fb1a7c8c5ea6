-- ===== src/Policy/Compile/Laws.antt =====
-- About the results of `Compile` of agent/policy/compile.go.
use review.Base.{
  String, true, ◌&&◌, ◌≡◌, refl, List, [], ◌∷◌, All, eq_iff, arith, Option-cases, Result, ok,
  bind-eq-ok, inl, inr, Option, none, some,
}
use review.Base.Int.{negsuc}
use review.Base.Names.{contains}
use review.Base.Names.Membership.{contains-stable_union}
use review.Policy.Schema.{EffectivePolicy, MethodPack, ReviewConfig, CompileContext, Limits}
use review.Policy.Ceilings.{enforce_runtime_ceilings}
use review.Policy.Ceilings.Laws.{IsCapped, enforce_runtime_ceilings_iff}
use review.Policy.Inheritance.{expand_packs}
use review.Policy.Rules.{apply_rules}
use review.Policy.Validate.{validate}
use review.Policy.Validate.Laws.{validate-IsValid}
use review.Policy.Compile.{
  is_available, keep_available, admit_config, check_available, initial_policy, compile_packs,
  sort_packs, compile, canonical_context, require_gate_coverage,
}
use review.Policy.Compile.Steps.{
  Keeps, Keeps-trans, apply_rules-Keeps, is_selected, Covered, compile_packs-step, sort_packs-All,
}

-- What a compilation went through before it succeeded.
abbrev pub Compiled : ReviewConfig → CompileContext → EffectivePolicy → Type 0
Compiled config ctx e =
    (admit_config config ctx ≡ none)
    × (packs : List MethodPack) × (m : EffectivePolicy) × (expand_packs config.packs ≡ ok packs)
    × (compile_packs config ctx
          (apply_rules (initial_policy config ctx) config config.default_rule_refs (negsuc 0))
          (sort_packs packs)
        ≡ ok m)
    × (e ≡ record (require_gate_coverage m) { digest = e.digest })

module _ (digest_of : ReviewConfig → CompileContext → Result String) (config : ReviewConfig)
    (ctx : CompileContext) (e : EffectivePolicy) where
  pub compile_parts : compile digest_of config ctx ≡ ok e → Compiled config ctx e
  unfolding compile
  compile_parts h = elim (Option-cases (admit_config config ctx)) [
    | inr (er, a) ↦ absurd (let k = (rw a at h) in cc)
    | inl a ↦
        let (packs, x, h1) = bind-eq-ok _ _ (rw a at h) in
        let (m, c, h2) =
          bind-eq-ok
            (compile_packs config ctx
              (apply_rules (initial_policy config ctx) config config.default_rule_refs (negsuc 0))
              (sort_packs packs))
            _ h1 in
        let (digest, d, h3) = bind-eq-ok (digest_of config (canonical_context ctx)) _ h2 in
        (a, packs, m, x, c, ground arith)
  ]

  -- The compiled policy, from the packs that were expanded.
  Keeps-of_parts :
      (packs : List MethodPack) (m : EffectivePolicy)
      → compile_packs config ctx
          (apply_rules (initial_policy config ctx) config config.default_rule_refs (negsuc 0))
          (sort_packs packs)
        ≡ ok m
      → Keeps (initial_policy config ctx) m
        × All (λ pack. is_selected config ctx pack ≡ true → Covered m pack) packs
  Keeps-of_parts packs m h =
      let (k, c) =
        compile_packs-step config ctx (sort_packs packs)
          (apply_rules (initial_policy config ctx) config config.default_rule_refs (negsuc 0)) h in
      (
        Keeps-trans
            (apply_rules-Keeps config (initial_policy config ctx) config.default_rule_refs
              (negsuc 0))
            k,
        sort_packs-All (λ pack. is_selected config ctx pack ≡ true → Covered m pack) packs c,
      )

  -- If a document compiles to an effective policy, the policy requires all the coverage that the
  -- document's own gate asks for and every check of each selected pack, after all delegated
  -- replacements; and its gate requires nothing that is not among its required checks.
  pub compile-IsCovered :
      (packs : List MethodPack)
      → compile digest_of config ctx ≡ ok e
      → expand_packs config.packs ≡ ok packs
      → ((w : String)
          → contains e.quality_gate.required_coverage w ≡ true
          → contains e.required_checks w ≡ true)
        × ((w : String)
            → contains config.quality_gate.required_coverage w ≡ true
            → contains e.quality_gate.required_coverage w ≡ true)
        × All (λ pack. is_selected config ctx pack ≡ true → Covered e pack) packs
  unfolding initial_policy require_gate_coverage
  compile-IsCovered packs h x =
      let (a, packs', m, x', c, eq) = compile_parts h in
      let same : packs' ≡ packs = ground arith in
      let (k, all) = Keeps-of_parts packs' m c in
      rw eq (
        (λ w q.
            ground
              (arith, contains-stable_union m.required_checks m.quality_gate.required_coverage w)),
        k.coverage,
        rw (← same) all,
      )

  keep_available-contains :
      (runtime : Option (List String)) (tools : List String) (w : String)
      → contains (keep_available runtime tools) w ≡ (contains tools w && is_available runtime w)
  unfolding keep_available contains
  keep_available-contains runtime [] w = refl
  keep_available-contains runtime (t ∷ ts) w =
      ground (arith, keep_available-contains runtime ts w, eq_iff t w)

  check_available-available :
      (runtime : Option (List String)) (tools : List String) (w : String)
      → check_available runtime tools ≡ none
      → contains tools w ≡ true
      → is_available runtime w ≡ true
  unfolding check_available contains
  check_available-available runtime [] w h k = cc
  check_available-available runtime (t ∷ ts) w h k =
      ground (arith, check_available-available runtime ts w, eq_iff t w)

  admitted :
      admit_config config ctx ≡ none
      → (validate config ≡ none)
        × (enforce_runtime_ceilings config.limits ctx.runtime_ceilings ≡ none)
        × (check_available ctx.runtime_allowed config.capabilities.required ≡ none)
  unfolding admit_config
  admitted h = ground arith

  -- If a document compiles to an effective policy, the policy has the document's limits, which lie
  -- under the operator's ceilings if there are any; its tools are the allowed ones that the runtime
  -- has; and every required tool is among them.
  pub compile-IsBounded :
      compile digest_of config ctx ≡ ok e
      → (e.limits ≡ config.limits)
        × ((ceilings : Limits) → ctx.runtime_ceilings ≡ some ceilings → IsCapped e.limits ceilings)
        × ((w : String)
            → contains e.allowed_tools w
              ≡ (contains config.capabilities.allowed w && is_available ctx.runtime_allowed w))
        × ((w : String) → contains e.required_tools w ≡ true → contains e.allowed_tools w ≡ true)
  unfolding initial_policy require_gate_coverage
  compile-IsBounded h =
      let (a, packs, m, x, c, eq) = compile_parts h in
      let (k, all) = Keeps-of_parts packs m c in
      let (v, limits, tools) = admitted a in
      let allowed : (w : String)
          → contains m.allowed_tools w
            ≡ (contains config.capabilities.allowed w && is_available ctx.runtime_allowed w) =
        λ w.
          rw k.allowed_tools
            (keep_available-contains ctx.runtime_allowed config.capabilities.allowed w) in
      rw eq (
        k.limits,
        (λ ceilings s.
            rw k.limits ((enforce_runtime_ceilings_iff config.limits ceilings).0 (rw s at limits))),
        allowed,
        λ w r. ground (
          arith,
          allowed w,
          (validate-IsValid config v).capabilities w,
          check_available-available ctx.runtime_allowed config.capabilities.required w tools,
          k.required_tools,
        ),
      )
