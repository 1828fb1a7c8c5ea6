-- ===== src/Policy/Compile/Tightening.antt =====
-- About `Compile` of agent/policy/compile.go where no pack names a delegation.
use review.Base.{
  String, true, ◌≡◌, sym, List, [], ◌∷◌, All, eq_iff, arith, Bool-cases, Result, ok, bind-eq-ok,
  inl, inr,
}
use review.Base.Int.{negsuc}
use review.Base.Names.Membership.{contains-stable_union}
use mathlib.Core.List.{append-nil}
use review.Policy.Schema.{EffectivePolicy, MethodPack, ReviewConfig, CompileContext}
use review.Policy.Scopes.{pack_matches}
use review.Policy.Rules.{apply_rules}
use review.Policy.Inheritance.{expand_packs}
use review.Policy.Compile.{
  apply_pack, compile_pack, compile_packs, sort_packs, initial_policy, require_gate_coverage,
  compile,
}
use review.Policy.Compile.Steps.{sort_packs-All, All-sort_packs}
use review.Policy.Compile.Laws.{compile_parts}
use review.Policy.Compile.Applying.{apply_rules-Tightens, apply_pack-Tightens, apply_pack-Obeys}
use review.Policy.Compile.Strictness.{
  Honours, Requires-trans, Tightens, Tightens-refl, Tightens-trans, Obeys, Obeys-trans,
}

-- No pack names a delegation.
abbrev pub Undelegated : List MethodPack → Type 0
Undelegated = All (λ (pack : MethodPack). pack.delegation_id ≡ "")

module _ (config : ReviewConfig) (ctx : CompileContext) where
  abbrev ObeyedBy : EffectivePolicy → List MethodPack → Type 0
  ObeyedBy e = All (λ pack. pack_matches pack.match config ctx ≡ true → Obeys config.rules pack e)

  compile_pack-Tightens :
      (e : EffectivePolicy) (pack : MethodPack) {e' : EffectivePolicy}
      → pack.delegation_id ≡ ""
      → compile_pack config ctx e pack ≡ ok e'
      → Tightens e e' × (pack_matches pack.match config ctx ≡ true → Obeys config.rules pack e')
  unfolding compile_pack
  compile_pack-Tightens e pack {e'} own h = elim (Bool-cases (pack_matches pack.match config ctx)) [
    | inr m ↦
        let eq : e ≡ e' = ground arith in (rw (← eq) (Tightens-refl e), λ s. absurd (ground arith))
    | inl m ↦
        let eq : apply_pack e config pack ≡ e' = ground (arith, eq_iff pack.delegation_id "") in
        (
          rw (← eq) (apply_pack-Tightens config e pack),
          λ s. rw (← eq) (apply_pack-Obeys config e pack),
        )
  ]

  compile_packs-Tightens :
      (packs : List MethodPack) (e : EffectivePolicy) {e' : EffectivePolicy}
      → Undelegated packs
      → compile_packs config ctx e packs ≡ ok e'
      → Tightens e e' × ObeyedBy e' packs
  unfolding compile_packs
  compile_packs-Tightens [] e {e'} u h =
      let eq : e ≡ e' = ground arith in (rw (← eq) (Tightens-refl e), tt)
  compile_packs-Tightens (pack ∷ packs) e {e'} (own, u) h =
      let (m, first, more) = bind-eq-ok _ _ h in
      let (t, o) = compile_pack-Tightens e pack own first in
      let (t', os) = compile_packs-Tightens packs m u more in
      (Tightens-trans t t', ((λ s. Obeys-trans (o s) t'), os))

  ObeyedBy-Tightens :
      {a b : EffectivePolicy} (packs : List MethodPack)
      → Tightens a b
      → ObeyedBy a packs
      → ObeyedBy b packs
  ObeyedBy-Tightens [] t h = tt
  ObeyedBy-Tightens (p ∷ ps) t (h, hs) = ((λ s. Obeys-trans (h s) t), ObeyedBy-Tightens ps t hs)

  finish-Tightens :
      (m : EffectivePolicy) (digest : String)
      → Tightens m (record (require_gate_coverage m) { digest = digest })
  unfolding require_gate_coverage
  finish-Tightens m digest = record {
    methods = λ w h. h;
    checks = λ w h.
        ground (arith, contains-stable_union m.required_checks m.quality_gate.required_coverage w);
    risk = omega arith;
    reviewed = λ h. h;
    manual = λ h. h;
    mode = omega arith;
    classes = λ w h. h;
    rules = ([], sym (append-nil m.rules));
    honoured = λ h.
        Requires-trans m (record (require_gate_coverage m) { digest = digest }) m.rules
          (λ w k.
            ground
              (arith, contains-stable_union m.required_checks m.quality_gate.required_coverage w))
          (λ w k. k) h;
    coverage = λ w h. h;
  }

  -- If a document none of whose expanded packs names a delegation compiles to an effective policy,
  -- then the policy is at least as strict as the document's defaults, and it asks for all that each
  -- expanded pack that matches the change asks for: methods, checks, coverage, risk, reviews, the mode
  -- and the artifact classes of publication, and a rule for each rule it names, of the same path or the
  -- one that the document holds there. The checks of every rule it holds are required too.
  pub compile-Tightens :
      (digest_of : ReviewConfig → CompileContext → Result String) (e : EffectivePolicy)
      (packs : List MethodPack)
      → compile digest_of config ctx ≡ ok e
      → expand_packs config.packs ≡ ok packs
      → Undelegated packs
      → Tightens (initial_policy config ctx) e × ObeyedBy e packs × Honours e
  unfolding initial_policy
  compile-Tightens digest_of e packs h x u =
      let (a, packs', m, x', c, eq) = compile_parts digest_of config ctx e h in
      let same : packs' ≡ packs = ground arith in
      let start = initial_policy config ctx in
      let rules = apply_rules-Tightens config start config.default_rule_refs (negsuc 0) in
      let (t, o) =
        compile_packs-Tightens (sort_packs packs)
          (apply_rules start config config.default_rule_refs (negsuc 0))
          (All-sort_packs (λ pack. pack.delegation_id ≡ "") packs u) (rw same at c) in
      let done : Tightens m e = rw eq (finish-Tightens m e.digest) in
      let whole = Tightens-trans rules (Tightens-trans t done) in
      (
        whole,
        ObeyedBy-Tightens packs done (
            sort_packs-All
              (λ pack. pack_matches pack.match config ctx ≡ true → Obeys config.rules pack m) packs
              o),
        whole.honoured tt,
      )
