-- ===== src/Policy/Compile/Applying.antt =====
-- About the rules and packs that `Compile` of agent/policy/compile.go applies to a policy.
use review.Base.{
  String, true, ◌≡◌, refl, sym, subst, ◌⊎◌, List, [], ◌∷◌, ◌++◌, any, str_eq, eq_iff, arith,
  Bool-cases, inl, inr,
}
use review.Base.Int.{ℤ}
use review.Base.Names.{contains}
use review.Base.Names.Membership.{contains-stable_union}
use mathlib.Core.List.{append-nil}
use review.Policy.Schema.{ResolvedRule, EffectivePolicy, MethodPack, ReviewConfig}
use review.Policy.Publication.Laws.{restrictive_publication_strict}
use review.Policy.Rules.{apply_rule, apply_rules, add_rule, rule_at}
use review.Policy.Compile.{apply_pack}
use review.Policy.Compile.Strictness.{
  Honours, Requires-trans, Requires-append, Tightens, Tightens-refl, Tightens-trans, Selects,
  Some-append_right, Selects-trans, any-Some, Obeys,
}

module _ (config : ReviewConfig) where
  apply_rule-appends :
      (e : EffectivePolicy) (ref : String) (priority : ℤ)
      → (more : List ResolvedRule) × ((apply_rule e config ref priority).rules ≡ e.rules ++ more)
  unfolding apply_rule add_rule
  apply_rule-appends e ref priority =
      elim (Bool-cases (any (λ (old : ResolvedRule). str_eq old.source.path ref) e.rules)) [
        | inl old ↦ rw old ([], sym (append-nil e.rules))
        | inr new_one ↦ rw new_one (rule_at ref config.rules ∷ [], refl)
      ]

  add_rule-Honours :
      (e : EffectivePolicy) (ref : String) (priority : ℤ) (rule : ResolvedRule)
      → Honours e
      → Honours (add_rule e config ref priority rule)
  unfolding add_rule
  add_rule-Honours e ref priority rule h =
      let b = add_rule e config ref priority rule in
      let gate = e.quality_gate.required_coverage in
      Requires-append b e.rules (rule ∷ [])
        (Requires-trans e b e.rules
          (λ w k. ground (arith, contains-stable_union e.required_checks rule.checks w))
          (λ w k. ground (arith, contains-stable_union gate rule.checks w)) h)
        (
          (λ w k. (
            ground (arith, contains-stable_union e.required_checks rule.checks w),
            ground (arith, contains-stable_union gate rule.checks w),
          )),
          tt,
        )

  apply_rule-Honours :
      (e : EffectivePolicy) (ref : String) (priority : ℤ)
      → Honours e
      → Honours (apply_rule e config ref priority)
  unfolding apply_rule
  apply_rule-Honours e ref priority h =
      elim (Bool-cases (any (λ (old : ResolvedRule). str_eq old.source.path ref) e.rules)) [
        | inl old ↦ rw old h
        | inr new_one ↦ rw new_one (add_rule-Honours e ref priority (rule_at ref config.rules) h)
      ]

  apply_rule-Selects :
      (e : EffectivePolicy) (ref : String) (priority : ℤ)
      → Selects config.rules ref (apply_rule e config ref priority)
  unfolding apply_rule add_rule
  apply_rule-Selects e ref priority =
      let P =
        λ (rule : ResolvedRule). (rule.source.path ≡ ref) ⊎ (rule ≡ rule_at ref config.rules) in
      elim (Bool-cases (any (λ (old : ResolvedRule). str_eq old.source.path ref) e.rules)) [
        | inl old ↦ rw old (
            any-Some (λ (old : ResolvedRule). str_eq old.source.path ref) P e.rules
              (λ r h. inl ((eq_iff r.source.path ref).0 h)) old)
        | inr new_one ↦
            rw new_one
              (Some-append_right P e.rules (rule_at ref config.rules ∷ []) (inl (inr refl)))
      ]

  apply_rule-Tightens :
      (e : EffectivePolicy) (ref : String) (priority : ℤ)
      → Tightens e (apply_rule e config ref priority)
  unfolding apply_rule add_rule
  apply_rule-Tightens e ref priority = record {
    methods = λ w h. ground arith;
    checks = λ w h.
        ground (arith, contains-stable_union e.required_checks (rule_at ref config.rules).checks w);
    risk = ground arith;
    reviewed = λ h. ground arith;
    manual = λ h. ground arith;
    mode = ground arith;
    classes = λ w h. ground arith;
    rules = apply_rule-appends e ref priority;
    honoured = apply_rule-Honours e ref priority;
    coverage = λ w h. ground (
      arith,
      contains-stable_union e.quality_gate.required_coverage (rule_at ref config.rules).checks w,
    );
  }

  pub apply_rules-Tightens :
      (e : EffectivePolicy) (refs : List String) (priority : ℤ)
      → Tightens e (apply_rules e config refs priority)
  unfolding apply_rules
  apply_rules-Tightens e [] priority = Tightens-refl e
  apply_rules-Tightens e (ref ∷ refs) priority =
      Tightens-trans (apply_rule-Tightens e ref priority)
        (apply_rules-Tightens (apply_rule e config ref priority) refs priority)

  apply_rules-Selects :
      (e : EffectivePolicy) (refs : List String) (priority : ℤ) (ref : String)
      → contains refs ref ≡ true
      → Selects config.rules ref (apply_rules e config refs priority)
  unfolding apply_rules contains
  apply_rules-Selects e [] priority ref h = absurd (cc)
  apply_rules-Selects e (r ∷ refs) priority ref h = elim (Bool-cases (str_eq r ref)) [
    | inl same ↦
        Selects-trans config.rules ref
          (subst (λ z. Selects config.rules z (apply_rule e config r priority))
            ((eq_iff r ref).0 same) (apply_rule-Selects e r priority))
          (apply_rules-Tightens (apply_rule e config r priority) refs priority)
    | inr other ↦
        apply_rules-Selects (apply_rule e config r priority) refs priority ref (ground arith)
  ]

  abbrev ruled : EffectivePolicy → MethodPack → EffectivePolicy
  ruled e pack =
      apply_rules (record e { matched_packs = e.matched_packs ++ pack.id ∷ [] }) config
        pack.rule_refs pack.priority

  pub apply_pack-Tightens :
      (e : EffectivePolicy) (pack : MethodPack) → Tightens e (apply_pack e config pack)
  unfolding apply_pack
  apply_pack-Tightens e pack =
      let r = ruled e pack in
      let k =
        apply_rules-Tightens (record e { matched_packs = e.matched_packs ++ pack.id ∷ [] })
          pack.rule_refs pack.priority in
      let strict = restrictive_publication_strict r.publication pack.publication in
      record {
        methods =
            λ w h. ground (arith, k.methods w, contains-stable_union r.methods pack.methods w);
        checks = λ w h.
            ground (arith, k.checks w, contains-stable_union r.required_checks pack.checks w);
        risk = ground (arith, k.risk);
        reviewed = λ h. ground (arith, k.reviewed);
        manual = λ h. ground (arith, k.manual, strict "");
        mode = ground (arith, k.mode, strict "");
        classes = λ w h. ground (arith, k.classes w, strict w);
        rules = k.rules;
        honoured = λ h.
            Requires-trans r (apply_pack e config pack) r.rules
              (λ w m. ground (arith, contains-stable_union r.required_checks pack.checks w))
              (λ w m.
                ground
                  (arith, contains-stable_union r.quality_gate.required_coverage pack.checks w))
              (k.honoured h);
        coverage = λ w h. ground (
          arith,
          k.coverage w,
          contains-stable_union r.quality_gate.required_coverage pack.checks w,
        );
      }

  pub apply_pack-Obeys :
      (e : EffectivePolicy) (pack : MethodPack) → Obeys config.rules pack (apply_pack e config pack)
  unfolding apply_pack
  apply_pack-Obeys e pack =
      let r = ruled e pack in
      let strict = restrictive_publication_strict r.publication pack.publication in
      record {
        methods = λ w h. ground (arith, contains-stable_union r.methods pack.methods w);
        checks = λ w h. ground (arith, contains-stable_union r.required_checks pack.checks w);
        risk = ground arith;
        reviewed = λ h. ground arith;
        manual = λ h. ground (arith, strict "");
        mode = ground (arith, strict "");
        coverage = λ w h.
            ground (arith, contains-stable_union r.quality_gate.required_coverage pack.checks w);
        classes = λ w h. ground (arith, strict w);
        ruled = λ ref h.
            apply_rules-Selects (record e { matched_packs = e.matched_packs ++ pack.id ∷ [] })
              pack.rule_refs pack.priority ref h;
      }
