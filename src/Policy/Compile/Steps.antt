-- ===== src/Policy/Compile/Steps.antt =====
-- About the rounds of the loop in `Compile` of agent/policy/compile.go, delegated ones included.
use review.Base.{
  String, Bool, true, ◌||◌, ◌&&◌, ◌≡◌, refl, ◌∙◌, List, [], ◌∷◌, ◌++◌, All, str_eq, arith,
  Bool-cases, ok, bind-eq-ok, inl, inr,
}
use review.Base.Int.{ℤ}
use review.Base.Names.{contains}
use review.Base.Names.Membership.{contains-stable_union}
use review.Base.Time.{Time}
use review.Policy.Schema.{EffectivePolicy, MethodPack, Delegation, ReviewConfig, CompileContext}
use review.Policy.Scopes.{pack_matches, scope_matches}
use review.Policy.Rules.{apply_rule, apply_rules, add_rule, rule_at}
use review.Policy.Replacement.{replace_fields, apply_delegated_replacement}
use review.Policy.Compile.{
  apply_pack, delegation_of, compile_delegated, compile_pack, compile_packs, insert_pack,
  sort_packs, pack_before,
}

-- `b` requires all the gate coverage of `a`, with the limits and the tools of `a`.
pub record Keeps (a b : EffectivePolicy) : Type 0 where
  pub coverage :
      (w : String)
      → contains a.quality_gate.required_coverage w ≡ true
      → contains b.quality_gate.required_coverage w ≡ true
  pub limits : b.limits ≡ a.limits
  pub allowed_tools : b.allowed_tools ≡ a.allowed_tools
  pub required_tools : b.required_tools ≡ a.required_tools
  pub gate_mode : b.gate_mode ≡ a.gate_mode

pub Keeps-refl : (e : EffectivePolicy) → Keeps e e
Keeps-refl e = record {
  coverage = λ w h. h;
  limits = refl;
  allowed_tools = refl;
  required_tools = refl;
  gate_mode = refl;
}

pub Keeps-trans : {a b c : EffectivePolicy} → Keeps a b → Keeps b c → Keeps a c
Keeps-trans f g = record {
  coverage = λ w h. g.coverage w (f.coverage w h);
  limits = g.limits ∙ f.limits;
  allowed_tools = g.allowed_tools ∙ f.allowed_tools;
  required_tools = g.required_tools ∙ f.required_tools;
  gate_mode = g.gate_mode ∙ f.gate_mode;
}

module _ (config : ReviewConfig) where
  apply_rule-Keeps :
      (e : EffectivePolicy) (ref : String) (priority : ℤ)
      → Keeps e (apply_rule e config ref priority)
  unfolding apply_rule add_rule
  apply_rule-Keeps e ref priority = record {
    coverage = λ w h. ground (
      arith,
      contains-stable_union e.quality_gate.required_coverage (rule_at ref config.rules).checks w,
    );
    limits = ground arith;
    allowed_tools = ground arith;
    required_tools = ground arith;
    gate_mode = ground arith;
  }

  pub apply_rules-Keeps :
      (e : EffectivePolicy) (refs : List String) (priority : ℤ)
      → Keeps e (apply_rules e config refs priority)
  unfolding apply_rules
  apply_rules-Keeps e [] priority = Keeps-refl e
  apply_rules-Keeps e (ref ∷ refs) priority =
      Keeps-trans (apply_rule-Keeps e ref priority)
        (apply_rules-Keeps (apply_rule e config ref priority) refs priority)

  -- What a pack is applied to, once its rules are.
  abbrev ruled : EffectivePolicy → MethodPack → EffectivePolicy
  ruled e pack =
      apply_rules (record e { matched_packs = e.matched_packs ++ pack.id ∷ [] }) config
        pack.rule_refs pack.priority

  apply_pack-Keeps : (e : EffectivePolicy) (pack : MethodPack) → Keeps e (apply_pack e config pack)
  unfolding apply_pack
  apply_pack-Keeps e pack =
      let k =
        apply_rules-Keeps (record e { matched_packs = e.matched_packs ++ pack.id ∷ [] })
          pack.rule_refs pack.priority in
      record {
        coverage = λ w h. ground (
          arith,
          k.coverage w,
          contains-stable_union (ruled e pack).quality_gate.required_coverage pack.checks w,
        );
        limits = k.limits;
        allowed_tools = k.allowed_tools;
        required_tools = k.required_tools;
        gate_mode = k.gate_mode;
      }

  apply_pack-covers :
      (e : EffectivePolicy) (pack : MethodPack) (w : String)
      → contains pack.checks w ≡ true
      → contains (apply_pack e config pack).quality_gate.required_coverage w ≡ true
  unfolding apply_pack
  apply_pack-covers e pack w h =
      ground
        (arith, contains-stable_union (ruled e pack).quality_gate.required_coverage pack.checks w)

replace_fields-Keeps :
    (e : EffectivePolicy) (pack : MethodPack) (d : Delegation) → Keeps e (replace_fields e pack d)
unfolding replace_fields
replace_fields-Keeps e pack d = record {
  coverage = λ w h. h;
  limits = refl;
  allowed_tools = refl;
  required_tools = refl;
  gate_mode = refl;
}

pub apply_delegated_replacement-Keeps :
    (e : EffectivePolicy) (pack : MethodPack) (d : Delegation) (at : Time) {e' : EffectivePolicy}
    → apply_delegated_replacement e pack d at ≡ ok e'
    → Keeps e e'
unfolding apply_delegated_replacement
apply_delegated_replacement-Keeps e pack d at {e'} h =
    let eq : replace_fields e pack d ≡ e' = ground arith in
    rw (← eq) (replace_fields-Keeps e pack d)

-- The pack matches the change, and so does the target of its delegation if it has one.
abbrev pub is_selected : ReviewConfig → CompileContext → MethodPack → Bool
is_selected config ctx pack =
    pack_matches pack.match config ctx
    && (str_eq pack.delegation_id ""
        || scope_matches (delegation_of config pack.delegation_id).target_scope config ctx)

-- Every check of the pack is gate coverage.
abbrev pub Covered : EffectivePolicy → MethodPack → Type 0
Covered e pack =
    (w : String)
    → contains pack.checks w ≡ true
    → contains e.quality_gate.required_coverage w ≡ true

module _ (config : ReviewConfig) (ctx : CompileContext) where
  compile_delegated-step :
      (e : EffectivePolicy) (pack : MethodPack) (d : Delegation) {e' : EffectivePolicy}
      → compile_delegated config ctx e pack d ≡ ok e'
      → Keeps e e' × (scope_matches d.target_scope config ctx ≡ true → Covered e' pack)
  unfolding compile_delegated
  compile_delegated-step e pack d {e'} h =
      elim (Bool-cases (scope_matches d.target_scope config ctx)) [
        | inl t ↦ elim (Bool-cases (scope_matches d.grantor_scope config ctx)) [
          | inl g ↦
              let (r, q, k) = bind-eq-ok _ _ (rw (t, g) at h) in
              let eq : apply_pack r config pack ≡ e' = ground arith in
              (
                rw (← eq) (
                    Keeps-trans (apply_delegated_replacement-Keeps e pack d ctx.evaluation_time q)
                      (apply_pack-Keeps config r pack)),
                λ s. rw (← eq) (apply_pack-covers config r pack),
              )
          | inr g ↦ absurd (ground arith)
        ]
        | inr t ↦ let eq : e ≡ e' = ground arith in (rw (← eq) (Keeps-refl e), λ s. cc)
      ]

  compile_pack-step :
      (e : EffectivePolicy) (pack : MethodPack) {e' : EffectivePolicy}
      → compile_pack config ctx e pack ≡ ok e'
      → Keeps e e' × (is_selected config ctx pack ≡ true → Covered e' pack)
  unfolding compile_pack
  compile_pack-step e pack {e'} h = elim (Bool-cases (pack_matches pack.match config ctx)) [
    | inr m ↦ let eq : e ≡ e' = ground arith in (rw (← eq) (Keeps-refl e), λ s. ground arith)
    | inl m ↦ elim (Bool-cases (str_eq pack.delegation_id "")) [
      | inl own ↦
          let eq : apply_pack e config pack ≡ e' = ground arith in
          (
            rw (← eq) (apply_pack-Keeps config e pack),
            λ s. rw (← eq) (apply_pack-covers config e pack),
          )
      | inr named ↦
          let (k, c) =
            compile_delegated-step e pack (delegation_of config pack.delegation_id)
              (rw (m, named) at h) in
          (k, λ s. c (ground arith))
    ]
  ]

  pub compile_packs-step :
      (packs : List MethodPack) (e : EffectivePolicy) {e' : EffectivePolicy}
      → compile_packs config ctx e packs ≡ ok e'
      → Keeps e e' × All (λ pack. is_selected config ctx pack ≡ true → Covered e' pack) packs
  unfolding compile_packs
  compile_packs-step [] e {e'} h = let eq : e ≡ e' = ground arith in (rw (← eq) (Keeps-refl e), tt)
  compile_packs-step (pack ∷ packs) e {e'} h =
      let (m, first, more) = bind-eq-ok _ _ h in
      let (k, c) = compile_pack-step e pack first in
      let (k', cs) = compile_packs-step packs m more in
      (Keeps-trans k k', (λ s w q. k'.coverage w (c s w q), cs))

insert_pack-All :
    (P : MethodPack → Type 0) (p : MethodPack) (qs : List MethodPack)
    → All P (insert_pack p qs)
    → P p × All P qs
unfolding insert_pack
insert_pack-All P p [] h = h
insert_pack-All P p (q ∷ qs) h = elim (Bool-cases (pack_before q p)) [
  | inl b ↦
      let (hq, rest) = rw (b, insert_pack) at h in
      let (hp, hqs) = insert_pack-All P p qs rest in (hp, (hq, hqs))
  | inr b ↦ rw (b, insert_pack) at h
]

-- What holds of every sorted pack holds of every pack.
pub sort_packs-All :
    (P : MethodPack → Type 0) (packs : List MethodPack) → All P (sort_packs packs) → All P packs
unfolding sort_packs
sort_packs-All P [] h = tt
sort_packs-All P (p ∷ ps) h =
    let (hp, rest) = insert_pack-All P p (sort_packs ps) h in (hp, sort_packs-All P ps rest)

All-insert_pack :
    (P : MethodPack → Type 0) (p : MethodPack) (qs : List MethodPack)
    → P p
    → All P qs
    → All P (insert_pack p qs)
unfolding insert_pack
All-insert_pack P p [] h hs = (h, tt)
All-insert_pack P p (q ∷ qs) h (k, ks) = elim (Bool-cases (pack_before q p)) [
  | inl b ↦ rw (b, insert_pack) (k, All-insert_pack P p qs h ks)
  | inr b ↦ rw (b, insert_pack) (h, (k, ks))
]

-- What holds of every pack holds of every sorted pack.
pub All-sort_packs :
    (P : MethodPack → Type 0) (packs : List MethodPack) → All P packs → All P (sort_packs packs)
unfolding sort_packs
All-sort_packs P [] h = tt
All-sort_packs P (p ∷ ps) (h, hs) = All-insert_pack P p (sort_packs ps) h (All-sort_packs P ps hs)
