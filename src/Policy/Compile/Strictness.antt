-- ===== src/Policy/Compile/Strictness.antt =====
-- When one effective policy is stricter than another, and what a pack asks of one
-- (agent/policy/compile.go).
use review.Base.{
  All, ◌≤◌, String, Bool, true, ◌≡◌, sym, ap, ◌∙◌, subst, ◌⊎◌, List, [], ◌∷◌, ◌++◌, any, Some,
  arith, Bool-cases, inl, inr,
}
use review.Base.Names.{contains}
use mathlib.Core.List.{append-nil, append_assoc}
use review.Policy.Schema.{ResolvedRule, EffectivePolicy, MethodPack}
use review.Policy.Publication.{risk_rank, publication_rank}
use review.Policy.Publication.Laws.{permits}
use review.Policy.Rules.{rule_at}

-- The policy requires the checks of the rules, in the review and at the gate.
abbrev pub Requires : EffectivePolicy → List ResolvedRule → Type 0
Requires e = All (λ (rule : ResolvedRule).
    (w : String)
    → contains rule.checks w ≡ true
    → (contains e.required_checks w ≡ true) × (contains e.quality_gate.required_coverage w ≡ true))

-- The policy requires the checks of each rule it holds.
abbrev pub Honours : EffectivePolicy → Type 0
Honours e = Requires e e.rules

pub Requires-trans :
    (a b : EffectivePolicy) (rules : List ResolvedRule)
    → ((w : String) → contains a.required_checks w ≡ true → contains b.required_checks w ≡ true)
    → ((w : String)
        → contains a.quality_gate.required_coverage w ≡ true
        → contains b.quality_gate.required_coverage w ≡ true)
    → Requires a rules
    → Requires b rules
Requires-trans a b [] f g h = tt
Requires-trans a b (r ∷ rules) f g (h, hs) =
    ((λ w k. (f w (h w k).0, g w (h w k).1)), Requires-trans a b rules f g hs)

pub Requires-append :
    (e : EffectivePolicy) (xs ys : List ResolvedRule)
    → Requires e xs
    → Requires e ys
    → Requires e (xs ++ ys)
Requires-append e [] ys h k = k
Requires-append e (x ∷ xs) ys (h, hs) k = (h, Requires-append e xs ys hs k)

-- `b` is no less strict than `a`, and it requires the checks of its rules if `a` did.
pub record Tightens (a b : EffectivePolicy) : Type 0 where
  pub methods : (w : String) → contains a.methods w ≡ true → contains b.methods w ≡ true
  pub checks :
      (w : String) → contains a.required_checks w ≡ true → contains b.required_checks w ≡ true
  pub risk : risk_rank a.risk_floor ≤ risk_rank b.risk_floor
  pub reviewed : a.independent_review ≡ true → b.independent_review ≡ true
  pub manual : a.publication.manual_required ≡ true → b.publication.manual_required ≡ true
  pub mode : publication_rank a.publication.mode ≤ publication_rank b.publication.mode
  pub classes :
      (w : String)
      → contains b.publication.artifact_classes w ≡ true
      → contains a.publication.artifact_classes w ≡ true
  pub honoured : Honours a → Honours b
  pub rules : (more : List ResolvedRule) × (b.rules ≡ a.rules ++ more)
  pub coverage :
      (w : String)
      → contains a.quality_gate.required_coverage w ≡ true
      → contains b.quality_gate.required_coverage w ≡ true

pub Tightens-refl : (e : EffectivePolicy) → Tightens e e
Tightens-refl e = record {
  methods = λ w h. h;
  checks = λ w h. h;
  risk = omega arith;
  reviewed = λ h. h;
  manual = λ h. h;
  mode = omega arith;
  classes = λ w h. h;
  rules = ([], sym (append-nil e.rules));
  honoured = λ h. h;
  coverage = λ w h. h;
}

pub Tightens-trans : {a b c : EffectivePolicy} → Tightens a b → Tightens b c → Tightens a c
Tightens-trans {a} f g = record {
  methods = λ w h. g.methods w (f.methods w h);
  checks = λ w h. g.checks w (f.checks w h);
  risk = omega (arith, f.risk, g.risk);
  reviewed = λ h. g.reviewed (f.reviewed h);
  manual = λ h. g.manual (f.manual h);
  mode = omega (arith, f.mode, g.mode);
  classes = λ w h. f.classes w (g.classes w h);
  honoured = λ h. g.honoured (f.honoured h);
  rules = (
    f.rules.0 ++ g.rules.0,
    g.rules.1 ∙ ap (λ z. z ++ g.rules.0) f.rules.1 ∙ append_assoc a.rules f.rules.0 g.rules.0,
  );
  coverage = λ w h. g.coverage w (f.coverage w h);
}

-- Among the rules of the policy is one of the path, or the rule that the document holds there.
abbrev pub Selects : List (String × ResolvedRule) → String → EffectivePolicy → Type 0
Selects rules ref e =
    Some (λ (rule : ResolvedRule). (rule.source.path ≡ ref) ⊎ (rule ≡ rule_at ref rules)) e.rules

Some-append_left : {A : Type 0} (P : A → Type 0) (xs ys : List A) → Some P xs → Some P (xs ++ ys)
Some-append_left P [] ys h = absurd h
Some-append_left P (x ∷ xs) ys (inl p) = inl p
Some-append_left P (x ∷ xs) ys (inr h) = inr (Some-append_left P xs ys h)

pub Some-append_right :
    {A : Type 0} (P : A → Type 0) (xs ys : List A) → Some P ys → Some P (xs ++ ys)
Some-append_right P [] ys h = h
Some-append_right P (x ∷ xs) ys h = inr (Some-append_right P xs ys h)

pub Selects-trans :
    (rules : List (String × ResolvedRule)) (ref : String) {a b : EffectivePolicy}
    → Selects rules ref a
    → Tightens a b
    → Selects rules ref b
Selects-trans rules ref {a} {b} h t =
    let P = λ (rule : ResolvedRule). (rule.source.path ≡ ref) ⊎ (rule ≡ rule_at ref rules) in
    subst (λ z. Some P z) (sym t.rules.1) (Some-append_left P a.rules t.rules.0 h)

pub any-Some :
    (p : ResolvedRule → Bool) (P : ResolvedRule → Type 0) (rules : List ResolvedRule)
    → ((r : ResolvedRule) → p r ≡ true → P r)
    → any p rules ≡ true
    → Some P rules
any-Some p P [] f h = absurd (cc)
any-Some p P (r ∷ rs) f h = elim (Bool-cases (p r)) [
  | inl y ↦ inl (f r y)
  | inr n ↦ inr (any-Some p P rs f (ground arith))
]

-- The policy asks for all that the pack asks for: its methods, its checks, in the review and at the
-- gate, its risk floor, an independent and a manual review, a mode of publication no laxer than its
-- own, no artifact class that it does not permit, and a rule for each rule that it names.
pub record Obeys (rules : List (String × ResolvedRule)) (p : MethodPack) (e : EffectivePolicy)
    : Type 0 where
  pub methods : (w : String) → contains p.methods w ≡ true → contains e.methods w ≡ true
  pub checks : (w : String) → contains p.checks w ≡ true → contains e.required_checks w ≡ true
  pub coverage :
      (w : String) → contains p.checks w ≡ true → contains e.quality_gate.required_coverage w ≡ true
  pub risk : risk_rank p.risk_floor ≤ risk_rank e.risk_floor
  pub reviewed : p.independent_review ≡ true → e.independent_review ≡ true
  pub manual : p.publication.manual_required ≡ true → e.publication.manual_required ≡ true
  pub mode : publication_rank p.publication.mode ≤ publication_rank e.publication.mode
  pub classes :
      (w : String)
      → contains e.publication.artifact_classes w ≡ true
      → permits p.publication w ≡ true
  pub ruled : (ref : String) → contains p.rule_refs ref ≡ true → Selects rules ref e

pub Obeys-trans :
    {rules : List (String × ResolvedRule)} {p : MethodPack} {a b : EffectivePolicy}
    → Obeys rules p a
    → Tightens a b
    → Obeys rules p b
Obeys-trans {rules} f g = record {
  methods = λ w h. g.methods w (f.methods w h);
  checks = λ w h. g.checks w (f.checks w h);
  coverage = λ w h. g.coverage w (f.coverage w h);
  risk = omega (arith, f.risk, g.risk);
  reviewed = λ h. g.reviewed (f.reviewed h);
  manual = λ h. g.manual (f.manual h);
  mode = omega (arith, f.mode, g.mode);
  classes = λ w h. f.classes w (g.classes w h);
  ruled = λ ref h. Selects-trans rules ref (f.ruled ref h) g;
}
