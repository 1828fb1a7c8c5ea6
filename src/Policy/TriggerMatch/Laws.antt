-- ===== src/Policy/TriggerMatch/Laws.antt =====
-- About `EvaluateTrigger` of agent/policy/triggers.go.
use review.Base.{
  String, Bool, true, false, not, ◌&&◌, List, [], ◌∷◌, is_empty, str_eq, ◌≡◌, refl, ◌↔◌, ◌⊎◌, inl,
  inr, arith, eq_iff, Bool-cases,
}
use review.Base.Names.{contains, intersects}
use review.Policy.Schema.{Triggers}
use review.Policy.Glob.{glob_match, any_glob}
use review.Policy.TriggerMatch.{TriggerInput, evaluate_trigger}

-- A name that both lists hold.
abbrev pub Meets : List String → List String → Type 0
Meets a b = (w : String) × (contains a w ≡ true) × (contains b w ≡ true)

-- A pattern of the list that matches the name.
abbrev pub Matches : List String → String → Type 0
Matches [] name = ⊥
Matches (pattern ∷ patterns) name = (glob_match pattern name ≡ true) ⊎ Matches patterns name

intersects_iff : (a b : List String) → (intersects a b ≡ true) ↔ Meets a b
unfolding intersects contains
intersects_iff a [] = (λ h. absurd (cc), λ (w, p, q). absurd (cc))
intersects_iff a (v ∷ b) = (
  λ h. elim (Bool-cases (contains a v)) [
    | inl c ↦ (v, c, ground (arith, (eq_iff v v).1 refl))
    | inr c ↦ let (w, p, q) = (intersects_iff a b).0 (ground arith) in (w, p, ground arith)
  ],
  λ (w, p, q). elim (Bool-cases (str_eq v w)) [
    | inl e ↦ let k = (rw (← (eq_iff v w).0 e) at p) in ground arith
    | inr e ↦ let r = (intersects_iff a b).1 (w, p, ground arith) in ground arith
  ],
)

any_glob_iff :
    (ps : List String) (name : String) → (any_glob ps (name ∷ []) ≡ true) ↔ Matches ps name
unfolding any_glob
any_glob_iff [] name = (λ h. cc, λ h. absurd h)
any_glob_iff (p ∷ ps) name = (
  λ h. elim (Bool-cases (glob_match p name)) [
    | inl m ↦ inl m
    | inr m ↦ inr ((any_glob_iff ps name).0 (ground arith))
  ],
  λ h. elim h [ inl m ↦ ground arith | inr r ↦ let k = (any_glob_iff ps name).1 r in ground arith ],
)

-- When a change starts a review by itself.
pub record IsTrusted (t : Triggers) (input : TriggerInput) : Type 0 where
  pub enabled : t.enabled ≡ true
  pub update : (input.is_update ≡ false) ⊎ (t.on_updates ≡ true)
  pub draft : (input.is_draft ≡ false) ⊎ (t.include_drafts ≡ true)
  pub branch_kept : Matches t.exclude_branches input.branch → ⊥
  pub author_kept : contains t.exclude_authors input.author ≡ false
  pub labels_kept : Meets t.exclude_labels input.labels → ⊥
  pub branch : (t.include_branches ≡ []) ⊎ Matches t.include_branches input.branch
  pub author : (t.include_authors ≡ []) ⊎ (contains t.include_authors input.author ≡ true)
  pub labels : (t.include_labels ≡ []) ⊎ Meets t.include_labels input.labels

module _ {P : Type 0} (b : Bool) where
  empty_or :
      (xs : List String) → (b ≡ true → P) → (not (is_empty xs) && not b) ≡ false → (xs ≡ []) ⊎ P
  empty_or [] f h = inl refl
  empty_or (x ∷ xs) f h = inr (f (ground arith))

  or_empty :
      (xs : List String) → (P → b ≡ true) → (xs ≡ []) ⊎ P → (not (is_empty xs) && not b) ≡ false
  or_empty [] f h = refl
  or_empty (x ∷ xs) f (inl e) = absurd (cc)
  or_empty (x ∷ xs) f (inr e) = let k = f e in ground arith

not_of : {P : Type 0} (b : Bool) → (b ≡ true → P) → (P → ⊥) → b ≡ false
not_of true f n = absurd (n (f refl))
not_of false f n = refl

module _ (t : Triggers) (input : TriggerInput) where
  Trusted_of : (evaluate_trigger t input).accepted ≡ true → IsTrusted t input
  unfolding evaluate_trigger
  Trusted_of h = record {
    enabled = ground arith;
    update = ground arith;
    draft = ground arith;
    branch_kept = λ m. let k = (any_glob_iff t.exclude_branches input.branch).1 m in ground arith;
    author_kept = ground arith;
    labels_kept = λ m. let k = (intersects_iff t.exclude_labels input.labels).1 m in ground arith;
    branch =
        empty_or (any_glob t.include_branches (input.branch ∷ [])) t.include_branches
          ((any_glob_iff t.include_branches input.branch).0) (ground arith);
    author =
        empty_or (contains t.include_authors input.author) t.include_authors (λ e. e)
          (ground arith);
    labels =
        empty_or (intersects t.include_labels input.labels) t.include_labels
          ((intersects_iff t.include_labels input.labels).0) (ground arith);
  }

  of_Trusted : IsTrusted t input → (evaluate_trigger t input).accepted ≡ true
  unfolding evaluate_trigger
  of_Trusted a =
      let e1 =
        not_of (any_glob t.exclude_branches (input.branch ∷ []))
          ((any_glob_iff t.exclude_branches input.branch).0) a.branch_kept in
      let e2 =
        not_of (intersects t.exclude_labels input.labels)
          ((intersects_iff t.exclude_labels input.labels).0) a.labels_kept in
      let i1 =
        or_empty (any_glob t.include_branches (input.branch ∷ [])) t.include_branches
          ((any_glob_iff t.include_branches input.branch).1) a.branch in
      let i2 =
        or_empty (contains t.include_authors input.author) t.include_authors (λ e. e) a.author in
      let i3 =
        or_empty (intersects t.include_labels input.labels) t.include_labels
          ((intersects_iff t.include_labels input.labels).1) a.labels in
      ground (arith, a.enabled, a.author_kept)

  -- A change starts a review by itself exactly if triggers are enabled, it is neither an update nor a
  -- draft that they leave out, nothing excludes its branch, its author or one of its labels, and each
  -- include set that is not empty holds its branch, its author or one of its labels.
  pub evaluate_trigger_iff : ((evaluate_trigger t input).accepted ≡ true) ↔ IsTrusted t input
  evaluate_trigger_iff = (Trusted_of, of_Trusted)
