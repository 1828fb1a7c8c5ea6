-- ===== src/Policy/Inheritance/Covers.antt =====
-- When one pack asks for at least what another asks for.
use review.Base.{◌≤◌, String, true, ◌||◌, ◌≡◌, arith}
use review.Base.Names.{contains}
use review.Base.Names.Membership.{contains-stable_union}
use review.Policy.Schema.{MethodPack}
use review.Policy.Publication.{risk_rank, publication_rank, restricts, restrictive_publication}
use review.Policy.Publication.Laws.{permits, restrictive_publication_strict, stricter_mode_least}
use review.Policy.Inheritance.{all_classes, without_obligations, merge_pack}

-- Every obligation of `p` is one of `o`, and `o` is no less strict.
pub record Covers (p o : MethodPack) : Type 0 where
  pub methods : (w : String) → contains p.methods w ≡ true → contains o.methods w ≡ true
  pub checks : (w : String) → contains p.checks w ≡ true → contains o.checks w ≡ true
  pub rule_refs : (w : String) → contains p.rule_refs w ≡ true → contains o.rule_refs w ≡ true
  pub risk : risk_rank p.risk_floor ≤ risk_rank o.risk_floor
  pub reviewed : p.independent_review ≡ true → o.independent_review ≡ true
  pub manual : p.publication.manual_required ≡ true → o.publication.manual_required ≡ true
  pub mode : publication_rank p.publication.mode ≤ publication_rank o.publication.mode
  pub classes :
      (w : String)
      → contains all_classes w ≡ true
      → permits o.publication w ≡ true
      → permits p.publication w ≡ true

pub Covers-refl : (p : MethodPack) → Covers p p
Covers-refl p = record {
  methods = λ w h. h;
  checks = λ w h. h;
  rule_refs = λ w h. h;
  risk = omega arith;
  reviewed = λ h. h;
  manual = λ h. h;
  mode = omega arith;
  classes = λ w k h. h;
}

pub Covers-trans : {p q o : MethodPack} → Covers p q → Covers q o → Covers p o
Covers-trans a b = record {
  methods = λ w h. b.methods w (a.methods w h);
  checks = λ w h. b.checks w (a.checks w h);
  rule_refs = λ w h. b.rule_refs w (a.rule_refs w h);
  risk = omega (arith, a.risk, b.risk);
  reviewed = λ h. b.reviewed (a.reviewed h);
  manual = λ h. b.manual (a.manual h);
  mode = omega (arith, a.mode, b.mode);
  classes = λ w k h. a.classes w k (b.classes w k h);
}

-- A merge restricts the classes if either side does.
pub merge_pack-restricts :
    (e p : MethodPack)
    → restricts e.publication || restricts p.publication ≡ true
    → restricts (merge_pack e p).publication ≡ true
unfolding merge_pack restrictive_publication
merge_pack-restricts e p h = ground arith

pub merge_pack-Covers_left : (e p : MethodPack) → Covers e (merge_pack e p)
unfolding merge_pack
merge_pack-Covers_left e p = record {
  methods = λ w h. ground (arith, contains-stable_union e.methods p.methods w);
  checks = λ w h. ground (arith, contains-stable_union e.checks p.checks w);
  rule_refs = λ w h. ground (arith, contains-stable_union e.rule_refs p.rule_refs w);
  risk = ground arith;
  reviewed = λ h. ground arith;
  manual = λ h. ground (arith, restrictive_publication_strict e.publication p.publication "");
  mode = ground (arith, restrictive_publication_strict e.publication p.publication "");
  classes = λ w k h. ground (
    arith,
    restrictive_publication_strict e.publication p.publication w,
    merge_pack-restricts e p,
  );
}

pub merge_pack-Covers_right : (e p : MethodPack) → Covers p (merge_pack e p)
unfolding merge_pack
merge_pack-Covers_right e p = record {
  methods = λ w h. ground (arith, contains-stable_union e.methods p.methods w);
  checks = λ w h. ground (arith, contains-stable_union e.checks p.checks w);
  rule_refs = λ w h. ground (arith, contains-stable_union e.rule_refs p.rule_refs w);
  risk = ground arith;
  reviewed = λ h. ground arith;
  manual = λ h. ground (arith, restrictive_publication_strict e.publication p.publication "");
  mode = ground (arith, restrictive_publication_strict e.publication p.publication "");
  classes = λ w k h. ground (
    arith,
    restrictive_publication_strict e.publication p.publication w,
    merge_pack-restricts e p,
  );
}

-- The merge is the least that asks for what both sides ask for, where the left one restricts classes.
pub merge_pack-least :
    (e p u : MethodPack)
    → restricts e.publication ≡ true
    → Covers e u
    → Covers p u
    → Covers (merge_pack e p) u
unfolding merge_pack restrictive_publication
merge_pack-least e p u r a b = record {
  methods =
      λ w h. ground (arith, contains-stable_union e.methods p.methods w, a.methods w, b.methods w);
  checks = λ w h. ground (arith, contains-stable_union e.checks p.checks w, a.checks w, b.checks w);
  rule_refs = λ w h.
      ground (arith, contains-stable_union e.rule_refs p.rule_refs w, a.rule_refs w, b.rule_refs w);
  risk = ground (arith, a.risk, b.risk);
  reviewed = λ h. ground (arith, a.reviewed, b.reviewed);
  manual = λ h.
      ground
        (arith, restrictive_publication_strict e.publication p.publication "", a.manual, b.manual);
  mode = ground (
    arith,
    stricter_mode_least e.publication.mode p.publication.mode (publication_rank u.publication.mode)
        a.mode b.mode,
  );
  classes = λ w k h. ground (
    arith,
    restrictive_publication_strict e.publication p.publication w,
    merge_pack-restricts e p,
    a.classes w k h,
    b.classes w k h,
  );
}

-- A pack whose obligations were taken away asks for no more than any other.
pub without_obligations-least : (q u : MethodPack) → Covers (without_obligations q) u
unfolding without_obligations contains risk_rank publication_rank
without_obligations-least q u = record {
  methods = λ w h. cc;
  checks = λ w h. cc;
  rule_refs = λ w h. cc;
  risk = omega arith;
  reviewed = λ h. cc;
  manual = λ h. cc;
  mode = omega arith;
  classes = λ w k h. k;
}

-- The same pack, whatever its obligations: name, priority, match and delegation are its own.
pub record SameIdentity (p o : MethodPack) : Type 0 where
  pub id : o.id ≡ p.id
  pub priority : o.priority ≡ p.priority
  pub match : o.match ≡ p.match
  pub delegation_id : o.delegation_id ≡ p.delegation_id

pub merge_pack-SameIdentity :
    (q e p : MethodPack) → SameIdentity q e → SameIdentity q (merge_pack e p)
unfolding merge_pack
merge_pack-SameIdentity q e p s = ground arith
