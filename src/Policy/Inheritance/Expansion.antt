-- ===== src/Policy/Inheritance/Expansion.antt =====
-- About what `expandPacks` of agent/policy/inheritance.go makes of a pack.
use review.Base.{
  ℕ, zero, suc, String, true, ◌≡◌, refl, sym, ap, subst, ◌∙◌, List, [], ◌∷◌, All, str_eq, eq_iff,
  arith, length, some, Option-cases, Bool-cases, inl, inr, Result, Result-cases, ok, bind-eq-ok,
}
use review.Base.Names.{contains, sorted_copy}
use review.Base.Names.Membership.{contains-sorted_copy}
use review.Policy.Schema.{lookup, MethodPack}
use review.Policy.Inheritance.{
  find_pack, Memo, merge_pack, without_obligations, merge_parents, finish_visit, visit_new, visit,
  expand_all, expand_packs,
}
use review.Policy.Inheritance.Covers.{
  Covers, Covers-refl, Covers-trans, merge_pack-Covers_left, merge_pack-Covers_right, SameIdentity,
  merge_pack-SameIdentity, merge_pack-restricts, merge_pack-least, without_obligations-least,
}
use review.Policy.Publication.{restricts}

-- `u` asks for all that the pack named `id` asks for, and for all that its parents ask for, and theirs.
-- Derivations are finite, so there is one only if the ancestry has no cycle.
pub data IsAbove (packs : List MethodPack) : String → MethodPack → Type 0 where
  above :
      {id : String} {u : MethodPack} (q : MethodPack)
      → find_pack packs id ≡ some q
      → Covers q u
      → ((p : String) → contains q.inherits p ≡ true → IsAbove packs p u)
      → IsAbove packs id u

-- `o` is the expansion of the pack named `id`: it keeps that pack's identity, and asks for all that
-- the pack and its ancestors ask for, and for no more.
pub record IsExpanded (packs : List MethodPack) (id : String) (o : MethodPack) : Type 0 where
  pub own : (q : MethodPack) × (find_pack packs id ≡ some q) × SameIdentity q o
  pub all : IsAbove packs id o
  pub least : (u : MethodPack) → IsAbove packs id u → Covers o u

IsAbove-trans :
    {packs : List MethodPack} {id : String} {x o : MethodPack}
    → IsAbove packs id x
    → Covers x o
    → IsAbove packs id o
IsAbove-trans (above q f c ps) d = above q f (Covers-trans c d) (λ p k. IsAbove-trans (ps p k) d)

module _ (packs : List MethodPack) where
  abbrev pub IsSoundMemo : Memo → Type 0
  IsSoundMemo = All (λ entry. IsExpanded packs entry.0 entry.1)

  IsSoundMemo-lookup :
      (id : String) (memo : Memo) {e : MethodPack}
      → IsSoundMemo memo
      → lookup id memo ≡ some e
      → IsExpanded packs id e
  unfolding lookup
  IsSoundMemo-lookup id [] s h = cc
  IsSoundMemo-lookup id ((k, v) ∷ memo) {e} (s, ss) h = elim (Bool-cases (str_eq k id)) [
    | inl hit ↦
        let kid : k ≡ id = (eq_iff k id).0 hit in
        let ve : v ≡ e = ground arith in rw (← kid) (rw (← ve) s)
    | inr miss ↦ IsSoundMemo-lookup id memo ss (ground arith)
  ]

  -- What a visitor's successful answers mean.
  abbrev pub Answers : (Memo → String → Result (Memo × MethodPack)) → Type 0
  Answers visitor =
      (memo : Memo) (id : String) (memo' : Memo) (o : MethodPack)
      → IsSoundMemo memo
      → visitor memo id ≡ ok (memo', o)
      → IsSoundMemo memo' × IsExpanded packs id o

  -- Merging parents into `e` gives the least that asks for what `e` and the parents ask for.
  record IsMerged (q e o : MethodPack) (names : List String) : Type 0 where
    own : SameIdentity q o
    restricted : restricts o.publication ≡ true
    kept : Covers e o
    parents : (p : String) → contains names p ≡ true → IsAbove packs p o
    least :
        (u : MethodPack)
        → Covers e u
        → ((p : String) → contains names p ≡ true → IsAbove packs p u)
        → Covers o u

  IsMerged-cons :
      (q e x o : MethodPack) (id : String) (names : List String)
      → restricts e.publication ≡ true
      → IsExpanded packs id x
      → IsMerged q (merge_pack e x) o names
      → IsMerged q e o (id ∷ names)
  unfolding contains
  IsMerged-cons q e x o id names r d m = record {
    own = m.own;
    restricted = m.restricted;
    kept = Covers-trans (merge_pack-Covers_left e x) m.kept;
    parents = λ p k. elim (Bool-cases (str_eq id p)) [
      | inl hit ↦
          rw (← (eq_iff id p).0 hit)
            (IsAbove-trans d.all (Covers-trans (merge_pack-Covers_right e x) m.kept))
      | inr miss ↦ m.parents p (ground arith)
    ];
    least = λ u c ps.
        m.least u (merge_pack-least e x u r c (d.least u (ps id (ground (arith, eq_iff id id)))))
          (λ p k. ps p (ground arith));
  }

  merge_parents_sound :
      (visitor : Memo → String → Result (Memo × MethodPack))
      → Answers visitor
      → (memo : Memo) (names : List String) (q e : MethodPack) (memo' : Memo) (o : MethodPack)
      → IsSoundMemo memo
      → SameIdentity q e
      → restricts e.publication ≡ true
      → merge_parents visitor memo names e ≡ ok (memo', o)
      → IsSoundMemo memo' × IsMerged q e o names
  unfolding merge_parents contains
  merge_parents_sound visitor v memo [] q e memo' o s i r h =
      let m : memo ≡ memo' = ground arith in
      let eo : e ≡ o = ground arith in
      let done : IsMerged q e e [] = record {
        own = i;
        restricted = r;
        kept = Covers-refl e;
        parents = λ p k. absurd (cc);
        least = λ u c ps. c;
      } in
      (rw (← m) s, subst (λ z. IsMerged q e z []) eo done)
  merge_parents_sound visitor v memo (id ∷ names) q e memo' o s i r h =
      elim (Result-cases (visitor memo id)) [
        | inl ((memo₁, x), a) ↦
            let (s₁, d) = v memo id memo₁ x s a in
            let (s₂, m) =
              merge_parents_sound visitor v memo₁ names q (merge_pack e x) memo' o s₁
                (merge_pack-SameIdentity q e x i) (merge_pack-restricts e x (ground arith))
                (rw (a, merge_parents) at h) in
            (s₂, IsMerged-cons q e x o id names r d m)
        | inr (er, a) ↦ absurd (let k = (rw (a, merge_parents) at h) in cc)
      ]

  finish_visit_sound :
      (id : String) (q : MethodPack) (memo : Memo) (e : MethodPack) (memo' : Memo) (o : MethodPack)
      → finish_visit id q memo e ≡ ok (memo', o)
      → (memo' ≡ (id, o) ∷ memo) × (o ≡ merge_pack e q)
  unfolding finish_visit
  finish_visit_sound id q memo e memo' o h = ground arith

  without_obligations-SameIdentity : (q : MethodPack) → SameIdentity q (without_obligations q)
  unfolding without_obligations
  without_obligations-SameIdentity q = ground arith

  without_obligations-restricts :
      (q : MethodPack) → restricts (without_obligations q).publication ≡ true
  unfolding without_obligations
  without_obligations-restricts q = refl

  -- A pack that is merged into its merged parents is its expansion.
  IsExpanded-of_merged :
      (id : String) (q m : MethodPack)
      → find_pack packs id ≡ some q
      → IsMerged q (without_obligations q) m (sorted_copy q.inherits)
      → IsExpanded packs id (merge_pack m q)
  IsExpanded-of_merged id q m found h =
      let named =
        λ (p : String) (k : contains q.inherits p ≡ true). contains-sorted_copy q.inherits p ∙ k in
      record {
        own = (q, found, merge_pack-SameIdentity q m q h.own);
        all =
            above q found (merge_pack-Covers_right m q)
              (λ p k. IsAbove-trans (h.parents p (named p k)) (merge_pack-Covers_left m q));
        least = λ u a. least_of u a;
      }
    where
      same_pack : (q' : MethodPack) → find_pack packs id ≡ some q' → q' ≡ q
      same_pack q' f = let g = found in cc

      least_of : (u : MethodPack) → IsAbove packs id u → Covers (merge_pack m q) u
      least_of u (above q' f c ps) =
          let e = same_pack q' f in
          merge_pack-least m q u h.restricted
            (h.least u (without_obligations-least q u) (λ p k.
              ps p
                (ap (λ z. contains z.inherits p) e ∙ sym (contains-sorted_copy q.inherits p) ∙ k)))
            (subst (λ z. Covers z u) e c)

  visit_new_sound :
      (visitor : Memo → String → Result (Memo × MethodPack))
      → Answers visitor
      → (memo : Memo) (id : String) (q : MethodPack) (memo' : Memo) (o : MethodPack)
      → find_pack packs id ≡ some q
      → IsSoundMemo memo
      → visit_new visitor memo id q ≡ ok (memo', o)
      → IsSoundMemo memo' × IsExpanded packs id o
  unfolding visit_new
  visit_new_sound visitor v memo id q memo' o found s h = elim (Option-cases (lookup id memo)) [
    | inr (e, l) ↦
        let k = (rw (l, visit_new) at h) in
        let m : memo ≡ memo' = ground arith in
        let eo : e ≡ o = ground arith in (rw (← m) s, rw (← eo) (IsSoundMemo-lookup id memo s l))
    | inl l ↦
        let (r, merged, finished) = bind-eq-ok _ _ (rw (l, visit_new) at h) in
        let (s', h') =
          merge_parents_sound visitor v memo (sorted_copy q.inherits) q (without_obligations q) r.0
            r.1 s (without_obligations-SameIdentity q) (without_obligations-restricts q) merged in
        let (m, eo) = finish_visit_sound id q r.0 r.1 memo' o finished in
        let d : IsExpanded packs id o = rw eo (IsExpanded-of_merged id q r.1 found h') in
        (rw m (d, s'), d)
  ]

  visit_sound : (fuel : ℕ) (visiting : List String) → Answers (visit fuel packs visiting)
  unfolding visit
  visit_sound zero visiting memo id memo' o s h = absurd (cc)
  visit_sound (suc fuel) visiting memo id memo' o s h = elim (Option-cases (find_pack packs id)) [
    | inl q ↦ absurd (let k = (rw (q, visit) at h) in cc)
    | inr (pack, q) ↦ elim (Bool-cases (contains visiting id)) [
      | inl seen ↦ absurd (let k = (rw seen at (rw (q, visit) at h)) in cc)
      | inr fresh ↦
          visit_new_sound (visit fuel packs (id ∷ visiting)) (visit_sound fuel (id ∷ visiting)) memo
            id pack memo' o q s (rw fresh at (rw (q, visit) at h))
    ]
  ]

  -- One expansion for each pack, in order.
  abbrev pub AreExpanded : List MethodPack → List MethodPack → Type 0
  AreExpanded [] [] = Unit {0}
  AreExpanded (p ∷ ps) (o ∷ os) = IsExpanded packs p.id o × AreExpanded ps os
  AreExpanded _ _ = ⊥

  expand_all_sound :
      (visitor : Memo → String → Result (Memo × MethodPack))
      → Answers visitor
      → (memo : Memo) (ps os : List MethodPack) → IsSoundMemo memo
      → expand_all visitor memo ps ≡ ok os
      → AreExpanded ps os
  unfolding expand_all
  expand_all_sound visitor v memo [] [] s h = tt
  expand_all_sound visitor v memo [] (o ∷ os) s h = cc
  expand_all_sound visitor v memo (p ∷ ps) os s h = elim (Result-cases (visitor memo p.id)) [
    | inr (er, a) ↦ absurd (let k = (rw (a, expand_all) at h) in cc)
    | inl ((memo', x), a) ↦
        let (s', d) = v memo p.id memo' x s a in
        let (rest, more, e) = bind-eq-ok _ _ (rw (a, expand_all) at h) in
        let eq : x ∷ rest ≡ os = ground arith in
        rw (← eq) (d, expand_all_sound visitor v memo' ps rest s' more)
  ]

-- If the packs expand, each result is the expansion of the pack of its name: it keeps that pack's
-- identity, it asks for all that the pack and its ancestors ask for, down a finite ancestry, and
-- whatever asks for all of that asks for all that the result asks for. What is asked for is methods,
-- checks, rules, a risk floor, independent and manual review, and the mode and the artifact classes of
-- publication.
pub expand_packs_sound :
    (packs expanded : List MethodPack)
    → expand_packs packs ≡ ok expanded
    → AreExpanded packs packs expanded
unfolding expand_packs
expand_packs_sound packs expanded h =
    expand_all_sound packs (visit (suc (length packs)) packs [])
      (visit_sound packs (suc (length packs)) []) [] packs expanded tt h
