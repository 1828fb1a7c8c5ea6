-- ===== src/Policy/Inheritance/Fuel.antt =====
-- About the recursion of `expandPacks` of agent/policy/inheritance.go and its fuel.
use review.Base.{
  ℕ, zero, suc, ◌+◌, ◌<◌, String, true, false, ◌≡◌, ◌≢◌, refl, List, [], ◌∷◌, eq_iff, arith, length,
  some, Option-cases, Bool-cases, inl, inr, Result, Result-cases, ok, err, bind,
}
use review.Base.Names.{contains, sorted_copy}
use review.Base.Names.Canonical.{IsNodup}
use review.Base.Names.Pigeonhole.{nodup_length}
use review.Policy.Schema.{lookup, MethodPack}
use review.Policy.Inheritance.{
  find_pack, Memo, merge_pack, without_obligations, merge_parents, finish_visit, out_of_fuel,
  visit_new, visit, expand_all, expand_packs,
}

abbrev ids : List MethodPack → List String
ids [] = []
ids (p ∷ ps) = p.id ∷ ids ps

length-ids : (ps : List MethodPack) → length (ids ps) ≡ length ps
length-ids [] = refl
length-ids (p ∷ ps) = omega (arith, length-ids ps)

contains_of_find_pack :
    (ps : List MethodPack) (id : String) {p : MethodPack}
    → find_pack ps id ≡ some p
    → contains (ids ps) id ≡ true
unfolding find_pack contains
contains_of_find_pack [] id h = cc
contains_of_find_pack (q ∷ ps) id h = elim (Option-cases (find_pack ps id)) [
  | inl e ↦ ground arith
  | inr (p', e) ↦ ground (arith, contains_of_find_pack ps id e)
]

-- A call that does not end for want of fuel.
abbrev Finishes {ℓ} : {A : Type ℓ} → Result A → Type 0
Finishes (ok a) = Unit {0}
Finishes (err e) = e ≢ out_of_fuel

finish_visit-Finishes :
    (id : String) (pack : MethodPack) (memo : Memo) (e : MethodPack)
    → Finishes (finish_visit id pack memo e)
unfolding finish_visit
finish_visit-Finishes id pack memo e = ground arith

merge_parents-Finishes :
    (visitor : Memo → String → Result (Memo × MethodPack))
    → ((memo : Memo) (id : String) → Finishes (visitor memo id))
    → (memo : Memo) (names : List String) (e : MethodPack)
    → Finishes (merge_parents visitor memo names e)
unfolding merge_parents
merge_parents-Finishes visitor h memo [] e = tt
merge_parents-Finishes visitor h memo (id ∷ names) e = elim (Result-cases (visitor memo id)) [
  | inl ((memo', parent), q) ↦
      rw (q, merge_parents) (merge_parents-Finishes visitor h memo' names (merge_pack e parent))
  | inr (x, q) ↦ rw (q, merge_parents) (rw q at (h memo id))
]

bind-Finishes :
    {A B : Type 0} (r : Result A) (f : A → Result B)
    → Finishes r
    → ((a : A) → Finishes (f a))
    → Finishes (bind r f)
bind-Finishes (ok a) f h k = k a
bind-Finishes (err e) f h k = h

visit_new-Finishes :
    (visitor : Memo → String → Result (Memo × MethodPack))
    → ((memo : Memo) (id : String) → Finishes (visitor memo id))
    → (memo : Memo) (id : String) (pack : MethodPack) → Finishes (visit_new visitor memo id pack)
unfolding visit_new
visit_new-Finishes visitor h memo id pack = elim (Option-cases (lookup id memo)) [
  | inl q ↦
      rw (q, visit_new)
        (bind-Finishes _ _
          (merge_parents-Finishes visitor h memo (sorted_copy pack.inherits)
            (without_obligations pack))
          λ r. finish_visit-Finishes id pack r.0 r.1)
  | inr (x, q) ↦ rw (q, visit_new) tt
]

-- What a visit may rely on: the chain of visits names distinct packs, and the fuel exceeds what is
-- left of them.
record IsBounded (packs : List MethodPack) (fuel : ℕ) (visiting : List String) : Type 0 where
  distinct : IsNodup visiting
  known : (w : String) → contains visiting w ≡ true → contains (ids packs) w ≡ true
  enough : length packs < length visiting + fuel

IsBounded-next :
    (packs : List MethodPack) (fuel : ℕ) (visiting : List String) (id : String)
    → IsBounded packs (suc fuel) visiting
    → contains visiting id ≡ false
    → contains (ids packs) id ≡ true
    → IsBounded packs fuel (id ∷ visiting)
unfolding contains
IsBounded-next packs fuel visiting id b fresh here = record {
  distinct = (fresh, b.distinct);
  known = λ w h. ground (arith, b.known w, eq_iff id w);
  enough = omega (arith, b.enough);
}

visit-Finishes :
    (fuel : ℕ) (packs : List MethodPack) (visiting : List String)
    → IsBounded packs fuel visiting
    → (memo : Memo) (id : String) → Finishes (visit fuel packs visiting memo id)
unfolding visit
visit-Finishes zero packs visiting b memo id = absurd (
    omega (arith, b.enough, nodup_length visiting (ids packs) b.distinct b.known, length-ids packs))
visit-Finishes (suc fuel) packs visiting b memo id = elim (Option-cases (find_pack packs id)) [
  | inl q ↦ rw (q, visit) (λ e. cc)
  | inr (pack, q) ↦ elim (Bool-cases (contains visiting id)) [
    | inl seen ↦ rw (q, visit) (rw seen (λ e. cc))
    | inr fresh ↦
        rw (q, visit)
          (rw fresh (
            visit_new-Finishes (visit fuel packs (id ∷ visiting))
              (visit-Finishes fuel packs (id ∷ visiting)
                (IsBounded-next packs fuel visiting id b fresh (contains_of_find_pack packs id q)))
              memo id pack))
  ]
]

expand_all-Finishes :
    (visitor : Memo → String → Result (Memo × MethodPack))
    → ((memo : Memo) (id : String) → Finishes (visitor memo id))
    → (memo : Memo) (packs : List MethodPack) → Finishes (expand_all visitor memo packs)
unfolding expand_all
expand_all-Finishes visitor h memo [] = tt
expand_all-Finishes visitor h memo (p ∷ ps) = elim (Result-cases (visitor memo p.id)) [
  | inl ((memo', e), q) ↦
      rw (q, expand_all) (bind-Finishes _ _ (expand_all-Finishes visitor h memo' ps) λ rest. tt)
  | inr (x, q) ↦ rw (q, expand_all) (rw q at (h memo p.id))
]

-- Expanding the packs of a policy never runs out of fuel: it ends with the expanded packs, or with
-- an unknown parent, a cycle or an exceeded bound.
pub expand_packs_total : (packs : List MethodPack) → expand_packs packs ≢ err out_of_fuel
unfolding expand_packs contains
expand_packs_total packs h =
    let f =
      expand_all-Finishes (visit (suc (length packs)) packs [])
        (visit-Finishes (suc (length packs)) packs []
          (record { distinct = tt; known = λ w k. cc; enough = omega arith }))
        [] packs in
    (rw h at f) refl
