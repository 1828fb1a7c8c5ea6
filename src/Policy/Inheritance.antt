-- ===== src/Policy/Inheritance.antt =====
-- agent/policy/inheritance.go: packs with the obligations of their parents merged in.
-- The recursion of `visit` is bounded by fuel. `visiting` holds the names whose `state` is 1, and
-- `memo` those whose `state` is 2; a visit that succeeds leaves `visiting` as it was.
pub mod Fuel
pub mod Covers
pub mod Expansion
use review.Base.{
  ℕ, zero, suc, String, Bool, true, false, not, ◌||◌, ◌&&◌, List, [], ◌∷◌, if◌then◌else◌, str_eq,
  ltb, length, Option, none, some, Error, new, errorf, Result, ok, err, bind,
}
use review.Base.Names.{contains, stable_union, sorted_copy}
use review.Policy.Schema.{lookup, MethodPack, PublicationConstraint}
use review.Policy.Publication.{risk_rank, restrictive_publication}

-- `byID[id]`, filled in order, so a later pack of the same ID wins
unfoldable pub find_pack : List MethodPack → String → Option MethodPack
find_pack [] id = none
find_pack (pack ∷ packs) id = elim (find_pack packs id) [
  | some p ↦ some p
  | none ↦ if str_eq pack.id id then some pack else none
]

abbrev pub all_classes : List String
all_classes = "assessment" ∷ "comment" ∷ "check" ∷ "annotation" ∷ "code_quality" ∷ []

-- `expanded` before anything is merged into it
unfoldable pub without_obligations : MethodPack → MethodPack
without_obligations pack = record pack {
  methods = [];
  checks = [];
  rule_refs = [];
  risk_floor = "none";
  independent_review = false;
  publication = record {
    mode = "inherit";
    artifact_classes = all_classes;
    manual_required = false;
    artifact_classes_restricted = false;
  };
}

-- `merge(parent)`
unfoldable pub merge_pack : MethodPack → MethodPack → MethodPack
merge_pack expanded parent = record expanded {
  methods = stable_union expanded.methods parent.methods;
  checks = stable_union expanded.checks parent.checks;
  rule_refs = stable_union expanded.rule_refs parent.rule_refs;
  risk_floor =
      if ltb (risk_rank expanded.risk_floor) (risk_rank parent.risk_floor)
      then parent.risk_floor
      else expanded.risk_floor;
  independent_review = expanded.independent_review || parent.independent_review;
  publication = restrictive_publication expanded.publication parent.publication;
}

abbrev pub Memo : Type 0
Memo = List (String × MethodPack)

-- The loop over the sorted parents; `visitor` is the recursive call.
unfoldable pub merge_parents :
    (Memo → String → Result (Memo × MethodPack))
    → Memo
    → List String
    → MethodPack
    → Result (Memo × MethodPack)
merge_parents visitor memo [] expanded = ok (memo, expanded)
merge_parents visitor memo (parent_id ∷ ids) expanded = elim (visitor memo parent_id) [
  | err e ↦ err e
  | ok (memo', parent) ↦ merge_parents visitor memo' ids (merge_pack expanded parent)
]

-- The end of a visit: merge the pack itself, check the bounds, and store the result.
unfoldable pub finish_visit : String → MethodPack → Memo → MethodPack → Result (Memo × MethodPack)
finish_visit id pack memo expanded =
    let merged = merge_pack expanded pack in
    if ltb 32 (length merged.methods)
      || ltb 128 (length merged.checks)
      || ltb 256 (length merged.rule_refs)
    then err (errorf "policy: expanded pack %q exceeds method/check bounds" (id ∷ []))
    else ok ((id, merged) ∷ memo, merged)

abbrev pub out_of_fuel : Error
out_of_fuel = new "out of fuel"

-- A pack that is there and is not being visited.
unfoldable pub visit_new :
    (Memo → String → Result (Memo × MethodPack))
    → Memo
    → String
    → MethodPack
    → Result (Memo × MethodPack)
visit_new visitor memo id pack = elim (lookup id memo) [
  | some expanded ↦ ok (memo, expanded)
  | none ↦
      bind (merge_parents visitor memo (sorted_copy pack.inherits) (without_obligations pack))
        λ r. finish_visit id pack r.0 r.1
]

unfoldable pub visit :
    ℕ → List MethodPack → List String → Memo → String → Result (Memo × MethodPack)
visit zero packs visiting memo id = err out_of_fuel
visit (suc fuel) packs visiting memo id = elim (find_pack packs id) [
  | none ↦ err (errorf "policy: unknown parent pack %q" (id ∷ []))
  | some pack ↦
      if contains visiting id
      then err (errorf "policy: inheritance cycle at pack %q" (id ∷ []))
      else visit_new (visit fuel packs (id ∷ visiting)) memo id pack
]

-- The loop that visits each pack.
unfoldable pub expand_all :
    (Memo → String → Result (Memo × MethodPack)) → Memo → List MethodPack → Result (List MethodPack)
expand_all visitor memo [] = ok []
expand_all visitor memo (pack ∷ packs) = elim (visitor memo pack.id) [
  | err e ↦ err e
  | ok (memo', expanded) ↦ bind (expand_all visitor memo' packs) λ rest. ok (expanded ∷ rest)
]

-- `expandPacks`; one unit of fuel for each pack, and one for the name that ends a chain
unfoldable pub expand_packs : List MethodPack → Result (List MethodPack)
unfolding expand_all
expand_packs packs = expand_all (visit (suc (length packs)) packs []) [] packs
