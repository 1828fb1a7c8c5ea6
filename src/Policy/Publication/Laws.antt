-- ===== src/Policy/Publication/Laws.antt =====
-- About `restrictivePublication` of agent/policy/compile.go: strictness and order.
use review.Base.{
  ℕ, ◌≤◌, ◌<◌, String, Bool, true, not, ◌||◌, ◌&&◌, ◌≡◌, refl, List, [], ◌∷◌, str_eq, eq_iff, arith,
}
use review.Base.Names.{contains}
use review.Policy.Schema.{PublicationConstraint}
use review.Policy.Publication.{
  publication_rank, keep_classes, stricter_mode, restricts, restrictive_publication,
}

-- Whether a constraint lets an artifact of the class be published: it restricts no classes, or it
-- names this one.
abbrev pub permits : PublicationConstraint → String → Bool
permits p class = not (restricts p) || contains p.artifact_classes class

publication_rank-inherit : (m : String) → str_eq m "inherit" ≡ true → publication_rank m ≡ 0
unfolding publication_rank
publication_rank-inherit m h = rw ((eq_iff m "inherit").0 h) refl

-- Two modes of one positive rank are one mode.
publication_rank_injective :
    (m n : String) → publication_rank m ≡ publication_rank n → 0 < publication_rank m → m ≡ n
unfolding publication_rank
publication_rank_injective m n h p = ground (
  arith,
  eq_iff m "setup_grant",
  eq_iff m "human_authorized",
  eq_iff m "none",
  eq_iff n "setup_grant",
  eq_iff n "human_authorized",
  eq_iff n "none",
)

-- The stricter of two modes ranks no higher than both.
pub stricter_mode_least :
    (current next : String) (n : ℕ)
    → publication_rank current ≤ n
    → publication_rank next ≤ n
    → publication_rank (stricter_mode current next) ≤ n
stricter_mode_least current next n a b = ground arith

contains-keep_classes :
    (allowed classes : List String) (w : String)
    → contains (keep_classes allowed classes) w ≡ (contains classes w && contains allowed w)
unfolding keep_classes contains
contains-keep_classes allowed [] w = refl
contains-keep_classes allowed (c ∷ cs) w =
    ground (arith, contains-keep_classes allowed cs w, eq_iff c w)

-- The combination is at least as strict as either side: its mode ranks no lower, human review is
-- required if either asks for it, and a class may be published only if both sides allow it.
pub restrictive_publication_strict :
    (current next : PublicationConstraint) (class : String)
    → let r = restrictive_publication current next in
      (publication_rank current.mode ≤ publication_rank r.mode)
      × (publication_rank next.mode ≤ publication_rank r.mode)
      × (r.manual_required ≡ (current.manual_required || next.manual_required))
      × (contains r.artifact_classes class ≡ (
          contains current.artifact_classes class
          && (not (restricts next) || contains next.artifact_classes class)))
unfolding restrictive_publication
restrictive_publication_strict current next class = (
  ground arith,
  ground (arith, publication_rank-inherit next.mode),
  refl,
  ground (arith, contains-keep_classes next.artifact_classes current.artifact_classes class),
)

keep_classes_comm :
    (a b classes : List String)
    → keep_classes a (keep_classes b classes) ≡ keep_classes b (keep_classes a classes)
unfolding keep_classes
keep_classes_comm a b [] = refl
keep_classes_comm a b (c ∷ cs) = ground (arith, keep_classes_comm a b cs)

stricter_mode_comm :
    (m a b : String) → stricter_mode (stricter_mode m a) b ≡ stricter_mode (stricter_mode m b) a
stricter_mode_comm m a b = ground (arith, publication_rank_injective a b)

-- Two constraints restrict a third to the same result in either order.
pub restrictive_publication_comm :
    (current a b : PublicationConstraint)
    → restrictive_publication (restrictive_publication current a) b
      ≡ restrictive_publication (restrictive_publication current b) a
unfolding restrictive_publication
restrictive_publication_comm current a b = ground (
  arith,
  stricter_mode_comm current.mode a.mode b.mode,
  keep_classes_comm a.artifact_classes b.artifact_classes current.artifact_classes,
)
