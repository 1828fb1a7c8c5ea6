-- ===== src/Policy/DocumentRefs/Laws.antt =====
-- Where the paths of accepted document references lead.
use Prim.Native.Char.{code}
use Prim.Native.String
use Prim.Native.String.append
use text.Mathlib.TextEquality.{starts_with_iff}
use text.Mathlib.TextLemmas.{append_assoc}
use review.Base.{
  ◌≤◌, String, true, false, ◌==◌, if◌then◌else◌, ◌≡◌, ◌≢◌, refl, sym, ap, ◌∙◌, List, [], ◌∷◌, ◌++◌,
  none, str_eq, eq_iff, arith, length, any, All, inl, inr, Bool-cases,
}
use review.Base.Names.{contains}
use review.Base.Names.Canonical.{IsNodup}
use review.Policy.PathSyntax.{split_slash}
use review.Policy.DocumentRefs.{root_of, check_ref, check_refs, validate_document_refs}

abbrev parent_of : List String → List String
parent_of [] = []
parent_of (last ∷ place) = place

-- One step along a path from a directory, which is named by the elements that lead to it, the last
-- one first: an empty element and `.` stay, and `..` goes up.
abbrev pub step : List String → String → List String
step place part =
    if str_eq part ""
    then place
    else if str_eq part "."
    then place
    else if str_eq part ".."
    then parent_of place
    else part ∷ place

-- Walking the parts from the place never leaves the root.
abbrev pub Stays : List String → List String → List String → Type 0
Stays root place [] = (below : List String) × (place ≡ below ++ root)
Stays root place (part ∷ parts) =
    ((below : List String) × (place ≡ below ++ root)) × Stays root (step place part) parts

-- The text holds no slash.
abbrev pub IsElement : String → Type 0
IsElement String.[] = Unit {0}
IsElement (String.◌∷◌ c s) = (code c ≢ b'/') × IsElement s

-- The path leads through `.7review` into the directory, and stays in it from there.
abbrev pub IsConfined : String → String → Type 0
IsConfined directory ref =
    (parts : List String) × (split_slash ref ≡ ".7review" ∷ directory ∷ parts)
    × Stays (directory ∷ ".7review" ∷ []) (directory ∷ ".7review" ∷ []) parts

Stays-forward :
    (root place parts : List String) (below : List String)
    → place ≡ below ++ root
    → any (str_eq "..") parts ≡ false
    → Stays root place parts
Stays-forward root place [] below e h = (below, e)
Stays-forward root place (part ∷ parts) below e h = (
  (below, e),
  elim (Bool-cases (str_eq part "")) [
    | inl empty ↦ rw empty (Stays-forward root place parts below e (ground arith))
    | inr named ↦ elim (Bool-cases (str_eq part ".")) [
      | inl dot ↦ rw (named, dot) (Stays-forward root place parts below e (ground arith))
      | inr other ↦
          let down : str_eq part ".." ≡ false =
            ground (arith, eq_iff part "..", eq_iff ".." part) in
          rw (named, other, down)
            (Stays-forward root (part ∷ place) parts (part ∷ below) (ap (λ z. part ∷ z) e)
              (ground arith))
    ]
  ],
)

split_slash-slash : (t : String) → split_slash (String.◌++◌ "/" t) ≡ "" ∷ split_slash t
unfolding split_slash
split_slash-slash t =
    ap split_slash (append.cons "/" String.[] t ∙ ap (λ v. String.◌∷◌ "/" v) (append.nil t))

split_slash-append :
    (s t : String)
    → IsElement s
    → split_slash (String.◌++◌ s (String.◌++◌ "/" t)) ≡ s ∷ split_slash t
unfolding split_slash
split_slash-append String.[] t h =
    ap split_slash (append.nil (String.◌++◌ "/" t)) ∙ split_slash-slash t
split_slash-append (String.◌∷◌ c s) t (n, h) =
    let ih = split_slash-append s t h in
    let other : (code c == b'/') ≡ false = ground arith in
    rw (append.cons c s (String.◌++◌ "/" t), other, ih) refl

dot-IsElement : IsElement ".7review"
dot-IsElement = (
  (λ x. cc),
  ((λ x. cc), ((λ x. cc), ((λ x. cc), ((λ x. cc), ((λ x. cc), ((λ x. cc), ((λ x. cc), tt))))))),
)

-- A reference below the root of the directory, without an element `..`.
IsConfined-of_rooted :
    (directory ref tail : String)
    → IsElement directory
    → String.◌++◌ (root_of directory) tail ≡ ref
    → any (str_eq "..") (split_slash ref) ≡ false
    → IsConfined directory ref
IsConfined-of_rooted directory ref tail d e h =
    let shape : String.◌++◌ (root_of directory) tail
        ≡ String.◌++◌ ".7review" (String.◌++◌ "/" (String.◌++◌ directory (String.◌++◌ "/" tail))) =
      append_assoc ".7review/" (String.◌++◌ directory "/") tail
      ∙ append_assoc ".7review" "/" (String.◌++◌ (String.◌++◌ directory "/") tail)
      ∙ ap (λ z. String.◌++◌ ".7review" (String.◌++◌ "/" z)) (append_assoc directory "/" tail) in
    let rest = String.◌++◌ directory (String.◌++◌ "/" tail) in
    let split : split_slash ref ≡ ".7review" ∷ directory ∷ split_slash tail =
      ap split_slash (sym e ∙ shape)
      ∙ split_slash-append ".7review" rest dot-IsElement
      ∙ ap (λ z. ".7review" ∷ z) (split_slash-append directory tail d) in
    (
      split_slash tail,
      split,
      Stays-forward (directory ∷ ".7review" ∷ []) (directory ∷ ".7review" ∷ []) (split_slash tail)
          [] refl (let k = (rw split at h) in ground arith),
    )

check_ref-IsConfined :
    (field directory : String) (seen : List String) (ref : String)
    → IsElement directory
    → check_ref field directory seen ref ≡ none
    → IsConfined directory ref
unfolding check_ref
check_ref-IsConfined field directory seen ref d h =
    let (tail, e) = (starts_with_iff ref (root_of directory)).0 (ground arith) in
    IsConfined-of_rooted directory ref tail d e (ground arith)

-- The references of the loop: each is confined, and none is repeated or was seen before.
check_refs-parts :
    (field directory : String) (seen refs : List String)
    → IsElement directory
    → check_refs field directory seen refs ≡ none
    → All (IsConfined directory) refs
      × IsNodup refs
      × ((w : String) → contains seen w ≡ true → contains refs w ≡ false)
unfolding check_refs check_ref contains
check_refs-parts field directory seen [] d h = (tt, tt, λ w k. refl)
check_refs-parts field directory seen (ref ∷ refs) d h =
    let (more, n, fresh) = check_refs-parts field directory (ref ∷ seen) refs d (ground arith) in
    (
      (check_ref-IsConfined field directory seen ref d (ground arith), more),
      (ground (arith, fresh ref, eq_iff ref ref), n),
      λ w k. ground (arith, fresh w, eq_iff ref w),
    )

-- Where the directory is one path element, accepted references are at most 256 and differ from each
-- other, and each leads through `.7review` into the directory and never leaves it after that.
pub validate_document_refs-IsConfined :
    (field : String) (refs : List String) (directory : String)
    → IsElement directory
    → validate_document_refs field refs directory ≡ none
    → (length refs ≤ 256) × IsNodup refs × All (IsConfined directory) refs
unfolding validate_document_refs
validate_document_refs-IsConfined field refs directory d h =
    let (confined, n, _) = check_refs-parts field directory [] refs d (ground arith) in
    (ground arith, n, confined)
