-- ===== src/Review/Intake/Laws.antt =====
-- About `TestEvidenceReadiness` and `SnapshotAttestation.Digest` of agent/review/intake.go.
use Prim.Native.Char.{code, nul}
use Prim.Native.String
use text.Mathlib.TextLemmas.{
  head-eq_of_cons-eq, tail-eq_of_cons-eq, append_cancel_left, nil-append, cons-append,
}
use review.Base.{
  String, Bool, true, not, ◌&&◌, ◌==◌, ◌≡◌, ◌≢◌, refl, sym, ap, ◌∙◌, ◌↔◌, ◌⊎◌, inl, inr, List, [],
  ◌∷◌, none, ok, str_eq, arith, Bool-cases, All, eq_iff,
}
use review.Base.Text.{is_blank, trim_space, is_space}
use review.Review.Change.{SnapshotIdentity}
use review.Review.Intake.{
  SnapshotAttestation, join_nul, attested_parts, attestation_digest, present, verified,
  TestExecutionEvidence, validate_test_evidence, validate_readiness_field, proves_tests,
  find_test_evidence, test_evidence_readiness,
}

-- Some piece of the evidence validates, is verified and was made at the head revision.
abbrev pub Proves : SnapshotIdentity → List TestExecutionEvidence → Type 0
Proves snapshot [] = ⊥
Proves snapshot (e ∷ es) =
    ((validate_test_evidence e ≡ none)
      × (e.verification ≡ verified)
      × (e.revision ≡ snapshot.head_revision))
    ⊎ Proves snapshot es

proves_iff :
    (s : SnapshotIdentity) (e : TestExecutionEvidence)
    → (proves_tests s e ≡ true) ↔ (
        (validate_test_evidence e ≡ none)
        × (e.verification ≡ verified)
        × (e.revision ≡ s.head_revision))
unfolding proves_tests
proves_iff s e = (
  λ h. ground (arith, eq_iff e.revision s.head_revision),
  λ h. ground (arith, eq_iff e.revision s.head_revision),
)

find_test_evidence-present :
    (s : SnapshotIdentity) (es : List TestExecutionEvidence)
    → ((find_test_evidence s es).status ≡ present) ↔ Proves s es
unfolding find_test_evidence
find_test_evidence-present s [] = (λ h. cc, λ h. absurd h)
find_test_evidence-present s (e ∷ es) = elim (Bool-cases (proves_tests s e)) [
  | inl p ↦ rw p (λ h. inl ((proves_iff s e).0 p), λ h. refl)
  | inr p ↦ rw p (
    λ h. inr ((find_test_evidence-present s es).0 h),
    λ h. elim h [
      | inl q ↦ absurd (let z = sym p ∙ (proves_iff s e).1 q in cc)
      | inr q ↦ (find_test_evidence-present s es).1 q
    ],
  )
]

find_test_evidence-valid :
    (s : SnapshotIdentity) (es : List TestExecutionEvidence)
    → validate_readiness_field (find_test_evidence s es) ≡ none
unfolding find_test_evidence validate_readiness_field is_blank trim_space is_space
find_test_evidence-valid s [] = refl
find_test_evidence-valid s (e ∷ es) = elim (Bool-cases (proves_tests s e)) [
  | inl p ↦ rw p refl
  | inr p ↦ rw p (find_test_evidence-valid s es)
]

-- The readiness of the test evidence is a field that validates, and its status is "present" exactly
-- if some piece of the evidence validates, is verified and was made at the head revision.
pub test_evidence_readiness_lem :
    (s : SnapshotIdentity) (es : List TestExecutionEvidence)
    → (validate_readiness_field (test_evidence_readiness s es) ≡ none)
      × (((test_evidence_readiness s es).status ≡ present) ↔ Proves s es)
unfolding test_evidence_readiness validate_readiness_field is_blank trim_space is_space
test_evidence_readiness_lem s [] = (refl, (λ h. cc, λ h. absurd h))
test_evidence_readiness_lem s (e ∷ es) =
    (find_test_evidence-valid s (e ∷ es), find_test_evidence-present s (e ∷ es))

abbrev pub nul_free : String → Bool
nul_free String.[] = true
nul_free (String.◌∷◌ c s) = not (code c == code nul) && nul_free s

split_at_nul :
    (s t : String) {u v : String}
    → nul_free s ≡ true
    → nul_free t ≡ true
    → String.◌++◌ s (String.◌∷◌ nul u) ≡ String.◌++◌ t (String.◌∷◌ nul v)
    → (s ≡ t) × (u ≡ v)
split_at_nul String.[] String.[] {u} {v} f g h = (
  refl,
  tail-eq_of_cons-eq (sym (nil-append (String.◌∷◌ nul u)) ∙ h ∙ nil-append (String.◌∷◌ nul v)),
)
split_at_nul String.[] (String.◌∷◌ d t) {u} {v} f g h =
    let q = sym (nil-append (String.◌∷◌ nul u)) ∙ h ∙ cons-append d t (String.◌∷◌ nul v) in
    let e = ap code (head-eq_of_cons-eq q) in absurd (ground arith)
split_at_nul (String.◌∷◌ c s) String.[] {u} {v} f g h =
    let q = sym (cons-append c s (String.◌∷◌ nul u)) ∙ h ∙ nil-append (String.◌∷◌ nul v) in
    let e = ap code (head-eq_of_cons-eq q) in absurd (ground arith)
split_at_nul (String.◌∷◌ c s) (String.◌∷◌ d t) {u} {v} f g h =
    let q = sym (cons-append c s (String.◌∷◌ nul u)) ∙ h ∙ cons-append d t (String.◌∷◌ nul v) in
    let (p, r) = split_at_nul s t (ground arith) (ground arith) (tail-eq_of_cons-eq q) in
    (λ i. String.◌∷◌ (head-eq_of_cons-eq q i) (p i), r)

abbrev pub AllFree : List String → Type 0
AllFree = All (λ s. nul_free s ≡ true)

-- Lists of the same length.
abbrev pub SameLength : List String → List String → Type 0
SameLength [] [] = Unit
SameLength (x ∷ xs) (y ∷ ys) = SameLength xs ys
SameLength _ _ = ⊥

join_nul-injective :
    (xs ys : List String)
    → SameLength xs ys
    → AllFree xs
    → AllFree ys
    → join_nul xs ≡ join_nul ys
    → xs ≡ ys
unfolding join_nul
join_nul-injective [] [] n f g h = refl
join_nul-injective [] (y ∷ ys) n f g h = absurd n
join_nul-injective (x ∷ xs) [] n f g h = absurd n
join_nul-injective (x ∷ []) (y ∷ []) n f g h = ap (λ z. z ∷ []) h
join_nul-injective (x ∷ []) (y ∷ y' ∷ ys) n f g h = absurd n
join_nul-injective (x ∷ x' ∷ xs) (y ∷ []) n f g h = absurd n
join_nul-injective (x ∷ x' ∷ xs) (y ∷ y' ∷ ys) n (fx, fxs) (gy, gys) h =
    let (p, q) = split_at_nul x y fx gy h in
    let r = join_nul-injective (x' ∷ xs) (y' ∷ ys) n fxs gys q in λ i. p i ∷ r i

digest-join :
    (sha256 : String → String) (a : SnapshotAttestation) {d : String}
    → attestation_digest sha256 a ≡ ok d
    → String.◌++◌ "sha256:" (sha256 (join_nul (attested_parts a))) ≡ d
unfolding attestation_digest
digest-join sha256 a h = ground arith

-- Two different texts of one hash.
abbrev pub Collision : (String → String) → Type 0
Collision sha256 = (s t : String) × (s ≢ t) × (sha256 s ≡ sha256 t)

-- If two attestations whose texts hold no NUL have the same digest, the nine texts that the digest
-- covers are the same, or the hash has a collision.
pub attestation_digest-injective :
    (sha256 : String → String) (a b : SnapshotAttestation) (d : String)
    → AllFree (attested_parts a)
    → AllFree (attested_parts b)
    → attestation_digest sha256 a ≡ ok d
    → attestation_digest sha256 b ≡ ok d
    → (attested_parts a ≡ attested_parts b) ⊎ Collision sha256
attestation_digest-injective sha256 a b d f g h k =
    let same =
      append_cancel_left "sha256:" _ _ (digest-join sha256 a h ∙ sym (digest-join sha256 b k)) in
    let x = join_nul (attested_parts a) in
    let y = join_nul (attested_parts b) in
    elim (Bool-cases (str_eq x y)) [
      | inl e ↦
          inl (join_nul-injective (attested_parts a) (attested_parts b) tt f g ((eq_iff x y).0 e))
      | inr e ↦ inr (x, y, (λ q. let z = sym e ∙ (eq_iff x y).1 q in cc), same)
    ]
