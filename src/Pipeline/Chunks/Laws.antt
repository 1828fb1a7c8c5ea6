-- ===== src/Pipeline/Chunks/Laws.antt =====
-- About `chunkDiff` of agent/pipeline/pipeline.go.
use mathlib.Core.List.{append_assoc}
use review.Base.{
  ℕ, false, not, ◌&&◌, List, [], ◌∷◌, ◌++◌, is_empty, ltb, ◌+◌, ◌≤◌, ◌<◌, ◌≡◌, refl, sym, ap, subst,
  ◌∙◌, inl, inr, arith, Bool-cases,
}
use review.Base.Int.{ℤ}
use review.Pipeline.Chunks.{FileDiff, chunk_loop, chunk_diff, token_limit}

abbrev pub concat : List (List FileDiff) → List FileDiff
concat [] = []
concat (chunk ∷ chunks) = chunk ++ concat chunks

abbrev pub tokens : List FileDiff → ℕ
tokens [] = 0
tokens (file ∷ files) = file.token_count + tokens files

-- A chunk holds a file, and it keeps the limit or is a single file.
abbrev pub Fits : ℕ → List FileDiff → Type 0
Fits max [] = ⊥
Fits max (file ∷ []) = Unit
Fits max (file ∷ next ∷ files) = tokens (file ∷ next ∷ files) ≤ max

-- Every chunk fits, and the first file of the next one had no room in it.
abbrev pub IsGreedy : ℕ → List (List FileDiff) → Type 0
IsGreedy max [] = Unit
IsGreedy max (chunk ∷ []) = Fits max chunk
IsGreedy max (chunk ∷ [] ∷ chunks) = ⊥
IsGreedy max (chunk ∷ (file ∷ files) ∷ chunks) =
    Fits max chunk
    × (max < tokens chunk + file.token_count)
    × IsGreedy max ((file ∷ files) ∷ chunks)

tokens-append : (a b : List FileDiff) → tokens (a ++ b) ≡ tokens a + tokens b
tokens-append [] b = omega arith
tokens-append (f ∷ a) b = omega (arith, tokens-append a b)

concat-chunk_loop :
    (max : ℕ) (current : List FileDiff) (total : ℕ) (files : List FileDiff)
    → concat (chunk_loop max current total files) ≡ current ++ files
unfolding chunk_loop
concat-chunk_loop max [] total [] = refl
concat-chunk_loop max (c ∷ cs) total [] = refl
concat-chunk_loop max current total (file ∷ files) =
    elim (Bool-cases (not (is_empty current) && ltb max (total + file.token_count))) [
      | inl full ↦
          rw full
            (ap (λ z. current ++ z) (concat-chunk_loop max (file ∷ []) file.token_count files))
      | inr room ↦ rw room (
          concat-chunk_loop max (current ++ file ∷ []) (total + file.token_count) files
          ∙ append_assoc current (file ∷ []) files)
    ]

-- The chunk that the loop fills: none yet, or one that fits.
abbrev Filling : ℕ → List FileDiff → Type 0
Filling max [] = Unit
Filling max (c ∷ cs) = Fits max (c ∷ cs)

-- What the loop leaves starts with the chunk that it was filling.
starts_with :
    (max : ℕ) (c : FileDiff) (cs : List FileDiff) (total : ℕ) (files : List FileDiff)
    → (more : List FileDiff) × (rest : List (List FileDiff)) × (chunk_loop max (c ∷ cs) total files
        ≡ (c ∷ more) ∷ rest)
unfolding chunk_loop
starts_with max c cs total [] = (cs, [], refl)
starts_with max c cs total (file ∷ files) = elim (Bool-cases (ltb max (total + file.token_count))) [
  | inl full ↦ (cs, chunk_loop max (file ∷ []) file.token_count files, ground (arith, full))
  | inr room ↦
      let (more, rest, e) = starts_with max c (cs ++ file ∷ []) (total + file.token_count) files in
      (more, rest, ground (arith, room, e))
]

Filling-append :
    (max : ℕ) (current : List FileDiff) (file : FileDiff)
    → (not (is_empty current) && ltb max (tokens current + file.token_count)) ≡ false
    → Filling max (current ++ file ∷ [])
Filling-append max [] file h = tt
Filling-append max (c ∷ []) file h = ground arith
Filling-append max (c ∷ d ∷ ds) file h = ground (arith, tokens-append ds (file ∷ []))

closed-IsGreedy :
    (max : ℕ) (c : FileDiff) (cs : List FileDiff) (file : FileDiff) (chunks : List (List FileDiff))
    → Fits max (c ∷ cs)
    → max < tokens (c ∷ cs) + file.token_count
    → IsGreedy max chunks
    → (more : List FileDiff) × (rest : List (List FileDiff)) × (chunks ≡ (file ∷ more) ∷ rest)
    → IsGreedy max ((c ∷ cs) ∷ chunks)
closed-IsGreedy max c cs file chunks f full g (more, rest, e) =
    subst (λ z. IsGreedy max ((c ∷ cs) ∷ z)) (sym e) (f, full, subst (IsGreedy max) e g)

chunk_loop-IsGreedy :
    (max : ℕ) (current : List FileDiff) (total : ℕ) (files : List FileDiff)
    → total ≡ tokens current
    → Filling max current
    → IsGreedy max (chunk_loop max current total files)
unfolding chunk_loop
chunk_loop-IsGreedy max [] total [] t f = tt
chunk_loop-IsGreedy max (c ∷ cs) total [] t f = f
chunk_loop-IsGreedy max [] total (file ∷ files) t f =
    chunk_loop-IsGreedy max (file ∷ []) (total + file.token_count) files (ground arith) tt
chunk_loop-IsGreedy max (c ∷ cs) total (file ∷ files) t f =
    elim (Bool-cases (ltb max (total + file.token_count))) [
      | inl full ↦ rw full (
          closed-IsGreedy max c cs file (chunk_loop max (file ∷ []) file.token_count files) f
            (ground arith)
            (chunk_loop-IsGreedy max (file ∷ []) file.token_count files (ground arith) tt)
            (starts_with max file [] file.token_count files))
      | inr room ↦ rw room (
          chunk_loop-IsGreedy max ((c ∷ cs) ++ file ∷ []) (total + file.token_count) files
            (ground (arith, tokens-append (c ∷ cs) (file ∷ [])))
            (Filling-append max (c ∷ cs) file (ground arith)))
    ]

-- The chunks of a diff, one after another, are its files; each of them holds a file and keeps the
-- token limit unless it is a single file; and the first file of a chunk had no room in the one before.
pub chunk_diff-IsGreedy :
    (files : List FileDiff) (max_tokens : ℤ)
    → (concat (chunk_diff files max_tokens) ≡ files)
      × IsGreedy (token_limit max_tokens) (chunk_diff files max_tokens)
unfolding chunk_diff
chunk_diff-IsGreedy files max_tokens = (
  concat-chunk_loop (token_limit max_tokens) [] 0 files,
  chunk_loop-IsGreedy (token_limit max_tokens) [] 0 files refl tt,
)
