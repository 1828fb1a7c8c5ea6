-- ===== src/Policy/Glob/Laws.antt =====
-- What a path pattern matches.
use review.Base.{ℕ, true, ◌≡◌, ◌≢◌, refl, List, [], ◌∷◌, arith, inl, inr, Bool-cases}
use review.Policy.Glob.{Token, any_run, segment_run, segment_one, literal, matches}

-- What the tokens stand for: a run of any characters but newlines, a run within a path segment, one
-- character of a segment, and a character itself.
pub data Denotes : List Token → List ℕ → Type 0 where
  done : Denotes [] []
  same : {c : ℕ} {ts : List Token} {cs : List ℕ} → Denotes ts cs → Denotes (literal c ∷ ts) (c ∷ cs)
  one :
      {c : ℕ} {ts : List Token} {cs : List ℕ}
      → c ≢ b'/'
      → Denotes ts cs
      → Denotes (segment_one ∷ ts) (c ∷ cs)
  end_segment : {ts : List Token} {cs : List ℕ} → Denotes ts cs → Denotes (segment_run ∷ ts) cs
  in_segment :
      {c : ℕ} {ts : List Token} {cs : List ℕ}
      → c ≢ b'/'
      → Denotes (segment_run ∷ ts) cs
      → Denotes (segment_run ∷ ts) (c ∷ cs)
  end_run : {ts : List Token} {cs : List ℕ} → Denotes ts cs → Denotes (any_run ∷ ts) cs
  in_run :
      {c : ℕ} {ts : List Token} {cs : List ℕ}
      → c ≢ 10
      → Denotes (any_run ∷ ts) cs
      → Denotes (any_run ∷ ts) (c ∷ cs)

matches_sound : (ts : List Token) (cs : List ℕ) → matches ts cs ≡ true → Denotes ts cs
unfolding matches
matches_sound [] [] h = done
matches_sound [] (c ∷ cs) h = cc
matches_sound (literal x ∷ ts) [] h = cc
matches_sound (literal x ∷ ts) (c ∷ cs) h =
    let e : x ≡ c = ground arith in rw e (same (matches_sound ts cs (ground arith)))
matches_sound (segment_one ∷ ts) [] h = cc
matches_sound (segment_one ∷ ts) (c ∷ cs) h =
    one (ground arith) (matches_sound ts cs (ground arith))
matches_sound (segment_run ∷ ts) [] h = end_segment (matches_sound ts [] h)
matches_sound (segment_run ∷ ts) (c ∷ cs) h = elim (Bool-cases (matches ts (c ∷ cs))) [
  | inl e ↦ end_segment (matches_sound ts (c ∷ cs) e)
  | inr e ↦ in_segment (ground arith) (matches_sound (segment_run ∷ ts) cs (ground arith))
]
matches_sound (any_run ∷ ts) [] h = end_run (matches_sound ts [] h)
matches_sound (any_run ∷ ts) (c ∷ cs) h = elim (Bool-cases (matches ts (c ∷ cs))) [
  | inl e ↦ end_run (matches_sound ts (c ∷ cs) e)
  | inr e ↦ in_run (ground arith) (matches_sound (any_run ∷ ts) cs (ground arith))
]

pub matches-end_segment :
    (ts : List Token) (cs : List ℕ) → matches ts cs ≡ true → matches (segment_run ∷ ts) cs ≡ true
unfolding matches
matches-end_segment ts [] h = h
matches-end_segment ts (c ∷ cs) h = ground arith

pub matches-end_run :
    (ts : List Token) (cs : List ℕ) → matches ts cs ≡ true → matches (any_run ∷ ts) cs ≡ true
unfolding matches
matches-end_run ts [] h = h
matches-end_run ts (c ∷ cs) h = ground arith

matches_complete : {ts : List Token} {cs : List ℕ} → Denotes ts cs → matches ts cs ≡ true
unfolding matches
matches_complete done = refl
matches_complete (same {c = c} d) = ground (arith, matches_complete d)
matches_complete (one ne d) = ground (arith, matches_complete d)
matches_complete (end_segment {ts = ts} {cs = cs} d) =
    matches-end_segment ts cs (matches_complete d)
matches_complete (in_segment ne d) = ground (arith, matches_complete d)
matches_complete (end_run {ts = ts} {cs = cs} d) = matches-end_run ts cs (matches_complete d)
matches_complete (in_run ne d) = ground (arith, matches_complete d)
