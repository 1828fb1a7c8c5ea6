-- ===== src/Policy/Glob/Meaning.antt =====
-- What a path pattern means, byte by byte, and that `globRegexp` and `anyGlob` of
-- agent/policy/compile.go read it so.
use review.Base.{
  ℕ, String, true, ◌&&◌, ◌==◌, ◌≡◌, ◌≢◌, ◌↔◌, refl, List, [], ◌∷◌, arith, inl, inr, Bool-cases,
}
use review.Policy.Glob.{
  codes, bytes, Token, any_run, segment_run, segment_one, literal, single, glob_tokens, matches,
  glob_match,
}
use review.Policy.Glob.Laws.{matches-end_segment, matches-end_run}

-- The pattern does not begin with a star.
abbrev pub HasNoStar : List ℕ → Type 0
HasNoStar [] = Unit {0}
HasNoStar (b ∷ bs) = b ≢ b'*'

-- The texts of a pattern: two stars stand for a run of any characters but newlines, one star for a run
-- without a slash, a question mark for one character that is no slash, and any other byte for the
-- character whose code it is.
pub data Globs : List ℕ → List ℕ → Type 0 where
  done : Globs [] []
  plain : {b : ℕ} {bs cs : List ℕ} → b ≢ b'*' → b ≢ b'?' → Globs bs cs → Globs (b ∷ bs) (b ∷ cs)
  question :
      {b c : ℕ} {bs cs : List ℕ} → b ≡ b'?' → c ≢ b'/' → Globs bs cs → Globs (b ∷ bs) (c ∷ cs)
  star_end : {b : ℕ} {bs cs : List ℕ} → b ≡ b'*' → HasNoStar bs → Globs bs cs → Globs (b ∷ bs) cs
  star_more :
      {b c : ℕ} {bs cs : List ℕ}
      → b ≡ b'*'
      → HasNoStar bs
      → c ≢ b'/'
      → Globs (b ∷ bs) cs
      → Globs (b ∷ bs) (c ∷ cs)
  stars_end : {a b : ℕ} {bs cs : List ℕ} → a ≡ b'*' → b ≡ b'*' → Globs bs cs → Globs (a ∷ b ∷ bs) cs
  stars_more :
      {a b c : ℕ} {bs cs : List ℕ}
      → a ≡ b'*'
      → b ≡ b'*'
      → c ≢ 10
      → Globs (a ∷ b ∷ bs) cs
      → Globs (a ∷ b ∷ bs) (c ∷ cs)

glob_tokens-single :
    (b : ℕ) (bs : List ℕ)
    → (b ≡ b'*' → HasNoStar bs)
    → glob_tokens (b ∷ bs) ≡ single b ∷ glob_tokens bs
unfolding glob_tokens
glob_tokens-single b [] h = refl
glob_tokens-single b (c ∷ bs) h = elim (Bool-cases (b == b'*' && c == b'*')) [
  | inl both ↦ let e : b ≡ b'*' = ground arith in let f : c ≡ b'*' = ground arith in absurd (h e f)
  | inr apart ↦ rw apart refl
]

glob_tokens-stars :
    (a b : ℕ) (bs : List ℕ)
    → a ≡ b'*'
    → b ≡ b'*'
    → glob_tokens (a ∷ b ∷ bs) ≡ any_run ∷ glob_tokens bs
unfolding glob_tokens
glob_tokens-stars a b bs e f = rw (e, f) refl

-- What the texts of the rest of a pattern give for the texts of the pattern.
module _ (ts : List Token) (bs : List ℕ)
    (rest : (cs : List ℕ) → matches ts cs ≡ true → Globs bs cs) where
  stars_sound :
      (a b : ℕ) (cs : List ℕ)
      → a ≡ b'*'
      → b ≡ b'*'
      → matches (any_run ∷ ts) cs ≡ true
      → Globs (a ∷ b ∷ bs) cs
  unfolding matches
  stars_sound a b [] e f h = stars_end e f (rest [] h)
  stars_sound a b (c ∷ cs) e f h = elim (Bool-cases (matches ts (c ∷ cs))) [
    | inl stop ↦ stars_end e f (rest (c ∷ cs) stop)
    | inr go ↦ stars_more e f (ground arith) (stars_sound a b cs e f (ground arith))
  ]

  star_sound :
      (b : ℕ) (cs : List ℕ)
      → b ≡ b'*'
      → HasNoStar bs
      → matches (segment_run ∷ ts) cs ≡ true
      → Globs (b ∷ bs) cs
  unfolding matches
  star_sound b [] e n h = star_end e n (rest [] h)
  star_sound b (c ∷ cs) e n h = elim (Bool-cases (matches ts (c ∷ cs))) [
    | inl stop ↦ star_end e n (rest (c ∷ cs) stop)
    | inr go ↦ star_more e n (ground arith) (star_sound b cs e n (ground arith))
  ]

  question_sound :
      (b : ℕ) (cs : List ℕ) → b ≡ b'?' → matches (segment_one ∷ ts) cs ≡ true → Globs (b ∷ bs) cs
  unfolding matches
  question_sound b [] e h = absurd (cc)
  question_sound b (c ∷ cs) e h = question e (ground arith) (rest cs (ground arith))

  plain_sound :
      (b : ℕ) (cs : List ℕ)
      → b ≢ b'*'
      → b ≢ b'?'
      → matches (literal b ∷ ts) cs ≡ true
      → Globs (b ∷ bs) cs
  unfolding matches
  plain_sound b [] n m h = absurd (cc)
  plain_sound b (c ∷ cs) n m h =
      let e : b ≡ c = ground arith in rw⁻¹ e (plain n m (rest cs (ground arith)))

  single_sound :
      (b : ℕ) (cs : List ℕ)
      → (b ≡ b'*' → HasNoStar bs)
      → matches (single b ∷ ts) cs ≡ true
      → Globs (b ∷ bs) cs
  single_sound b cs n h = elim (Bool-cases (b == b'*')) [
    | inl star ↦ let e : b ≡ b'*' = ground arith in star_sound b cs e (n e) (rw star at h)
    | inr other ↦ elim (Bool-cases (b == b'?')) [
      | inl mark ↦ question_sound b cs (ground arith) (rw (other, mark) at h)
      | inr same ↦ plain_sound b cs (ground arith) (ground arith) (rw (other, same) at h)
    ]
  ]

glob_tokens_sound : (bs cs : List ℕ) → matches (glob_tokens bs) cs ≡ true → Globs bs cs
unfolding glob_tokens matches
glob_tokens_sound [] [] h = done
glob_tokens_sound [] (c ∷ cs) h = absurd (cc)
glob_tokens_sound (b ∷ []) cs h =
    single_sound [] [] (λ ds k. glob_tokens_sound [] ds k) b cs (λ e. tt) h
glob_tokens_sound (b ∷ c ∷ bs) cs h = elim (Bool-cases (b == b'*' && c == b'*')) [
  | inl both ↦
      stars_sound (glob_tokens bs) bs (λ ds k. glob_tokens_sound bs ds k) b c cs (ground arith)
        (ground arith) (rw both at h)
  | inr apart ↦
      single_sound (glob_tokens (c ∷ bs)) (c ∷ bs) (λ ds k. glob_tokens_sound (c ∷ bs) ds k) b cs
        (λ e f. ground arith) (rw apart at h)
]

no_tokens : matches (glob_tokens []) [] ≡ true
unfolding glob_tokens matches
no_tokens = refl

glob_tokens_complete : {bs cs : List ℕ} → Globs bs cs → matches (glob_tokens bs) cs ≡ true
unfolding matches
glob_tokens_complete done = no_tokens
glob_tokens_complete (plain {b} {bs} n m g) =
    rw (glob_tokens-single b bs (λ e. absurd (n e))) (ground (arith, glob_tokens_complete g))
glob_tokens_complete (question {b} {c} {bs} e n g) =
    rw (glob_tokens-single b bs (λ f. absurd (ground arith)))
      (ground (arith, glob_tokens_complete g))
glob_tokens_complete (star_end {b} {bs} {cs} e n g) =
    rw (glob_tokens-single b bs (λ f. n), e)
      (matches-end_segment (glob_tokens bs) cs (glob_tokens_complete g))
glob_tokens_complete (star_more {b} {c} {bs} {cs} e n m g) =
    let ih = (rw (glob_tokens-single b bs (λ f. n), e) at (glob_tokens_complete g)) in
    rw (glob_tokens-single b bs (λ f. n), e) (ground arith)
glob_tokens_complete (stars_end {a} {b} {bs} {cs} e f g) =
    rw (glob_tokens-stars a b bs e f) (matches-end_run (glob_tokens bs) cs (glob_tokens_complete g))
glob_tokens_complete (stars_more {a} {b} {c} {bs} {cs} e f n g) =
    let ih = (rw (glob_tokens-stars a b bs e f) at (glob_tokens_complete g)) in
    rw (glob_tokens-stars a b bs e f) (ground arith)

-- A pattern, read as its UTF-8 bytes, matches a text, read as its code points, exactly if the text is
-- one of those that the pattern stands for: a byte is itself, `?` a character that is no slash, `*` a
-- run without a slash, and `**` a run without a newline.
pub glob_match_iff :
    (pattern value : String)
    → (glob_match pattern value ≡ true) ↔ Globs (bytes pattern) (codes value)
unfolding glob_match
glob_match_iff pattern value = (glob_tokens_sound _ _, λ g. glob_tokens_complete g)
