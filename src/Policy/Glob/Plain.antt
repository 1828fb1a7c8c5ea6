-- ===== src/Policy/Glob/Plain.antt =====
-- A pattern without wildcards, read byte by byte.
use Prim.Native.Char.{code}
use review.Base.{
  ℕ, ◌≤◌, ◌<◌, String, Bool, true, false, ◌&&◌, ◌≡◌, ◌≢◌, refl, List, [], ◌∷◌, arith, ltb, ◌==◌,
  length, length-append, inl, inr, Bool-cases, All,
}
use review.Policy.Glob.{codes, utf8, bytes, glob_tokens, matches, glob_match}

-- Neither `*` nor `?` occurs.
abbrev pub IsPlain : List ℕ → Type 0
IsPlain = All (λ b. (b ≢ b'*') × (b ≢ b'?'))

abbrev pub is_ascii : String → Bool
is_ascii String.[] = true
is_ascii (String.◌∷◌ c s) = ltb (code c) 0x80 && is_ascii s

same_list : List ℕ → List ℕ → Bool
same_list [] [] = true
same_list [] (c ∷ cs) = false
same_list (b ∷ bs) [] = false
same_list (b ∷ bs) (c ∷ cs) = b == c && same_list bs cs

matches-plain : (bs cs : List ℕ) → IsPlain bs → matches (glob_tokens bs) cs ≡ same_list bs cs
unfolding glob_tokens matches same_list
matches-plain [] [] h = refl
matches-plain [] (c ∷ cs) h = refl
matches-plain (b ∷ []) [] h = ground arith
matches-plain (b ∷ []) (c ∷ []) h = ground arith
matches-plain (b ∷ []) (c ∷ d ∷ cs) h = ground arith
matches-plain (b ∷ b' ∷ bs) [] (h, hs) = ground arith
matches-plain (b ∷ b' ∷ bs) (c ∷ cs) (h, hs) = ground (arith, matches-plain (b' ∷ bs) cs hs)

utf8-length : (c : ℕ) → 1 ≤ length (utf8 c)
unfolding utf8
utf8-length c = ground arith

utf8-wide : (c : ℕ) → 0x80 ≤ c → 2 ≤ length (utf8 c)
unfolding utf8
utf8-wide c h = ground arith

utf8-ascii : (c : ℕ) → c < 0x80 → utf8 c ≡ c ∷ []
unfolding utf8
utf8-ascii c h = ground arith

bytes-codes-le : (s : String) → length (codes s) ≤ length (bytes s)
unfolding codes bytes
bytes-codes-le String.[] = omega arith
bytes-codes-le (String.◌∷◌ c s) =
    omega (arith, bytes-codes-le s, utf8-length (code c), length-append (utf8 (code c)) (bytes s))

bytes-codes-lt : (s : String) → is_ascii s ≡ false → length (codes s) < length (bytes s)
unfolding codes bytes
bytes-codes-lt String.[] h = cc
bytes-codes-lt (String.◌∷◌ c s) h = ground (
  arith,
  bytes-codes-le s,
  bytes-codes-lt s,
  utf8-length (code c),
  utf8-wide (code c),
  length-append (utf8 (code c)) (bytes s),
)

bytes_of_ascii : (s : String) → is_ascii s ≡ true → bytes s ≡ codes s
unfolding codes bytes
bytes_of_ascii String.[] h = refl
bytes_of_ascii (String.◌∷◌ c s) h = ground (arith, bytes_of_ascii s, utf8-ascii (code c))

same_list_self : (bs : List ℕ) → same_list bs bs ≡ true
unfolding same_list
same_list_self [] = refl
same_list_self (b ∷ bs) = ground (arith, same_list_self bs)

same_list-length : (bs cs : List ℕ) → same_list bs cs ≡ true → length bs ≡ length cs
unfolding same_list
same_list-length [] [] h = refl
same_list-length [] (c ∷ cs) h = cc
same_list-length (b ∷ bs) [] h = cc
same_list-length (b ∷ bs) (c ∷ cs) h = ground (arith, same_list-length bs cs)

-- A pattern without wildcards matches its own text exactly if the text is ASCII: of any other
-- character the pattern's bytes are quoted one by one, as characters of their own.
pub glob_match_self :
    (pattern : String) → IsPlain (bytes pattern) → glob_match pattern pattern ≡ is_ascii pattern
unfolding glob_match
glob_match_self p h = elim (Bool-cases (is_ascii p)) [
  | inl e ↦
      rw (matches-plain (bytes p) (codes p) h, e, bytes_of_ascii p e) (same_list_self (codes p))
  | inr e ↦ ground (
    arith,
    matches-plain (bytes p) (codes p) h,
    same_list-length (bytes p) (codes p),
    bytes-codes-lt p e,
  )
]
