-- ===== src/Review/InlinePositions/Laws.antt =====
-- About `ChangedNewLines` of agent/review/inline_positions.go.
use native.Mathlib.Nat.{add-zero, add-suc, suc-add}
use review.Base.{
  ℕ, String, true, false, List, [], ◌∷◌, ◌++◌, Option, Error, map, ◌≡◌, ◌≢◌, ◌+◌, ◌≤◌, ◌<◌, refl,
  ap, ◌∙◌, arith, All,
}
use review.Base.Int.{ℤ, pos}
use review.Review.InlinePositions.Lines.{
  has_prefix, newline_free, join_lines, split_lines-join, max_int,
}
use review.Review.InlinePositions.{
  parse_inline_hunk_new_start, increment, changed_lines, changed_new_lines,
}

-- A line of a hunk: kept, added, or removed.
pub data DiffLine : Type 0 where
  kept added removed : String → DiffLine

abbrev pub print : DiffLine → String
print (kept s) = String.◌∷◌ " " s
print (added s) = String.◌∷◌ "+" s
print (removed s) = String.◌∷◌ "-" s

-- The numbers, in the new file, of the added lines of a hunk whose first new line is `n`.
abbrev pub added_numbers : ℕ → List DiffLine → List ℤ
added_numbers n [] = []
added_numbers n (kept s ∷ ds) = added_numbers (ℕ.suc n) ds
added_numbers n (added s ∷ ds) = pos n ∷ added_numbers (ℕ.suc n) ds
added_numbers n (removed s ∷ ds) = added_numbers n ds

-- A text that does not make its line look like a file header.
abbrev pub IsPlain : DiffLine → Type 0
IsPlain (kept s) = Unit
IsPlain (added s) = has_prefix "++" s ≡ false
IsPlain (removed s) = has_prefix "--" s ≡ false

abbrev pub new_side : List DiffLine → ℕ
new_side [] = 0
new_side (kept s ∷ ds) = ℕ.suc (new_side ds)
new_side (added s ∷ ds) = ℕ.suc (new_side ds)
new_side (removed s ∷ ds) = new_side ds

pub record Hunk : Type 0 where
  pub header : String
  pub start : ℕ
  pub lines : List DiffLine

abbrev pub hunk_lines : List Hunk → List String
hunk_lines [] = []
hunk_lines (h ∷ hs) = h.header ∷ (map print h.lines ++ hunk_lines hs)

abbrev pub hunk_numbers : List Hunk → List ℤ
hunk_numbers [] = []
hunk_numbers (h ∷ hs) = added_numbers h.start h.lines ++ hunk_numbers hs

-- A hunk whose header is read as its start, without lines that look like those of a file header.
pub record IsHunk (parse : String → ℤ) (h : Hunk) : Type 0 where
  pub marked : has_prefix "@@" h.header ≡ true
  pub start : parse h.header ≡ pos h.start
  pub given : h.start ≢ 0
  pub plain : All IsPlain h.lines
  pub small : h.start + new_side h.lines ≤ max_int

module _ (parse : String → ℤ) where
  changed_lines-print :
      (n : ℕ) (ds : List DiffLine) (rest : List String)
      → All IsPlain ds
      → n ≢ 0
      → n + new_side ds ≤ max_int
      → changed_lines parse (pos n) (map print ds ++ rest)
        ≡ added_numbers n ds ++ changed_lines parse (pos (n + new_side ds)) rest
  unfolding changed_lines has_prefix increment
  changed_lines-print n [] rest p nz m = rw add-zero refl
  changed_lines-print n (kept s ∷ ds) rest (_, p) nz m =
      rw (add-suc, ← (suc-add n (new_side ds)))
        (ground (arith, changed_lines-print (ℕ.suc n) ds rest p))
  changed_lines-print n (added s ∷ ds) rest (q, p) nz m =
      rw (add-suc, ← (suc-add n (new_side ds)))
        (ground (arith, changed_lines-print (ℕ.suc n) ds rest p))
  changed_lines-print n (removed s ∷ ds) rest (q, p) nz m =
      ground (arith, changed_lines-print n ds rest p)

  changed_lines-header :
      (z : ℤ) (line : String) (rest : List String)
      → has_prefix "@@" line ≡ true
      → changed_lines parse z (line ∷ rest) ≡ changed_lines parse (parse line) rest
  unfolding changed_lines
  changed_lines-header z line rest h = rw h refl

  changed_lines-hunks :
      (z : ℤ) (hs : List Hunk)
      → All (IsHunk parse) hs
      → changed_lines parse z (hunk_lines hs) ≡ hunk_numbers hs
  unfolding changed_lines
  changed_lines-hunks z [] a = refl
  changed_lines-hunks z (h ∷ hs) (i, a) =
      changed_lines-header z h.header (map print h.lines ++ hunk_lines hs) i.marked
      ∙ ap (λ y. changed_lines parse y (map print h.lines ++ hunk_lines hs)) i.start
      ∙ changed_lines-print h.start h.lines (hunk_lines hs) i.plain i.given i.small
      ∙ ap (λ y. added_numbers h.start h.lines ++ y)
          (changed_lines-hunks (pos (h.start + new_side h.lines)) hs a)

abbrev pub patch_of : Hunk → List Hunk → String
patch_of h hs = join_lines h.header (map print h.lines ++ hunk_lines hs)

-- The lines that are read off a patch of such hunks, none of whose lines holds a line feed, are the
-- numbers of its added lines in the new file.
pub changed_new_lines-patch :
    (atoi : String → ℤ × Option Error) (h : Hunk) (hs : List Hunk)
    → All (IsHunk (parse_inline_hunk_new_start atoi)) (h ∷ hs)
    → All (λ s. newline_free s ≡ true) (hunk_lines (h ∷ hs))
    → changed_new_lines atoi (patch_of h hs) ≡ hunk_numbers (h ∷ hs)
unfolding changed_new_lines
changed_new_lines-patch atoi h hs a (f, fs) =
    ap (changed_lines (parse_inline_hunk_new_start atoi) (pos 0))
      (split_lines-join h.header (map print h.lines ++ hunk_lines hs) f fs)
    ∙ changed_lines-hunks (parse_inline_hunk_new_start atoi) (pos 0) (h ∷ hs) a

abbrev pub no_newline_mark : String
no_newline_mark = "\\ No newline at end of file"

-- Where a file that ends without a line feed changes in its last line, the number of the added line is
-- one too high: the mark for the missing line feed is counted as a line of the new file.
pub changed_lines-unterminated :
    (parse : String → ℤ) (n : ℕ) (old new : String)
    → n ≢ 0
    → n < max_int
    → has_prefix "--" old ≡ false
    → has_prefix "++" new ≡ false
    → changed_lines parse
        (pos n)
        (print (removed old) ∷ no_newline_mark ∷ print (added new) ∷ no_newline_mark ∷ [])
      ≡ pos (ℕ.suc n) ∷ []
unfolding changed_lines has_prefix increment
changed_lines-unterminated parse n old new nz m p q = ground arith

-- An added line that starts with "++" is not listed, and the number of the added line below it is one
-- too low.
pub changed_lines-plus_plus :
    (parse : String → ℤ) (n : ℕ) (first next : String)
    → n ≢ 0
    → n < max_int
    → has_prefix "++" first ≡ true
    → has_prefix "++" next ≡ false
    → changed_lines parse (pos n) (map print (added first ∷ added next ∷ [])) ≡ pos n ∷ []
unfolding changed_lines has_prefix increment
changed_lines-plus_plus parse n first next nz m p q = ground arith
