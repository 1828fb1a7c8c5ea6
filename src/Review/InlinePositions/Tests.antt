-- ===== src/Review/InlinePositions/Tests.antt =====
-- A patch of two hunks, and two patches whose line numbers are off.
use review.Base.{
  String, true, [], ◌∷◌, Option, none, some, Error, new, ◌≡◌, refl, str_eq, arith, if◌then◌else◌,
  All,
}
use review.Base.Int.{ℤ, pos}
use review.Base.Text.{trim_space, is_space}
use review.Review.InlinePositions.Lines.{has_prefix, newline_free}
use review.Review.InlinePositions.{
  parse_inline_hunk_new_start, parse_hunk_new_start, changed_lines, changed_new_lines,
  pipeline_changed_new_lines, increment,
}
use review.Review.InlinePositions.Laws.{
  kept, added, removed, print, Hunk, IsHunk, hunk_lines, patch_of, changed_new_lines-patch,
  changed_lines-unterminated, no_newline_mark,
}

abbrev atoi : String → ℤ × Option Error
atoi s =
    if str_eq s "3"
    then (pos 3, none)
    else if str_eq s "20"
    then (pos 20, none)
    else (pos 0, some (new "invalid syntax"))

abbrev first : Hunk
first = record {
  header = "@@ -3,2 +3,3 @@ func f() {";
  start = 3;
  lines = kept "a" ∷ added "b" ∷ added "+c" ∷ removed "d" ∷ [];
}

abbrev second : Hunk
second = record { header = "@@ -19 +20 @@"; start = 20; lines = added "e" ∷ [] }

abbrev parse : String → ℤ
parse = parse_inline_hunk_new_start atoi

first-IsHunk : IsHunk parse first
unfolding parse_inline_hunk_new_start has_prefix trim_space is_space
first-IsHunk = record {
  marked = refl;
  start = refl;
  given = omega arith;
  plain = (tt, (refl, (refl, (refl, tt))));
  small = omega arith;
}

second-IsHunk : IsHunk parse second
unfolding parse_inline_hunk_new_start has_prefix trim_space is_space
second-IsHunk = record {
  marked = refl;
  start = refl;
  given = omega arith;
  plain = (refl, tt);
  small = omega arith;
}

free : All (λ s. newline_free s ≡ true) (hunk_lines (first ∷ second ∷ []))
free = (refl, (refl, (refl, (refl, (refl, (refl, (refl, tt)))))))

changed_new_lines-patch_example :
    changed_new_lines atoi (patch_of first (second ∷ [])) ≡ pos 4 ∷ pos 5 ∷ pos 20 ∷ []
changed_new_lines-patch_example =
    changed_new_lines-patch atoi first (second ∷ []) (first-IsHunk, (second-IsHunk, tt)) free

-- The twin of the pipeline reads the same patch alike.
twin : pipeline_changed_new_lines atoi "@@ -19 +20 @@\n+e\n f" ≡ pos 20 ∷ []
unfolding pipeline_changed_new_lines parse_hunk_new_start changed_lines increment
twin = refl

changed_lines-unterminated_example :
    changed_lines parse
      (pos 7)
      (print (removed "old") ∷ no_newline_mark ∷ print (added "new") ∷ no_newline_mark ∷ [])
    ≡ pos 8 ∷ []
unfolding has_prefix
changed_lines-unterminated_example =
    changed_lines-unterminated parse 7 "old" "new" (omega arith) (omega arith) refl refl
