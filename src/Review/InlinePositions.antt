-- ===== src/Review/InlinePositions.antt =====
-- agent/review/inline_positions.go: the lines of a diff that can take a comment, and the twin of its
-- loop in agent/pipeline/pipeline.go. `atoi` stands for `strconv.Atoi`: a number, with an error or
-- none. A set of line numbers is a list; a line that is added twice stands there twice.
pub mod Lines
pub mod Laws
mod Tests
use Prim.Native.Char.{Char, code}
use Prim.Native.String
use review.Base.{
  ℕ, String, Bool, true, false, not, ◌||◌, ◌&&◌, if◌then◌else◌, List, [], ◌∷◌, ◌++◌, ◌==◌, str_eq,
  is_empty, Option, none, some, Error, map, ◌-◌,
}
use review.Base.Int.{ℤ, pos, negsuc, eqb_ℤ, ltb_ℤ}
use review.Base.Text.{trim_space, is_blank}
use review.Base.Names.Order.{str_ltb}
use review.Policy.Schema.{lookup}
use Lines.{split_lines, has_prefix, after_plus, until_end, max_int}

-- `parseInlineHunkNewStart`
unfoldable pub parse_inline_hunk_new_start : (String → ℤ × Option Error) → String → ℤ
unfolding after_plus until_end
parse_inline_hunk_new_start atoi line = elim (after_plus line) [
  | none ↦ pos 0
  | some rest ↦
      let (value, error) = atoi (trim_space (until_end rest)) in
      elim error [ none ↦ value | some e ↦ pos 0 ]
]

-- `parseHunkNewStart` of agent/pipeline/pipeline.go
unfoldable pub parse_hunk_new_start : (String → ℤ × Option Error) → String → ℤ
unfolding after_plus until_end
parse_hunk_new_start atoi header = elim (after_plus header) [
  | none ↦ pos 0
  | some rest ↦ (atoi (until_end rest)).0
]

-- `newLine++` on an int of 64 bits
unfoldable pub increment : ℤ → ℤ
increment (pos n) = if n == max_int then negsuc max_int else pos (ℕ.suc n)
increment (negsuc n) = if n == 0 then pos 0 else negsuc (n - 1)

-- The loop of `ChangedNewLines` from one line on.
module _ (parse : String → ℤ) where
  unfoldable pub changed_lines : ℤ → List String → List ℤ
  unfolding has_prefix
  changed_lines new_line [] = []
  changed_lines new_line (line ∷ lines) =
      let header = changed_lines (parse line) lines in
      let skipped = changed_lines new_line lines in
      let next = changed_lines (increment new_line) lines in
      if has_prefix "@@" line
      then header
      else if eqb_ℤ new_line (pos 0) || has_prefix "+++" line || has_prefix "---" line
      then skipped
      else if has_prefix "+" line
      then new_line ∷ next
      else if has_prefix "-" line
      then skipped
      else next

-- `ChangedNewLines`
unfoldable pub changed_new_lines : (String → ℤ × Option Error) → String → List ℤ
unfolding split_lines
changed_new_lines atoi patch =
    changed_lines (parse_inline_hunk_new_start atoi) (pos 0) (split_lines patch)

-- `changedNewLines` of agent/pipeline/pipeline.go
unfoldable pub pipeline_changed_new_lines : (String → ℤ × Option Error) → String → List ℤ
unfolding split_lines
pipeline_changed_new_lines atoi patch =
    changed_lines (parse_hunk_new_start atoi) (pos 0) (split_lines patch)
