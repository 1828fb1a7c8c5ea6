-- ===== src/Pipeline/Chunks/Tests.antt =====
-- Four files in chunks of at most ten tokens.
use review.Base.{String, ℕ, ◌≡◌, refl, [], ◌∷◌, List}
use review.Base.Int.{pos}
use review.Base.Text.{is_space}
use review.Pipeline.Chunks.{FileDiff, chunk_diff, estimate_tokens}
use review.Pipeline.Chunks.Laws.{chunk_diff-IsGreedy, concat, IsGreedy}

abbrev file : String → ℕ → FileDiff
file path tokens = record { path = path; patch = ""; token_count = tokens }

abbrev files : List FileDiff
files = file "a" 4 ∷ file "b" 6 ∷ file "c" 30 ∷ file "d" 1 ∷ []

splits :
    chunk_diff files (pos 10)
    ≡ (file "a" 4 ∷ file "b" 6 ∷ []) ∷ (file "c" 30 ∷ []) ∷ (file "d" 1 ∷ []) ∷ []
unfolding chunk_diff
splits = refl

words_count : estimate_tokens "a b  c d e" ≡ 5
unfolding estimate_tokens is_space
words_count = refl

chunk_diff-IsGreedy_example :
    (concat (chunk_diff files (pos 10)) ≡ files) × IsGreedy 10 (chunk_diff files (pos 10))
chunk_diff-IsGreedy_example = chunk_diff-IsGreedy files (pos 10)
