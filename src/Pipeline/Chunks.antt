-- ===== src/Pipeline/Chunks.antt =====
-- agent/pipeline/pipeline.go: `chunkDiff` and `estimateTokens`, and `FileDiff` of
-- agent/review/types.go. A token count is an estimate of `estimateTokens`, so it is not negative; the
-- sums stay far below the range of an int, since each counts a part of the bytes of a diff in memory.
pub mod Laws
mod Tests
use Prim.Native.Char.{Char}
use Prim.Native.String
use review.Base.{
  ℕ, suc, String, Bool, true, false, not, ◌&&◌, List, [], ◌∷◌, ◌++◌, is_empty, if◌then◌else◌, ltb,
  ◌+◌, ◌/◌, str_eq,
}
use review.Base.Int.{ℤ, pos, leb_ℤ, pos_part}
use review.Base.Text.{is_space}

pub record FileDiff : Type 0 where
  pub path : String
  pub patch : String
  pub token_count : ℕ

-- `len(strings.Fields(text))`: `inside` says that the character before was no space.
unfoldable pub count_fields : Bool → String → ℕ
count_fields inside String.[] = 0
count_fields inside (String.◌∷◌ c s) =
    let space = is_space c in
    let rest = count_fields (not space) s in if not space && not inside then suc rest else rest

unfoldable pub estimate_tokens : String → ℕ
unfolding count_fields
estimate_tokens text =
    if str_eq text ""
    then 0
    else (let by_chars = String.len text / 4 in
        let by_words = count_fields false text in
        if ltb by_words by_chars then by_chars else by_words)

abbrev pub non_empty_chunk : List FileDiff → List (List FileDiff)
non_empty_chunk [] = []
non_empty_chunk (file ∷ files) = (file ∷ files) ∷ []

-- The loop, with `current` and `total`. Each branch is bound, and waits.
unfoldable pub chunk_loop : ℕ → List FileDiff → ℕ → List FileDiff → List (List FileDiff)
chunk_loop max current total [] = non_empty_chunk current
chunk_loop max current total (file ∷ files) =
    let closed = current ∷ chunk_loop max (file ∷ []) file.token_count files in
    let open_chunk = chunk_loop max (current ++ file ∷ []) (total + file.token_count) files in
    if not (is_empty current) && ltb max (total + file.token_count) then closed else open_chunk

-- `if maxTokens <= 0 { maxTokens = 6000 }`
abbrev pub token_limit : ℤ → ℕ
token_limit max_tokens = if leb_ℤ max_tokens (pos 0) then 6000 else pos_part max_tokens

unfoldable pub chunk_diff : List FileDiff → ℤ → List (List FileDiff)
unfolding chunk_loop
chunk_diff files max_tokens = chunk_loop (token_limit max_tokens) [] 0 files
