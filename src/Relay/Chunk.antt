-- ===== src/Relay/Chunk.antt =====
-- Splitting a long reply into pieces (crates/relay/src/chunk.rs).
pub mod Spec
pub mod Laws
mod Tests
use mathlib.Core.Option
use slack_claude_remote.Prelude.{
  ℕ, zero, suc, ◌+◌, ◌-◌, Option, none, some, List, [], ◌∷◌, length, take, drop, ltb, ◌==◌,
  if◌then◌else◌, unwrap_or,
}
use slack_claude_remote.Prelude.Text.{Text, is_empty}

abbrev pub newline : ℕ
newline = 10

-- `window.iter().rposition(|&c| c == '\n')`
unfoldable pub rposition : Text → Option ℕ
rposition [] = none
rposition (c ∷ s) = elim (rposition s) [
  | some i ↦ some (suc i)
  | none ↦ if c == newline then some 0 else none
]

unfoldable pub split_len : ℕ → Text → ℕ
unfolding rposition
split_len max_chars window = unwrap_or (Option.map suc (rposition window)) max_chars

-- The `while` loop, on fuel: `none` means that the rounds ran out.
unfoldable pub chunk_from : ℕ → ℕ → Text → ℕ → Option (List Text)
unfolding split_len
chunk_from zero max_chars chars start = none
chunk_from (suc fuel) max_chars chars start =
    let len = split_len max_chars (take max_chars (drop start chars)) in
    let result =
      Option.map (◌∷◌ (take len (drop start chars)))
        (chunk_from fuel max_chars chars (start + len)) in
    if ltb max_chars (length chars - start) then result else some (drop start chars ∷ [])

-- A round takes a character at least, if `max_chars` is not 0.
unfoldable pub chunk : Text → ℕ → Option (List Text)
unfolding chunk_from is_empty
chunk text max_chars =
    if is_empty text then some ([] ∷ []) else chunk_from (suc (length text)) max_chars text 0
