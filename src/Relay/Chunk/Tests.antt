-- ===== src/Relay/Chunk/Tests.antt =====
-- The cases of crates/relay/src/chunk/tests.rs.
use slack_claude_remote.Prelude.{◌≡◌, refl, some, none, [], ◌∷◌, ◌++◌, List, arith}
use slack_claude_remote.Prelude.Text.{codes, Text}
use slack_claude_remote.Relay.Chunk.{chunk, chunk_from, newline}
use slack_claude_remote.Relay.Chunk.Spec.{Chunking}
use slack_claude_remote.Relay.Chunk.Laws.{chunk-Chunking, chunk_from_zero}

splits_on_last_newline :
    chunk (codes "ab" ++ newline ∷ codes "cd" ++ newline ∷ codes "ef") 6
    ≡ some ((codes "ab" ++ newline ∷ codes "cd" ++ newline ∷ []) ∷ codes "ef" ∷ [])
unfolding chunk codes
splits_on_last_newline = refl

hard_split_when_no_newline :
    chunk (codes "abcdefgh") 3 ≡ some (codes "abc" ∷ codes "def" ∷ codes "gh" ∷ [])
unfolding chunk codes
hard_split_when_no_newline = refl

empty_gives_one_empty : chunk [] 10 ≡ some ([] ∷ [])
unfolding chunk
empty_gives_one_empty = refl

chunk-Chunking_example :
    (ps : List Text) × (chunk (codes "abcdefgh") 3 ≡ some ps) × Chunking 3 (codes "abcdefgh") ps
chunk-Chunking_example = chunk-Chunking (codes "abcdefgh") 3 (omega arith)

chunk_from_zero_example : chunk_from 100 0 (codes "ab") 0 ≡ none
unfolding codes
chunk_from_zero_example = chunk_from_zero 100 b'a' (codes "b")
