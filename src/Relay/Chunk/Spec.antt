-- ===== src/Relay/Chunk/Spec.antt =====
-- What a split into pieces is, stated without indices, and what follows from it.
use mathlib.Core.List.{append-nil}
use slack_claude_remote.Prelude.{
  ℕ, suc, ◌≤◌, ◌<◌, ◌≡◌, ap, ◌∙◌, ◌≢◌, List, [], ◌∷◌, ◌++◌, length, take, drop, concat, All,
  take-append-drop,
}
use slack_claude_remote.Prelude.Text.{Text}
use slack_claude_remote.Relay.Chunk.{newline}

abbrev pub NoNewline : Text → Type 0
NoNewline s = All (λ c. c ≢ newline) s

-- Where a window is cut: behind its last newline, or at its end if it has none.
pub data IsCut (window : Text) : ℕ → Type 0 where
  behind_newline :
      (before after : Text)
      → window ≡ before ++ newline ∷ after
      → NoNewline after
      → IsCut window (suc (length before))
  at_end : NoNewline window → IsCut window (length window)

pub data Chunking (max_chars : ℕ) : Text → List Text → Type 0 where
  rest : (t : Text) → length t ≤ max_chars → Chunking max_chars t (t ∷ [])
  cut :
      (t : Text) (n : ℕ) {ps : List Text}
      → max_chars < length t
      → IsCut (take max_chars t) n
      → Chunking max_chars (drop n t) ps
      → Chunking max_chars t (take n t ∷ ps)

-- Every piece holds the limit, and the pieces together are the text.
pub Chunking-concat :
    {max_chars : ℕ} {t : Text} {ps : List Text} → Chunking max_chars t ps → concat ps ≡ t
Chunking-concat (rest t _) = append-nil t
Chunking-concat (cut t n {ps = ps} _ _ c) =
    ap (λ s. take n t ++ s) (Chunking-concat c) ∙ take-append-drop n t
