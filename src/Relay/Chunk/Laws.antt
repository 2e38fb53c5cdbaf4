-- ===== src/Relay/Chunk/Laws.antt =====
-- `chunk` returns, and what it returns is a split by the rules.
use slack_claude_remote.Prelude.{
  ℕ, zero, suc, ◌+◌, ◌-◌, ◌≤◌, ◌<◌, ◌≡◌, refl, ap, inl, inr, Option, none, some, List, [], ◌∷◌,
  ◌++◌, length, take, drop, concat, All, arith, length-take, length-drop, drop-drop, ltb, ◌==◌,
  Option-cases, Bool-cases, length-append,
}
use slack_claude_remote.Prelude.Text.{Text}
use slack_claude_remote.Relay.Chunk.{newline, rposition, split_len, chunk_from, chunk}
use slack_claude_remote.Relay.Chunk.Spec.{
  NoNewline, IsCut, behind_newline, at_end, Chunking, rest, cut, Chunking-concat,
}

abbrev IsLast : Text → Option ℕ → Type 0
IsLast w none = NoNewline w
IsLast w (some i) =
    (before : Text) × (after : Text) × (w ≡ before ++ newline ∷ after)
    × NoNewline after
    × (i ≡ length before)

rposition-IsLast : (w : Text) → IsLast w (rposition w)
unfolding rposition
rposition-IsLast [] = tt
rposition-IsLast (c ∷ s) = elim (Option-cases (rposition s)) [
  | inl none_after ↦ elim (Bool-cases (c == newline)) [
    | inl here ↦
        rw (none_after, here) ([], s, ground arith, (rw none_after at (rposition-IsLast s)), refl)
    | inr other ↦ rw (none_after, other) (ground arith, (rw none_after at (rposition-IsLast s)))
  ]
  | inr (i, found) ↦
      let (before, after, same, free, at) = (rw found at (rposition-IsLast s)) in
      rw found (c ∷ before, after, ap (◌∷◌ c) same, free, ap suc at)
]

split_len-IsCut :
    (max_chars : ℕ) (w : Text) → length w ≡ max_chars → IsCut w (split_len max_chars w)
unfolding split_len
split_len-IsCut max_chars w full = elim (Option-cases (rposition w)) [
  | inl missing ↦ rw (missing, ← full) (at_end (rw missing at (rposition-IsLast w)))
  | inr (i, found) ↦
      let (before, after, same, free, at) = (rw found at (rposition-IsLast w)) in
      rw (found, at) (behind_newline before after same free)
]

IsCut-bounds : {w : Text} {n : ℕ} → IsCut w n → 0 < length w → (0 < n) × (n ≤ length w)
IsCut-bounds {w} (behind_newline before after same free) h =
    omega (arith, ap length same, length-append before (newline ∷ after))
IsCut-bounds (at_end free) h = omega arith

-- The loop from `start` on splits what is left, if the fuel exceeds its length.
chunk_from-Chunking :
    (fuel max_chars : ℕ) (chars : Text) (start : ℕ)
    → 0 < max_chars
    → length (drop start chars) < fuel
    → (ps : List Text) × (chunk_from fuel max_chars chars start ≡ some ps)
      × Chunking max_chars (drop start chars) ps
unfolding chunk_from
chunk_from-Chunking zero max_chars chars start positive enough = absurd (omega arith)
chunk_from-Chunking (suc fuel) max_chars chars start positive enough =
    elim (Bool-cases (ltb max_chars (length chars - start))) [
      | inr fits ↦ rw fits (
        drop start chars ∷ [],
        refl,
        rest (drop start chars) (ground (arith, length-drop start chars)),
      )
      | inl longer ↦
          let left = drop start chars in
          let n = split_len max_chars (take max_chars left) in
          let long : max_chars < length left = ground (arith, length-drop start chars) in
          let full : length (take max_chars left) ≡ max_chars =
            omega (arith, length-take max_chars left) in
          let c = split_len-IsCut max_chars (take max_chars left) full in
          let (pos, _) = IsCut-bounds c (omega arith) in
          let (ps, found, more) =
            chunk_from-Chunking fuel max_chars chars (start + n) positive
              (omega (arith, length-drop start chars, length-drop (start + n) chars)) in
          rw (longer, found)
            (take n left ∷ ps, refl, cut left n long c (rw (drop-drop n start chars) more))
    ]

-- With a positive limit `chunk` returns, and its result splits the text by the rules: a text within
-- the limit is one piece, and a longer one is cut behind the last newline of its first `max_chars`
-- characters, or at `max_chars` if there is none, and what is left is split in the same way.
pub chunk-Chunking :
    (text : Text) (max_chars : ℕ)
    → 0 < max_chars
    → (ps : List Text) × (chunk text max_chars ≡ some ps) × Chunking max_chars text ps
unfolding chunk
chunk-Chunking [] max_chars positive = ([] ∷ [], refl, rest [] (omega arith))
chunk-Chunking (c ∷ s) max_chars positive =
    chunk_from-Chunking (suc (length (c ∷ s))) max_chars (c ∷ s) 0 positive (omega arith)

Chunking-pieces :
    {max_chars : ℕ} {t : Text} {ps : List Text}
    → 0 < max_chars
    → 0 < length t
    → Chunking max_chars t ps
    → All (λ p. (0 < length p) × (length p ≤ max_chars)) ps
Chunking-pieces positive filled (rest t fits) = ((filled, fits), tt)
Chunking-pieces {max_chars} positive filled (cut t n long c more) =
    let (least, most) = IsCut-bounds c (omega (arith, length-take max_chars t)) in
    (
      omega (arith, length-take n t, length-take max_chars t),
      Chunking-pieces positive (omega (arith, length-drop n t, length-take max_chars t)) more,
    )

-- For a text that is not empty and a positive limit `chunk` returns pieces that make up the text
-- again, each of at least one character and at most `max_chars`.
pub chunk_pieces :
    (text : Text) (max_chars : ℕ)
    → 0 < max_chars
    → 0 < length text
    → (ps : List Text) × (chunk text max_chars ≡ some ps)
      × (concat ps ≡ text)
      × All (λ p. (0 < length p) × (length p ≤ max_chars)) ps
chunk_pieces text max_chars positive filled =
    let (ps, found, c) = chunk-Chunking text max_chars positive in
    (ps, found, Chunking-concat c, Chunking-pieces positive filled c)

-- With the limit 0 the loop makes no progress: whatever the fuel, a text that is not empty is never
-- split.
pub chunk_from_zero : (fuel : ℕ) (c : ℕ) (s : Text) → chunk_from fuel 0 (c ∷ s) 0 ≡ none
unfolding chunk_from
chunk_from_zero zero c s = refl
chunk_from_zero (suc fuel) c s = ground (arith, chunk_from_zero fuel c s)
