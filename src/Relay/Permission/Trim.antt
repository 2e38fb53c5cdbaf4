-- ===== src/Relay/Permission/Trim.antt =====
-- What trimming and splitting at white space do.
use slack_claude_remote.Prelude.{
  ℕ, ◌≡◌, refl, ap, sym, ◌∙◌, inl, inr, true, false, some, [], ◌∷◌, ◌++◌, All, All-append, arith,
  Bool-cases, Option-cases, any,
}
use mathlib.Core.List.{reverse, reverse-append, reverse-reverse, reverse-cons}
use slack_claude_remote.Prelude.Text.{Text, is_whitespace, trim, trim_start, split_where}

abbrev pub IsSpace : Text → Type 0
IsSpace s = All (λ c. is_whitespace c ≡ true) s

abbrev pub IsWord : Text → Type 0
IsWord s = All (λ c. is_whitespace c ≡ false) s

pub All-reverse : (P : ℕ → Type 0) (s : Text) → All P s → All P (reverse s)
All-reverse P [] h = tt
All-reverse P (c ∷ s) (p, h) =
    rw (reverse-cons c s) (All-append P (reverse s) (c ∷ []) (All-reverse P s h) (p, tt))

pub trim_start_split : (s : Text) → (a : Text) × (s ≡ a ++ trim_start s) × IsSpace a
unfolding trim_start
trim_start_split [] = ([], refl, tt)
trim_start_split (c ∷ s) = elim (Bool-cases (is_whitespace c)) [
  | inl space ↦
      let (a, same, h) = trim_start_split s in rw space (c ∷ a, ap (◌∷◌ c) same, (space, h))
  | inr word ↦ rw word ([], refl, tt)
]

pub trim_split :
    (s : Text) → (a : Text) × (b : Text) × (s ≡ a ++ (trim s ++ b)) × IsSpace a × IsSpace b
unfolding trim
trim_split s =
    let (a, same, ha) = trim_start_split s in
    let u = trim_start s in
    let (b, back, hb) = trim_start_split (reverse u) in
    let turned : u ≡ reverse (trim_start (reverse u)) ++ reverse b =
      sym (reverse-reverse u) ∙ ap reverse back ∙ reverse-append b (trim_start (reverse u)) in
    (a, reverse b, same ∙ ap (λ t. a ++ t) turned, ha, All-reverse _ b hb)

pub trim_start-append : (a s : Text) → IsSpace a → trim_start (a ++ s) ≡ trim_start s
unfolding trim_start
trim_start-append [] s h = refl
trim_start-append (c ∷ a) s (p, h) = rw p (trim_start-append a s h)

pub trim_start_word : (c : ℕ) (s : Text) → is_whitespace c ≡ false → trim_start (c ∷ s) ≡ c ∷ s
unfolding trim_start
trim_start_word c s h = rw h

-- A text from its first to its last character that is no white space is trimmed to itself.
pub trim-append :
    (a s b : Text) (c d : ℕ) (front back : Text)
    → IsSpace a
    → IsSpace b
    → s ≡ c ∷ back
    → is_whitespace c ≡ false
    → s ≡ front ++ d ∷ []
    → is_whitespace d ≡ false
    → trim (a ++ (s ++ b)) ≡ s
unfolding trim
trim-append a s b c d front back ha hb starts word_c ends word_d =
    ap (λ t. reverse (trim_start (reverse t))) opened ∙ ap reverse closed ∙ reverse-reverse s
  where
    opened : trim_start (a ++ (s ++ b)) ≡ s ++ b
    opened =
        trim_start-append a (s ++ b) ha
        ∙ ap (λ t. trim_start (t ++ b)) starts
        ∙ trim_start_word c (back ++ b) word_c
        ∙ ap (λ t. t ++ b) (sym starts)

    turned : reverse s ≡ d ∷ reverse front
    turned = ap reverse ends ∙ reverse-append front (d ∷ [])

    closed : trim_start (reverse (s ++ b)) ≡ reverse s
    closed =
        ap trim_start (reverse-append s b)
        ∙ trim_start-append (reverse b) (reverse s) (All-reverse _ b hb)
        ∙ ap trim_start turned
        ∙ trim_start_word d (reverse front) word_d
        ∙ sym turned

-- Splitting at the first white space.
pub split_where_split :
    (s : Text) {a b : Text}
    → split_where is_whitespace s ≡ some (a, b)
    → (s ≡ a ++ b)
      × IsWord a
      × ((c : ℕ) × (rest : Text) × (b ≡ c ∷ rest) × (is_whitespace c ≡ true))
unfolding split_where
split_where_split [] e = cc
split_where_split (c ∷ s) {a} {b} e = elim (Bool-cases (is_whitespace c)) [
  | inl space ↦ here space
  | inr word ↦ elim (Option-cases (split_where is_whitespace s)) [
    | inl missing ↦ absurd (ground arith)
    | inr ((x, y), found) ↦ later x y word found (split_where_split s found)
  ]
]
  where
    here :
        is_whitespace c ≡ true
        → (c ∷ s ≡ a ++ b)
          × IsWord a
          × ((d : ℕ) × (rest : Text) × (b ≡ d ∷ rest) × (is_whitespace d ≡ true))
    here space =
        let at_a : a ≡ [] = ground arith in
        let at_b : b ≡ c ∷ s = ground arith in (rw (at_a, at_b), rw at_a tt, (c, s, at_b, space))

    later :
        (x y : Text)
        → is_whitespace c ≡ false
        → split_where is_whitespace s ≡ some (x, y)
        → (s ≡ x ++ y)
          × IsWord x
          × ((d : ℕ) × (rest : Text) × (y ≡ d ∷ rest) × (is_whitespace d ≡ true))
        → (c ∷ s ≡ a ++ b)
          × IsWord a
          × ((d : ℕ) × (rest : Text) × (b ≡ d ∷ rest) × (is_whitespace d ≡ true))
    later x y word found (same, words, (d, rest, at_y, space)) =
        let at_a : a ≡ c ∷ x = ground arith in
        let at_b : b ≡ y = ground arith in
        (rw (at_a, at_b) (ap (◌∷◌ c) same), rw at_a (word, words), (d, rest, at_b ∙ at_y, space))

pub split_where-append :
    (a : Text) (c : ℕ) (rest : Text)
    → IsWord a
    → is_whitespace c ≡ true
    → split_where is_whitespace (a ++ c ∷ rest) ≡ some (a, c ∷ rest)
unfolding split_where
split_where-append [] c rest h space = rw space
split_where-append (d ∷ a) c rest (word, h) space =
    ground (arith, split_where-append a c rest h space)

pub any-IsWord : (s : Text) → any is_whitespace s ≡ false → IsWord s
any-IsWord [] e = tt
any-IsWord (c ∷ s) e = (ground arith, any-IsWord s (ground arith))

pub IsWord-any : (s : Text) → IsWord s → any is_whitespace s ≡ false
IsWord-any [] h = refl
IsWord-any (c ∷ s) (p, h) = ground (arith, IsWord-any s h)
