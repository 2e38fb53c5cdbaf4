-- ===== src/Relay/Permission/Words.antt =====
-- The words of a verdict: the answer and the five letters.
use slack_claude_remote.Prelude.{
  ℕ, ◌≤◌, ◌≡◌, refl, ap, sym, ◌∙◌, subst, ◌≢◌, ◌⊎◌, ◌↔◌, inl, inr, true, false, some, [], ◌∷◌, ◌++◌,
  map, All, all, arith,
}
use slack_claude_remote.Prelude.Text.{
  Text, codes, text_eq, text_eq_iff, is_whitespace, is_ascii_lowercase, lower, to_ascii_lowercase,
}
use slack_claude_remote.Protocol.{Behavior, allow, deny}
use slack_claude_remote.Relay.Permission.{behavior_of, id_letter}
use slack_claude_remote.Relay.Permission.Trim.{IsWord}

-- The word for each behavior, in any case.
abbrev pub IsAnswer : Text → Behavior → Type 0
IsAnswer word allow =
    (to_ascii_lowercase word ≡ codes "y") ⊎ (to_ascii_lowercase word ≡ codes "yes")
IsAnswer word deny = (to_ascii_lowercase word ≡ codes "n") ⊎ (to_ascii_lowercase word ≡ codes "no")

abbrev pub IsIdLetter : ℕ → Type 0
IsIdLetter c = (b'a' ≤ c) × (c ≤ b'z') × (c ≢ b'l')

lower_space : (c : ℕ) → is_whitespace (lower c) ≡ is_whitespace c
unfolding lower is_whitespace
lower_space c = ground arith

lower-IsWord : (s : Text) → IsWord (map lower s) → IsWord s
lower-IsWord [] h = tt
lower-IsWord (c ∷ s) (p, h) = (sym (lower_space c) ∙ p, lower-IsWord s h)

pub letters_iff : (s : Text) → (all id_letter s ≡ true) ↔ All IsIdLetter s
unfolding is_ascii_lowercase
letters_iff [] = (λ _. tt, λ _. refl)
letters_iff (c ∷ s) = ground (arith, letters_iff s)

letter-IsWord : (c : ℕ) → IsIdLetter c → is_whitespace c ≡ false
unfolding is_whitespace
letter-IsWord c h = ground arith

pub letters-IsWord : (s : Text) → All IsIdLetter s → IsWord s
letters-IsWord [] h = tt
letters-IsWord (c ∷ s) (p, h) = (letter-IsWord c p, letters-IsWord s h)

pub answers :
    (behavior_of (codes "y") ≡ some allow)
    × (behavior_of (codes "yes") ≡ some allow)
    × (behavior_of (codes "n") ≡ some deny)
    × (behavior_of (codes "no") ≡ some deny)
unfolding behavior_of codes text_eq
answers = (refl, refl, refl, refl)

pub behavior_of_sound :
    (word : Text) (b : Behavior) → behavior_of (to_ascii_lowercase word) ≡ some b → IsAnswer word b
unfolding behavior_of
behavior_of_sound word allow e =
    let w = to_ascii_lowercase word in
    ground (arith, text_eq_iff w (codes "y"), text_eq_iff w (codes "yes"))
behavior_of_sound word deny e =
    let w = to_ascii_lowercase word in
    ground (arith, text_eq_iff w (codes "n"), text_eq_iff w (codes "no"))

pub behavior_of_complete :
    (word : Text) (b : Behavior) → IsAnswer word b → behavior_of (to_ascii_lowercase word) ≡ some b
behavior_of_complete word allow (inl e) = ap behavior_of e ∙ answers.0
behavior_of_complete word allow (inr e) = ap behavior_of e ∙ answers.1
behavior_of_complete word deny (inl e) = ap behavior_of e ∙ answers.2
behavior_of_complete word deny (inr e) = ap behavior_of e ∙ answers.3

-- A text that has a plain word as its lower case is a word itself, and not empty.
abbrev pub IsFilledWord : Text → Type 0
IsFilledWord w = IsWord w × ((c : ℕ) × (rest : Text) × (w ≡ c ∷ rest) × (is_whitespace c ≡ false))

filled_of_IsWord : (w : Text) → IsWord w → w ≢ [] → IsFilledWord w
filled_of_IsWord [] h filled = absurd (filled refl)
filled_of_IsWord (c ∷ s) (p, h) filled = ((p, h), (c, s, refl, p))

pub filled_of_lower : (w l : Text) → to_ascii_lowercase w ≡ l → IsWord l → l ≢ [] → IsFilledWord w
unfolding to_ascii_lowercase
filled_of_lower w l e h filled =
    filled_of_IsWord w (lower-IsWord w (subst IsWord (sym e) h))
      (λ empty. filled (sym e ∙ ap (map lower) empty))

literal_y : IsWord (codes "y") × (codes "y" ≢ [])
unfolding codes is_whitespace
literal_y = ground arith

literal_yes : IsWord (codes "yes") × (codes "yes" ≢ [])
unfolding codes is_whitespace
literal_yes = ground arith

literal_n : IsWord (codes "n") × (codes "n" ≢ [])
unfolding codes is_whitespace
literal_n = ground arith

literal_no : IsWord (codes "no") × (codes "no" ≢ [])
unfolding codes is_whitespace
literal_no = ground arith

pub answer_filled : (w : Text) (b : Behavior) → IsAnswer w b → IsFilledWord w
answer_filled w allow (inl e) = filled_of_lower w (codes "y") e literal_y.0 literal_y.1
answer_filled w allow (inr e) = filled_of_lower w (codes "yes") e literal_yes.0 literal_yes.1
answer_filled w deny (inl e) = filled_of_lower w (codes "n") e literal_n.0 literal_n.1
answer_filled w deny (inr e) = filled_of_lower w (codes "no") e literal_no.0 literal_no.1

-- The last character of a text that is not empty.
pub last_split : (c : ℕ) (s : Text) → (front : Text) × (d : ℕ) × (c ∷ s ≡ front ++ d ∷ [])
last_split c [] = ([], c, refl)
last_split c (d ∷ s) =
    let (front, last, same) = last_split d s in (c ∷ front, last, ap (◌∷◌ c) same)

pub IsWord-last : (front : Text) (d : ℕ) → IsWord (front ++ d ∷ []) → is_whitespace d ≡ false
IsWord-last [] d (p, _) = p
IsWord-last (c ∷ front) d (_, h) = IsWord-last front d h
