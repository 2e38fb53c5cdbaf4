-- ===== src/Relay/Permission/Grammar.antt =====
-- `parse_verdict` accepts the language of docs/spec.md 7.5,
-- `^\s*(y|yes|n|no)\s+([a-km-z]{5})\s*$` with upper or lower case, and nothing else.
use slack_claude_remote.Prelude.{
  ℕ, ◌≡◌, refl, ap, sym, ◌∙◌, subst, ◌≢◌, ◌↔◌, inl, inr, false, some, [], ◌∷◌, ◌++◌, All, length,
  arith, Option-cases, any,
}
use mathlib.Core.List.{append_assoc}
use slack_claude_remote.Prelude.Text.{
  Text, is_whitespace, to_ascii_lowercase, trim, trim_start, split_where,
}
use slack_claude_remote.Protocol.{Behavior}
use slack_claude_remote.Relay.Permission.{parse_verdict}
use slack_claude_remote.Relay.Permission.Trim.{
  IsSpace, IsWord, trim_start_split, trim_split, trim_start-append, trim_start_word, trim-append,
  split_where_split, split_where-append, any-IsWord, IsWord-any,
}
use slack_claude_remote.Relay.Permission.Words.{
  IsAnswer, IsIdLetter, letters_iff, letters-IsWord, behavior_of_sound, behavior_of_complete,
  IsFilledWord, filled_of_lower, answer_filled, last_split, IsWord-last,
}

pub record IsVerdict (text id : Text) (behavior : Behavior) : Type 0 where
  pub before : Text
  pub word : Text
  pub gap : Text
  pub typed : Text
  pub after : Text
  pub parts : text ≡ before ++ ((word ++ (gap ++ typed)) ++ after)
  pub space_before : IsSpace before
  pub space_gap : IsSpace gap
  pub space_after : IsSpace after
  pub apart : gap ≢ []
  pub answer : IsAnswer word behavior
  pub id_is : to_ascii_lowercase typed ≡ id
  pub five : length id ≡ 5
  pub letters : All IsIdLetter id

module _ {text id : Text} {behavior : Behavior} (v : IsVerdict text id behavior) where
  typed-IsFilledWord : IsFilledWord v.typed
  typed-IsFilledWord =
      filled_of_lower v.typed id v.id_is (letters-IsWord id v.letters)
        (λ empty. absurd (omega (arith, ap length empty, v.five)))

  verdict_trimmed : trim text ≡ v.word ++ (v.gap ++ v.typed)
  verdict_trimmed =
      let (_, (c, rest, starts, word_c)) = answer_filled v.word behavior v.answer in
      let (words, (t, more, typed_is, _)) = typed-IsFilledWord in
      let (front, d, ends) = last_split t more in
      let closes : v.typed ≡ front ++ d ∷ [] = typed_is ∙ ends in
      ap trim v.parts
      ∙ trim-append v.before (v.word ++ (v.gap ++ v.typed)) v.after c d ((v.word ++ v.gap) ++ front)
          (rest ++ (v.gap ++ v.typed)) v.space_before v.space_after
          (ap (λ w. w ++ (v.gap ++ v.typed)) starts) word_c
          (ap (λ x. v.word ++ (v.gap ++ x)) closes ∙ simp append_assoc)
          (IsWord-last front d (subst IsWord closes words))

  typed_of_rest : trim_start (v.gap ++ v.typed) ≡ v.typed
  typed_of_rest =
      let (_, (t, more, typed_is, word_t)) = typed-IsFilledWord in
      trim_start-append v.gap v.typed v.space_gap
      ∙ ap trim_start typed_is
      ∙ trim_start_word t more word_t
      ∙ sym typed_is

  split_of_trimmed :
      (gap : Text)
      → gap ≡ v.gap
      → split_where is_whitespace (v.word ++ (gap ++ v.typed)) ≡ some (v.word, gap ++ v.typed)
  split_of_trimmed [] same = absurd (v.apart (sym same))
  split_of_trimmed (c ∷ gap) same =
      split_where-append v.word c (gap ++ v.typed) (answer_filled v.word behavior v.answer).0
        (subst IsSpace (sym same) v.space_gap).0

  verdict_complete : parse_verdict text ≡ some (id, behavior)
  unfolding parse_verdict
  verdict_complete = rw (
    verdict_trimmed,
    split_of_trimmed v.gap refl,
    typed_of_rest,
    IsWord-any v.typed typed-IsFilledWord.0,
    behavior_of_complete v.word behavior v.answer,
    v.id_is,
    v.five,
    (letters_iff id).1 v.letters,
  )

IsVerdict-sound :
    (text id : Text) (behavior : Behavior)
    → parse_verdict text ≡ some (id, behavior)
    → IsVerdict text id behavior
unfolding parse_verdict
IsVerdict-sound text id behavior e = elim (Option-cases (split_where is_whitespace (trim text))) [
  | inl missing ↦ absurd (ground arith)
  | inr ((word, rest), found) ↦
      let (before, after, whole, space_before, space_after) = trim_split text in
      let (trimmed, _, (c, more, rest_is, space_c)) = split_where_split (trim text) found in
      let (gap, rest_split, space_gap) = trim_start_split rest in
      let typed : Text = trim_start rest in
      let one : any is_whitespace typed ≡ false = ground arith in
      let no_gap : gap ≡ [] → ⊥ = λ empty. cc (
        sym space_c
        ∙ head_IsWord typed c more (any-IsWord typed one)
            (sym (rest_split ∙ ap (λ g. g ++ typed) empty) ∙ rest_is)) in
      record {
        before = before;
        word = word;
        gap = gap;
        typed = typed;
        after = after;
        parts = whole ∙ ap (λ t. before ++ (t ++ after)) (trimmed ∙ ap (λ r. word ++ r) rest_split);
        space_before = space_before;
        space_gap = space_gap;
        space_after = space_after;
        apart = no_gap;
        answer = behavior_of_sound word behavior (ground arith);
        id_is = ground arith;
        five = ground arith;
        letters = (letters_iff id).0 (ground arith);
      }
]
  where
    head_IsWord :
        (s : Text) (c : ℕ) (more : Text) → IsWord s → s ≡ c ∷ more → is_whitespace c ≡ false
    head_IsWord s c more h same = (subst IsWord same h).0

-- `parse_verdict` returns an id and a behavior exactly for the texts that are, between white space,
-- y or yes (allow) or n or no (deny), white space, and a word whose lower case is this id, of five
-- letters from a to z without l; upper and lower case count the same.
pub parse_verdict_iff :
    (text id : Text) (behavior : Behavior)
    → (parse_verdict text ≡ some (id, behavior)) ↔ IsVerdict text id behavior
parse_verdict_iff text id behavior = (IsVerdict-sound text id behavior, λ v. verdict_complete v)
