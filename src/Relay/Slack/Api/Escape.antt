-- ===== src/Relay/Slack/Api/Escape.antt =====
-- Escaping of values in mrkdwn text (`escape_mrkdwn` of crates/relay/src/slack/api.rs).
use slack_claude_remote.Prelude.{
  ℕ, ◌≡◌, refl, sym, ◌∙◌, ◌≢◌, [], ◌∷◌, ◌++◌, All, All-append, ◌==◌, if◌then◌else◌, arith,
}
use mathlib.Core.List.{append_assoc}
use mathlib.Core.Path.{ap₂}
use slack_claude_remote.Prelude.Text.{Text, codes}

-- `replace(c, by)`
unfoldable pub replace : ℕ → Text → Text → Text
replace c by [] = []
replace c by (d ∷ s) = (if d == c then by else d ∷ []) ++ replace c by s

unfoldable pub escape_mrkdwn : Text → Text
unfolding replace
escape_mrkdwn value =
    replace b'>' (codes "&gt;") (replace b'<' (codes "&lt;") (replace b'&' (codes "&amp;") value))

-- One character at a time.
pub escape_char : ℕ → Text
escape_char c =
    if c == b'&'
    then codes "&amp;"
    else if c == b'<'
    then codes "&lt;"
    else if c == b'>'
    then codes "&gt;"
    else c ∷ []

pub escape_each : Text → Text
escape_each [] = []
escape_each (c ∷ s) = escape_char c ++ escape_each s

replace-append : (c : ℕ) (by s t : Text) → replace c by (s ++ t) ≡ replace c by s ++ replace c by t
unfolding replace
replace-append c by [] t = refl
replace-append c by (d ∷ s) t = rw (
  replace-append c by s t,
  append_assoc (if d == c then by else d ∷ []) (replace c by s) (replace c by t),
)

escape_one : (c : ℕ) → escape_mrkdwn (c ∷ []) ≡ escape_char c
unfolding escape_mrkdwn escape_char codes
escape_one c = ground arith

escape_mrkdwn-append : (s t : Text) → escape_mrkdwn (s ++ t) ≡ escape_mrkdwn s ++ escape_mrkdwn t
unfolding escape_mrkdwn
escape_mrkdwn-append s t = simp replace-append

-- The three replacements, one after the other, are one replacement of each character: no character
-- of an escape is escaped again.
pub escape_mrkdwn-each : (s : Text) → escape_mrkdwn s ≡ escape_each s
unfolding escape_mrkdwn escape_each replace
escape_mrkdwn-each [] = refl
escape_mrkdwn-each (c ∷ s) =
    escape_mrkdwn-append (c ∷ []) s ∙ ap₂ ◌++◌ (escape_one c) (escape_mrkdwn-each s)

abbrev IsInert : ℕ → Type 0
IsInert c = (c ≢ b'<') × (c ≢ b'>')

escape_char-IsInert : (c : ℕ) → All IsInert (escape_char c)
unfolding escape_char codes
escape_char-IsInert c = ground arith

escape_each-IsInert : (s : Text) → All IsInert (escape_each s)
unfolding escape_each
escape_each-IsInert [] = tt
escape_each-IsInert (c ∷ s) =
    All-append IsInert (escape_char c) (escape_each s) (escape_char-IsInert c)
      (escape_each-IsInert s)

escape_mrkdwn-IsInert : (s : Text) → All (λ c. (c ≢ b'<') × (c ≢ b'>')) (escape_mrkdwn s)
escape_mrkdwn-IsInert s = rw (escape_mrkdwn-each s) (escape_each-IsInert s)

escape_char-injective :
    (c d : ℕ) (x y : Text) → escape_char c ++ x ≡ escape_char d ++ y → (c ≡ d) × (x ≡ y)
unfolding escape_char codes
escape_char-injective c d x y e = ground arith

escape_char-ne-nil : (c : ℕ) (x : Text) → escape_char c ++ x ≢ []
unfolding escape_char codes
escape_char-ne-nil c x e = ground arith

escape_each-injective : (s t : Text) → escape_each s ≡ escape_each t → s ≡ t
unfolding escape_each
escape_each-injective [] [] e = refl
escape_each-injective [] (d ∷ t) e = absurd (escape_char-ne-nil d (escape_each t) (sym e))
escape_each-injective (c ∷ s) [] e = absurd (escape_char-ne-nil c (escape_each s) e)
escape_each-injective (c ∷ s) (d ∷ t) e =
    let (same, rest) = escape_char-injective c d (escape_each s) (escape_each t) e in
    ap₂ ◌∷◌ same (escape_each-injective s t rest)

-- An escaped value has no angle bracket, so no link or mention of Slack, and two values that
-- escape to the same text are the same.
pub escape_mrkdwn-safe :
    (s t : Text)
    → All (λ c. (c ≢ b'<') × (c ≢ b'>')) (escape_mrkdwn s)
      × (escape_mrkdwn s ≡ escape_mrkdwn t → s ≡ t)
escape_mrkdwn-safe s t = (
  escape_mrkdwn-IsInert s,
  λ e. escape_each-injective s t (sym (escape_mrkdwn-each s) ∙ e ∙ escape_mrkdwn-each t),
)
