-- ===== src/Relay/Auth/Html/Laws.antt =====
-- No value that a page shows can open a tag or end an attribute.
use slack_claude_remote.Prelude.{ℕ, ◌≡◌, ◌≢◌, refl, sym, [], ◌∷◌, ◌++◌, All, All-append, arith}
use mathlib.Core.Path.{ap₂}
use slack_claude_remote.Prelude.Text.{Text, codes}
use slack_claude_remote.Relay.Auth.Html.{escape_char, escape}

-- No angle bracket and no quotation mark.
abbrev pub IsPlain : ℕ → Type 0
IsPlain c = (c ≢ b'<') × (c ≢ b'>') × (c ≢ b'"') × (c ≢ b'\'')

escape_char-IsPlain : (c : ℕ) → All IsPlain (escape_char c)
unfolding escape_char codes
escape_char-IsPlain c = ground arith

escape-IsPlain : (s : Text) → All IsPlain (escape s)
unfolding escape
escape-IsPlain [] = tt
escape-IsPlain (c ∷ s) =
    All-append IsPlain (escape_char c) (escape s) (escape_char-IsPlain c) (escape-IsPlain s)

escape_char-injective :
    (c d : ℕ) (x y : Text) → escape_char c ++ x ≡ escape_char d ++ y → (c ≡ d) × (x ≡ y)
unfolding escape_char codes
escape_char-injective c d x y e = ground arith

escape_char-ne-nil : (c : ℕ) (x : Text) → escape_char c ++ x ≢ []
unfolding escape_char codes
escape_char-ne-nil c x e = ground arith

escape-injective : (s t : Text) → escape s ≡ escape t → s ≡ t
unfolding escape
escape-injective [] [] e = refl
escape-injective [] (d ∷ t) e = absurd (escape_char-ne-nil d (escape t) (sym e))
escape-injective (c ∷ s) [] e = absurd (escape_char-ne-nil c (escape s) e)
escape-injective (c ∷ s) (d ∷ t) e =
    let (same, more) = escape_char-injective c d (escape s) (escape t) e in
    ap₂ ◌∷◌ same (escape-injective s t more)

-- An escaped value has no angle bracket and no quotation mark, so it can open no tag and end no
-- attribute, and two values that escape to the same text are the same.
pub escape-safe : (s t : Text) → All IsPlain (escape s) × (escape s ≡ escape t → s ≡ t)
escape-safe s t = (escape-IsPlain s, escape-injective s t)
