-- ===== src/Prelude/Text.antt =====
-- Rust strings as lists of code points, and what the program uses of `str` and `char`.
use Prim.Native.Char.{code}
use Prim.Native.String.{String}
use Prim.Native.Nat.{ℕ, zero, suc, ◌+◌, ◌-◌, ◌*◌, ◌/◌, ◌%◌, ◌^◌}
use mathlib.Core.Path.{◌≡◌, refl}
use mathlib.Core.Logic.{◌↔◌, ◌≢◌, inl, inr}
use mathlib.Core.Bool.{Bool, true, false, ◌&&◌, ◌||◌}
use mathlib.Core.Option.{Option, none, some}
use mathlib.Core.List.{List, [], ◌∷◌, ◌++◌, map, reverse}
use native.Mathlib.Omega.{arith}
use slack_claude_remote.Prelude.Tests.{ltb, leb, ◌==◌, if◌then◌else◌, Bool-cases}
use slack_claude_remote.Prelude.Lists.{length, replicate}
use slack_claude_remote.Prelude.Int.{ℤ, pos, negsuc, IsI64}

abbrev pub Text : Type 0
Text = List ℕ

-- A literal. It is shut, so that a proof reads it as one unknown text.
unfoldable pub codes : String → Text
codes String.[] = []
codes (String.◌∷◌ c s) = code c ∷ codes s

unfoldable pub text_eq : Text → Text → Bool
text_eq [] [] = true
text_eq (a ∷ s) (b ∷ t) = a == b && text_eq s t
text_eq _ _ = false

pub text_eq_iff : (s t : Text) → (text_eq s t ≡ true) ↔ (s ≡ t)
unfolding text_eq
text_eq_iff [] [] = ground arith
text_eq_iff [] (b ∷ t) = ground arith
text_eq_iff (a ∷ s) [] = ground arith
text_eq_iff (a ∷ s) (b ∷ t) = ground (arith, text_eq_iff s t)

pub text_eq_refl : (s : Text) → text_eq s s ≡ true
text_eq_refl s = (text_eq_iff s s).1 refl

pub ne_of_text_eq : (s t : Text) → text_eq s t ≡ false → s ≢ t
ne_of_text_eq s t h e = cc ((text_eq_iff s t).1 e)

-- `contains` of a vector or a set of strings.
unfoldable pub contains : List Text → Text → Bool
contains [] id = false
contains (x ∷ xs) id = if text_eq x id then true else contains xs id

-- Texts are ordered by their bytes, which is the order of the code points.
unfoldable pub text_lt : Text → Text → Bool
text_lt [] [] = false
text_lt [] (b ∷ t) = true
text_lt (a ∷ s) [] = false
text_lt (a ∷ s) (b ∷ t) = ltb a b || a == b && text_lt s t

pub text_lt_irrefl : (s : Text) → text_lt s s ≡ false
unfolding text_lt
text_lt_irrefl [] = refl
text_lt_irrefl (a ∷ s) = ground (arith, text_lt_irrefl s)

pub text_lt_trans : (s t u : Text) → text_lt s t ≡ true → text_lt t u ≡ true → text_lt s u ≡ true
unfolding text_lt
text_lt_trans [] [] u h k = cc
text_lt_trans [] (b ∷ t) [] h k = cc
text_lt_trans [] (b ∷ t) (c ∷ u) h k = refl
text_lt_trans (a ∷ s) [] u h k = cc
text_lt_trans (a ∷ s) (b ∷ t) [] h k = cc
text_lt_trans (a ∷ s) (b ∷ t) (c ∷ u) h k = ground (arith, text_lt_trans s t u)

pub text_lt_connex : (s t : Text) → text_lt s t ≡ false → text_lt t s ≡ false → s ≡ t
unfolding text_lt
text_lt_connex [] [] h k = refl
text_lt_connex [] (b ∷ t) h k = cc
text_lt_connex (a ∷ s) [] h k = cc
text_lt_connex (a ∷ s) (b ∷ t) h k = ground (arith, text_lt_connex s t)

-- `char::is_whitespace`: the Unicode property White_Space.
unfoldable pub is_whitespace : ℕ → Bool
is_whitespace c =
    leb 9 c && leb c 13
    || c == 32
    || c == 0x85
    || c == 0xa0
    || c == 0x1680
    || leb 0x2000 c && leb c 0x200a
    || c == 0x2028
    || c == 0x2029
    || c == 0x202f
    || c == 0x205f
    || c == 0x3000

-- `char::is_control`: the Unicode category Cc.
unfoldable pub is_control : ℕ → Bool
is_control c = ltb c 32 || leb 127 c && ltb c 160

unfoldable pub is_ascii_lowercase : ℕ → Bool
is_ascii_lowercase c = leb b'a' c && leb c b'z'

unfoldable pub lower : ℕ → ℕ
lower c = if leb b'A' c && leb c b'Z' then c + 32 else c

unfoldable pub to_ascii_lowercase : Text → Text
unfolding lower
to_ascii_lowercase s = map lower s

unfoldable pub trim_start : Text → Text
unfolding is_whitespace
trim_start [] = []
trim_start (c ∷ s) = if is_whitespace c then trim_start s else c ∷ s

unfoldable pub trim : Text → Text
unfolding trim_start
trim s = reverse (trim_start (reverse (trim_start s)))

-- `find(p)` and `split_at` of the place found: what stands before, and the rest from there on.
unfoldable pub split_where : (ℕ → Bool) → Text → Option (Text × Text)
split_where p [] = none
split_where p (c ∷ s) =
    if p c
    then some ([], c ∷ s)
    else elim (split_where p s) [ none ↦ none | some (a, b) ↦ some (c ∷ a, b) ]

-- `split_once(c)`: the separator itself is dropped.
unfoldable pub split_once : ℕ → Text → Option (Text × Text)
split_once c [] = none
split_once c (d ∷ s) =
    if d == c
    then some ([], s)
    else elim (split_once c s) [ none ↦ none | some (a, b) ↦ some (d ∷ a, b) ]

unfoldable pub strip_prefix : Text → Text → Option Text
strip_prefix [] s = some s
strip_prefix (a ∷ p) [] = none
strip_prefix (a ∷ p) (b ∷ s) = if a == b then strip_prefix p s else none

unfoldable pub starts_with : Text → Text → Bool
starts_with s [] = true
starts_with [] (a ∷ p) = false
starts_with (b ∷ s) (a ∷ p) = a == b && starts_with s p

unfoldable pub is_empty : Text → Bool
is_empty [] = true
is_empty (_ ∷ _) = false

-- `as_bytes()`: UTF-8.
unfoldable pub utf8_char : ℕ → List ℕ
utf8_char c =
    if ltb c 0x80
    then c ∷ []
    else if ltb c 0x800
    then (0xc0 + c / 0x40) ∷ (0x80 + c % 0x40) ∷ []
    else if ltb c 0x10000
    then (0xe0 + c / 0x1000) ∷ (0x80 + c / 0x40 % 0x40) ∷ (0x80 + c % 0x40) ∷ []
    else ((0xf0 + c / 0x40000)
        ∷ (0x80 + c / 0x1000 % 0x40)
        ∷ (0x80 + c / 0x40 % 0x40)
        ∷ (0x80 + c % 0x40)
        ∷ [])

unfoldable pub utf8 : Text → List ℕ
unfolding utf8_char
utf8 [] = []
utf8 (c ∷ s) = utf8_char c ++ utf8 s

is_digit : ℕ → Bool
is_digit c = leb b'0' c && leb c b'9'

digits_from : ℕ → Text → Option ℕ
digits_from acc [] = some acc
digits_from acc (c ∷ s) =
    let rest = digits_from (acc * 10 + (c - b'0')) s in if is_digit c then rest else none

digits : Text → Option ℕ
digits [] = none
digits (c ∷ s) = digits_from 0 (c ∷ s)

-- `parse::<i64>()`: a sign or none, digits, and a value within the range.
within_i64 : Bool → Option ℕ → Option ℤ
within_i64 negative none = none
within_i64 true (some zero) = some (pos 0)
within_i64 true (some (suc n)) = if ltb n (2 ^ 63) then some (negsuc n) else none
within_i64 false (some n) = if ltb n (2 ^ 63) then some (pos n) else none

unfoldable pub parse_i64 : Text → Option ℤ
unfolding within_i64 digits digits_from is_digit
parse_i64 [] = none
parse_i64 (c ∷ s) =
    if c == b'-'
    then within_i64 true (digits s)
    else if c == b'+'
    then within_i64 false (digits s)
    else within_i64 false (digits (c ∷ s))

within_i64-IsI64 :
    (negative : Bool) (n : Option ℕ) {t : ℤ} → within_i64 negative n ≡ some t → IsI64 t
unfolding within_i64
within_i64-IsI64 true none e = cc
within_i64-IsI64 false none e = cc
within_i64-IsI64 true (some zero) e = ground arith
within_i64-IsI64 true (some (suc n)) e = ground arith
within_i64-IsI64 false (some n) e = ground arith

pub parse_i64-IsI64 : (s : Text) {t : ℤ} → parse_i64 s ≡ some t → IsI64 t
unfolding parse_i64
parse_i64-IsI64 [] e = cc
parse_i64-IsI64 (c ∷ s) {t} e = elim (Bool-cases (c == b'-')) [
  | inl minus ↦ within_i64-IsI64 true (digits s) (rw minus at e)
  | inr no_minus ↦ elim (Bool-cases (c == b'+')) [
    | inl plus ↦ within_i64-IsI64 false (digits s) (rw (no_minus, plus) at e)
    | inr bare ↦ within_i64-IsI64 false (digits (c ∷ s)) (rw (no_minus, bare) at e)
  ]
]

pub strip_prefix-append : (p s : Text) → strip_prefix p (p ++ s) ≡ some s
unfolding strip_prefix
strip_prefix-append [] s = refl
strip_prefix-append (a ∷ p) s = ground (arith, strip_prefix-append p s)

pub append_of_strip_prefix : (p s : Text) {r : Text} → strip_prefix p s ≡ some r → s ≡ p ++ r
unfolding strip_prefix
append_of_strip_prefix [] s e = ground arith
append_of_strip_prefix (a ∷ p) [] e = cc
append_of_strip_prefix (a ∷ p) (b ∷ s) {r} e = ground (arith, append_of_strip_prefix p s {r = r})

-- The decimal digits of a number, as `{}` prints it; a number has at most as many digits as its
-- own value, plus one. `decimal_padded` is `{:0w}`.
decimal_from : ℕ → ℕ → Text → Text
decimal_from zero n acc = acc
decimal_from (suc fuel) n acc =
    let more = decimal_from fuel (n / 10) ((b'0' + n % 10) ∷ acc) in
    if ltb n 10 then (b'0' + n) ∷ acc else more

unfoldable pub decimal : ℕ → Text
unfolding decimal_from
decimal n = decimal_from (suc n) n []

unfoldable pub decimal_padded : ℕ → ℕ → Text
decimal_padded width n = replicate (width - length (decimal n)) b'0' ++ decimal n
