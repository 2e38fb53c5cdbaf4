-- ===== src/Relay/Auth/Oidc.antt =====
-- OpenID Connect: the redirect and the claims of an id_token (crates/relay/src/auth/oidc.rs).
-- `decode` is base64 without padding, in its URL-safe form; `token` is the exchange of a code, of
-- `OidcHttp`, whose HTTP is not modelled.
pub mod Laws
mod Tests
use slack_claude_remote.Prelude.{
  ℕ, Bool, true, false, Option, none, some, List, [], ◌∷◌, ◌++◌, ◌-◌, ◌/◌, ◌%◌, ◌+◌, ◌&&◌, ◌||◌,
  ◌==◌, leb, ltb, Result, ok, err, ok_or, ◌>>=◌, if◌then◌else◌, reverse,
}
use slack_claude_remote.Prelude.Int.{ℤ, ltb_ℤ}
use slack_claude_remote.Prelude.Text.{Text, codes, utf8}
use slack_claude_remote.Json.{Json, str_field, is_text}

-- `{:X}` of a digit.
abbrev hex_digit : ℕ → ℕ
hex_digit d = if ltb d 10 then b'0' + d else b'A' + (d - 10)

unfoldable pub is_unreserved : ℕ → Bool
is_unreserved b =
    leb b'A' b && leb b b'Z'
    || leb b'a' b && leb b b'z'
    || leb b'0' b && leb b b'9'
    || b == b'-'
    || b == b'.'
    || b == b'_'
    || b == b'~'

unfoldable pub encode_byte : ℕ → Text
unfolding is_unreserved
encode_byte b =
    if is_unreserved b then b ∷ [] else b'%' ∷ hex_digit (b / 16) ∷ hex_digit (b % 16) ∷ []

unfoldable pub encode_bytes : List ℕ → Text
encode_bytes [] = []
encode_bytes (b ∷ bs) = encode_byte b ++ encode_bytes bs

unfoldable pub percent_encode : Text → Text
unfolding encode_bytes
percent_encode s = encode_bytes (utf8 s)

unfoldable pub authorize_url : (client_id redirect_uri login_state nonce : Text) → Text
unfolding percent_encode
authorize_url client_id redirect_uri login_state nonce =
    codes "https://slack.com/openid/connect/authorize?response_type=code&scope=openid%20profile"
    ++ codes "&client_id="
    ++ percent_encode client_id
    ++ codes "&state="
    ++ percent_encode login_state
    ++ codes "&nonce="
    ++ percent_encode nonce
    ++ codes "&redirect_uri="
    ++ percent_encode redirect_uri

pub record IdClaims : Type 0 where
  pub sub : Text
  pub name : Option Text

pub data OidcError : Type 0 where
  malformed issuer audience nonce_error expired : OidcError
  http : Text → OidcError

-- `split('.')`: the parts between the dots, at least one.
add_to_first : ℕ → List Text → List Text
add_to_first c [] = (c ∷ []) ∷ []
add_to_first c (p ∷ ps) = (c ∷ p) ∷ ps

unfoldable pub split_on : ℕ → Text → List Text
unfolding add_to_first
split_on c [] = [] ∷ []
split_on c (d ∷ s) = let rest = split_on c s in if d == c then [] ∷ rest else add_to_first d rest

-- `trim_end_matches('=')`
drop_equals : Text → Text
drop_equals [] = []
drop_equals (c ∷ s) = if c == b'=' then drop_equals s else c ∷ s

unfoldable pub trim_equals : Text → Text
unfolding drop_equals
trim_equals s = reverse (drop_equals (reverse s))

-- The middle one of three parts.
abbrev pub payload_part : List Text → Option Text
payload_part (a ∷ b ∷ c ∷ []) = some b
payload_part _ = none

module _ (json : Json) (decode : Text → Option (List ℕ)) where
  open json use {Value, get, as_i64, is_object, parse_bytes}

  abbrev claim_i64 : Value → Text → Option ℤ
  claim_i64 v k = elim (get v k) [ none ↦ none | some w ↦ as_i64 w ]

  abbrev is_later : Option ℤ → ℤ → Bool
  is_later none now = false
  is_later (some exp) now = ltb_ℤ now exp

  unfoldable pub check_claims : Text → Text → ℤ → Value → Result IdClaims OidcError
  check_claims client_id nonce now v =
      if is_text (str_field json v (codes "iss")) (codes "https://slack.com")
      then (if is_text (str_field json v (codes "aud")) client_id
          then (if is_text (str_field json v (codes "nonce")) nonce
              then (if is_later (claim_i64 v (codes "exp")) now
                  then elim (str_field json v (codes "sub")) [
                    | none ↦ err malformed
                    | some sub ↦ ok (record { sub = sub; name = str_field json v (codes "name") })
                  ]
                  else err expired)
              else err nonce_error)
          else err audience)
      else err issuer

  unfoldable pub parse_id_token : (jwt client_id nonce : Text) → ℤ → Result IdClaims OidcError
  unfolding check_claims split_on trim_equals
  parse_id_token jwt client_id nonce now = do
    part ← ok_or (payload_part (split_on b'.' jwt)) malformed
    bytes ← ok_or (decode (trim_equals part)) malformed
    value ← ok_or (parse_bytes bytes) malformed
    if is_object value then check_claims client_id nonce now value else err malformed
