-- ===== src/Relay/Auth/Oidc/Tests.antt =====
-- The redirect, and a token that is not one.
use slack_claude_remote.Prelude.{ℕ, ◌≡◌, refl, Option, none, some, List, [], ◌∷◌, ok, err}
use slack_claude_remote.Prelude.Int.{pos}
use slack_claude_remote.Prelude.Text.{Text, codes, utf8, text_eq}
use slack_claude_remote.Samples.Trees.{
  Tree, text, number, object, to_members, tree_get, tree_str, tree_i64, tree_object, tree_json,
}
use slack_claude_remote.Json.{Json, last_value}
use slack_claude_remote.Relay.Auth.Oidc.{
  IdClaims, malformed, encode_byte, percent_encode, parse_id_token,
}

encoded : percent_encode (codes "a b/~") ≡ codes "a%20b%2F~"
unfolding percent_encode encode_byte utf8 codes
encoded = refl

abbrev payload : Tree
payload = object (
    to_members (
      (codes "iss", text (codes "https://slack.com"))
      ∷ (codes "aud", text (codes "client"))
      ∷ (codes "nonce", text (codes "n1"))
      ∷ (codes "exp", number (pos 2000))
      ∷ (codes "sub", text (codes "U1"))
      ∷ []))

-- Every payload is that object.
abbrev claim_json : Json
claim_json = record tree_json { parse_bytes = λ bs. some payload }

abbrev decode : Text → Option (List ℕ)
decode t = some t

abbrev admin : IdClaims
admin = record { sub = codes "U1"; name = none }

taken :
    parse_id_token claim_json decode (codes "h.p=.s") (codes "client") (codes "n1") (pos 1999)
    ≡ ok admin
unfolding parse_id_token codes text_eq last_value tree_get tree_str tree_i64 tree_object to_members
taken = refl

two_parts :
    parse_id_token claim_json decode (codes "h.p") (codes "client") (codes "n1") (pos 1999)
    ≡ err malformed
unfolding parse_id_token codes
two_parts = refl
