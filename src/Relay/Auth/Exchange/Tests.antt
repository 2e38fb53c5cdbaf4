-- ===== src/Relay/Auth/Exchange/Tests.antt =====
-- An exchange that succeeds, and one that Slack refuses.
use slack_claude_remote.Prelude.{
  ℕ, ◌≡◌, refl, ◌↔◌, ◌⊎◌, true, false, Option, none, some, List, [], ◌∷◌, ok, err, ◌==◌,
  if◌then◌else◌,
}
use slack_claude_remote.Prelude.Text.{Text, codes}
use slack_claude_remote.Http.{HttpRequest, Reqwest}
use slack_claude_remote.Relay.Auth.Oidc.{http}
use slack_claude_remote.Relay.Auth.Exchange.{TokenResponse, token}
use slack_claude_remote.Relay.Auth.Exchange.Laws.{IsExchange, Carries, token_iff}

-- A server that answers every request, with its body as the answer.
abbrev echoing : Reqwest
echoing = record {
  build = λ timeout. ok tt;
  fetch = λ request. ok (record { answer_status = 200; answer_body = request.content });
  form_text = λ fields. elim fields [ [] ↦ [] | (_, v) ∷ _ ↦ v ];
  json_error = λ body. codes "json";
}

-- A body is accepted if it is the good code.
abbrev good_code : List ℕ → Option TokenResponse
good_code [] = none
good_code (c ∷ _) = some (
    if c == 1
    then record { accepted = true; id_token = some (codes "jwt"); error = none }
    else record { accepted = false; id_token = none; error = some (codes "invalid_code") })

refused_code : token echoing good_code (2 ∷ []) [] [] [] ≡ err (http (codes "invalid_code"))
unfolding token
refused_code = refl

token_iff_example :
    ((asked : HttpRequest) × IsExchange echoing good_code asked (1 ∷ []) [] [] []
      × ((token echoing good_code (1 ∷ []) [] [] [] ≡ ok (codes "jwt"))
          ↔ Carries echoing good_code asked (codes "jwt")))
    × (((t : Text) × (token echoing good_code (1 ∷ []) [] [] [] ≡ ok t))
        ⊎ ((message : Text) × (token echoing good_code (1 ∷ []) [] [] [] ≡ err (http message))))
token_iff_example = token_iff echoing good_code (1 ∷ []) [] [] [] (codes "jwt")
