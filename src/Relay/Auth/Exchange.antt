-- ===== src/Relay/Auth/Exchange.antt =====
-- The exchange of a code for an id_token (`HttpOidc` of crates/relay/src/auth/oidc.rs).
-- `token_body` is serde_json on a `TokenResponse`.
pub mod Laws
mod Tests
use slack_claude_remote.Prelude.{
  ℕ, Bool, Option, List, [], ◌∷◌, Result, ok, err, ok_or, map_err, ◌>>=◌, if◌then◌else◌, unwrap_or,
  none,
}
use slack_claude_remote.Prelude.Text.{Text, codes}
use slack_claude_remote.Http.{HttpRequest, Answer, Reqwest}
use slack_claude_remote.Relay.Auth.Oidc.{OidcError, http}

pub record TokenResponse : Type 0 where
  pub accepted : Bool
  pub id_token : Option Text
  pub error : Option Text

-- The fields of the form.
abbrev pub token_form : (code client_id client_secret redirect_uri : Text) → List (Text × Text)
token_form code client_id client_secret redirect_uri =
    (codes "code", code)
    ∷ (codes "client_id", client_id)
    ∷ (codes "client_secret", client_secret)
    ∷ (codes "redirect_uri", redirect_uri)
    ∷ []

module _ (reqwest : Reqwest) (token_body : List ℕ → Option TokenResponse) where
  open reqwest use {build, fetch, form_text, json_error}

  abbrev pub token_request : (code client_id client_secret redirect_uri : Text) → HttpRequest
  token_request code client_id client_secret redirect_uri = record {
    url = codes "https://slack.com/api/openid.connect.token";
    bearer = none;
    content_type = codes "application/x-www-form-urlencoded";
    content = form_text (token_form code client_id client_secret redirect_uri);
  }

  unfoldable pub token : (code client_id client_secret redirect_uri : Text) → Result Text OidcError
  token code client_id client_secret redirect_uri = do
    client ← map_err http (build 10)
    resp ← map_err http (fetch (token_request code client_id client_secret redirect_uri))
    body ← map_err http (ok_or (token_body resp.answer_body) (json_error resp.answer_body))
    if body.accepted
        then ok_or body.id_token (http (codes "missing id_token"))
        else err (http (unwrap_or body.error []))
