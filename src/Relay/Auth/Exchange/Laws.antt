-- ===== src/Relay/Auth/Exchange/Laws.antt =====
-- When a code is exchanged, and what else may come of it.
use slack_claude_remote.Prelude.{
  ℕ, length, refl, none, ◌≡◌, ◌↔◌, ◌⊎◌, inl, inr, true, Bool-cases, Option, some, List,
  Option-cases, Result-cases, ok, err, Result, subst, [], unwrap_or, arith,
}
use slack_claude_remote.Prelude.Text.{Text, codes, text_eq}
use slack_claude_remote.Prelude.Map.{lookup}
use slack_claude_remote.Http.{HttpRequest, Answer, Reqwest}
use slack_claude_remote.Relay.Auth.Oidc.{OidcError, http}
use slack_claude_remote.Relay.Auth.Exchange.{TokenResponse, token, token_form, token_request}

module _ (reqwest : Reqwest) (token_body : List ℕ → Option TokenResponse) where
  -- The request of docs/spec.md 9.3: its form has the code, the client's id and secret and the
  -- redirect, each under its name, and no other field.
  pub record IsExchange (request : HttpRequest) (code client_id client_secret redirect_uri : Text)
      : Type 0 where
    pub address : request.url ≡ codes "https://slack.com/api/openid.connect.token"
    pub no_bearer : request.bearer ≡ none
    pub kind : request.content_type ≡ codes "application/x-www-form-urlencoded"
    pub fields : List (Text × Text)
    pub form : request.content ≡ reqwest.form_text fields
    pub four : length fields ≡ 4
    pub has_code : lookup (codes "code") fields ≡ some code
    pub has_client_id : lookup (codes "client_id") fields ≡ some client_id
    pub has_client_secret : lookup (codes "client_secret") fields ≡ some client_secret
    pub has_redirect : lookup (codes "redirect_uri") fields ≡ some redirect_uri

  -- The client was built, the server answered this request, and its answer carries the token.
  pub record Carries (request : HttpRequest) (id_token : Text) : Type 0 where
    pub built : reqwest.build 10 ≡ ok tt
    pub answer : Answer
    pub answered : reqwest.fetch request ≡ ok answer
    pub response : TokenResponse
    pub decoded : token_body answer.answer_body ≡ some response
    pub accepted : response.accepted ≡ true
    pub carried : response.id_token ≡ some id_token

  module _ (code client_id client_secret redirect_uri : Text) where
    abbrev exchanged : Result Text OidcError
    exchanged = token reqwest token_body code client_id client_secret redirect_uri

    abbrev request : HttpRequest
    request = token_request reqwest token_body code client_id client_secret redirect_uri

    abbrev IsCarried : Text → Type 0
    IsCarried = Carries request

    request-IsExchange : IsExchange request code client_id client_secret redirect_uri
    unfolding lookup text_eq codes
    request-IsExchange = record {
      address = refl;
      no_bearer = refl;
      kind = refl;
      fields = token_form code client_id client_secret redirect_uri;
      form = refl;
      four = refl;
      has_code = refl;
      has_client_id = refl;
      has_client_secret = refl;
      has_redirect = refl;
    }

    exchanged-cases :
        ((t : Text) × (exchanged ≡ ok t) × IsCarried t)
        ⊎ ((message : Text) × (exchanged ≡ err (http message)))
    unfolding token
    exchanged-cases = elim (Result-cases (reqwest.build 10)) [
      | inr (e, failed) ↦ inr (e, ground arith)
      | inl (_, built) ↦ elim (Result-cases (reqwest.fetch request)) [
        | inr (e, failed) ↦ inr (e, ground arith)
        | inl (answer, answered) ↦ elim (Option-cases (token_body answer.answer_body)) [
          | inl unread ↦ inr (reqwest.json_error answer.answer_body, ground arith)
          | inr (response, decoded) ↦ elim (Bool-cases response.accepted) [
            | inr denied ↦ inr (unwrap_or response.error [], ground arith)
            | inl accepted ↦ elim (Option-cases response.id_token) [
              | inl missing ↦ inr (codes "missing id_token", ground arith)
              | inr (t, carried) ↦ inl (
                t,
                ground arith,
                record {
                  built = built;
                  answer = answer;
                  answered = answered;
                  response = response;
                  decoded = decoded;
                  accepted = accepted;
                  carried = carried;
                },
              )
            ]
          ]
        ]
      ]
    ]

    exchanged_of_Carries : (id_token : Text) → IsCarried id_token → exchanged ≡ ok id_token
    unfolding token
    exchanged_of_Carries id_token c =
        ground (arith, c.built, c.answered, c.decoded, c.accepted, c.carried)

    -- There is a request whose form has the code, the client's id and secret and the redirect, each
    -- under its name and nothing else, so that the exchange brings an id_token exactly if the client
    -- could be built, the server answered this request, and the answer reads as an acceptance with
    -- this id_token; every other outcome is an error of the kind `Http`.
    pub token_iff :
        (id_token : Text)
        → ((asked : HttpRequest) × IsExchange asked code client_id client_secret redirect_uri
            × ((token reqwest token_body code client_id client_secret redirect_uri ≡ ok id_token)
                ↔ Carries asked id_token))
          × (((t : Text) × (token reqwest token_body code client_id client_secret redirect_uri
                  ≡ ok t))
              ⊎ ((message : Text) × (token reqwest token_body code client_id client_secret
                      redirect_uri
                    ≡ err (http message))))
    token_iff id_token = elim exchanged-cases [
      | inl (t, gives, c) ↦ (
        (
          request,
          request-IsExchange,
          (
            λ e. let same : t ≡ id_token = cc in subst IsCarried same c,
            exchanged_of_Carries id_token,
          ),
        ),
        inl (t, gives),
      )
      | inr (message, fails) ↦ (
        (request, request-IsExchange, (λ e. absurd (cc e), exchanged_of_Carries id_token)),
        inr (message, fails),
      )
    ]
