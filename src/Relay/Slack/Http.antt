-- ===== src/Relay/Slack/Http.antt =====
-- The client of the Slack Web API (`HttpSlack` of crates/relay/src/slack/api.rs).
-- A call is the last of the calls made so far, and the network answers it as it does then.
pub mod Laws
mod Tests
use slack_claude_remote.Prelude.{
  ℕ, Option, none, some, List, [], ◌∷◌, Result, ok, err, map_err, ok_or, ◌>>=◌, ◌++◌,
}
use slack_claude_remote.Prelude.Text.{Text, codes}
use slack_claude_remote.Json.{Json}
use slack_claude_remote.Http.{HttpRequest, Answer, Reqwest}
use slack_claude_remote.Relay.Slack.Api.{
  SlackApi, SlackError, Call, post, respond, post_body, post_result, respond_body, respond_result,
}

pub record HttpSlack : Type 0 where
  pub bot_token : Text

-- `HttpSlack::new`
unfoldable pub new_client : Reqwest → Text → Result HttpSlack SlackError
new_client reqwest bot_token = do client ← reqwest.build 10; ok (record { bot_token = bot_token })

-- The last of the calls.
last_call : List Call → Option Call
last_call [] = none
last_call (c ∷ []) = some c
last_call (c ∷ d ∷ cs) = last_call (d ∷ cs)

module _ (json : Json) (client : HttpSlack) where
  open json use {Value, parse_bytes, print}

  abbrev pub post_request : Text → Option Text → Text → HttpRequest
  post_request channel thread_ts text = record {
    url = codes "https://slack.com/api/chat.postMessage";
    bearer = some client.bot_token;
    content_type = codes "application/json; charset=utf-8";
    content = print (post_body json channel thread_ts text);
  }

  abbrev pub respond_request : Text → Text → HttpRequest
  respond_request response_url text = record {
    url = response_url;
    bearer = none;
    content_type = codes "application/json";
    content = print (respond_body json text);
  }

  module _ (reqwest : Reqwest) where
    -- `send().await?.json().await`
    abbrev pub fetch_json : HttpRequest → Result Value SlackError
    fetch_json request = do
      resp ← reqwest.fetch request
      ok_or (parse_bytes resp.answer_body) (reqwest.json_error resp.answer_body)

    unfoldable pub http_post : Text → Option Text → Text → Result Text SlackError
    http_post channel thread_ts text =
        post_result json (fetch_json (post_request channel thread_ts text))

    abbrev pub fetch_status : HttpRequest → Result ℕ SlackError
    fetch_status request = do resp ← reqwest.fetch request; ok resp.answer_status

    unfoldable pub http_respond : Text → Text → Result (Unit {0}) SlackError
    http_respond response_url text =
        respond_result (fetch_status (respond_request response_url text))

  module _ (network : List Call → Reqwest) where
    answer_to_post : Reqwest → Option Call → Result Text SlackError
    unfolding http_post
    answer_to_post reqwest (some (post channel thread_ts text)) =
        http_post reqwest channel thread_ts text
    answer_to_post reqwest _ = err []

    answer_to_respond : Reqwest → Option Call → Result (Unit {0}) SlackError
    unfolding http_respond
    answer_to_respond reqwest (some (respond response_url text)) =
        http_respond reqwest response_url text
    answer_to_respond reqwest _ = err []

    -- The client as the handlers use it.
    unfoldable pub http_slack : SlackApi
    unfolding last_call answer_to_post answer_to_respond
    http_slack = record {
      answer_post = λ calls. answer_to_post (network calls) (last_call calls);
      answer_respond = λ calls. answer_to_respond (network calls) (last_call calls);
    }
