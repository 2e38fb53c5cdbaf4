-- ===== src/Relay/Slack/Http/Tests.antt =====
-- A client whose network answers every request.
use slack_claude_remote.Prelude.{◌≡◌, ◌↔◌, refl, true, some, [], ◌∷◌, ok}
use slack_claude_remote.Prelude.Text.{codes}
use slack_claude_remote.Json.{Json}
use slack_claude_remote.Http.{HttpRequest}
use slack_claude_remote.Samples.Trees.{tree_json, object, to_members, text, truth}
use slack_claude_remote.Samples.Worlds.{answering}
use slack_claude_remote.Relay.Slack.Api.{post_message, respond_to}
use slack_claude_remote.Relay.Slack.Http.{HttpSlack, new_client, http_slack}
use slack_claude_remote.Relay.Slack.Http.Laws.{
  IsPost, IsResponse, IsTaken, IsSuccess, http_slack_iff,
}

-- Every body reads as `{"ok": true, "ts": "9.9"}`.
abbrev taking : Json
taking = record tree_json {
  parse_bytes = λ bs.
      some (object (to_members ((codes "ok", truth true) ∷ (codes "ts", text (codes "9.9")) ∷ [])));
}

abbrev client : HttpSlack
client = record { bot_token = codes "xoxb" }

client_built : new_client answering (codes "xoxb") ≡ ok client
unfolding new_client
client_built = refl

http_slack_iff_example :
    ((asked : HttpRequest) × IsPost taking client asked
        (codes "C1")
        (some (codes "1.0"))
        (codes "hi")
      × (((post_message
              (http_slack taking client (λ calls. answering))
              (codes "C1")
              (some (codes "1.0"))
              (codes "hi")
              []).0
            ≡ ok (codes "9.9"))
          ↔ IsTaken taking client answering asked (codes "9.9")))
    × ((asked : HttpRequest) × IsResponse taking client asked (codes "https://r") (codes "hi")
        × (((respond_to
                (http_slack taking client (λ calls. answering))
                (codes "https://r")
                (codes "hi")
                []).0
              ≡ ok tt)
            ↔ IsSuccess taking client answering asked))
http_slack_iff_example =
    http_slack_iff taking client (λ calls. answering) (codes "C1") (some (codes "1.0")) (codes "hi")
      (codes "9.9") (codes "https://r") []
