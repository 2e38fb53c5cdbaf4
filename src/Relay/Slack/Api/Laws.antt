-- ===== src/Relay/Slack/Api/Laws.antt =====
-- What the clients answer.
use slack_claude_remote.Prelude.{◌≡◌, refl, ◌↔◌, true, some, Result, ok, err, arith}
use slack_claude_remote.Prelude.Text.{Text, codes}
use slack_claude_remote.Json.{Json, str_field}
use slack_claude_remote.Relay.Slack.Api.{SlackError, post_result, bool_field}

module _ (json : Json) where
  open json use {Value}

  -- The client reports success with a `ts` exactly when an answer came whose `ok` is true and that
  -- has this `ts`.
  pub post_result_iff :
      (answer : Result Value SlackError) (ts : Text)
      → (post_result json answer ≡ ok ts) ↔ (
          (resp : Value) × (answer ≡ ok resp)
          × (bool_field json resp (codes "ok") ≡ some true)
          × (str_field json resp (codes "ts") ≡ some ts))
  unfolding post_result
  post_result_iff (ok resp) ts =
      (λ e. (resp, refl, ground arith, ground arith), λ (r, same, fine, given). ground arith)
  post_result_iff (err e) ts = (λ h. cc, λ (r, same, _, _). cc)
