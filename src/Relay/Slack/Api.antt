-- ===== src/Relay/Slack/Api.antt =====
-- The Slack Web API as the relay sees it (crates/relay/src/slack/api.rs).
-- A client is what answers the calls: `SlackApi` gives the answer to the last of the calls made so
-- far. The calls that a handler makes are kept in order, as `FakeSlack` keeps them.
pub mod Escape
pub mod Laws
mod Tests
use slack_claude_remote.Prelude.{ℕ}
use slack_claude_remote.Prelude.{
  suc, ◌+◌, ◌/◌, ◌%◌, ◌^◌, Bool, true, false, Option, none, some, List, [], ◌∷◌, ◌++◌, Result, ok,
  err, map_err, if◌then◌else◌, ◌>>=◌, leb, ◌&&◌, unwrap_or,
}
use slack_claude_remote.Prelude.Text.{Text, codes, decimal, decimal_padded}
use slack_claude_remote.Json.{Json, str_field}

-- An error code, or a short transport error.
abbrev pub SlackError : Type 0
SlackError = Text

pub data Call : Type 0 where
  post : (channel : Text) (thread_ts : Option Text) (text : Text) → Call
  respond : (response_url text : Text) → Call

pub record SlackApi : Type 0 where
  pub answer_post : List Call → Result Text SlackError
  pub answer_respond : List Call → Result (Unit {0}) SlackError

-- `post_message` and `respond` of the trait: the call is made, and the client answers.
unfoldable pub post_message :
    SlackApi → Text → Option Text → Text → List Call → Result Text SlackError × List Call
post_message api channel thread_ts text calls =
    let made = calls ++ post channel thread_ts text ∷ [] in (api.answer_post made, made)

unfoldable pub respond_to :
    SlackApi → Text → Text → List Call → Result (Unit {0}) SlackError × List Call
respond_to api response_url text calls =
    let made = calls ++ respond response_url text ∷ [] in (api.answer_respond made, made)

-- The test double. It counts the posts that succeed.
pub record FakeSlack : Type 0 where
  pub calls : List Call
  pub posts : ℕ
  pub fail_post : Option SlackError

abbrev pub FakeSlack_new : FakeSlack
FakeSlack_new = record { calls = []; posts = 0; fail_post = none }

abbrev pub failing : SlackError → FakeSlack
failing e = record FakeSlack_new { fail_post = some e }

-- "1700000000.{n:06}"
abbrev fake_ts : ℕ → Text
fake_ts n = codes "1700000000." ++ decimal_padded 6 n

unfoldable pub fake_post :
    FakeSlack → Text → Option Text → Text → Result Text SlackError × FakeSlack
fake_post fake channel thread_ts text =
    let recorded = record fake { calls = fake.calls ++ post channel thread_ts text ∷ [] } in
    elim fake.fail_post [
      | some e ↦ (err e, recorded)
      | none ↦ (ok (fake_ts (fake.posts + 1)), record recorded { posts = fake.posts + 1 })
    ]

unfoldable pub fake_respond : FakeSlack → Text → Text → Result (Unit {0}) SlackError × FakeSlack
fake_respond fake response_url text =
    (ok tt, record fake { calls = fake.calls ++ respond response_url text ∷ [] })

-- The development client: `now` is its clock, and it counts its posts in a 64-bit counter.
pub record LogSlack : Type 0 where
  pub counter : ℕ

unfoldable pub log_post : ℕ → LogSlack → Result Text SlackError × LogSlack
log_post now log =
    let n = (log.counter + 1) % 2 ^ 64 in
    (ok (decimal now ++ codes "." ++ decimal_padded 6 n), record log { counter = n })

unfoldable pub log_respond : LogSlack → Result (Unit {0}) SlackError × LogSlack
log_respond log = (ok tt, log)

module _ (json : Json) where
  open json use {Value, get, as_bool, str, bool, obj}

  -- The body of `chat.postMessage`.
  unfoldable pub post_body : Text → Option Text → Text → Value
  post_body channel none text = obj ((codes "channel", str channel) ∷ (codes "text", str text) ∷ [])
  post_body channel (some ts) text =
      obj (
        (codes "channel", str channel)
        ∷ (codes "thread_ts", str ts)
        ∷ (codes "text", str text)
        ∷ [])

  -- `resp.get("ok").and_then(Value::as_bool) == Some(true)`
  abbrev is_true : Option Bool → Bool
  is_true none = false
  is_true (some b) = b

  abbrev pub bool_field : Value → Text → Option Bool
  bool_field v k = elim (get v k) [ none ↦ none | some w ↦ as_bool w ]

  -- The answer of `HttpSlack::post_message`, from what the transport brought back.
  unfoldable pub post_result : Result Value SlackError → Result Text SlackError
  post_result answer = do
    resp ← answer
    if is_true (bool_field resp (codes "ok"))
        then elim (str_field json resp (codes "ts")) [
          | some ts ↦ ok ts
          | none ↦ err (codes "missing_ts")
        ]
        else err (unwrap_or (str_field json resp (codes "error")) (codes "unknown_error"))

  -- The body of an answer to a `response_url`, and the verdict on its status.
  unfoldable pub respond_body : Text → Value
  respond_body text = obj (
      (codes "response_type", str (codes "ephemeral"))
      ∷ (codes "replace_original", bool false)
      ∷ (codes "text", str text)
      ∷ [])

unfoldable pub respond_result : Result ℕ SlackError → Result (Unit {0}) SlackError
respond_result answer = do
  status ← answer
  if leb 200 status && leb status 299 then ok tt else err (codes "http_" ++ decimal status)
