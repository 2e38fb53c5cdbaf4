-- ===== src/Relay/Slack/Http/Laws.antt =====
-- What the client sends, and what it makes of the answers.
use slack_claude_remote.Prelude.{
  ◌≤◌, ◌≡◌, ap, ◌∙◌, false, none, ◌↔◌, refl, true, Option, some, List, [], ◌∷◌, ◌++◌, ok,
  Option-cases, Result-cases, arith, inl, inr,
}
use slack_claude_remote.Prelude.Text.{Text, codes, text_eq}
use slack_claude_remote.Json.{Json, last_value, str_field}
use slack_claude_remote.Http.{HttpRequest, Answer, Reqwest}
use slack_claude_remote.Relay.Slack.Api.{
  Call, post, respond, post_message, respond_to, post_body, respond_body, post_result,
  respond_result, bool_field,
}
use slack_claude_remote.Relay.Slack.Http.{
  HttpSlack, post_request, respond_request, http_post, http_respond, http_slack, last_call,
}

last_call-append : (calls : List Call) (c : Call) → last_call (calls ++ c ∷ []) ≡ some c
unfolding last_call
last_call-append [] c = refl
last_call-append (d ∷ []) c = refl
last_call-append (d ∷ e ∷ calls) c = last_call-append (e ∷ calls) c

module _ (json : Json) (client : HttpSlack) where
  -- A request of `chat.postMessage` with the bot token, whose body reads as this channel, this thread
  -- or none, and this text.
  pub record IsPost (request : HttpRequest) (channel : Text) (thread_ts : Option Text) (text : Text)
      : Type 0 where
    pub address : request.url ≡ codes "https://slack.com/api/chat.postMessage"
    pub token : request.bearer ≡ some client.bot_token
    pub kind : request.content_type ≡ codes "application/json; charset=utf-8"
    pub body : json.Value
    pub printed : request.content ≡ json.print body
    pub has_channel : str_field json body (codes "channel") ≡ some channel
    pub has_thread : str_field json body (codes "thread_ts") ≡ thread_ts
    pub has_text : str_field json body (codes "text") ≡ some text

  -- A request to a `response_url`, without the token, whose body reads as this text, shown to the
  -- user alone, beside the message that was there.
  pub record IsResponse (request : HttpRequest) (response_url text : Text) : Type 0 where
    pub address : request.url ≡ response_url
    pub no_token : request.bearer ≡ none
    pub kind : request.content_type ≡ codes "application/json"
    pub body : json.Value
    pub printed : request.content ≡ json.print body
    pub ephemeral : str_field json body (codes "response_type") ≡ some (codes "ephemeral")
    pub beside : bool_field json body (codes "replace_original") ≡ some false
    pub has_text : str_field json body (codes "text") ≡ some text

  str_field-obj :
      (fs : List (Text × json.Value)) (k t : Text)
      → last_value k fs ≡ some (json.str t)
      → str_field json (json.obj fs) k ≡ some t
  str_field-obj fs k t h =
      ap (λ o. elim o [ none ↦ none | some w ↦ json.as_str w ]) (json.get-obj fs k ∙ h)
      ∙ json.as_str-str t

  post_request-IsPost :
      (channel : Text) (thread_ts : Option Text) (text : Text)
      → IsPost (post_request json client channel thread_ts text) channel thread_ts text
  unfolding post_body last_value text_eq codes
  post_request-IsPost channel none text = record {
    address = refl;
    token = refl;
    kind = refl;
    body = post_body json channel none text;
    printed = refl;
    has_channel = str_field-obj _ (codes "channel") channel refl;
    has_thread =
        ap (λ o. elim o [ none ↦ none | some w ↦ json.as_str w ])
          (json.get-obj ((codes "channel", json.str channel) ∷ (codes "text", json.str text) ∷ [])
            (codes "thread_ts"));
    has_text = str_field-obj _ (codes "text") text refl;
  }
  post_request-IsPost channel (some ts) text = record {
    address = refl;
    token = refl;
    kind = refl;
    body = post_body json channel (some ts) text;
    printed = refl;
    has_channel = str_field-obj _ (codes "channel") channel refl;
    has_thread = str_field-obj _ (codes "thread_ts") ts refl;
    has_text = str_field-obj _ (codes "text") text refl;
  }

  respond_request-IsResponse :
      (response_url text : Text)
      → IsResponse (respond_request json client response_url text) response_url text
  unfolding respond_body last_value text_eq codes
  respond_request-IsResponse response_url text = record {
    address = refl;
    no_token = refl;
    kind = refl;
    body = respond_body json text;
    printed = refl;
    ephemeral = str_field-obj _ (codes "response_type") (codes "ephemeral") refl;
    beside =
        ap (λ o. elim o [ none ↦ none | some w ↦ json.as_bool w ])
          (json.get-obj
            ((codes "response_type", json.str (codes "ephemeral"))
              ∷ (codes "replace_original", json.bool false)
              ∷ (codes "text", json.str text)
              ∷ [])
            (codes "replace_original"))
        ∙ json.as_bool-bool false;
    has_text = str_field-obj _ (codes "text") text refl;
  }

  -- Slack took the message: an answer with `"ok": true` and this `ts`.
  pub record IsTaken (reqwest : Reqwest) (request : HttpRequest) (ts : Text) : Type 0 where
    pub answer : Answer
    pub answered : reqwest.fetch request ≡ ok answer
    pub value : json.Value
    pub parsed : json.parse_bytes answer.answer_body ≡ some value
    pub is_ok : bool_field json value (codes "ok") ≡ some true
    pub has_ts : str_field json value (codes "ts") ≡ some ts

  http_post_iff :
      (reqwest : Reqwest) (channel : Text) (thread_ts : Option Text) (text ts : Text)
      → (http_post json client reqwest channel thread_ts text ≡ ok ts)
        ↔ IsTaken reqwest (post_request json client channel thread_ts text) ts
  unfolding http_post post_result
  http_post_iff reqwest channel thread_ts text ts = (sound, complete)
    where
      sound :
          http_post json client reqwest channel thread_ts text ≡ ok ts
          → IsTaken reqwest (post_request json client channel thread_ts text) ts
      sound e =
          elim (Result-cases (reqwest.fetch (post_request json client channel thread_ts text))) [
            | inr (_, failed) ↦ absurd (ground arith)
            | inl (answer, answered) ↦ elim (Option-cases (json.parse_bytes answer.answer_body)) [
              | inl unread ↦ absurd (ground arith)
              | inr (value, parsed) ↦ record {
                answer = answer;
                answered = answered;
                value = value;
                parsed = parsed;
                is_ok = ground arith;
                has_ts = ground arith;
              }
            ]
          ]

      complete :
          IsTaken reqwest (post_request json client channel thread_ts text) ts
          → http_post json client reqwest channel thread_ts text ≡ ok ts
      complete t = ground (arith, t.answered, t.parsed, t.is_ok, t.has_ts)

  -- The answer has a status from 200 to 299.
  pub record IsSuccess (reqwest : Reqwest) (request : HttpRequest) : Type 0 where
    pub answer : Answer
    pub answered : reqwest.fetch request ≡ ok answer
    pub at_least : 200 ≤ answer.answer_status
    pub at_most : answer.answer_status ≤ 299

  http_respond_iff :
      (reqwest : Reqwest) (response_url text : Text)
      → (http_respond json client reqwest response_url text ≡ ok tt)
        ↔ IsSuccess reqwest (respond_request json client response_url text)
  unfolding http_respond respond_result
  http_respond_iff reqwest response_url text = (sound, complete)
    where
      sound :
          http_respond json client reqwest response_url text ≡ ok tt
          → IsSuccess reqwest (respond_request json client response_url text)
      sound e =
          elim (Result-cases (reqwest.fetch (respond_request json client response_url text))) [
            | inr (_, failed) ↦ absurd (ground arith)
            | inl (answer, answered) ↦ record {
              answer = answer;
              answered = answered;
              at_least = ground arith;
              at_most = ground arith;
            }
          ]

      complete :
          IsSuccess reqwest (respond_request json client response_url text)
          → http_respond json client reqwest response_url text ≡ ok tt
      complete t = ground (arith, t.answered, t.at_least, t.at_most)

  -- There is a request of `chat.postMessage` with the bot token, the channel, the thread or none, and
  -- the text of the call, so that a post of the client succeeds with a timestamp exactly if the
  -- network answers this request with `"ok": true` and this timestamp; and one to the
  -- `response_url`, with the text of the call and without the token, so that the answer to it
  -- succeeds exactly if its status is from 200 to 299.
  pub http_slack_iff :
      (network : List Call → Reqwest) (channel : Text) (thread_ts : Option Text)
      (text ts response_url : Text) (calls : List Call)
      → ((asked : HttpRequest) × IsPost asked channel thread_ts text
          × (((post_message (http_slack json client network) channel thread_ts text calls).0
                ≡ ok ts)
              ↔ IsTaken (network (calls ++ post channel thread_ts text ∷ [])) asked ts))
        × ((asked : HttpRequest) × IsResponse asked response_url text
            × (((respond_to (http_slack json client network) response_url text calls).0 ≡ ok tt)
                ↔ IsSuccess (network (calls ++ respond response_url text ∷ [])) asked))
  unfolding post_message respond_to http_slack
  http_slack_iff network channel thread_ts text ts response_url calls = (
    (
      post_request json client channel thread_ts text,
      post_request-IsPost channel thread_ts text,
      rw (last_call-append calls (post channel thread_ts text)) (
          http_post_iff (network (calls ++ post channel thread_ts text ∷ [])) channel thread_ts text
            ts),
    ),
    (
      respond_request json client response_url text,
      respond_request-IsResponse response_url text,
      rw (last_call-append calls (respond response_url text))
          (http_respond_iff (network (calls ++ respond response_url text ∷ [])) response_url text),
    ),
  )
