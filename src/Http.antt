-- ===== src/Http.antt =====
-- HTTP as axum brings it to a handler, and the decoders of the crates that the handlers call.
use slack_claude_remote.Prelude.{ℕ, Option, List, [], Result}
use slack_claude_remote.Prelude.Text.{Text}

-- A header that is there once and holds visible ASCII, as `get(name)` and `to_str().ok()` see it.
abbrev pub Headers : Type 0
Headers = Text → Option Text

pub record Response : Type 0 where
  pub status : ℕ
  pub headers : List (Text × Text)
  pub body : Text

abbrev pub status_only : ℕ → Response
status_only code = record { status = code; headers = []; body = [] }

-- The fields of `CommandForm`, `Inject` and `CallbackQuery`.
pub record CommandForm : Type 0 where
  pub user_id : Text
  pub channel_id : Text
  pub text : Text

pub record Inject : Type 0 where
  pub session : Text
  pub chat_id : Text
  pub user : Text
  pub text : Text

pub record CallbackQuery : Type 0 where
  pub code : Option Text
  pub state : Option Text

-- serde_urlencoded and serde_json on the types of the forms.
pub record Forms : Type 0 where
  pub command_form : List ℕ → Option CommandForm
  pub interaction_payload : List ℕ → Option Text
  pub token_label : List ℕ → Option Text
  pub callback_query : Text → Option CallbackQuery
  pub inject_body : List ℕ → Option Inject

-- reqwest, which the program calls: a request with its method `POST`, and what a server answers.
pub record HttpRequest : Type 0 where
  pub url : Text
  pub bearer : Option Text
  pub content_type : Text
  pub content : Text

pub record Answer : Type 0 where
  pub answer_status : ℕ
  pub answer_body : List ℕ

-- A client with a timeout in seconds, or the text of the error of `build`; `fetch` brings the answer
-- to a request, or the text of a transport error; `form_text` is the body that `form` writes, and
-- `json_error` the text of the error of `json` on a body.
pub record Reqwest : Type 0 where
  pub build : (timeout_secs : ℕ) → Result (Unit {0}) Text
  pub fetch : HttpRequest → Result Answer Text
  pub form_text : List (Text × Text) → Text
  pub json_error : List ℕ → Text
