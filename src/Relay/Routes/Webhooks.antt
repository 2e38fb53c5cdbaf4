-- ===== src/Relay/Routes/Webhooks.antt =====
-- The webhooks that Slack calls: events, commands and interactions (crates/relay/src/routes/slack.rs).
-- `now` is the clock at the check of the signature, `later` at the creation of a binding.
pub mod Signed
pub mod Bindings
mod Tests
use slack_claude_remote.Prelude.{
  ℕ, Bool, true, false, not, Option, none, some, List, [], ◌∷◌, ◌++◌, ◌-◌, ◌&&◌, length, retain,
  is_ok, ok, err, if◌then◌else◌, ◌>>=?◌ as ◌>>=◌,
}
use slack_claude_remote.Prelude.Int.{ℤ}
use slack_claude_remote.Prelude.Text.{
  Text, codes, text_eq, is_empty, contains, starts_with, decimal,
}
use slack_claude_remote.Prelude.Map.{Map, insert}
use slack_claude_remote.Json.{Json}
use slack_claude_remote.Http.{Headers, Response, CommandForm, status_only}
use slack_claude_remote.Relay.Slack.Api.{post_message, respond_to}
use slack_claude_remote.Relay.Slack.Api.Escape.{escape_mrkdwn}
use slack_claude_remote.Relay.Slack.Verify.{verify}
use slack_claude_remote.Relay.Slack.Events.{
  Candidate, Envelope, url_verification, message, other, classify,
}
use slack_claude_remote.Relay.Slack.Commands.{
  Cmd, pick, list, unbind, help, parse, pick_response, text_response,
}
use slack_claude_remote.Relay.Slack.Interactions.{Selection, selected_session}
use slack_claude_remote.Relay.Hub
use slack_claude_remote.Relay.Store.{Binding}
use slack_claude_remote.Relay.State.{AppState, save_store}
use slack_claude_remote.Relay.Routes.Env.{Env}

abbrev pub unauthorized_command : Text
unauthorized_command = codes "You are not authorized to use /cc."

abbrev pub invite_bot : Text
invite_bot = codes "Invite the bot to this channel first."

abbrev pub no_sessions_text : Text
no_sessions_text = codes "No sessions connected."

abbrev pub help_text : Text
help_text =
    codes "Usage:"
    ++ 10 ∷ codes "/cc - pick a session and start a thread in this channel"
    ++ 10 ∷ codes "/cc list - show connected sessions"
    ++ 10 ∷ codes "/cc unbind - remove all of your session threads in this channel"
    ++ 10 ∷ codes "/cc help - show this help"
    ++ 10
      ∷ codes "In a session thread, answer a permission prompt with \"yes <id>\" or \"no <id>\"."

-- The `fold` of the lines.
list_lines : Text → List Text → Text
list_lines acc [] = acc
list_lines acc (name ∷ names) = list_lines (acc ++ 10 ∷ codes "- " ++ name) names

unfoldable pub list_text : List Text → Text
unfolding list_lines
list_text [] = no_sessions_text
list_text (name ∷ names) = list_lines (codes "Connected sessions:") (name ∷ names)

-- The bindings of a user in a channel: those that `unbind` removes.
abbrev pub is_bound_by : Text → Text → Text × Binding → Bool
is_bound_by channel user (chat_id, b) =
    starts_with chat_id (channel ++ codes ":") && text_eq b.user user

abbrev pub root_text : Text → Text
root_text session =
    codes "Connected to session *" ++ escape_mrkdwn session ++ codes "*. Reply in this thread."

module _ (env : Env) where
  open env use {json, crypto, forms, store_codec, api}

  unfoldable pub signature_ok : AppState → Headers → List ℕ → ℤ → Bool
  signature_ok s headers body now =
      if is_empty s.cfg.signing_secret
      then false
      else elim (headers (codes "x-slack-request-timestamp")) [
        | none ↦ false
        | some ts ↦ elim (headers (codes "x-slack-signature")) [
          | none ↦ false
          | some sig ↦ is_ok (verify crypto s.cfg.signing_secret ts body sig now)
        ]
      ]

  -- The answer, and the task that is spawned: its event id and candidate.
  unfoldable pub events :
      AppState → Headers → List ℕ → ℤ → Response × Option (Text × Option Candidate)
  events s headers body now =
      if signature_ok s headers body now
      then elim (json.parse_bytes body) [
        | none ↦ (status_only 400, none)
        | some value ↦ elim (classify json value) [
          | url_verification challenge ↦ (
            record {
              status = 200;
              headers = (codes "content-type", codes "text/plain") ∷ [];
              body = challenge;
            },
            none,
          )
          | other ↦ (status_only 200, none)
          | message event_id candidate ↦ (status_only 200, some (event_id, candidate))
        ]
      ]
      else (status_only 401, none)

  -- A failure of the save is only logged.
  unfoldable pub unbind_threads : Text → Text → AppState → ℕ × AppState
  unbind_threads channel user s =
      let bindings = retain (λ x. not (is_bound_by channel user x)) s.store.bindings in
      let count = length s.store.bindings - length bindings in
      let store = record s.store { bindings = bindings } in
      let (_, saved) = save_store store_codec store (record s { store = store }) in (count, saved)

  -- `Json(reply)`.
  abbrev pub json_response : json.Value → Response
  json_response reply = record {
    status = 200;
    headers = (codes "content-type", codes "application/json") ∷ [];
    body = json.print reply;
  }

  unfoldable pub run_command : Cmd → CommandForm → AppState → json.Value × AppState
  unfolding unbind_threads
  run_command pick form s = (pick_response json (Hub.list s.hub), s)
  run_command list form s = (text_response json (list_text (Hub.list s.hub)), s)
  run_command unbind form s =
      let (count, s') = unbind_threads form.channel_id form.user_id s in
      (
        text_response json
            (codes "Unbound " ++ decimal count ++ codes " thread(s) in this channel."),
        s',
      )
  run_command help form s = (text_response json help_text, s)

  unfoldable pub commands : AppState → Headers → List ℕ → ℤ → Response × AppState
  commands s headers body now =
      if signature_ok s headers body now
      then elim (forms.command_form body) [
        | none ↦ (status_only 400, s)
        | some form ↦
            if contains s.store.users form.user_id
            then (let (reply, s') = run_command (parse form.text) form s in
                (json_response reply, s'))
            else (json_response (text_response json unauthorized_command), s)
      ]
      else (status_only 401, s)

  -- The root message, and the binding of its thread; the failure of a save is only logged.
  unfoldable pub bind_selected : ℤ → Selection → AppState → AppState
  bind_selected later sel s =
      let (answer, calls) = post_message api sel.channel none (root_text sel.session) s.calls in
      let posted = record s { calls = calls } in
      elim answer [
        | ok ts ↦
            let binding : Binding = record {
              session = sel.session;
              user = sel.user;
              created = later;
            } in
            let store = record s.store {
              bindings = insert (sel.channel ++ codes ":" ++ ts) binding s.store.bindings;
            } in
            let (_, saved) = save_store store_codec store (record posted { store = store }) in saved
        | err _ ↦
            let (_, calls') = respond_to api sel.response_url invite_bot calls in
            record posted { calls = calls' }
      ]

  unfoldable pub interactions : AppState → Headers → List ℕ → ℤ → ℤ → Response × AppState
  unfolding bind_selected
  interactions s headers body now later =
      if signature_ok s headers body now
      then elim (forms.interaction_payload body >>= json.parse) [
        | none ↦ (status_only 400, s)
        | some payload ↦ elim (selected_session json payload) [
          | none ↦ (status_only 200, s)
          | some sel ↦
              if contains s.store.users sel.user
              then (status_only 200, bind_selected later sel s)
              else (status_only 200, s)
        ]
      ]
      else (status_only 401, s)
