-- ===== src/Relay/Slack/Events.antt =====
-- Classification of the Events API envelope (crates/relay/src/slack/events.rs).
pub mod Laws
mod Tests
use slack_claude_remote.Prelude.{
  Option, none, some, ◌++◌, ◌&&◌, if◌then◌else◌, is_some, unwrap_or, ◌>>=?◌ as ◌>>=◌,
}
use slack_claude_remote.Prelude.Text.{Text, codes, text_eq}
use slack_claude_remote.Json.{Json, str_field, is_text}

pub record Candidate : Type 0 where
  pub chat_id : Text
  pub channel : Text
  pub thread_ts : Text
  pub user : Text
  pub text : Text

pub data Envelope : Type 0 where
  url_verification : (challenge : Text) → Envelope
  message : (event_id : Text) (candidate : Option Candidate) → Envelope
  other : Envelope

module _ (json : Json) where
  open json use {Value, get}

  unfoldable pub candidate_from_event : Value → Option Candidate
  candidate_from_event event =
      if is_some (get event (codes "subtype"))
      then none
      else if is_some (get event (codes "bot_id"))
      then none
      else do
        thread_ts ← str_field json event (codes "thread_ts")
        ts ← str_field json event (codes "ts")
        if text_eq thread_ts ts then none else do
          channel ← str_field json event (codes "channel")
          user ← str_field json event (codes "user")
          some (record {
            chat_id = channel ++ codes ":" ++ thread_ts;
            channel = channel;
            thread_ts = thread_ts;
            user = user;
            text = unwrap_or (str_field json event (codes "text")) (codes "");
          })

  -- The part of `classify` for `type == "event_callback"`.
  unfoldable pub classify_callback : Value → Envelope
  classify_callback body = elim (get body (codes "event")) [
    | none ↦ other
    | some event ↦
        if is_text (str_field json event (codes "type")) (codes "message")
        then elim (str_field json body (codes "event_id")) [
          | none ↦ other
          | some event_id ↦ message event_id (candidate_from_event event)
        ]
        else other
  ]

  unfoldable pub classify : Value → Envelope
  unfolding classify_callback
  classify body =
      let callback =
        if is_text (str_field json body (codes "type")) (codes "event_callback")
        then classify_callback body
        else other in
      if is_text (str_field json body (codes "type")) (codes "url_verification")
      then elim (str_field json body (codes "challenge")) [
        | some challenge ↦ url_verification challenge
        | none ↦ callback
      ]
      else callback
