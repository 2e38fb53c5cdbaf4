-- ===== src/Relay/Slack/Commands.antt =====
-- The `/cc` command: parsing and responses (crates/relay/src/slack/commands.rs).
use slack_claude_remote.Prelude.{List, [], ◌∷◌, map, take, if◌then◌else◌}
use slack_claude_remote.Prelude.Text.{Text, codes, text_eq, trim, to_ascii_lowercase}
use slack_claude_remote.Json.{Json}

abbrev pub no_sessions : Text
no_sessions = codes "No sessions connected."

abbrev pub picker_prompt : Text
picker_prompt = codes "Select a Claude Code session to connect to this channel."

abbrev pub picker_placeholder : Text
picker_placeholder = codes "Choose a session"

pub data Cmd : Type 0 where
  pick list unbind help : Cmd

unfoldable pub parse : Text → Cmd
unfolding text_eq trim to_ascii_lowercase
parse text =
    let word = to_ascii_lowercase (trim text) in
    if text_eq word (codes "")
    then pick
    else if text_eq word (codes "list")
    then list
    else if text_eq word (codes "unbind")
    then unbind
    else help

module _ (json : Json) where
  open json use {Value, str, obj, arr}

  unfoldable pub text_response : Text → Value
  text_response text =
      obj ((codes "response_type", str (codes "ephemeral")) ∷ (codes "text", str text) ∷ [])

  plain_text : Text → Value
  plain_text text = obj ((codes "type", str (codes "plain_text")) ∷ (codes "text", str text) ∷ [])

  -- The label is cut to 75 characters, the value is the whole name.
  unfoldable pub option_of : Text → Value
  unfolding plain_text
  option_of name = obj ((codes "text", plain_text (take 75 name)) ∷ (codes "value", str name) ∷ [])

  unfoldable pub picker_options : List Text → List Value
  picker_options names = map option_of (take 100 names)

  picker : List Text → Value
  unfolding plain_text picker_options
  picker names = obj (
      (codes "type", str (codes "section"))
      ∷ (
        codes "text",
        obj ((codes "type", str (codes "mrkdwn")) ∷ (codes "text", str picker_prompt) ∷ []),
      )
      ∷ (
        codes "accessory",
        obj (
            (codes "type", str (codes "static_select"))
            ∷ (codes "action_id", str (codes "sccr_select"))
            ∷ (codes "placeholder", plain_text picker_placeholder)
            ∷ (codes "options", arr (picker_options names))
            ∷ []),
      )
      ∷ [])

  unfoldable pub pick_response : List Text → Value
  unfolding text_response picker
  pick_response [] = text_response no_sessions
  pick_response (name ∷ names) = obj (
      (codes "response_type", str (codes "ephemeral"))
      ∷ (codes "text", str picker_prompt)
      ∷ (codes "blocks", arr (picker (name ∷ names) ∷ []))
      ∷ [])
