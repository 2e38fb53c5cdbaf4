-- ===== src/Relay/Permission.antt =====
-- Permission prompts and verdicts: parsing, text, expiry, the thread they go to
-- (crates/relay/src/permission.rs; `Pending` is of crates/relay/src/state.rs).
pub mod Trim
pub mod Words
pub mod Grammar
pub mod Pendings
pub mod Latest
pub mod Unordered
mod Tests
use slack_claude_remote.Prelude.{
  ℕ, Bool, true, false, not, Option, none, some, List, [], ◌∷◌, ◌++◌, ◌==◌, ◌&&◌, ◌||◌, length, all,
  any, retain, if◌then◌else◌, ◌>>=?◌ as ◌>>=◌,
}
use slack_claude_remote.Prelude.Int.{ℤ, pos, sub_i64, leb_ℤ, ltb_ℤ, eqb_ℤ}
use slack_claude_remote.Prelude.Text.{
  Text, codes, text_eq, text_lt, is_whitespace, is_ascii_lowercase, to_ascii_lowercase, trim,
  trim_start, split_where,
}
use slack_claude_remote.Prelude.Map.{Map, lookup}
use slack_claude_remote.Protocol.{Behavior, allow, deny}
use slack_claude_remote.Relay.Slack.Api.Escape.{escape_mrkdwn}
use slack_claude_remote.Relay.Slack.Events.{Candidate}
use slack_claude_remote.Relay.Store.{Binding}

abbrev pub pending_ttl_secs : ℤ
pending_ttl_secs = pos 1800

-- An unanswered request, under its request_id.
pub record Pending : Type 0 where
  pub chat_id : Text
  pub session : Text
  pub created : ℤ

unfoldable pub behavior_of : Text → Option Behavior
behavior_of word =
    if text_eq word (codes "y") || text_eq word (codes "yes")
    then some allow
    else if text_eq word (codes "n") || text_eq word (codes "no")
    then some deny
    else none

abbrev pub id_letter : ℕ → Bool
id_letter c = is_ascii_lowercase c && not (c == b'l')

unfoldable pub parse_verdict : Text → Option (Text × Behavior)
parse_verdict text = do
  (word1, rest) ← split_where is_whitespace (trim text)
  let word2 = trim_start rest
  if any is_whitespace word2 then none else do
    behavior ← behavior_of (to_ascii_lowercase word1)
    let id = to_ascii_lowercase word2
    if length id == 5 && all id_letter id then some (id, behavior) else none

unfoldable pub prompt_text : (tool_name description input_preview request_id : Text) → Text
prompt_text tool_name description input_preview request_id =
    codes "Claude wants to run *"
    ++ escape_mrkdwn tool_name
    ++ codes "*: "
    ++ escape_mrkdwn description
    ++ 10 ∷ codes "```"
    ++ escape_mrkdwn input_preview
    ++ codes "```"
    ++ 10 ∷ codes "Reply \"yes "
    ++ request_id
    ++ codes "\" or \"no "
    ++ request_id
    ++ codes "\" in this thread."

unfoldable pub sweep : ℤ → Map Pending → Map Pending
sweep now pending = retain (λ (_, p). leb_ℤ (sub_i64 now p.created) pending_ttl_secs) pending

-- The order of `(created, chat_id)` on bindings.
unfoldable pub is_older : Text × Binding → Text × Binding → Bool
is_older (k1, b1) (k2, b2) =
    ltb_ℤ b1.created b2.created || eqb_ℤ b1.created b2.created && text_lt k1 k2

-- `max_by`: of two that are equal the later one stays.
max_from : Text × Binding → Map Binding → Text × Binding
max_from best [] = best
max_from best (b ∷ bs) = max_from (if is_older b best then best else b) bs

latest_of : Map Binding → Option (Text × Binding)
latest_of [] = none
latest_of (b ∷ bs) = some (max_from b bs)

unfoldable pub latest_binding : Map Binding → Text → Option (Text × Binding)
unfolding latest_of max_from
latest_binding bindings session = latest_of (retain (λ (_, b). text_eq b.session session) bindings)

unfoldable pub match_verdict : Map Pending → Candidate → Binding → Option (Text × Behavior)
match_verdict pending candidate binding = do
  (request_id, behavior) ← parse_verdict candidate.text
  p ← lookup request_id pending
  if text_eq p.chat_id candidate.chat_id
        && text_eq p.session binding.session
        && text_eq candidate.user binding.user
      then some (request_id, behavior)
      else none
