-- ===== src/Relay/Tasks.antt =====
-- The tasks of the relay at work at once: `handle_message` and `interactions` of
-- crates/relay/src/routes/slack.rs and `handle_request` of crates/relay/src/permission.rs, cut where
-- they release a lock or wait for Slack.
-- A task stands at the next thing it does to the shared state and holds what it read before. Between
-- two of its turns any other task may have its turn, with a clock of its own.
pub mod Alone
pub mod World
pub mod Receipts
pub mod Origins
pub mod Authority
pub mod Repeats
pub mod Races
pub mod Sound
pub mod Unordered
pub mod Schedules
mod Tests
use slack_claude_remote.Prelude.{
  ℕ, zero, suc, Bool, true, false, Option, none, some, List, [], ◌∷◌, ◌++◌, ok, err, if◌then◌else◌,
}
use slack_claude_remote.Prelude.Int.{ℤ}
use slack_claude_remote.Prelude.Text.{Text, codes, contains, split_once}
use slack_claude_remote.Prelude.Map.{lookup, insert, remove}
use slack_claude_remote.Protocol.{RelayMsg, inbound, permission_verdict, Behavior}
use slack_claude_remote.Relay.Slack.Api.{post_message, respond_to}
use slack_claude_remote.Relay.Slack.Dedupe.{first_seen}
use slack_claude_remote.Relay.Slack.Events.{Candidate}
use slack_claude_remote.Relay.Slack.Interactions.{Selection}
use slack_claude_remote.Relay.Store.{Binding}
use slack_claude_remote.Relay.Hub.{send}
use slack_claude_remote.Relay.Permission.{
  Pending, sweep, match_verdict, latest_binding, prompt_text,
}
use slack_claude_remote.Relay.State.{AppState, save_store}
use slack_claude_remote.Relay.Routes.Env.{Env}
use slack_claude_remote.Relay.Routes.Pieces.{pieces_of}
use slack_claude_remote.Relay.Routes.Requests.{colon}
use slack_claude_remote.Relay.Routes.Messages.{notify_offline}
use slack_claude_remote.Relay.Routes.Webhooks.{root_text, invite_bot}

-- A permission request of an agent, with its session.
pub record Request : Type 0 where
  pub session : Text
  pub request_id : Text
  pub tool_name : Text
  pub description : Text
  pub input_preview : Text

abbrev pub prompt_of : Request → Text
prompt_of r = prompt_text r.tool_name r.description r.input_preview r.request_id

-- Where a task stands.
pub data Task : Type 0 where
  -- `handle_message`: before the locks of the event ids, of the store and of the requests (to match
  -- and then to remove), before the send, and before the notice.
  arrived : (event_id : Text) → Option Candidate → Task
  admitted : Candidate → Task
  matching : Candidate → Binding → Task
  consuming : Candidate → Binding → (request_id : Text) → Behavior → Task
  sending : Candidate → (session : Text) → RelayMsg → Task
  refused : Candidate → (session : Text) → Task
  -- `handle_request`: before the request is recorded, before a post, and before it is forgotten.
  asking : Request → Task
  prompting : Request → (channel thread_ts : Text) → (left : List Text) → Task
  forgetting : (request_id : Text) → Task
  -- `interactions`: before the check of the user, the root post, the binding, and the invitation.
  choosing : Selection → Task
  rooting : Selection → Task
  binding_thread : Selection → (ts : Text) → Task
  inviting : Selection → Task
  finished : Task

-- What is left to post.
abbrev pub prompting_from : Request → Text → Text → List Text → Task
prompting_from r channel thread_ts [] = finished
prompting_from r channel thread_ts (p ∷ ps) = prompting r channel thread_ts (p ∷ ps)

module _ (env : Env) (now : ℤ) where
  open env use {api, store_codec}

  -- The task looks whether the event is new.
  abbrev pub look_up_event : Text → Option Candidate → AppState → Task × AppState
  look_up_event event_id candidate s =
      let (first, dedupe) = first_seen s.dedupe event_id in
      let next : Task = elim candidate [ some c ↦ admitted c | none ↦ finished ] in
      (if first then next else finished, record s { dedupe = dedupe })

  abbrev pub find_binding : Candidate → AppState → Task
  find_binding c s =
      if contains s.store.users c.user
      then elim (lookup c.chat_id s.store.bindings) [
        | some binding ↦ matching c binding
        | none ↦ finished
      ]
      else finished

  abbrev pub match_request : Candidate → Binding → AppState → Task × AppState
  match_request c binding s =
      let pending = sweep now s.pending in
      let next : Task = elim (match_verdict pending c binding) [
        | some (request_id, behavior) ↦ consuming c binding request_id behavior
        | none ↦ sending c binding.session (inbound c.chat_id c.user c.text)
      ] in
      (next, record s { pending = pending })

  abbrev pub send_to_agent : Candidate → Text → RelayMsg → AppState → Task × AppState
  send_to_agent c session msg s =
      let (sent, hub) = send session msg s.hub in
      elim sent [ ok _ ↦ (finished, record s { hub = hub }) | err _ ↦ (refused c session, s) ]

  -- One lock of the requests, with the store's inside it.
  abbrev pub record_request : Request → AppState → Task × AppState
  record_request r s =
      let pending = sweep now s.pending in
      elim (latest_binding s.store.bindings r.session) [
        | none ↦ (finished, record s { pending = pending })
        | some (chat_id, _) ↦
            let asked : Pending = record {
              chat_id = chat_id;
              session = r.session;
              created = now;
            } in
            let next : Task = elim (split_once colon chat_id) [
              | none ↦ forgetting r.request_id
              | some (channel, thread_ts) ↦
                  prompting_from r channel thread_ts (pieces_of (prompt_of r))
            ] in
            (next, record s { pending = insert r.request_id asked pending })
      ]

  abbrev pub post_prompt_piece : Request → Text → Text → List Text → AppState → Task × AppState
  post_prompt_piece r channel thread_ts [] s = (finished, s)
  post_prompt_piece r channel thread_ts (p ∷ ps) s =
      let (answer, calls) = post_message api channel (some thread_ts) p s.calls in
      let next : Task = elim answer [
        | ok _ ↦ prompting_from r channel thread_ts ps
        | err _ ↦ forgetting r.request_id
      ] in
      (next, record s { calls = calls })

  abbrev pub post_root : Selection → AppState → Task × AppState
  post_root sel s =
      let (answer, calls) = post_message api sel.channel none (root_text sel.session) s.calls in
      let next : Task = elim answer [ ok ts ↦ binding_thread sel ts | err _ ↦ inviting sel ] in
      (next, record s { calls = calls })

  -- One lock of the store, over the insertion and the save.
  abbrev pub bind_thread : Selection → Text → AppState → AppState
  bind_thread sel ts s =
      let binding : Binding = record { session = sel.session; user = sel.user; created = now } in
      let store = record s.store {
        bindings = insert (sel.channel ++ codes ":" ++ ts) binding s.store.bindings;
      } in
      let (_, saved) = save_store store_codec store (record s { store = store }) in saved

  abbrev pub invite : Selection → AppState → AppState
  invite sel s =
      let (_, calls) = respond_to api sel.response_url invite_bot s.calls in
      record s { calls = calls }

  -- A turn of a task, at this time.
  unfoldable pub turn : Task → AppState → Task × AppState
  turn (arrived event_id candidate) s = look_up_event event_id candidate s
  turn (admitted c) s = (find_binding c s, s)
  turn (matching c binding) s = match_request c binding s
  turn (consuming c binding request_id behavior) s = (
    sending c binding.session (permission_verdict request_id behavior),
    record s { pending = remove request_id s.pending },
  )
  turn (sending c session msg) s = send_to_agent c session msg s
  turn (refused c session) s = (finished, notify_offline api c session s)
  turn (asking r) s = record_request r s
  turn (prompting r channel thread_ts left) s = post_prompt_piece r channel thread_ts left s
  turn (forgetting request_id) s = (finished, record s { pending = remove request_id s.pending })
  turn (choosing sel) s = (if contains s.store.users sel.user then rooting sel else finished, s)
  turn (rooting sel) s = post_root sel s
  turn (binding_thread sel ts) s = (finished, bind_thread sel ts s)
  turn (inviting sel) s = (finished, invite sel s)
  turn finished s = (finished, s)

  -- A number of turns of one task with no other in between.
  unfoldable pub turns : ℕ → Task → AppState → Task × AppState
  unfolding turn
  turns zero t s = (t, s)
  turns (suc n) t s = let (t', s') = turn t s in turns n t' s'
