-- ===== src/Relay/Routes/Agents.antt =====
-- The WebSocket of an agent (crates/relay/src/routes/agent_ws.rs).
-- A frame is what `socket.recv()` brings; `rx` is the queue of the session's channel in the hub.
pub mod Connection
pub mod Laws
pub mod Replies
pub mod Departure
pub mod Sole
mod Tests
use slack_claude_remote.Prelude.{
  ℕ, Bool, true, false, Option, none, some, List, [], ◌∷◌, ◌++◌, ◌&&◌, ◌||◌, not, ◌==◌, leb, any,
  length, Result, ok, err, ok_or, ◌>>=◌, if◌then◌else◌,
}
use slack_claude_remote.Prelude.Int.{ℤ}
use slack_claude_remote.Prelude.Text.{
  Text, codes, utf8, decimal, is_empty, is_control, split_once, strip_prefix,
}
use slack_claude_remote.Crypto.{Crypto}
use slack_claude_remote.Http.{Headers, Response, status_only}
use slack_claude_remote.Protocol.{
  AgentMsg, hello, reply, permission_request, RelayMsg, welcome, error, protocol_version, Codec,
}
use slack_claude_remote.Relay.Slack.Api.{SlackApi}
use slack_claude_remote.Relay.Hub.{
  Hub, Duplicate, duplicate, Channel, fresh_channel, register, unregister, receive,
}
use slack_claude_remote.Relay.Store.{token_ok}
use slack_claude_remote.Relay.State.{AppState}
use slack_claude_remote.Relay.Routes.Pieces.{pieces_of, post_pieces}
use slack_claude_remote.Relay.Routes.Requests.{colon, handle_request}

-- `Some(Ok(_))` with its message; `no_frame` is `Some(Err(_))` or `None`.
pub data Frame : Type 0 where
  text_frame : Text → Frame
  binary_frame close_frame other_frame no_frame : Frame

-- What the caller of the upgrade gets: an answer, or a connection.
pub data Upgrade : Type 0 where
  refused : Response → Upgrade
  accepted : Upgrade

module _ (crypto : Crypto) where
  open crypto use {ct_eq}

  unfoldable pub token_accepted : AppState → Text → Bool
  token_accepted s token =
      if token_ok crypto s.store token
      then true
      else s.cfg.dev && ct_eq (utf8 token) (utf8 (codes "dev"))

  -- `ws` is `none` for a request that can be upgraded, and else the answer of its rejection.
  unfoldable pub handler : AppState → Headers → Option Response → Upgrade
  unfolding token_accepted
  handler s headers ws = elim (headers (codes "authorization")) [
    | none ↦ refused (status_only 401)
    | some value ↦ elim (strip_prefix (codes "Bearer ") value) [
      | none ↦ refused (status_only 401)
      | some token ↦
          if token_accepted s token
          then elim ws [ none ↦ accepted | some rejection ↦ refused rejection ]
          else refused (status_only 401)
    ]
  ]

unfoldable pub valid_session_name : Text → Bool
valid_session_name name = leb 1 (length name) && leb (length name) 150 && not (any is_control name)

-- The checks of the first message, before the name is registered.
unfoldable pub checked_name : Option AgentMsg → Result Text Text
checked_name (some (hello version name host cwd)) =
    if not (version == protocol_version)
    then err (codes "unsupported protocol version: " ++ decimal version)
    else if not (valid_session_name name)
    then err (codes "invalid session name")
    else ok name
checked_name _ = err (codes "first frame must be hello")

module _ (codec : Codec) where
  open codec use {read_agent}

  abbrev pub read_frame : Frame → Option AgentMsg
  read_frame (text_frame t) = read_agent t
  read_frame _ = none

  -- `none` in place of a frame is the timeout.
  unfoldable pub handshake : Option Frame → Hub → Result Text Text × Hub
  unfolding checked_name
  handshake none hub = (err (codes "hello timeout"), hub)
  handshake (some first) hub = elim (checked_name (read_frame first)) [
    | err message ↦ (err message, hub)
    | ok name ↦
        let (answer, hub) = register name fresh_channel hub in
        elim answer [
          | ok _ ↦ (ok name, hub)
          | err _ ↦ (err (codes "session name already connected: " ++ name), hub)
        ]
  ]

-- The parts of a chat_id, neither of them empty.
unfoldable pub reply_thread : Text → Option (Text × Text)
reply_thread chat_id = elim (split_once colon chat_id) [
  | none ↦ none
  | some (c, t) ↦ if not (is_empty c) && not (is_empty t) then some (c, t) else none
]

module _ (api : SlackApi) where
  -- An error of a post is only logged.
  unfoldable pub post_reply : Text → Text → AppState → AppState
  unfolding reply_thread
  post_reply chat_id text s = elim (reply_thread chat_id) [
    | none ↦ s
    | some (channel, thread_ts) ↦
        let (_, calls) = post_pieces api channel thread_ts (pieces_of text) s.calls in
        if is_empty text then s else record s { calls = calls }
  ]

  module _ (codec : Codec) where
    open codec use {read_agent}

    unfoldable pub handle_frame : ℤ → Text → Text → AppState → AppState
    handle_frame now name frame s = elim (read_agent frame) [
      | none ↦ s
      | some m ↦ elim m [
        | reply chat_id text ↦ post_reply chat_id text s
        | permission_request request_id tool_name description input_preview ↦
            handle_request api now name request_id tool_name description input_preview s
        | hello _ _ _ _ ↦ s
      ]
    ]

-- What the `select!` of a round saw: a frame, or a message in `rx` and whether its frame was sent.
pub data Event : Type 0 where
  incoming : Frame → Event
  outgoing : (sent : Bool) → Event

pub record Link : Type 0 where
  pub state : AppState
  pub wire : List RelayMsg

module _ (api : SlackApi) (codec : Codec) where
  -- A round of the loop of `serve`, with `false` for `break`. While `rx` is empty its branch waits.
  unfoldable pub serve_round : ℤ → Text → Event → Link → Bool × Link
  serve_round now name (incoming (text_frame t)) l =
      (true, record l { state = handle_frame api codec now name t l.state })
  serve_round now name (incoming binary_frame) l = (true, l)
  serve_round now name (incoming other_frame) l = (true, l)
  serve_round now name (incoming close_frame) l = (false, l)
  serve_round now name (incoming no_frame) l = (false, l)
  serve_round now name (outgoing sent) l = elim (receive name l.state.hub) [
    | none ↦ (false, l)
    | some (none, _) ↦ (true, l)
    | some (some msg, hub) ↦
        let taken = record l.state { hub = hub } in
        if sent
        then (true, record { state = taken; wire = l.wire ++ msg ∷ [] })
        else (false, record l { state = taken })
  ]

  -- The loop, on the events of its rounds; at the end of the list the connection is still open.
  unfoldable pub serve_loop : Text → List (ℤ × Event) → Link → Link
  serve_loop name [] l = l
  serve_loop name ((now, e) ∷ es) l =
      let (going, l') = serve_round now name e l in
      let rest = serve_loop name es l' in if going then rest else l'

  -- `welcomed` tells whether the first frame was sent.
  unfoldable pub serve : Text → Bool → List (ℤ × Event) → Link → Link
  unfolding serve_loop
  serve name welcomed es l =
      let rest = serve_loop name es (record l { wire = l.wire ++ welcome name ∷ [] }) in
      if welcomed then rest else l

  -- A connection from the upgrade to its end, if no other task runs meanwhile. The error frame is
  -- written as sent; the peer may be gone.
  unfoldable pub run : Option Frame → Bool → List (ℤ × Event) → AppState → Link
  run first welcomed es s =
      let (answer, hub) = handshake codec first s.hub in
      let joined = record s { hub = hub } in
      elim answer [
        | err message ↦ record { state = joined; wire = error message ∷ [] }
        | ok name ↦
            let l = serve name welcomed es (record { state = joined; wire = [] }) in
            let left = record l.state { hub = unregister name l.state.hub } in
            record l { state = left }
      ]
