-- ===== src/Agent/Ws.antt =====
-- The agent's client of the relay (crates/agent/src/ws.rs). Durations are numbers of milliseconds.
-- What arrives from the MCP side while the client connects or sleeps is dropped (`drain_while`), so
-- it is no part of an attempt.
pub mod Backoffs
pub mod Frames
pub mod Offline
pub mod Tries
mod Tests
use slack_claude_remote.Prelude.{
  ℕ, Bool, true, false, Option, none, some, List, [], ◌∷◌, ◌++◌, ◌*◌, leb, if◌then◌else◌, unwrap_or,
}
use slack_claude_remote.Prelude.Text.{Text, codes, is_empty}
use slack_claude_remote.Json.{Json}
use slack_claude_remote.Protocol.{
  AgentMsg, hello, RelayMsg, welcome, inbound, permission_verdict, error, Codec, protocol_version,
}
use slack_claude_remote.Agent.Mcp.{channel_notification, permission_notification}

pub record Backoff : Type 0 where
  pub initial : ℕ
  pub max : ℕ

pub record Identity : Type 0 where
  pub name : Text
  pub host : Text
  pub cwd : Text

-- `file_name` is the last component of the directory, if it has one and it is Unicode.
unfoldable pub identity_from :
    (session_name : Option Text) (host : Text) (file_name : Option Text) (cwd : Text) → Identity
identity_from session_name host file_name cwd =
    let derived = host ++ codes ":" ++ unwrap_or file_name (codes "/") in
    let name : Text = elim session_name [
      | some s ↦ if is_empty s then derived else s
      | none ↦ derived
    ] in
    record { name = name; host = host; cwd = cwd }

-- `(wait * 2).min(max)`
unfoldable pub next_wait : Backoff → ℕ → ℕ
next_wait b wait = if leb (wait * 2) b.max then wait * 2 else b.max

module _ (json : Json) (version : Text) (codec : Codec) (b : Backoff) (id : Identity) where
  open codec use {write_agent, read_relay}

  pub record Client : Type 0 where
    pub wait : ℕ
    pub to_stdout : List json.Value
    pub wire : List Text

  -- What `select!` saw in a session: a text frame, another frame, an error or the end of the
  -- connection, a message of the MCP side and whether it was sent, or the end of that side.
  pub data Event : Type 0 where
    relay_text : Text → Event
    relay_other relay_gone : Event
    from_mcp : AgentMsg → (sent : Bool) → Event
    mcp_gone : Event

  abbrev pass_on : json.Value → Client → Client
  pass_on v c = record c { to_stdout = c.to_stdout ++ v ∷ [] }

  -- A frame of the relay, with `false` for the end of the session.
  unfoldable pub handle_relay : Option RelayMsg → Client → Bool × Client
  handle_relay (some (welcome _)) c = (true, record c { wait = b.initial })
  handle_relay (some (inbound chat_id user text)) c =
      (true, pass_on (channel_notification json version chat_id user text) c)
  handle_relay (some (permission_verdict request_id behavior)) c =
      (true, pass_on (permission_notification json version request_id behavior) c)
  handle_relay (some (error message)) c = (false, c)
  handle_relay none c = (true, c)

  unfoldable pub session_round : Event → Client → Bool × Client
  unfolding handle_relay
  session_round (relay_text t) c = handle_relay (read_relay t) c
  session_round relay_other c = (true, c)
  session_round relay_gone c = (false, c)
  session_round (from_mcp m sent) c =
      if sent then (true, record c { wire = c.wire ++ write_agent m ∷ [] }) else (false, c)
  session_round mcp_gone c = (false, c)

  unfoldable pub session_loop : List Event → Client → Bool × Client
  unfolding session_round
  session_loop [] c = (true, c)
  session_loop (e ∷ es) c =
      let (going, c') = session_round e c in
      let rest = session_loop es c' in if going then rest else (false, c')

  -- A turn of the outer loop: no request, no connection or no hello, or a session.
  pub data Attempt : Type 0 where
    bad_request not_connected not_greeted : Attempt
    session : List Event → Attempt

  abbrev pub hello_frame : Text
  hello_frame = write_agent (hello protocol_version id.name id.host id.cwd)

  -- The turn, up to the sleep at its end.
  unfoldable pub attempt : Attempt → Client → Client
  unfolding session_loop
  attempt (session es) c = (session_loop es (record c { wire = c.wire ++ hello_frame ∷ [] })).1
  attempt _ c = c

  -- The sleeps of the turns, in order.
  unfoldable pub client_run : List Attempt → Client → List ℕ × Client
  unfolding attempt next_wait
  client_run [] c = ([], c)
  client_run (a ∷ turns) c =
      let tried = attempt a c in
      let (sleeps, c') = client_run turns (record tried { wait = next_wait b tried.wait }) in
      (tried.wait ∷ sleeps, c')
