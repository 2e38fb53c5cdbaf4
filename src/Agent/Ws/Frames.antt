-- ===== src/Agent/Ws/Frames.antt =====
-- What a session passes on to Claude.
use slack_claude_remote.Prelude.{
  ◌≡◌, refl, sym, ◌∙◌, true, List, [], ◌∷◌, ◌++◌, append-nil, append-snoc,
}
use slack_claude_remote.Prelude.Text.{Text}
use slack_claude_remote.Json.{Json}
use slack_claude_remote.Protocol.{RelayMsg, welcome, inbound, permission_verdict, error, Codec}
use slack_claude_remote.Agent.Mcp.{channel_notification, permission_notification}
use slack_claude_remote.Agent.Ws.{
  Backoff, Identity, Client, Event, relay_text, handle_relay, session_round, session_loop,
}

module _ (json : Json) (version : Text) (codec : Codec) (b : Backoff) (id : Identity) where
  -- The lines for Claude that the messages of the relay call for.
  abbrev pub lines : List RelayMsg → List json.Value
  lines [] = []
  lines (inbound chat_id user text ∷ ms) =
      channel_notification json version chat_id user text ∷ lines ms
  lines (permission_verdict request_id behavior ∷ ms) =
      permission_notification json version request_id behavior ∷ lines ms
  lines (_ ∷ ms) = lines ms

  abbrev pub AreNoErrors : List RelayMsg → Type 0
  AreNoErrors [] = Unit
  AreNoErrors (error _ ∷ ms) = ⊥
  AreNoErrors (_ ∷ ms) = AreNoErrors ms

  -- The frames that the relay sends for messages.
  abbrev pub frames : List RelayMsg → List (Event json version codec b id)
  frames [] = []
  frames (m ∷ ms) = relay_text (codec.write_relay m) ∷ frames ms

  -- Whatever messages but errors the relay sends in a session, the session goes on, and Claude is
  -- sent a channel notification for each reply and a permission notification for each verdict, in
  -- the order of the messages, and nothing else.
  pub session_lines :
      (ms : List RelayMsg) (c : Client json version codec b id)
      → AreNoErrors ms
      → ((session_loop json version codec b id (frames ms) c).0 ≡ true)
        × ((session_loop json version codec b id (frames ms) c).1.to_stdout
            ≡ c.to_stdout ++ lines ms)
  unfolding session_loop session_round handle_relay
  session_lines [] c h = (refl, sym (append-nil c.to_stdout))
  session_lines (welcome name ∷ ms) c h =
      rw (codec.read-write_relay (welcome name), session_loop, session_round)
        (session_lines ms (record c { wait = b.initial }) h)
  session_lines (error message ∷ ms) c h = absurd h
  session_lines (inbound chat_id user text ∷ ms) c h =
      let v = channel_notification json version chat_id user text in
      let (going, sent) = session_lines ms (record c { to_stdout = c.to_stdout ++ v ∷ [] }) h in
      rw (codec.read-write_relay (inbound chat_id user text), session_loop, session_round)
        (going, sent ∙ append-snoc c.to_stdout v (lines ms))
  session_lines (permission_verdict request_id behavior ∷ ms) c h =
      let v = permission_notification json version request_id behavior in
      let (going, sent) = session_lines ms (record c { to_stdout = c.to_stdout ++ v ∷ [] }) h in
      rw
        (
          codec.read-write_relay (permission_verdict request_id behavior),
          session_loop,
          session_round,
        )
        (going, sent ∙ append-snoc c.to_stdout v (lines ms))
