-- ===== src/Journey/ToClaude.antt =====
-- What was sent to a session arrives at Claude, once and in order.
use slack_claude_remote.Prelude.{◌≡◌, refl, sym, ap, ◌∙◌, some, List, [], ◌∷◌, ◌++◌, append_assoc}
use slack_claude_remote.Prelude.Text.{Text}
use slack_claude_remote.Json.{Json}
use slack_claude_remote.Protocol.{RelayMsg, welcome, inbound, permission_verdict, error, Codec}
use slack_claude_remote.Relay.Hub.{Channel}
use slack_claude_remote.Relay.Hub.Laws.{channel_of}
use slack_claude_remote.Relay.Slack.Api.{SlackApi}
use slack_claude_remote.Relay.Routes.Agents.Connection.{Life, Reaches, IsInOrder, Reaches-IsInOrder}
use slack_claude_remote.Agent.Mcp.{channel_notification, permission_notification}
use slack_claude_remote.Agent.Ws.{Backoff, Identity, Client, session_loop}
use slack_claude_remote.Agent.Ws.Frames.{lines, frames, AreNoErrors, session_lines}

module _ (json : Json) (version : Text) (codec : Codec) (b : Backoff) (id : Identity) where
  AreNoErrors-prefix :
      (ms ns : List RelayMsg)
      → AreNoErrors json version codec b id (ms ++ ns)
      → AreNoErrors json version codec b id ms
  AreNoErrors-prefix [] ns h = tt
  AreNoErrors-prefix (welcome _ ∷ ms) ns h = AreNoErrors-prefix ms ns h
  AreNoErrors-prefix (inbound _ _ _ ∷ ms) ns h = AreNoErrors-prefix ms ns h
  AreNoErrors-prefix (permission_verdict _ _ ∷ ms) ns h = AreNoErrors-prefix ms ns h
  AreNoErrors-prefix (error _ ∷ ms) ns h = h

  lines-append :
      (ms ns : List RelayMsg)
      → lines json version codec b id (ms ++ ns)
        ≡ lines json version codec b id ms ++ lines json version codec b id ns
  lines-append [] ns = refl
  lines-append (welcome _ ∷ ms) ns = lines-append ms ns
  lines-append (inbound chat_id user text ∷ ms) ns =
      ap (λ x. channel_notification json version chat_id user text ∷ x) (lines-append ms ns)
  lines-append (permission_verdict request_id behavior ∷ ms) ns =
      ap (λ x. permission_notification json version request_id behavior ∷ x) (lines-append ms ns)
  lines-append (error _ ∷ ms) ns = lines-append ms ns

  -- While a connection lasts, whatever the other tasks of the relay do: what the agent makes of the
  -- frames that went out, followed by the lines for what still waits in the queue, is one line for
  -- Claude for each reply and each verdict that `send` accepted for this session, in the order of
  -- acceptance, if no error was sent to it.
  pub hears_in_order :
      (api : SlackApi) (name : Text) (l m : Life) (c : Client json version codec b id)
      → Reaches api codec name l m
      → IsInOrder api codec name l
      → AreNoErrors json version codec b id m.accepted
      → (tx : Channel) × (channel_of name m.link.state.hub ≡ some tx)
        × ((session_loop json version codec b id
                (frames json version codec b id m.link.wire)
                c).1.to_stdout
              ++ lines json version codec b id tx.queue
            ≡ c.to_stdout ++ lines json version codec b id m.accepted)
  hears_in_order api name l m c r first good =
      let (tx, found, order) = Reaches-IsInOrder api codec name l m r first in
      let sound : AreNoErrors json version codec b id (m.link.wire ++ tx.queue) = rw order good in
      let (_, heard) =
        session_lines json version codec b id m.link.wire c
          (AreNoErrors-prefix m.link.wire tx.queue sound) in
      (
        tx,
        found,
        ap (λ x. x ++ lines json version codec b id tx.queue) heard
            ∙ sym (
                append_assoc c.to_stdout (lines json version codec b id m.link.wire)
                  (lines json version codec b id tx.queue))
            ∙ ap (λ x. c.to_stdout ++ x)
                (sym (lines-append m.link.wire tx.queue)
                  ∙ ap (lines json version codec b id) order),
      )
