-- ===== src/Agent/Ws/Tries.antt =====
-- What is certain of the tries to connect.
use slack_claude_remote.Prelude.{
  ℕ, ◌≤◌, ◌≡◌, refl, inl, inr, Option, none, some, List, [], ◌∷◌, ◌++◌, map, Bool-cases, arith,
}
use slack_claude_remote.Prelude.Text.{Text, codes}
use slack_claude_remote.Json.{Json}
use slack_claude_remote.Protocol.{
  AgentMsg, Codec, RelayMsg, welcome, inbound, permission_verdict, error,
}
use slack_claude_remote.Agent.Ws.{
  Backoff, Identity, Client, Event, Attempt, bad_request, not_connected, not_greeted, session,
  relay_text, relay_other, relay_gone, from_mcp, mcp_gone, client_run, attempt, next_wait,
  session_loop, session_round, handle_relay,
}
use slack_claude_remote.Agent.Ws.Offline.{dropped_kind, Seen, output, arrival, drain_while}

-- Whatever arrives from the MCP side while a future is pending is dropped, with one line of the log
-- for each message, and never keeps the future from giving its output.
pub drain_while_lem {ℓ} :
    {A : Type ℓ} (ms : List AgentMsg) (a : A) (seen : List (Seen A))
    → drain_while (map arrival ms ++ output a ∷ seen)
      ≡ some (a, map (λ m. codes "dropped " ++ dropped_kind m ++ codes " while offline") ms)
unfolding drain_while
drain_while_lem [] a seen = refl
drain_while_lem (m ∷ ms) a seen = rw (drain_while_lem ms a seen) refl

module _ (json : Json) (version : Text) (codec : Codec) (b : Backoff) (id : Identity) where
  abbrev IsWithin : ℕ → Type 0
  IsWithin w = (b.initial ≤ w) × (w ≤ b.max)

  abbrev pub AreWithin : List ℕ → Type 0
  AreWithin [] = Unit
  AreWithin (w ∷ ws) = ((b.initial ≤ w) × (w ≤ b.max)) × AreWithin ws

  handle_relay-IsWithin :
      (m : Option RelayMsg) (c : Client json version codec b id)
      → b.initial ≤ b.max
      → IsWithin c.wait
      → IsWithin (handle_relay json version codec b id m c).1.wait
  unfolding handle_relay
  handle_relay-IsWithin none c small h = h
  handle_relay-IsWithin (some (welcome name)) c small h = (omega arith, small)
  handle_relay-IsWithin (some (inbound chat_id user text)) c small h = h
  handle_relay-IsWithin (some (permission_verdict id w)) c small h = h
  handle_relay-IsWithin (some (error e)) c small h = h

  round-IsWithin :
      (e : Event json version codec b id) (c : Client json version codec b id)
      → b.initial ≤ b.max
      → IsWithin c.wait
      → IsWithin (session_round json version codec b id e c).1.wait
  unfolding session_round
  round-IsWithin (relay_text t) c small h = handle_relay-IsWithin (codec.read_relay t) c small h
  round-IsWithin relay_other c small h = h
  round-IsWithin relay_gone c small h = h
  round-IsWithin (from_mcp m sent) c small h = ground arith
  round-IsWithin mcp_gone c small h = h

  loop-IsWithin :
      (es : List (Event json version codec b id)) (c : Client json version codec b id)
      → b.initial ≤ b.max
      → IsWithin c.wait
      → IsWithin (session_loop json version codec b id es c).1.wait
  unfolding session_loop
  loop-IsWithin [] c small h = h
  loop-IsWithin (e ∷ es) c small h =
      let after = round-IsWithin e c small h in
      let rest = loop-IsWithin es (session_round json version codec b id e c).1 small after in
      elim (Bool-cases (session_round json version codec b id e c).0) [
        | inl going ↦ rw (going, session_loop) rest
        | inr stopped ↦ rw (stopped, session_loop) after
      ]

  attempt-IsWithin :
      (a : Attempt json version codec b id) (c : Client json version codec b id)
      → b.initial ≤ b.max
      → IsWithin c.wait
      → IsWithin (attempt json version codec b id a c).wait
  unfolding attempt
  attempt-IsWithin bad_request c small h = h
  attempt-IsWithin not_connected c small h = h
  attempt-IsWithin not_greeted c small h = h
  attempt-IsWithin (session es) c small h = loop-IsWithin es _ small h

  next_wait-IsWithin : (w : ℕ) → b.initial ≤ b.max → IsWithin w → IsWithin (next_wait b w)
  unfolding next_wait
  next_wait-IsWithin w small h = ground arith

  -- Every sleep of the client is at least the initial wait and at most the maximum, whatever comes of
  -- its tries and whatever the relay sends in its sessions.
  pub sleeps-AreWithin :
      (turns : List (Attempt json version codec b id)) (c : Client json version codec b id)
      → b.initial ≤ b.max
      → b.initial ≤ c.wait
      → c.wait ≤ b.max
      → AreWithin (client_run json version codec b id turns c).0
  unfolding client_run
  sleeps-AreWithin [] c small low high = tt
  sleeps-AreWithin (a ∷ turns) c small low high =
      let tried = attempt-IsWithin a c small (low, high) in
      let (low', high') = next_wait-IsWithin _ small tried in
      (tried, sleeps-AreWithin turns _ small low' high')
