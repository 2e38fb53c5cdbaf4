-- ===== src/Journey/ToSlack.antt =====
-- What Claude says arrives at the handlers of the relay, once and in order.
use slack_claude_remote.Prelude.{
  ◌≡◌, refl, sym, ap, ◌∙◌, true, none, some, List, [], ◌∷◌, ◌++◌, map, ok, append-snoc, append-nil,
  inl, inr,
}
use slack_claude_remote.Prelude.Int.{ℤ}
use slack_claude_remote.Prelude.Text.{Text}
use slack_claude_remote.Json.{Json}
use slack_claude_remote.Protocol.{
  AgentMsg, hello, reply, permission_request, welcome, Codec, protocol_version,
}
use slack_claude_remote.Relay.Hub.{fresh_channel, register, unregister}
use slack_claude_remote.Relay.Hub.Laws.{channel_of, register_lem}
use slack_claude_remote.Relay.Slack.Api.{SlackApi}
use slack_claude_remote.Relay.State.{AppState}
use slack_claude_remote.Relay.Routes.Requests.{handle_request}
use slack_claude_remote.Relay.Routes.Agents.{
  text_frame, no_frame, incoming, Link, valid_session_name, checked_name, handshake, post_reply,
  handle_frame, serve_round, serve_loop, serve, run,
}
use slack_claude_remote.Agent.Stdio.Laws.{IsWritten, messages, stdio_run_lem}
use slack_claude_remote.Agent.Stdio.{Streams, stdio_run}
use slack_claude_remote.Agent.Stdio as Stdio
use slack_claude_remote.Agent.Ws.{
  Backoff, Identity, Client, Event, from_mcp, session, session_round, session_loop, attempt,
  hello_frame,
}

module _ (api : SlackApi) (now : ℤ) (name : Text) where
  -- What a message of the agent asks of the relay.
  abbrev act : AgentMsg → AppState → AppState
  act (reply chat_id text) s = post_reply api chat_id text s
  act (permission_request request_id tool_name description input_preview) s =
      handle_request api now name request_id tool_name description input_preview s
  act (hello _ _ _ _) s = s

  abbrev pub act_all : List AgentMsg → AppState → AppState
  act_all [] s = s
  act_all (m ∷ ms) s = act_all ms (act m s)

module _ (api : SlackApi) (codec : Codec) (now : ℤ) where
  -- A connection of the relay that is sent these frames and then ends.
  abbrev hears : List Text → AppState → Link
  hears [] s = run api codec (some no_frame) true [] s
  hears (first ∷ frames) s =
      run api codec (some (text_frame first)) true
        (map (λ t. (now, incoming (text_frame t))) frames ++ (now, incoming no_frame) ∷ []) s

  handle_frame-act :
      (name : Text) (m : AgentMsg) (s : AppState)
      → handle_frame api codec now name (codec.write_agent m) s ≡ act api now name m s
  unfolding handle_frame
  handle_frame-act name (reply chat_id text) s =
      rw (codec.read-write_agent (reply chat_id text), handle_frame) refl
  handle_frame-act name (permission_request request_id tool_name description input_preview) s =
      rw
        (
          codec.read-write_agent
              (permission_request request_id tool_name description input_preview),
          handle_frame,
        )
        refl
  handle_frame-act name (hello version n host cwd) s =
      rw (codec.read-write_agent (hello version n host cwd), handle_frame) refl

  serve_loop-act_all :
      (name : Text) (ms : List AgentMsg) (l : Link)
      → serve_loop api codec name
          (map (λ t. (now, incoming (text_frame t))) (map codec.write_agent ms)
            ++ (now, incoming no_frame) ∷ [])
          l
        ≡ record l { state = act_all api now name ms l.state }
  unfolding serve_loop serve_round
  serve_loop-act_all name [] l = refl
  serve_loop-act_all name (m ∷ ms) l =
      serve_loop-act_all name ms
        (record l { state = handle_frame api codec now name (codec.write_agent m) l.state })
      ∙ ap (λ s. record l { state = act_all api now name ms s }) (handle_frame-act name m l.state)

  handshake-hello :
      (name host cwd : Text) (s : AppState)
      → valid_session_name name ≡ true
      → channel_of name s.hub ≡ none
      → handshake codec
          (some (text_frame (codec.write_agent (hello protocol_version name host cwd))))
          s.hub
        ≡ (ok name, (register name fresh_channel s.hub).1)
  unfolding handshake checked_name
  handshake-hello name host cwd s valid free = elim (register_lem name name fresh_channel s.hub) [
    | inr (taken, _) ↦ absurd (taken free)
    | inl (_, fine, _) ↦
        rw
          (
            codec.read-write_agent (hello protocol_version name host cwd),
            valid,
            fine,
            handshake,
            checked_name,
          )
          refl
  ]

  hears-all :
      (name host cwd : Text) (ms : List AgentMsg) (s : AppState)
      → valid_session_name name ≡ true
      → channel_of name s.hub ≡ none
      → let joined = record s { hub = (register name fresh_channel s.hub).1 } in
        let done = act_all api now name ms joined in
        (hears
          (codec.write_agent (hello protocol_version name host cwd) ∷ map codec.write_agent ms)
          s).state
        ≡ record done { hub = unregister name done.hub }
  unfolding run serve
  hears-all name host cwd ms s valid free =
      let joined = record s { hub = (register name fresh_channel s.hub).1 } in
      let l : Link = record { state = joined; wire = welcome name ∷ [] } in
      let shaken = handshake-hello name host cwd s valid free in
      let es =
        map (λ t. (now, incoming (text_frame t))) (map codec.write_agent ms)
        ++ (now, incoming no_frame) ∷ [] in
      let leave : Link → AppState = λ x. record x.state { hub = unregister name x.state.hub } in
      rw (ap (λ r. r.0) shaken, run)
        (ap
            (λ r.
              leave (
                serve api codec name true es
                  (record { state = record s { hub = r.1 }; wire = [] })))
            shaken
          ∙ ap leave (serve_loop-act_all name ms l))

module _ (json : Json) (version : Text) (codec : Codec) (b : Backoff) (id : Identity) where
  -- Each message is taken from the MCP side and sent.
  abbrev all_sent : List AgentMsg → List (Event json version codec b id)
  all_sent = map (λ m. from_mcp m true)

  session_loop-all_sent :
      (ms : List AgentMsg) (c : Client json version codec b id)
      → session_loop json version codec b id (all_sent ms) c
        ≡ (true, record c { wire = c.wire ++ map codec.write_agent ms })
  unfolding session_loop session_round
  session_loop-all_sent [] c = ap (λ w. (true, record c { wire = w })) (sym (append-nil c.wire))
  session_loop-all_sent (m ∷ ms) c =
      session_loop-all_sent ms (record c { wire = c.wire ++ codec.write_agent m ∷ [] })
      ∙ ap (λ w. (true, record c { wire = w }))
          (append-snoc c.wire (codec.write_agent m) (map codec.write_agent ms))

  -- A session of the agent that sends what its MCP side wrote, and the connection of the relay that
  -- hears it.
  abbrev pub delivered :
      SlackApi
      → ℤ
      → List (Stdio.Event json version)
      → Streams json version
      → Client json version codec b id
      → AppState
      → AppState
  delivered api now es st c s =
      (hears api codec now
        (attempt json version codec b id
          (session (all_sent (stdio_run json version es st).1.to_relay)) c).wire
        s).state

  -- What Claude writes on the standard output is done at the relay, once and in order: where the
  -- session's name is valid and free, every line is read and every frame sent, the state after the
  -- connection is the state before it with the handlers of the messages applied in the order of the
  -- lines, and the name taken before them and given up after them.
  pub slack_hears :
      (api : SlackApi) (now : ℤ) (es : List (Stdio.Event json version)) (st : Streams json version)
      (c : Client json version codec b id) (s : AppState)
      → IsWritten json version es
      → st.stdout_open ≡ true
      → st.to_relay ≡ []
      → c.wire ≡ []
      → valid_session_name id.name ≡ true
      → channel_of id.name s.hub ≡ none
      → let joined = record s { hub = (register id.name fresh_channel s.hub).1 } in
        let done = act_all api now id.name (messages json version es) joined in
        delivered api now es st c s ≡ record done { hub = unregister id.name done.hub }
  unfolding run serve attempt
  slack_hears api now es st c s wrote live idle quiet valid free =
      let sent = messages json version es in
      let frames = hello_frame json version codec b id ∷ map codec.write_agent sent in
      let given : (stdio_run json version es st).1.to_relay ≡ sent =
        ap (λ r. r.1.to_relay) (stdio_run_lem json version es st wrote live)
        ∙ ap (λ x. x ++ sent) idle in
      let wired : (attempt json version codec b id (session (all_sent sent)) c).wire ≡ frames =
        ap (λ r. r.1.wire)
          (session_loop-all_sent sent
            (record c { wire = c.wire ++ hello_frame json version codec b id ∷ [] }))
        ∙ ap (λ w. (w ++ hello_frame json version codec b id ∷ []) ++ map codec.write_agent sent)
            quiet in
      ap
        (λ x.
          (hears api codec now (attempt json version codec b id (session (all_sent x)) c).wire
            s).state)
        given
      ∙ ap (λ w. (hears api codec now w s).state) wired
      ∙ hears-all api codec now id.name id.host id.cwd sent s valid free
