-- ===== src/Relay/Routes/Agents/Connection.antt =====
-- The life of a connection among the other tasks: what is sent to a session goes out in order.
use slack_claude_remote.Prelude.{
  ◌≡◌, ◌≢◌, sym, ap, ◌∙◌, inl, inr, true, false, some, Option, ok, refl, List, [], ◌∷◌, ◌++◌, ◌&&◌,
  is_ok, if◌then◌else◌, arith, Bool-cases, append-snoc, append_assoc,
}
use slack_claude_remote.Prelude.Int.{ℤ}
use slack_claude_remote.Prelude.Text.{Text, text_eq, text_eq_iff, text_eq_refl}
use slack_claude_remote.Protocol.{RelayMsg, welcome, Codec}
use slack_claude_remote.Relay.Slack.Api.{SlackApi}
use slack_claude_remote.Relay.Hub.{Hub, Channel, fresh_channel, register, unregister, send}
use slack_claude_remote.Relay.Hub.Laws.{
  channel_of, register_lem, send_lem, receive_lem, unregister_lem,
}
use slack_claude_remote.Relay.State.{AppState}
use slack_claude_remote.Relay.Routes.Agents.Laws.{handshake_lem}
use slack_claude_remote.Relay.Routes.Requests.{handle_request, post_prompt}
use slack_claude_remote.Relay.Routes.Agents.{
  text_frame, binary_frame, close_frame, other_frame, no_frame, Event, incoming, outgoing, Link,
  handle_frame, post_reply, serve_round, serve, handshake, Frame,
}

-- A connection of `name` and the messages that `send` has accepted for it so far.
pub record Life : Type 0 where
  pub link : Link
  pub accepted : List RelayMsg

abbrev with_hub : Hub → Link → Link
with_hub hub l = record l { state = record l.state { hub = hub } }

abbrev pub sending : Text → Text → RelayMsg → Life → Life
sending name target msg l =
    let (answer, hub) = send target msg l.link.state.hub in
    record {
      link = with_hub hub l.link;
      accepted = if text_eq target name && is_ok answer then l.accepted ++ msg ∷ [] else l.accepted;
    }

module _ (api : SlackApi) (codec : Codec) where
  -- A round of the connection after which it goes on, or what another task does with the hub.
  pub data Step (name : Text) : Life → Life → Type 0 where
    round :
        (now : ℤ) (e : Event) (l : Life)
        → (serve_round api codec now name e l.link).0 ≡ true
        → Step name l (record l { link = (serve_round api codec now name e l.link).1 })
    sends : (target : Text) (msg : RelayMsg) (l : Life) → Step name l (sending name target msg l)
    joins :
        (other : Text) (l : Life)
        → Step name l
            (record l { link = with_hub (register other fresh_channel l.link.state.hub).1 l.link })
    leaves :
        (other : Text) (l : Life)
        → other ≢ name
        → Step name l (record l { link = with_hub (unregister other l.link.state.hub) l.link })

  pub data Reaches (name : Text) : Life → Life → Type 0 where
    stop : (l : Life) → Reaches name l l
    step : (l m n : Life) → Step name l m → Reaches name m n → Reaches name l n

  pub hub-handle_frame :
      (now : ℤ) (name frame : Text) (s : AppState)
      → (handle_frame api codec now name frame s).hub ≡ s.hub
  unfolding handle_frame post_reply handle_request post_prompt
  hub-handle_frame now name frame s = ground arith

  -- What went out, and then what waits, is the welcome and all that was accepted, in this order.
  abbrev pub IsInOrder : Text → Life → Type 0
  IsInOrder name l =
      (tx : Channel) × (channel_of name l.link.state.hub ≡ some tx)
      × (l.link.wire ++ tx.queue ≡ welcome name ∷ l.accepted)

  serve_round-IsInOrder :
      (now : ℤ) (name : Text) (e : Event) (l : Life)
      → (serve_round api codec now name e l.link).0 ≡ true
      → IsInOrder name l
      → IsInOrder name (record l { link = (serve_round api codec now name e l.link).1 })
  unfolding serve_round
  serve_round-IsInOrder now name (incoming (text_frame t)) l e (tx, found, order) =
      (tx, ap (channel_of name) (hub-handle_frame now name t l.link.state) ∙ found, order)
  serve_round-IsInOrder now name (incoming binary_frame) l e h = h
  serve_round-IsInOrder now name (incoming other_frame) l e h = h
  serve_round-IsInOrder now name (incoming close_frame) l e h = absurd (ground arith)
  serve_round-IsInOrder now name (incoming no_frame) l e h = absurd (ground arith)
  serve_round-IsInOrder now name (outgoing true) l e (tx, found, order) =
      elim (receive_lem name name l.link.state.hub) [
        | inl (absent, _) ↦ absurd (ground arith)
        | inr (t, there, inl (idle, same)) ↦ rw (same, serve_round) (tx, found, order)
        | inr (t, there, inr (msg, rest, after, waits, taken, left)) ↦
            let queue : tx.queue ≡ msg ∷ rest = cc in
            rw (taken, serve_round)
              (
                record t { queue = rest },
                rw (text_eq_refl name) at left,
                append-snoc l.link.wire msg rest ∙ ap (λ q. l.link.wire ++ q) (sym queue) ∙ order,
              )
      ]
  serve_round-IsInOrder now name (outgoing false) l e (tx, found, order) =
      elim (receive_lem name name l.link.state.hub) [
        | inl (absent, _) ↦ absurd (ground arith)
        | inr (t, there, inl (idle, same)) ↦ rw (same, serve_round) (tx, found, order)
        | inr (t, there, inr (msg, rest, after, waits, taken, left)) ↦ absurd (ground arith)
      ]

  sends-IsInOrder :
      (name target : Text) (msg : RelayMsg) (l : Life)
      → IsInOrder name l
      → IsInOrder name (sending name target msg l)
  sends-IsInOrder name target msg l (tx, found, order) =
      elim (send_lem target name msg l.link.state.hub) [
        | inr (_, unchanged) ↦ (
          tx,
          ap (λ x. channel_of name x.1) unchanged ∙ found,
          ground (arith, ap (λ x. is_ok x.0) unchanged),
        )
        | inl (t, there, live, fine, effect) ↦ elim (Bool-cases (text_eq target name)) [
          | inr different ↦ (tx, ground arith, ground arith)
          | inl same ↦
              let here = (text_eq_iff target name).0 same in
              let one : some t ≡ some tx =
                sym there ∙ ap (λ n. channel_of n l.link.state.hub) here ∙ found in
              let queue : t.queue ≡ tx.queue = cc in
              (
                record t { queue = t.queue ++ msg ∷ [] },
                rw same at effect,
                rw (same, fine)
                    (append_assoc l.link.wire t.queue (msg ∷ [])
                      ∙ ap (λ q. l.link.wire ++ q ++ msg ∷ []) queue
                      ∙ ap (λ q. q ++ msg ∷ []) order),
              )
        ]
      ]

  Step-IsInOrder : (name : Text) (l m : Life) → Step name l m → IsInOrder name l → IsInOrder name m
  Step-IsInOrder name l m (round now e k went) h = serve_round-IsInOrder now name e k went h
  Step-IsInOrder name l m (sends target msg k) h = sends-IsInOrder name target msg k h
  Step-IsInOrder name l m (joins other k) (tx, found, order) =
      elim (register_lem other name fresh_channel k.link.state.hub) [
        | inr (_, unchanged) ↦ (tx, ap (λ x. channel_of name x.1) unchanged ∙ found, order)
        | inl (free, _, effect) ↦ (tx, ground (arith, text_eq_iff other name), order)
      ]
  Step-IsInOrder name l m (leaves other k different) (tx, found, order) = (
    tx,
    ground (arith, unregister_lem other name k.link.state.hub, text_eq_iff other name),
    order,
  )

  -- The order is kept while a connection lasts.
  pub Reaches-IsInOrder :
      (name : Text) (l m : Life) → Reaches name l m → IsInOrder name l → IsInOrder name m
  Reaches-IsInOrder name l m (stop k) h = h
  Reaches-IsInOrder name l m (step a b c s r) h =
      Reaches-IsInOrder name b c r (Step-IsInOrder name a b s h)

  -- The life of a connection when its first frame made the handshake a success and the welcome went
  -- out.
  abbrev pub opened : Option Frame → Text → AppState → Life
  opened first name s = record {
    link =
        serve api codec name true []
          (record { state = record s { hub = (handshake codec first s.hub).1 }; wire = [] });
    accepted = [];
  }

  opened-IsInOrder :
      (first : Option Frame) (name : Text) (s : AppState)
      → (handshake codec first s.hub).0 ≡ ok name
      → IsInOrder name (opened first name s)
  unfolding serve
  opened-IsInOrder first name s fine = elim (handshake_lem codec first s.hub) [
    | inr (failed, _, _) ↦ absurd (ground arith)
    | inl (n, good, _, effect) ↦
        let same : n ≡ name = cc (good, fine) in
        (fresh_channel, effect name ∙ ground (arith, text_eq_iff n name), refl)
  ]

  -- From a successful handshake on, whatever the other tasks send, connect and disconnect, as long as
  -- the connection lasts: what went out on its socket, followed by what waits in its queue, is the
  -- welcome and then every message that `send` accepted for its session, each once and in the order
  -- of acceptance.
  pub connection-IsInOrder :
      (first : Option Frame) (name : Text) (s : AppState) (m : Life)
      → (handshake codec first s.hub).0 ≡ ok name
      → Reaches name (opened first name s) m
      → IsInOrder name m
  connection-IsInOrder first name s m fine r =
      Reaches-IsInOrder name (opened first name s) m r (opened-IsInOrder first name s fine)
