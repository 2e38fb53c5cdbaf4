-- ===== src/Relay/Routes/Agents/Departure.antt =====
-- What a connection leaves behind in the hub.
use slack_claude_remote.Prelude.{
  ◌≡◌, refl, sym, ap, ◌∙◌, inl, inr, Bool, true, false, Option, List, [], ◌∷◌, ◌++◌, arith,
  Bool-cases, Result-cases,
}
use slack_claude_remote.Prelude.Int.{ℤ}
use slack_claude_remote.Prelude.Text.{Text, text_eq, text_eq_iff}
use slack_claude_remote.Protocol.{Codec, welcome}
use slack_claude_remote.Relay.Slack.Api.{SlackApi}
use slack_claude_remote.Relay.Hub.Laws.{channel_of, receive_lem, unregister_lem}
use slack_claude_remote.Relay.State.{AppState}
use slack_claude_remote.Relay.Routes.Agents.{
  Frame, text_frame, binary_frame, close_frame, other_frame, no_frame, Event, incoming, outgoing,
  Link, handshake, serve_round, serve_loop, serve, run,
}
use slack_claude_remote.Relay.Routes.Agents.Laws.{handshake_lem}
use slack_claude_remote.Relay.Routes.Agents.Connection.{hub-handle_frame}

module _ (api : SlackApi) (codec : Codec) where
  serve_round_others :
      (now : ℤ) (name other : Text) (e : Event) (l : Link)
      → text_eq name other ≡ false
      → channel_of other (serve_round api codec now name e l).1.state.hub
        ≡ channel_of other l.state.hub
  unfolding serve_round
  serve_round_others now name other (incoming (text_frame t)) l different =
      ap (channel_of other) (hub-handle_frame api codec now name t l.state)
  serve_round_others now name other (incoming binary_frame) l different = refl
  serve_round_others now name other (incoming other_frame) l different = refl
  serve_round_others now name other (incoming close_frame) l different = refl
  serve_round_others now name other (incoming no_frame) l different = refl
  serve_round_others now name other (outgoing true) l different =
      elim (receive_lem name other l.state.hub) [
        | inl (_, gone) ↦ rw (gone, serve_round)
        | inr (t, _, inl (_, same)) ↦ rw (same, serve_round)
        | inr (t, _, inr (_, _, _, _, taken, left)) ↦ rw (taken, serve_round) (rw different at left)
      ]
  serve_round_others now name other (outgoing false) l different =
      elim (receive_lem name other l.state.hub) [
        | inl (_, gone) ↦ rw (gone, serve_round)
        | inr (t, _, inl (_, same)) ↦ rw (same, serve_round)
        | inr (t, _, inr (_, _, _, _, taken, left)) ↦ rw (taken, serve_round) (rw different at left)
      ]

  serve_loop_others :
      (name other : Text) (es : List (ℤ × Event)) (l : Link)
      → text_eq name other ≡ false
      → channel_of other (serve_loop api codec name es l).state.hub ≡ channel_of other l.state.hub
  unfolding serve_loop
  serve_loop_others name other [] l different = refl
  serve_loop_others name other ((now, e) ∷ es) l different =
      let one = serve_round_others now name other e l different in
      let more = serve_loop_others name other es (serve_round api codec now name e l).1 different in
      ground (arith, one, more)

  serve_others :
      (name other : Text) (welcomed : Bool) (es : List (ℤ × Event)) (l : Link)
      → text_eq name other ≡ false
      → channel_of other (serve api codec name welcomed es l).state.hub
        ≡ channel_of other l.state.hub
  unfolding serve
  serve_others name other true es l different =
      serve_loop_others name other es (record l { wire = l.wire ++ welcome name ∷ [] }) different
  serve_others name other false es l different = refl

  -- A connection that runs from its first frame to its end, with no other task between, leaves every
  -- name in the hub as it was: connected with the same queue, or not connected. This holds however
  -- the handshake ends and whatever frames follow.
  hub-run :
      (first : Option Frame) (welcomed : Bool) (es : List (ℤ × Event)) (s : AppState) (other : Text)
      → channel_of other (run api codec first welcomed es s).state.hub ≡ channel_of other s.hub
  unfolding run
  hub-run first welcomed es s other = elim (handshake_lem codec first s.hub) [
    | inr (failed, same, _) ↦ elim (Result-cases (handshake codec first s.hub).0) [
      | inl (name, fine) ↦ absurd (ground arith)
      | inr (message, bad) ↦ rw (bad, run) (ap (channel_of other) same)
    ]
    | inl (name, fine, (_, _, free), effect) ↦
        let joined : Link = record {
          state = record s { hub = (handshake codec first s.hub).1 };
          wire = [];
        } in
        let last = (serve api codec name welcomed es joined).state.hub in
        rw (fine, run)
          (elim (Bool-cases (text_eq name other)) [
            | inl here ↦
                let same = (text_eq_iff name other).0 here in
                (rw here at (unregister_lem name other last))
                ∙ sym free
                ∙ ap (λ n. channel_of n s.hub) same
            | inr different ↦
                (rw different at (unregister_lem name other last))
                ∙ serve_others name other welcomed es joined different
                ∙ (rw different at (effect other))
          ])
  ]
