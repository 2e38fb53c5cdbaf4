-- ===== src/Relay/Tasks/Receipts.antt =====
-- What a session receives while tasks and handlers take their turns.
use slack_claude_remote.Prelude.{
  ◌≡◌, refl, sym, ap, ◌∙◌, subst, inl, inr, none, some, [], ◌∷◌, ◌++◌, length, length-append, arith,
  Option, Bool-cases,
}
use slack_claude_remote.Prelude.Int.{ℤ}
use slack_claude_remote.Prelude.Text.{Text, text_eq, text_eq_iff}
use slack_claude_remote.Protocol.{RelayMsg, permission_verdict, Behavior}
use slack_claude_remote.Relay.Slack.Events.{Candidate}
use slack_claude_remote.Relay.Hub.{Hub, fresh_channel, unregister, send, receive}
use slack_claude_remote.Relay.Hub.Laws.{channel_of, register_lem, unregister_lem, receive_lem}
use slack_claude_remote.Relay.Store.{Store}
use slack_claude_remote.Relay.State.{AppState, save_store}
use slack_claude_remote.Relay.Routes.Env.{Env}
use slack_claude_remote.Relay.Routes.Messages.{notify_offline}
use slack_claude_remote.Relay.Routes.Messages.Verdicts.{Receives, Receives-nothing, send-Receives}
use slack_claude_remote.Relay.Routes.Webhooks.{unbind_threads}
use slack_claude_remote.Relay.Auth.Admin.{commit}
use slack_claude_remote.Relay.Tasks.{
  Task, arrived, admitted, matching, consuming, sending, refused, asking, prompting, forgetting,
  choosing, rooting, binding_thread, inviting, finished, Request, turn,
}
use slack_claude_remote.Relay.Tasks.World.{
  joins, leaves, takes, injects, unbinds, commits, logs_in, posts_reply, Section,
}

module _ (env : Env) where
  hub-sending :
      (now : ℤ) (c : Candidate) (session : Text) (msg : RelayMsg) (s : AppState)
      → (turn env now (sending c session msg) s).1.hub ≡ (send session msg s.hub).1
  unfolding turn send
  hub-sending now c session msg s = ground arith

  hub-asking : (now : ℤ) (q : Request) (s : AppState) → (turn env now (asking q) s).1.hub ≡ s.hub
  unfolding turn
  hub-asking now q s = ground arith

  -- A session receives nothing from a turn but what a task was about to send to it.
  pub turn-Receives :
      (now : ℤ) (t : Task) (s : AppState) (name : Text) (msg : RelayMsg)
      → Receives name msg s.hub (turn env now t s).1.hub
      → (c : Candidate) × (t ≡ sending c name msg)
  unfolding turn notify_offline save_store
  turn-Receives now (arrived event_id candidate) s name msg r =
      absurd (Receives-nothing name msg _ r)
  turn-Receives now (admitted c) s name msg r = absurd (Receives-nothing name msg _ r)
  turn-Receives now (matching c b) s name msg r = absurd (Receives-nothing name msg _ r)
  turn-Receives now (consuming c b id w) s name msg r = absurd (Receives-nothing name msg _ r)
  turn-Receives now (sending c session sent) s name msg r =
      let (to, what) =
        send-Receives session name sent msg s.hub
          (subst (Receives name msg s.hub) (hub-sending now c session sent s) r) in
      (c, rw (to, what) refl)
  turn-Receives now (refused c session) s name msg r = absurd (Receives-nothing name msg _ r)
  turn-Receives now (asking q) s name msg r =
      absurd (Receives-nothing name msg _ (subst (Receives name msg s.hub) (hub-asking now q s) r))
  turn-Receives now (prompting q channel ts []) s name msg r =
      absurd (Receives-nothing name msg _ r)
  turn-Receives now (prompting q channel ts (p ∷ ps)) s name msg r =
      absurd (Receives-nothing name msg _ r)
  turn-Receives now (forgetting id) s name msg r = absurd (Receives-nothing name msg _ r)
  turn-Receives now (choosing sel) s name msg r = absurd (Receives-nothing name msg _ r)
  turn-Receives now (rooting sel) s name msg r = absurd (Receives-nothing name msg _ r)
  turn-Receives now (binding_thread sel ts) s name msg r = absurd (Receives-nothing name msg _ r)
  turn-Receives now (inviting sel) s name msg r = absurd (Receives-nothing name msg _ r)
  turn-Receives now finished s name msg r = absurd (Receives-nothing name msg _ r)

  Receives-same :
      (name : Text) (msg : RelayMsg) (before after : Hub)
      → channel_of name after ≡ channel_of name before
      → ¬ Receives name msg before after
  Receives-same name msg before after same r = Receives-nothing name msg before (record {
    was = r.was;
    is = r.is;
    open_before = r.open_before;
    open_after = sym same ∙ r.open_after;
    added = r.added;
  })

  receive-sends_nothing :
      (other name : Text) (first : Option RelayMsg) (hub after : Hub) (msg : RelayMsg)
      → receive other hub ≡ some (first, after)
      → ¬ Receives name msg hub after
  receive-sends_nothing other name first hub after msg e r = elim (receive_lem other name hub) [
    | inl (_, nothing) ↦ cc
    | inr (tx, found, inl (_, idle)) ↦
        let same : after ≡ hub = cc in
        Receives-same name msg hub after (ap (channel_of name) same) r
    | inr (tx, found, inr (next, rest, rest_hub, waits, got, now)) ↦
        let same : after ≡ rest_hub = cc in
        let now' : channel_of name after ≡ _ = ap (channel_of name) same ∙ now in
        elim (Bool-cases (text_eq other name)) [
          | inr different ↦ Receives-same name msg hub after (rw different at now') r
          | inl here ↦
              let e' = (text_eq_iff other name).0 here in
              let is_rest : some r.is ≡ some (record tx { queue = rest }) =
                sym r.open_after ∙ (rw here at now') in
              let was_tx : some r.was ≡ some tx =
                sym r.open_before ∙ ap (λ n. channel_of n hub) (sym e') ∙ found in
              let lengths : length rest ≡ length ((next ∷ rest) ++ msg ∷ []) = cc (r.added) in
              absurd (omega (arith, length-append (next ∷ rest) (msg ∷ [])))
        ]
  ]

  hub-commit : (change : Store → Store) (s : AppState) → (commit env change s).1.hub ≡ s.hub
  unfolding commit save_store
  hub-commit change s = ground arith

  -- No other handler sends a verdict.
  pub Section-sends_no_verdict :
      {s t : AppState} (name id : Text) (behavior : Behavior)
      → Section env s t
      → ¬ Receives name (permission_verdict id behavior) s.hub t.hub
  unfolding unbind_threads save_store commit
  Section-sends_no_verdict {s} name id behavior (joins other) r =
      elim (register_lem other name fresh_channel s.hub) [
        | inl (absent, _, now) ↦ elim (Bool-cases (text_eq other name)) [
          | inl same ↦ let e = (text_eq_iff other name).0 same in absurd (cc (r.open_before))
          | inr different ↦ Receives-same name _ s.hub _ (rw different at now) r
        ]
        | inr (_, unchanged) ↦ Receives-same name _ s.hub _ (rw unchanged refl) r
      ]
  Section-sends_no_verdict {s} name id behavior (leaves other) r =
      elim (Bool-cases (text_eq other name)) [
        | inl same ↦
            let gone : channel_of name (unregister other s.hub) ≡ none =
              rw same at (unregister_lem other name s.hub) in
            cc (r.open_after)
        | inr different ↦
            Receives-same name _ s.hub _ (rw different at (unregister_lem other name s.hub)) r
      ]
  Section-sends_no_verdict {s} name id behavior (takes other {hub} {msg} e) r =
      receive-sends_nothing other name msg s.hub hub _ e r
  Section-sends_no_verdict {s} name id behavior (injects session chat_id user text) r =
      let (_, same) = send-Receives session name _ _ s.hub r in absurd (cc same)
  Section-sends_no_verdict {s} name id behavior (unbinds channel user) r =
      Receives-nothing name _ _ r
  Section-sends_no_verdict {s} name id behavior (commits change same) r =
      Receives-same name _ s.hub _ (ap (channel_of name) (hub-commit change s)) r
  Section-sends_no_verdict name id behavior (logs_in sessions) r = Receives-nothing name _ _ r
  Section-sends_no_verdict name id behavior (posts_reply calls) r = Receives-nothing name _ _ r
