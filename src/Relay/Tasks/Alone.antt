-- ===== src/Relay/Tasks/Alone.antt =====
-- A task that is left alone does what the handler does in one piece.
use slack_claude_remote.Prelude.{
  ℕ, zero, suc, ◌+◌, ◌-◌, ◌≤◌, ◌<◌, ◌≡◌, refl, ap, ◌∙◌, subst, ◌++◌, Result, inl, inr, Option, none,
  some, List, [], ◌∷◌, length, arith, Option-cases, Result-cases, Bool-cases, ok, err,
  if◌then◌else◌,
}
use slack_claude_remote.Prelude.Int.{ℤ}
use slack_claude_remote.Prelude.Text.{Text, contains, split_once}
use slack_claude_remote.Prelude.Map.{lookup, insert, remove}
use slack_claude_remote.Protocol.{RelayMsg, inbound, permission_verdict}
use slack_claude_remote.Relay.Slack.Events.{Candidate}
use slack_claude_remote.Relay.Slack.Interactions.{Selection}
use slack_claude_remote.Relay.Slack.Dedupe.{first_seen}
use slack_claude_remote.Relay.Store.{Binding}
use slack_claude_remote.Relay.Hub.{send}
use slack_claude_remote.Relay.Permission.{Pending, sweep, match_verdict, latest_binding}
use slack_claude_remote.Relay.State.{AppState}
use slack_claude_remote.Relay.Slack.Api.{Call, SlackError, post, post_message, respond_to}
use slack_claude_remote.Relay.Routes.Env.{Env}
use slack_claude_remote.Relay.Routes.Pieces.{pieces_of, post_pieces}
use slack_claude_remote.Relay.Routes.Requests.{colon, post_prompt, handle_request}
use slack_claude_remote.Relay.Routes.Messages.{
  forward, route_reply, handle_candidate, handle_message,
}
use slack_claude_remote.Relay.Routes.Webhooks.{bind_selected, root_text}
use slack_claude_remote.Relay.Tasks.{
  Task, arrived, admitted, matching, consuming, sending, refused, asking, forgetting, choosing,
  rooting, binding_thread, inviting, finished, prompting_from, Request, prompt_of, turn, turns,
}

module _ (env : Env) (now : ℤ) where
  open env use {api}

  turns-finished : (n : ℕ) (s : AppState) → turns env now n finished s ≡ (finished, s)
  unfolding turns turn
  turns-finished zero s = refl
  turns-finished (suc n) s = turns-finished n s

  -- A first turn, and the others.
  turns-then :
      (n : ℕ) (t : Task) (s : AppState) (t' : Task) (s' : AppState) (r : Task × AppState)
      → turn env now t s ≡ (t', s')
      → turns env now n t' s' ≡ r
      → turns env now (suc n) t s ≡ r
  unfolding turns
  turns-then n t s t' s' r first others = ap (λ x. turns env now n x.0 x.1) first ∙ others

  turns-ended :
      (n : ℕ) (t : Task) (s s' : AppState)
      → turn env now t s ≡ (finished, s')
      → turns env now (suc n) t s ≡ (finished, s')
  turns-ended n t s s' last = turns-then n t s finished s' _ last (turns-finished n s')

  turns-sending :
      (c : Candidate) (session : Text) (msg : RelayMsg) (n : ℕ) (s : AppState)
      → turns env now (suc (suc n)) (sending c session msg) s
        ≡ (finished, forward api c session msg s)
  unfolding turn forward
  turns-sending c session msg n s = elim (Result-cases (send session msg s.hub).0) [
    | inl (_, sent) ↦
        turns-ended (suc n) _ s (record s { hub = (send session msg s.hub).1 }) (ground arith)
        ∙ rw (sent, forward) refl
    | inr (_, offline) ↦
        turns-then (suc n) _ s (refused c session) s _ (ground arith)
          (turns-ended n _ s _ (rw (offline, forward) refl))
  ]

  turns-matching :
      (c : Candidate) (b : Binding) (n : ℕ) (s : AppState)
      → turns env now (suc (suc (suc (suc n)))) (matching c b) s
        ≡ (finished, route_reply api now c b s)
  unfolding turn route_reply
  turns-matching c b n s =
      let pending = sweep now s.pending in
      let swept = record s { pending = pending } in
      elim (Option-cases (match_verdict pending c b)) [
        | inl unmatched ↦
            let msg = inbound c.chat_id c.user c.text in
            turns-then (suc (suc (suc n))) _ s (sending c b.session msg) swept _
              (rw (unmatched, turn) refl)
              (rw (unmatched, route_reply) (turns-sending c b.session msg (suc n) swept))
        | inr ((i, w), matched) ↦
            let used = record s { pending = remove i pending } in
            let msg = permission_verdict i w in
            turns-then (suc (suc (suc n))) _ s (consuming c b i w) swept _ (rw (matched, turn) refl)
              (turns-then (suc (suc n)) _ swept (sending c b.session msg) used _ refl
                (rw (matched, route_reply) (turns-sending c b.session msg n used)))
      ]

  turns-admitted :
      (c : Candidate) (n : ℕ) (s : AppState)
      → turns env now (suc (suc (suc (suc (suc n))))) (admitted c) s
        ≡ (finished, handle_candidate api now c s)
  unfolding turn handle_candidate
  turns-admitted c n s =
      let rest = suc (suc (suc (suc n))) in
      elim (Bool-cases (contains s.store.users c.user)) [
        | inr unknown ↦ turns-ended rest _ s _ (rw (unknown, handle_candidate, turn) refl)
        | inl known ↦ elim (Option-cases (lookup c.chat_id s.store.bindings)) [
          | inl unbound ↦ turns-ended rest _ s _ (rw (known, unbound, handle_candidate, turn) refl)
          | inr (b, bound) ↦
              turns-then rest _ s (matching c b) s _ (rw (known, bound, turn) refl)
                (rw (known, bound, handle_candidate) (turns-matching c b n s))
        ]
      ]

  turns-arrived :
      (event_id : Text) (candidate : Option Candidate) (n : ℕ) (s : AppState)
      → turns env now (suc (suc (suc (suc (suc (suc n)))))) (arrived event_id candidate) s
        ≡ (finished, handle_message api now event_id candidate s)
  unfolding turn handle_message
  turns-arrived event_id candidate n s =
      let rest = suc (suc (suc (suc (suc n)))) in
      let seen = record s { dedupe = (first_seen s.dedupe event_id).1 } in
      elim (Bool-cases (first_seen s.dedupe event_id).0) [
        | inr again ↦ turns-ended rest _ s _ (rw (again, handle_message, turn) refl)
        | inl new ↦ elim (Option-cases candidate) [
          | inl missing ↦ turns-ended rest _ s _ (rw (new, missing, handle_message, turn) refl)
          | inr (c, given) ↦
              turns-then rest _ s (admitted c) seen _ (rw (new, given, turn) refl)
                (rw (new, given, handle_message) (turns-admitted c n seen))
        ]
      ]

  -- What the posts leave, with the request forgotten if one was refused.
  abbrev settled : Text → AppState → Result (Unit {0}) SlackError × List Call → AppState
  settled request_id s (ok _, calls) = record s { calls = calls }
  settled request_id s (err _, calls) = record s {
    calls = calls;
    pending = remove request_id s.pending;
  }

  turns-prompting :
      (r : Request) (channel thread_ts : Text) (ps : List Text) (n : ℕ) (s : AppState)
      → length ps < n
      → turns env now n (prompting_from r channel thread_ts ps) s
        ≡ (finished, settled r.request_id s (post_pieces api channel thread_ts ps s.calls))
  unfolding turn post_pieces post_message
  turns-prompting r channel thread_ts [] n s enough = turns-finished n s
  turns-prompting r channel thread_ts (p ∷ ps) zero s enough = absurd (omega arith)
  turns-prompting r channel thread_ts (p ∷ ps) (suc zero) s enough = absurd (omega arith)
  turns-prompting r channel thread_ts (p ∷ ps) (suc (suc n)) s enough =
      let made = s.calls ++ post channel (some thread_ts) p ∷ [] in
      let posted = record s { calls = made } in
      elim (Result-cases (api.answer_post made)) [
        | inl (_, taken) ↦
            turns-then (suc n) _ s (prompting_from r channel thread_ts ps) posted _ (ground arith) (
              rw (taken, post_pieces)
                (turns-prompting r channel thread_ts ps (suc n) posted (omega arith)))
        | inr (_, rejected) ↦
            turns-then (suc n) _ s (forgetting r.request_id) posted _ (ground arith)
              (turns-ended n _ posted _ (rw (rejected, post_pieces) refl))
      ]

  turns-asking :
      (r : Request) (n : ℕ) (s : AppState)
      → suc (length (pieces_of (prompt_of r))) < n
      → turns env now n (asking r) s ≡ (
        finished,
        handle_request api now r.session r.request_id r.tool_name r.description r.input_preview s,
      )
  unfolding turn handle_request post_prompt
  turns-asking r zero s enough = absurd (omega arith)
  turns-asking r (suc zero) s enough = absurd (omega arith)
  turns-asking r (suc (suc n)) s enough =
      let pending = sweep now s.pending in
      elim (Option-cases (latest_binding s.store.bindings r.session)) [
        | inl unbound ↦
            turns-ended (suc n) _ s (record s { pending = pending }) (ground arith)
            ∙ rw (unbound, handle_request) refl
        | inr ((chat_id, b), bound) ↦
            let asked : Pending = record {
              chat_id = chat_id;
              session = r.session;
              created = now;
            } in
            let recorded = record s { pending = insert r.request_id asked pending } in
            elim (Option-cases (split_once colon chat_id)) [
              | inl whole ↦
                  turns-then (suc n) _ s (forgetting r.request_id) recorded _ (ground arith)
                    (turns-ended n _ recorded _ (rw (bound, whole, handle_request) refl))
              | inr ((channel, thread_ts), split) ↦
                  let ps = pieces_of (prompt_of r) in
                  turns-then (suc n) _ s (prompting_from r channel thread_ts ps) recorded _
                    (ground arith)
                    (turns-prompting r channel thread_ts ps (suc n) recorded (omega arith)
                      ∙ rw (bound, split, handle_request) (ground arith))
            ]
      ]

  -- The handling of a choice, after the request was read.
  abbrev pub choice_handled : Selection → AppState → AppState
  choice_handled sel s = if contains s.store.users sel.user then bind_selected env now sel s else s

  turns-choosing :
      (sel : Selection) (n : ℕ) (s : AppState)
      → turns env now (suc (suc (suc n))) (choosing sel) s ≡ (finished, choice_handled sel s)
  unfolding turn bind_selected post_message respond_to
  turns-choosing sel n s = elim (Bool-cases (contains s.store.users sel.user)) [
    | inr unknown ↦ turns-ended (suc (suc n)) _ s _ (rw (unknown, turn) refl)
    | inl known ↦
        let made = s.calls ++ post sel.channel none (root_text sel.session) ∷ [] in
        let posted = record s { calls = made } in
        turns-then (suc (suc n)) _ s (rooting sel) s _ (rw (known, turn) refl)
          (elim (Result-cases (api.answer_post made)) [
            | inl (ts, taken) ↦
                turns-then (suc n) _ s (binding_thread sel ts) posted _ (ground arith)
                  (turns-ended n _ posted _ (rw (known, taken, bind_selected) refl))
            | inr (_, rejected) ↦
                turns-then (suc n) _ s (inviting sel) posted _ (ground arith)
                  (turns-ended n _ posted _ (rw (known, rejected, bind_selected) refl))
          ])
  ]

  -- A task that is left alone ends, and then the state is what the handler makes of it in one piece:
  -- a message within 6 turns, a permission request within 2 turns and one for each piece of its
  -- prompt, and a choice of a session within 3; turns beyond that change nothing.
  pub turns_alone :
      (event_id : Text) (candidate : Option Candidate) (r : Request) (sel : Selection) (k m n : ℕ)
      (s : AppState)
      → 6 ≤ k
      → 2 + length (pieces_of (prompt_of r)) ≤ m
      → 3 ≤ n
      → (turns env now k (arrived event_id candidate) s
          ≡ (finished, handle_message api now event_id candidate s))
        × (turns env now m (asking r) s ≡ (
          finished,
          handle_request api now r.session r.request_id r.tool_name r.description r.input_preview s,
        ))
        × (turns env now n (choosing sel) s ≡ (finished, choice_handled sel s))
  turns_alone event_id candidate r sel k m n s enough_k enough_m enough_n = (
    subst
        (λ i.
          turns env now i (arrived event_id candidate) s
          ≡ (finished, handle_message api now event_id candidate s))
        (omega arith) (turns-arrived event_id candidate (k - 6) s),
    turns-asking r m s (omega arith),
    subst (λ i. turns env now i (choosing sel) s ≡ (finished, choice_handled sel s)) (omega arith)
        (turns-choosing sel (n - 3) s),
  )
