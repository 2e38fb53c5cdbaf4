-- ===== src/Relay/Routes/Requests/Answered.antt =====
-- From a permission request to its verdict: `handle_request`, then `handle_message`.
use slack_claude_remote.Prelude.{
  ◌≡◌, refl, sym, ap, ◌∙◌, subst, inl, inr, true, some, arith, Option-cases,
}
use slack_claude_remote.Prelude.Int.{ℤ}
use slack_claude_remote.Prelude.Text.{Text, contains, split_once}
use slack_claude_remote.Prelude.Map.{
  lookup, insert, HasDistinctKeys, insert-HasDistinctKeys, remove-HasDistinctKeys,
}
use slack_claude_remote.Protocol.{Behavior, permission_verdict}
use slack_claude_remote.Relay.Slack.Api.{SlackApi}
use slack_claude_remote.Relay.Slack.Dedupe.{first_seen}
use slack_claude_remote.Relay.Slack.Events.{Candidate}
use slack_claude_remote.Relay.Store.{Binding}
use slack_claude_remote.Relay.Permission.{
  Pending, sweep, latest_binding, prompt_text, parse_verdict,
}
use slack_claude_remote.Relay.Permission.Pendings.{
  is_live, lookup-sweep, sweep-HasDistinctKeys, match_verdict_iff,
}
use slack_claude_remote.Relay.State.{AppState}
use slack_claude_remote.Relay.Routes.Messages.{handle_message}
use slack_claude_remote.Relay.Routes.Messages.Delivery.{IsAnswered, handle_message-IsAnswered}
use slack_claude_remote.Relay.Routes.Requests.{colon, post_prompt, handle_request}
use slack_claude_remote.Relay.Routes.Requests.Laws.{IsAsked}

module _ (api : SlackApi) where
  post_prompt-HasDistinctKeys :
      (channel thread_ts request_id prompt : Text) (s : AppState)
      → HasDistinctKeys s.pending
      → HasDistinctKeys (post_prompt api channel thread_ts request_id prompt s).pending
  unfolding post_prompt
  post_prompt-HasDistinctKeys channel thread_ts request_id prompt s h =
      ground (arith, remove-HasDistinctKeys request_id s.pending h)

  -- The requests keep one entry for each id.
  pub handle_request-HasDistinctKeys :
      (now : ℤ) (session request_id tool_name description input_preview : Text) (s : AppState)
      → HasDistinctKeys s.pending
      → HasDistinctKeys
          (handle_request api now session request_id tool_name description input_preview s).pending
  unfolding handle_request
  handle_request-HasDistinctKeys now session request_id tool_name description input_preview s h =
      let swept = sweep-HasDistinctKeys now s.pending h in
      elim (Option-cases (latest_binding s.store.bindings session)) [
        | inl missing ↦ rw (missing, handle_request) swept
        | inr ((chat_id, b), found) ↦
            let asked : Pending = record { chat_id = chat_id; session = session; created = now } in
            let recorded = insert-HasDistinctKeys request_id asked (sweep now s.pending) swept in
            elim (Option-cases (split_once colon chat_id)) [
              | inl bare ↦
                  rw (found, bare, handle_request)
                    (remove-HasDistinctKeys request_id
                      (insert request_id asked (sweep now s.pending)) recorded)
              | inr ((channel, thread_ts), split) ↦
                  rw (found, split, handle_request)
                    (post_prompt-HasDistinctKeys channel thread_ts request_id
                      (prompt_text tool_name description input_preview request_id)
                      (record s { pending = insert request_id asked (sweep now s.pending) })
                      recorded)
            ]
      ]

  -- A reply that names a waiting request is answered by its verdict.
  waiting-IsAnswered :
      (later : ℤ) (event_id : Text) (c : Candidate) (b : Binding) (p : Pending) (id : Text)
      (behavior : Behavior) (t : AppState)
      → HasDistinctKeys t.pending
      → lookup id t.pending ≡ some p
      → p.chat_id ≡ c.chat_id
      → p.session ≡ b.session
      → is_live later p ≡ true
      → lookup c.chat_id t.store.bindings ≡ some b
      → c.user ≡ b.user
      → contains t.store.users c.user ≡ true
      → parse_verdict c.text ≡ some (id, behavior)
      → (first_seen t.dedupe event_id).0 ≡ true
      → IsAnswered c b.session
          (permission_verdict id behavior)
          t
          (handle_message api later event_id (some c) t)
  waiting-IsAnswered later event_id c b p id behavior t distinct waits thread session live bound
        owner known parsed new =
      let swept : lookup id (sweep later t.pending) ≡ some p =
        ground (arith, lookup-sweep later id t.pending distinct) in
      let matched = (match_verdict_iff (sweep later t.pending) c b id behavior).1 (record {
        parsed = parsed;
        request = p;
        asked = swept;
        same_thread = thread;
        same_session = session;
        same_user = owner;
      }) in
      rw matched at (handle_message-IsAnswered api later event_id c b t new known bound)

  store-handle_request :
      (now : ℤ) (session request_id tool_name description input_preview : Text) (s : AppState)
      → (handle_request api now session request_id tool_name description input_preview s).store
        ≡ s.store
  unfolding handle_request post_prompt
  store-handle_request now session request_id tool_name description input_preview s = ground arith

  -- A request whose prompt was posted is answered: a new reply in the thread of its prompt, by the
  -- user who bound that thread, that reads as a verdict on its id and comes within half an hour, goes
  -- to the session as this verdict, or the thread is told that the session is offline.
  pub request-IsAnswered :
      (now later : ℤ) (session id tool_name description input_preview event_id : Text)
      (c : Candidate) (b : Binding) (behavior : Behavior) (s t : AppState)
      → handle_request api now session id tool_name description input_preview s ≡ t
      → HasDistinctKeys s.pending
      → lookup c.chat_id s.store.bindings ≡ some b
      → b.session ≡ session
      → IsAsked c.chat_id
          (prompt_text tool_name description input_preview id)
          id
          (record { chat_id = c.chat_id; session = session; created = now })
          s.calls
          t
      → is_live later (record { chat_id = c.chat_id; session = session; created = now }) ≡ true
      → contains s.store.users c.user ≡ true
      → c.user ≡ b.user
      → parse_verdict c.text ≡ some (id, behavior)
      → (first_seen t.dedupe event_id).0 ≡ true
      → IsAnswered c session
          (permission_verdict id behavior)
          t
          (handle_message api later event_id (some c) t)
  request-IsAnswered now later session id tool_name description input_preview event_id c b behavior
        s t result distinct bound of_session asked live known owner parsed new =
      let same =
        sym (ap (λ x. x.store) result)
        ∙ store-handle_request now session id tool_name description input_preview s in
      let kept =
        subst (λ x. HasDistinctKeys x.pending) result
          (handle_request-HasDistinctKeys now session id tool_name description input_preview s
            distinct) in
      subst
        (λ n.
          IsAnswered c n (permission_verdict id behavior) t
            (handle_message api later event_id (some c) t))
        of_session
        (waiting-IsAnswered later event_id c b
          (record { chat_id = c.chat_id; session = session; created = now }) id behavior t kept
          asked.waits refl (sym of_session) live
          (ap (λ st. lookup c.chat_id st.bindings) same ∙ bound) owner
          (ap (λ st. contains st.users c.user) same ∙ known) parsed new)
