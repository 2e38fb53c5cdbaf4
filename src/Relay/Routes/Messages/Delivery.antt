-- ===== src/Relay/Routes/Messages/Delivery.antt =====
-- A reply reaches the agent or its author is told, what is refused leaves no trace, and a delivery
-- that Slack repeats does nothing.
use slack_claude_remote.Prelude.{
  ◌<◌, suc, ◌≡◌, refl, ◌∙◌, ap, ◌⊎◌, inl, inr, true, false, Option, none, some, List, [], ◌∷◌, ◌++◌,
  arith, Option-cases, length,
}
use slack_claude_remote.Prelude.Int.{ℤ}
use slack_claude_remote.Prelude.Text.{Text, text_eq_refl, contains}
use slack_claude_remote.Prelude.Map.{lookup, remove}
use slack_claude_remote.Protocol.{RelayMsg, Behavior, inbound, permission_verdict}
use slack_claude_remote.Relay.Slack.Api.{SlackApi, post, post_message}
use slack_claude_remote.Relay.Slack.Dedupe.{Dedupe, first_seen, feed}
use slack_claude_remote.Relay.Slack.Dedupe.Laws.{IsValid}
use slack_claude_remote.Relay.Slack.Dedupe.Memory.{redelivery_refused}
use slack_claude_remote.Relay.Slack.Events.{Candidate}
use slack_claude_remote.Relay.Store.{Binding}
use slack_claude_remote.Relay.Hub.Laws.{send_lem}
use slack_claude_remote.Relay.Permission.{sweep, match_verdict}
use slack_claude_remote.Relay.State.{AppState}
use slack_claude_remote.Relay.Routes.Messages.{
  offline_notice, forward, route_reply, handle_candidate, handle_message,
}
use slack_claude_remote.Relay.Routes.Messages.Verdicts.{Receives}

-- What is sent for a reply: the verdict that it is, or else its text.
abbrev pub message_for : Candidate → Option (Text × Behavior) → RelayMsg
message_for c (some (request_id, behavior)) = permission_verdict request_id behavior
message_for c none = inbound c.chat_id c.user c.text

-- The session has the message, and nothing is posted; or the session is offline, nothing is sent,
-- and the thread gets one notice.
abbrev pub IsAnswered : Candidate → Text → RelayMsg → AppState → AppState → Type 0
IsAnswered c session msg before after =
    Receives session msg before.hub after.hub × (after.calls ≡ before.calls)
    ⊎ (after.hub ≡ before.hub)
      × (after.calls
          ≡ before.calls ++ post c.channel (some c.thread_ts) (offline_notice session) ∷ [])

module _ (api : SlackApi) where
  forward-IsAnswered :
      (c : Candidate) (session : Text) (msg : RelayMsg) (s : AppState)
      → IsAnswered c session msg s (forward api c session msg s)
  unfolding forward post_message
  forward-IsAnswered c session msg s = elim (send_lem session session msg s.hub) [
    | inl (tx, found, live, sent, now) ↦ inl (
      record {
        was = tx;
        is = record tx { queue = tx.queue ++ msg ∷ [] };
        open_before = found;
        open_after = ground (arith, text_eq_refl session);
        added = refl;
      },
      ground arith,
    )
    | inr (_, unchanged) ↦ inr (ground arith, ground arith)
  ]

  route-IsAnswered :
      (now : ℤ) (c : Candidate) (b : Binding) (s : AppState)
      → IsAnswered c b.session
          (message_for c (match_verdict (sweep now s.pending) c b))
          s
          (route_reply api now c b s)
  unfolding route_reply
  route-IsAnswered now c b s = elim (Option-cases (match_verdict (sweep now s.pending) c b)) [
    | inl unmatched ↦
        rw (unmatched, route_reply)
          (forward-IsAnswered c b.session (inbound c.chat_id c.user c.text)
            (record s { pending = sweep now s.pending }))
    | inr ((id, behavior), matched) ↦
        rw (matched, route_reply)
          (forward-IsAnswered c b.session (permission_verdict id behavior)
            (record s { pending = remove id (sweep now s.pending) }))
  ]

  -- A new reply of an allowed user in a bound thread is answered in one of the two ways: the verdict
  -- that it is, or else its text, goes to the session that the thread is bound to, or the thread is
  -- told that this session is offline.
  pub handle_message-IsAnswered :
      (now : ℤ) (event_id : Text) (c : Candidate) (b : Binding) (s : AppState)
      → (first_seen s.dedupe event_id).0 ≡ true
      → contains s.store.users c.user ≡ true
      → lookup c.chat_id s.store.bindings ≡ some b
      → IsAnswered c b.session
          (message_for c (match_verdict (sweep now s.pending) c b))
          s
          (handle_message api now event_id (some c) s)
  unfolding handle_message handle_candidate
  handle_message-IsAnswered now event_id c b s first known bound =
      rw (first, handle_message)
        (rw (known, bound, handle_candidate)
          (route-IsAnswered now c b (record s { dedupe = (first_seen s.dedupe event_id).1 })))

  -- A message changes nothing but the memory of event ids, if it is no reply, or its author is not
  -- allowed, or its thread is not bound, or its event came before.
  pub handle_message_ignored :
      (now : ℤ) (event_id : Text) (candidate : Option Candidate) (s : AppState)
      → ((first_seen s.dedupe event_id).0 ≡ false)
        ⊎ ((c : Candidate)
            → candidate ≡ some c
            → (contains s.store.users c.user ≡ false) ⊎ (lookup c.chat_id s.store.bindings ≡ none))
      → handle_message api now event_id candidate s
        ≡ record s { dedupe = (first_seen s.dedupe event_id).1 }
  unfolding handle_message handle_candidate
  handle_message_ignored now event_id candidate s (inl again) = rw (again, handle_message)
  handle_message_ignored now event_id none s (inr refused) = ground arith
  handle_message_ignored now event_id (some c) s (inr refused) = ground (arith, refused c refl)

  dedupe-handle_message :
      (now : ℤ) (event_id : Text) (candidate : Option Candidate) (s : AppState)
      → (handle_message api now event_id candidate s).dedupe ≡ (first_seen s.dedupe event_id).1
  unfolding handle_message handle_candidate route_reply forward
  dedupe-handle_message now event_id none s = ground arith
  dedupe-handle_message now event_id (some c) s = ground arith

  -- A sequence of deliveries: the time of each, its event id and its candidate.
  pub handle_all : List (ℤ × Text × Option Candidate) → AppState → AppState
  handle_all [] s = s
  handle_all ((now, event_id, candidate) ∷ ds) s =
      handle_all ds (handle_message api now event_id candidate s)

  abbrev event_ids : List (ℤ × Text × Option Candidate) → List Text
  event_ids [] = []
  event_ids ((_, event_id, _) ∷ ds) = event_id ∷ event_ids ds

  dedupe-handle_all :
      (ds : List (ℤ × Text × Option Candidate)) (s : AppState)
      → (handle_all ds s).dedupe ≡ feed s.dedupe (event_ids ds)
  unfolding handle_all feed
  dedupe-handle_all [] s = refl
  dedupe-handle_all ((now, event_id, candidate) ∷ ds) s =
      dedupe-handle_all ds (handle_message api now event_id candidate s)
      ∙ ap (λ d. feed d (event_ids ds)) (dedupe-handle_message now event_id candidate s)

  first_seen_again :
      (d : Dedupe) (id : Text) → (first_seen d id).0 ≡ false → (first_seen d id).1 ≡ d
  unfolding first_seen
  first_seen_again d id again = ground arith

  length-event_ids : (ds : List (ℤ × Text × Option Candidate)) → length (event_ids ds) ≡ length ds
  length-event_ids [] = refl
  length-event_ids ((_, _, _) ∷ ds) = ap suc (length-event_ids ds)

  -- Once an event was handled as new, any later delivery of the same event changes nothing at all,
  -- as long as fewer deliveries than the capacity of the memory came in between.
  pub redelivery_harmless :
      (now later : ℤ) (event_id : Text) (candidate again : Option Candidate)
      (between : List (ℤ × Text × Option Candidate)) (s : AppState)
      → IsValid s.dedupe
      → (first_seen s.dedupe event_id).0 ≡ true
      → length between < s.dedupe.capacity
      → handle_message api later event_id again
          (handle_all between (handle_message api now event_id candidate s))
        ≡ handle_all between (handle_message api now event_id candidate s)
  redelivery_harmless now later event_id candidate again between s valid first few =
      let s' = handle_all between (handle_message api now event_id candidate s) in
      let fed : s'.dedupe ≡ feed (first_seen s.dedupe event_id).1 (event_ids between) =
        dedupe-handle_all between (handle_message api now event_id candidate s)
        ∙ ap (λ d. feed d (event_ids between)) (dedupe-handle_message now event_id candidate s) in
      let refused : (first_seen s'.dedupe event_id).0 ≡ false =
        ap (λ d. (first_seen d event_id).0) fed
        ∙ redelivery_refused s.dedupe event_id (event_ids between) valid first
            (omega (arith, length-event_ids between)) in
      handle_message_ignored later event_id again s' (inl refused)
      ∙ ap (λ d. record s' { dedupe = d }) (first_seen_again s'.dedupe event_id refused)
