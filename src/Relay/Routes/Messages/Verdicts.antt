-- ===== src/Relay/Routes/Messages/Verdicts.antt =====
-- A verdict reaches an agent only from the user who bound the thread, and once.
use slack_claude_remote.Prelude.{
  ◌≡◌, sym, subst, ◌∙◌, ap, inl, inr, true, Option, none, some, [], ◌∷◌, ◌++◌, arith, Option-cases,
  Bool-cases, append-ne_self, append-last,
}
use slack_claude_remote.Prelude.Int.{ℤ}
use slack_claude_remote.Prelude.Text.{Text, text_eq, text_eq_iff, contains}
use slack_claude_remote.Prelude.Map.{Map, lookup, remove, lookup-remove, HasDistinctKeys}
use slack_claude_remote.Protocol.{RelayMsg, Behavior, inbound, permission_verdict}
use slack_claude_remote.Relay.Slack.Api.{SlackApi}
use slack_claude_remote.Relay.Slack.Dedupe.{first_seen}
use slack_claude_remote.Relay.Slack.Events.{Candidate}
use slack_claude_remote.Relay.Store.{Binding, Store}
use slack_claude_remote.Relay.Hub.{Hub, Channel, send}
use slack_claude_remote.Relay.Hub.Laws.{channel_of, send_lem}
use slack_claude_remote.Relay.Permission.{Pending, sweep, match_verdict, parse_verdict}
use slack_claude_remote.Relay.Permission.Pendings.{
  Answers, match_verdict_iff, lookup-sweep, is_live,
}
use slack_claude_remote.Relay.State.{AppState}
use slack_claude_remote.Relay.Routes.Messages.{
  forward, route_reply, handle_candidate, handle_message,
}

-- A message that a session had not been sent before is at the end of its queue.
pub record Receives (name : Text) (msg : RelayMsg) (before after : Hub) : Type 0 where
  pub was : Channel
  pub is : Channel
  pub open_before : channel_of name before ≡ some was
  pub open_after : channel_of name after ≡ some is
  pub added : is.queue ≡ was.queue ++ msg ∷ []

pub Receives-nothing : (name : Text) (msg : RelayMsg) (hub : Hub) → ¬ Receives name msg hub hub
Receives-nothing name msg hub r =
    let same : some r.is ≡ some r.was = sym r.open_after ∙ r.open_before in
    let queues : r.is.queue ≡ r.was.queue = cc in
    append-ne_self r.was.queue msg (sym r.added ∙ queues)

-- What a session receives by a `send` is the message sent, and it is the session named.
pub send-Receives :
    (session name : Text) (sent msg : RelayMsg) (hub : Hub)
    → Receives name msg hub (send session sent hub).1
    → (session ≡ name) × (sent ≡ msg)
send-Receives session name sent msg hub r = elim (send_lem session name sent hub) [
  | inr (_, unchanged) ↦
      absurd (Receives-nothing name msg hub (subst (λ x. Receives name msg hub x.1) unchanged r))
  | inl (tx, found, _, _, now) ↦ elim (Bool-cases (text_eq session name)) [
    | inr other ↦
        let same : channel_of name (send session sent hub).1 ≡ channel_of name hub =
          rw other at now in
        absurd (
          Receives-nothing name msg hub (record {
            was = r.was;
            is = r.is;
            open_before = r.open_before;
            open_after = sym same ∙ r.open_after;
            added = r.added;
          }))
    | inl here ↦
        let same = (text_eq_iff session name).0 here in
        let grown : channel_of name (send session sent hub).1
            ≡ some (record tx { queue = tx.queue ++ sent ∷ [] }) =
          rw here at now in
        let before : some tx ≡ some r.was =
          sym found ∙ ap (λ n. channel_of n hub) same ∙ r.open_before in
        let after : some (record tx { queue = tx.queue ++ sent ∷ [] }) ≡ some r.is =
          sym grown ∙ r.open_after in
        let queues : tx.queue ++ sent ∷ [] ≡ tx.queue ++ msg ∷ [] = cc (r.added) in
        (same, append-last tx.queue sent msg queues)
  ]
]

module _ (api : SlackApi) where
  -- `send` leaves the hub alone when it fails, so the hub is its result in both cases.
  pub hub-forward :
      (c : Candidate) (session : Text) (msg : RelayMsg) (s : AppState)
      → (forward api c session msg s).hub ≡ (send session msg s.hub).1
  unfolding forward send
  hub-forward c session msg s = ground arith

  pub pending-forward :
      (c : Candidate) (session : Text) (msg : RelayMsg) (s : AppState)
      → (forward api c session msg s).pending ≡ s.pending
  unfolding forward
  pending-forward c session msg s = ground arith

  -- Why a verdict was sent, and that its request is gone.
  pub record IsAuthorised (now : ℤ) (c : Candidate) (name id : Text) (behavior : Behavior)
      (store : Store) (pending left : Map Pending) : Type 0 where
    pub user_known : contains store.users c.user ≡ true
    pub binding : Binding
    pub bound : lookup c.chat_id store.bindings ≡ some binding
    pub owner : c.user ≡ binding.user
    pub of_session : binding.session ≡ name
    pub parsed : parse_verdict c.text ≡ some (id, behavior)
    pub request : Pending
    pub asked : lookup id pending ≡ some request
    pub live : is_live now request ≡ true
    pub same_thread : request.chat_id ≡ c.chat_id
    pub same_session : request.session ≡ name
    pub used : lookup id left ≡ none

  route_verdict :
      (now : ℤ) (c : Candidate) (b : Binding) (s : AppState) (name id : Text) (behavior : Behavior)
      → Receives name (permission_verdict id behavior) s.hub (route_reply api now c b s).hub
      → Answers (sweep now s.pending) c b id behavior
        × (b.session ≡ name)
        × (lookup id (route_reply api now c b s).pending ≡ none)
  unfolding route_reply
  route_verdict now c b s name id behavior r =
      elim (Option-cases (match_verdict (sweep now s.pending) c b)) [
        | inl unmatched ↦
            let s' = record s { pending = sweep now s.pending } in
            let msg = inbound c.chat_id c.user c.text in
            let r' =
              subst (Receives name (permission_verdict id behavior) s.hub)
                (hub-forward c b.session msg s') (rw (unmatched, route_reply) at r) in
            let (_, same) = send-Receives b.session name msg _ s.hub r' in absurd (ground arith)
        | inr ((i, w), matched) ↦
            let s' = record s { pending = remove i (sweep now s.pending) } in
            let msg = permission_verdict i w in
            let r' =
              subst (Receives name (permission_verdict id behavior) s.hub)
                (hub-forward c b.session msg s') (rw (matched, route_reply) at r) in
            let (session_is, same) = send-Receives b.session name msg _ s.hub r' in
            let same_id : i ≡ id = cc same in
            let same_w : w ≡ behavior = cc same in
            (
              (match_verdict_iff (sweep now s.pending) c b id behavior).0 (cc matched),
              session_is,
              rw (matched, route_reply)
                  (ap (lookup id) (pending-forward c b.session msg s')
                    ∙ ground (arith, lookup-remove i id (sweep now s.pending), text_eq_iff i id)),
            )
      ]

  candidate_verdict :
      (now : ℤ) (c : Candidate) (s : AppState) (name id : Text) (behavior : Behavior)
      → HasDistinctKeys s.pending
      → Receives name (permission_verdict id behavior) s.hub (handle_candidate api now c s).hub
      → IsAuthorised now c name id behavior s.store s.pending (handle_candidate api now c s).pending
  unfolding handle_candidate
  candidate_verdict now c s name id behavior distinct r =
      elim (Bool-cases (contains s.store.users c.user)) [
        | inr unknown ↦ absurd (Receives-nothing name _ s.hub (rw (unknown, handle_candidate) at r))
        | inl known ↦ elim (Option-cases (lookup c.chat_id s.store.bindings)) [
          | inl unbound ↦
              absurd (Receives-nothing name _ s.hub (rw (known, unbound, handle_candidate) at r))
          | inr (b, bound) ↦
              let (a, of_session, used) =
                route_verdict now c b s name id behavior
                  (rw (known, bound, handle_candidate) at r) in
              let swept = sym (lookup-sweep now id s.pending distinct) ∙ a.asked in
              record {
                user_known = known;
                binding = b;
                bound = bound;
                owner = a.same_user;
                of_session = of_session;
                parsed = a.parsed;
                request = a.request;
                asked = ground arith;
                live = ground arith;
                same_thread = a.same_thread;
                same_session = a.same_session ∙ of_session;
                used = rw (known, bound, handle_candidate) used;
              }
        ]
      ]

  -- If the handling of a Slack message makes a session receive a verdict, then the event is new; the
  -- message is a reply of an allowed user, in a thread that is bound to this session by this same
  -- user; its text parses to this id and behavior; and the id was pending for this thread and
  -- session, at most 1800 seconds old by `i64` subtraction. The id is pending no more afterwards.
  pub verdict-IsAuthorised :
      (now : ℤ) (event_id : Text) (candidate : Option Candidate) (s : AppState) (name id : Text)
      (behavior : Behavior)
      → HasDistinctKeys s.pending
      → Receives name
          (permission_verdict id behavior)
          s.hub
          (handle_message api now event_id candidate s).hub
      → ((first_seen s.dedupe event_id).0 ≡ true)
        × ((c : Candidate) × (candidate ≡ some c)
            × IsAuthorised now c name id behavior s.store s.pending
                (handle_message api now event_id candidate s).pending)
  unfolding handle_message
  verdict-IsAuthorised now event_id candidate s name id behavior distinct r =
      elim (Bool-cases (first_seen s.dedupe event_id).0) [
        | inr again ↦ absurd (Receives-nothing name _ s.hub (rw (again, handle_message) at r))
        | inl new ↦ elim (Option-cases candidate) [
          | inl missing ↦
              absurd (Receives-nothing name _ s.hub (rw (new, missing, handle_message) at r))
          | inr (c, given) ↦
              let seen = record s { dedupe = (first_seen s.dedupe event_id).1 } in
              (
                new,
                (
                  c,
                  given,
                  rw (new, given, handle_message)
                      (candidate_verdict now c seen name id behavior distinct
                        (rw (new, given, handle_message) at r)),
                ),
              )
        ]
      ]
