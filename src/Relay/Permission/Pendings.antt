-- ===== src/Relay/Permission/Pendings.antt =====
-- Which requests a sweep keeps, and which replies match one.
use slack_claude_remote.Prelude.{
  ◌+◌, ◌≤◌, ◌≡◌, refl, ◌↔◌, inl, inr, Bool, Option, none, some, [], ◌∷◌, arith, Bool-cases,
  Option-cases, if◌then◌else◌,
}
use slack_claude_remote.Prelude.Int.{ℤ, pos_part, sub_i64, sub_i64_lem, leb_ℤ, IsTime}
use slack_claude_remote.Prelude.Text.{Text, text_eq, text_eq_iff}
use slack_claude_remote.Prelude.Map.{Map, lookup, HasDistinctKeys}
use slack_claude_remote.Protocol.{Behavior}
use slack_claude_remote.Relay.Slack.Events.{Candidate}
use slack_claude_remote.Relay.Store.{Binding}
use slack_claude_remote.Relay.Permission.{
  Pending, pending_ttl_secs, sweep, match_verdict, parse_verdict,
}

-- Still within half an hour.
abbrev pub is_live : ℤ → Pending → Bool
is_live now p = leb_ℤ (sub_i64 now p.created) pending_ttl_secs

abbrev pub keep_live : ℤ → Option Pending → Option Pending
keep_live now none = none
keep_live now (some p) = if is_live now p then some p else none

lookup-retain :
    (now : ℤ) (id : Text) (pending : Map Pending)
    → lookup id pending ≡ none
    → lookup id (sweep now pending) ≡ none
unfolding sweep lookup
lookup-retain now id [] h = refl
lookup-retain now id ((k, p) ∷ m) h = ground (arith, lookup-retain now id m)

-- A sweep keeps a request exactly if the clock, read as an `i64` difference, is at most 1800 past
-- its creation, and changes nothing else.
pub lookup-sweep :
    (now : ℤ) (id : Text) (pending : Map Pending)
    → HasDistinctKeys pending
    → lookup id (sweep now pending) ≡ keep_live now (lookup id pending)
unfolding sweep lookup
lookup-sweep now id [] h = refl
lookup-sweep now id ((k, p) ∷ m) (fresh, h) = elim (Bool-cases (text_eq k id)) [
  | inl same ↦ ground (arith, text_eq_iff k id, lookup-retain now id m)
  | inr other ↦ ground (arith, lookup-sweep now id m h)
]

pub sweep-HasDistinctKeys :
    (now : ℤ) (pending : Map Pending)
    → HasDistinctKeys pending
    → HasDistinctKeys (sweep now pending)
unfolding sweep
sweep-HasDistinctKeys now [] h = tt
sweep-HasDistinctKeys now ((k, p) ∷ m) (fresh, h) =
    ground (arith, lookup-retain now k m fresh, sweep-HasDistinctKeys now m h)

-- For times of the clock: a request is found after a sweep exactly if it was there before and was
-- made at most 1800 seconds ago; one made exactly 1800 seconds ago is kept.
sweep_iff :
    (now : ℤ) (id : Text) (p : Pending) (pending : Map Pending)
    → HasDistinctKeys pending
    → IsTime now
    → IsTime p.created
    → (lookup id (sweep now pending) ≡ some p)
      ↔ ((lookup id pending ≡ some p) × (pos_part now ≤ pos_part p.created + 1800))
sweep_iff now id p pending distinct h k = elim (Option-cases (lookup id pending)) [
  | inl missing ↦ ground (arith, lookup-sweep now id pending distinct)
  | inr (q, found) ↦ (
    λ e. (
      ground (arith, lookup-sweep now id pending distinct),
      ground (arith, lookup-sweep now id pending distinct, sub_i64_lem now p.created h k),
    ),
    λ (there, young).
        ground (arith, lookup-sweep now id pending distinct, sub_i64_lem now p.created h k),
  )
]

-- What makes a reply the answer to a request.
pub record Answers (pending : Map Pending) (c : Candidate) (b : Binding) (id : Text)
    (behavior : Behavior) : Type 0 where
  pub parsed : parse_verdict c.text ≡ some (id, behavior)
  pub request : Pending
  pub asked : lookup id pending ≡ some request
  pub same_thread : request.chat_id ≡ c.chat_id
  pub same_session : request.session ≡ b.session
  pub same_user : c.user ≡ b.user

-- A reply counts as a verdict exactly if it has the form of one, its id is that of a pending
-- request of this thread and of the session that the thread is bound to, and its author is the user
-- who bound the thread.
pub match_verdict_iff :
    (pending : Map Pending) (c : Candidate) (b : Binding) (id : Text) (behavior : Behavior)
    → (match_verdict pending c b ≡ some (id, behavior)) ↔ Answers pending c b id behavior
unfolding match_verdict
match_verdict_iff pending c b id behavior = (sound, complete)
  where
    sound : match_verdict pending c b ≡ some (id, behavior) → Answers pending c b id behavior
    sound e = elim (Option-cases (parse_verdict c.text)) [
      | inl missing ↦ absurd (ground arith)
      | inr ((i, w), parsed) ↦ elim (Option-cases (lookup i pending)) [
        | inl missing ↦ absurd (ground arith)
        | inr (p, asked) ↦ record {
          parsed = ground arith;
          request = p;
          asked = ground arith;
          same_thread = ground (arith, text_eq_iff p.chat_id c.chat_id);
          same_session = ground (arith, text_eq_iff p.session b.session);
          same_user = ground (arith, text_eq_iff c.user b.user);
        }
      ]
    ]

    complete : Answers pending c b id behavior → match_verdict pending c b ≡ some (id, behavior)
    complete a = ground (
      arith,
      text_eq_iff a.request.chat_id c.chat_id,
      text_eq_iff a.request.session b.session,
      text_eq_iff c.user b.user,
    )
