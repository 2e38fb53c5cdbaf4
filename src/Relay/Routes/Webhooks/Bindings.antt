-- ===== src/Relay/Routes/Webhooks/Bindings.antt =====
-- What the commands and the picker do to the bindings.
use slack_claude_remote.Prelude.{
  ◌+◌, ◌≡◌, refl, sym, ap, ◌∙◌, ◌⊎◌, inl, inr, Bool, true, not, Option, none, some, List, [], ◌∷◌,
  ◌++◌, length, retain, length-retain, arith, Bool-cases, Result-cases, if◌then◌else◌, ok, err,
}
use slack_claude_remote.Prelude.Int.{ℤ}
use slack_claude_remote.Prelude.Text.{Text, codes, text_eq, text_eq_iff, starts_with}
use slack_claude_remote.Prelude.Map.{Map, lookup, lookup-insert, HasDistinctKeys}
use slack_claude_remote.Relay.Slack.Api.{SlackError, Call, post, respond, post_message, respond_to}
use slack_claude_remote.Relay.Slack.Interactions.{Selection}
use slack_claude_remote.Relay.Slack.Events.{Candidate, candidate_from_event}
use slack_claude_remote.Relay.Slack.Events.Laws.{candidate_iff}
use slack_claude_remote.Relay.Store.{Binding}
use slack_claude_remote.Relay.State.{AppState, save_store}
use slack_claude_remote.Relay.Routes.Env.{Env}
use slack_claude_remote.Relay.Routes.Webhooks.{
  is_bound_by, unbind_threads, bind_selected, root_text, invite_bot,
}

abbrev kept : Text → Text → Text → Option Binding → Option Binding
kept channel user chat_id none = none
kept channel user chat_id (some b) = if is_bound_by channel user (chat_id, b) then none else some b

-- The user had bound the thread, and its chat_id is the channel, a colon and more.
abbrev pub IsUsersThread : Text → Text → Text → Option Binding → Type 0
IsUsersThread channel user chat_id bound =
    (b : Binding) × (rest : Text) × (bound ≡ some b)
    × (b.user ≡ user)
    × (chat_id ≡ channel ++ codes ":" ++ rest)

append_of_starts_with : (p s : Text) → starts_with s p ≡ true → (rest : Text) × (s ≡ p ++ rest)
unfolding starts_with
append_of_starts_with [] s h = (s, refl)
append_of_starts_with (a ∷ p) [] h = cc
append_of_starts_with (a ∷ p) (b ∷ s) h =
    let (rest, same) = append_of_starts_with p s (ground arith) in (rest, ground arith)

starts_with-append : (p rest : Text) → starts_with (p ++ rest) p ≡ true
unfolding starts_with
starts_with-append [] rest = refl
starts_with-append (a ∷ p) rest = ground (arith, starts_with-append p rest)

kept-cases :
    (channel user chat_id : Text) (bound : Option Binding)
    → IsUsersThread channel user chat_id bound × (kept channel user chat_id bound ≡ none)
      ⊎ (¬ IsUsersThread channel user chat_id bound) × (kept channel user chat_id bound ≡ bound)
kept-cases channel user chat_id none = inr ((λ (b, rest, absent, _, _). absurd (cc absent)), refl)
kept-cases channel user chat_id (some b) =
    elim (Bool-cases (is_bound_by channel user (chat_id, b))) [
      | inl bound ↦
          let (rest, same) = append_of_starts_with (channel ++ codes ":") chat_id (ground arith) in
          inl ((b, rest, refl, ground (arith, text_eq_iff b.user user), same), rw bound refl)
      | inr free ↦ inr (
        λ (c, rest, same, theirs, thread).
            let one : b ≡ c = cc same in
            let user_is = (text_eq_iff b.user user).1 (ap (λ x. x.user) one ∙ theirs) in
            let prefix : starts_with chat_id (channel ++ codes ":") ≡ true =
              ap (λ x. starts_with x (channel ++ codes ":")) thread
              ∙ starts_with-append (channel ++ codes ":") rest in
            absurd (ground arith),
        rw free refl,
      )
    ]

module _ (channel user : Text) where
  abbrev stays : Text × Binding → Bool
  stays x = not (is_bound_by channel user x)

  lookup-stays-none :
      (id : Text) (m : Map Binding) → lookup id m ≡ none → lookup id (retain stays m) ≡ none
  unfolding lookup
  lookup-stays-none id [] h = refl
  lookup-stays-none id ((k, b) ∷ m) h = ground (arith, lookup-stays-none id m)

  lookup-stays :
      (id : Text) (m : Map Binding)
      → HasDistinctKeys m
      → lookup id (retain stays m) ≡ kept channel user id (lookup id m)
  unfolding lookup
  lookup-stays id [] h = refl
  lookup-stays id ((k, b) ∷ m) (fresh, h) = elim (Bool-cases (text_eq k id)) [
    | inl same ↦ ground (arith, text_eq_iff k id, lookup-stays-none id m)
    | inr different ↦ ground (arith, lookup-stays id m h)
  ]

-- The calls, with the root message of a choice as the last.
abbrev pub root_posted : Selection → AppState → List Call
root_posted sel s = s.calls ++ post sel.channel none (root_text sel.session) ∷ []

module _ (env : Env) where
  -- After `/cc unbind` a thread is not bound if the user had bound it and its chat_id is the channel, a
  -- colon and more; every other thread is bound as before. The number reported is how many bindings
  -- are gone.
  pub unbind_threads_lem :
      (channel user chat_id : Text) (s : AppState)
      → HasDistinctKeys s.store.bindings
      → (IsUsersThread channel user chat_id (lookup chat_id s.store.bindings)
            × (lookup chat_id (unbind_threads env channel user s).1.store.bindings ≡ none)
          ⊎ (¬ IsUsersThread channel user chat_id (lookup chat_id s.store.bindings))
            × (lookup chat_id (unbind_threads env channel user s).1.store.bindings
                ≡ lookup chat_id s.store.bindings))
        × ((unbind_threads env channel user s).0
              + length (unbind_threads env channel user s).1.store.bindings
            ≡ length s.store.bindings)
  unfolding unbind_threads save_store
  unbind_threads_lem channel user chat_id s distinct =
      let after = lookup-stays channel user chat_id s.store.bindings distinct in
      (
        elim (kept-cases channel user chat_id (lookup chat_id s.store.bindings)) [
          | inl (theirs, gone) ↦ inl (theirs, after ∙ gone)
          | inr (other, same) ↦ inr (other, after ∙ same)
        ],
        omega (arith, length-retain (stays channel user) s.store.bindings),
      )

  -- The root message is posted to the channel. If Slack takes it as ts, the thread channel:ts is
  -- bound to the session for the user, and no other binding changes; otherwise no binding changes,
  -- and the invitation is sent to the response_url.
  pub bind_selected_lem :
      (later : ℤ) (sel : Selection) (s : AppState)
      → ((ts : Text) × (env.api.answer_post (root_posted sel s) ≡ ok ts)
          × ((bind_selected env later sel s).calls ≡ root_posted sel s)
          × ((chat_id : Text)
              → lookup chat_id (bind_selected env later sel s).store.bindings ≡ (
                  if text_eq (sel.channel ++ codes ":" ++ ts) chat_id
                  then some (record { session = sel.session; user = sel.user; created = later })
                  else lookup chat_id s.store.bindings)))
        ⊎ ((e : SlackError) × (env.api.answer_post (root_posted sel s) ≡ err e)
            × ((bind_selected env later sel s).calls
                ≡ root_posted sel s ++ respond sel.response_url invite_bot ∷ [])
            × ((bind_selected env later sel s).store ≡ s.store))
  unfolding bind_selected post_message respond_to save_store
  bind_selected_lem later sel s =
      let made = s.calls ++ post sel.channel none (root_text sel.session) ∷ [] in
      elim (Result-cases (env.api.answer_post made)) [
        | inl (ts, taken) ↦
            let binding : Binding = record {
              session = sel.session;
              user = sel.user;
              created = later;
            } in
            inl (
              ts,
              taken,
              rw (taken, bind_selected),
              λ chat_id.
                  rw (taken, bind_selected)
                    (lookup-insert (sel.channel ++ codes ":" ++ ts) chat_id binding
                      s.store.bindings),
            )
        | inr (e, refused) ↦
            inr (e, refused, rw (refused, bind_selected), rw (refused, bind_selected))
      ]

  -- Once Slack has taken the root message of a choice as ts, every reply that the relay reads from
  -- an event in that channel under that root is a reply in the thread that the choice bound.
  pub reply_finds_binding :
      (later : ℤ) (sel : Selection) (s : AppState) (ts : Text) (event : env.json.Value)
      (c : Candidate)
      → env.api.answer_post (root_posted sel s) ≡ ok ts
      → candidate_from_event env.json event ≡ some c
      → c.channel ≡ sel.channel
      → c.thread_ts ≡ ts
      → lookup c.chat_id (bind_selected env later sel s).store.bindings
        ≡ some (record { session = sel.session; user = sel.user; created = later })
  reply_finds_binding later sel s ts event c taken read channel root =
      let reply = (candidate_iff env.json event c).0 read in
      elim (bind_selected_lem later sel s) [
        | inr (e, refused, _, _) ↦ absurd (ground arith)
        | inl (ts', taken', _, bound) ↦
            let one : ts' ≡ ts = ground arith in
            let key : sel.channel ++ codes ":" ++ ts' ≡ c.chat_id =
              ap (λ t. sel.channel ++ codes ":" ++ t) (one ∙ sym root)
              ∙ ap (λ x. x ++ codes ":" ++ c.thread_ts) (sym channel)
              ∙ sym reply.chat_id in
            rw ((text_eq_iff (sel.channel ++ codes ":" ++ ts') c.chat_id).1 key) at
              (bound c.chat_id)
      ]
