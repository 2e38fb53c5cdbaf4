-- ===== src/Relay/Routes/Webhooks/Signed.antt =====
-- What Slack's requests may do: those that it did not sign do nothing.
use slack_claude_remote.Prelude.{
  ℕ, ◌≡◌, ◌≢◌, refl, ◌↔◌, ◌⊎◌, inl, inr, true, false, Option, none, some, List, [], ◌∷◌, arith,
  Bool-cases, Option-cases, Result-cases,
}
use slack_claude_remote.Prelude.Int.{ℤ, IsTime}
use slack_claude_remote.Prelude.Text.{Text, codes, is_empty, contains}
use slack_claude_remote.Http.{Headers, CommandForm, status_only}
use slack_claude_remote.Relay.Slack.Verify.{verify}
use slack_claude_remote.Relay.Slack.Verify.Laws.{IsSigned, verify_iff}
use slack_claude_remote.Relay.Slack.Events.{Candidate, message, classify}
use slack_claude_remote.Relay.Slack.Commands.{Cmd, pick, list, unbind, help, parse}
use slack_claude_remote.Relay.Slack.Interactions.{Selection, selected_session}
use slack_claude_remote.Relay.State.{AppState}
use slack_claude_remote.Relay.Routes.Env.{Env}
use slack_claude_remote.Relay.Routes.Webhooks.{
  signature_ok, events, commands, interactions, run_command, unbind_threads, bind_selected,
}

module _ (env : Env) (s : AppState) (headers : Headers) (body : List ℕ) (now : ℤ) where
  -- There is a secret, and the headers carry a timestamp and a signature by it.
  pub record IsFromSlack : Type 0 where
    pub secret : s.cfg.signing_secret ≢ []
    pub timestamp : Text
    pub timestamp_is : headers (codes "x-slack-request-timestamp") ≡ some timestamp
    pub signature : Text
    pub signature_is : headers (codes "x-slack-signature") ≡ some signature
    pub signed : IsSigned env.crypto s.cfg.signing_secret timestamp body signature now

  is_empty_iff : (t : Text) → (is_empty t ≡ true) ↔ (t ≡ [])
  unfolding is_empty
  is_empty_iff [] = (λ e. refl, λ e. refl)
  is_empty_iff (c ∷ t) = (λ e. cc, λ e. cc)

  signature_ok_iff : IsTime now → (signature_ok env s headers body now ≡ true) ↔ IsFromSlack
  unfolding signature_ok
  signature_ok_iff time = (sound, complete)
    where
      sound : signature_ok env s headers body now ≡ true → IsFromSlack
      sound e = elim (Option-cases (headers (codes "x-slack-request-timestamp"))) [
        | inl missing ↦ absurd (ground arith)
        | inr (ts, stamped) ↦ elim (Option-cases (headers (codes "x-slack-signature"))) [
          | inl missing ↦ absurd (ground arith)
          | inr (sig, given) ↦
              elim (Result-cases (verify env.crypto s.cfg.signing_secret ts body sig now)) [
                | inr (bad, refused) ↦ absurd (ground arith)
                | inl (u, fine) ↦ record {
                  secret = λ missing. absurd (ground (arith, is_empty_iff s.cfg.signing_secret));
                  timestamp = ts;
                  timestamp_is = stamped;
                  signature = sig;
                  signature_is = given;
                  signed = (verify_iff env.crypto s.cfg.signing_secret ts body sig now time).0 fine;
                }
              ]
        ]
      ]

      complete : IsFromSlack → signature_ok env s headers body now ≡ true
      complete h =
          let fine =
            (verify_iff env.crypto s.cfg.signing_secret h.timestamp body h.signature now time).1
              h.signed in
          let secret : is_empty s.cfg.signing_secret ≡ false =
            elim (Bool-cases (is_empty s.cfg.signing_secret)) [
              | inl missing ↦ absurd (h.secret ((is_empty_iff s.cfg.signing_secret).0 missing))
              | inr there ↦ there
            ] in
          rw (secret, h.timestamp_is, h.signature_is, fine, signature_ok)

  -- A request that is not signed by Slack gets 401 from each of the three webhooks, and changes
  -- nothing: no task is spawned, and the state stays as it is.
  pub unsigned_refused :
      IsTime now
      → ¬ IsFromSlack
      → (events env s headers body now ≡ (status_only 401, none))
        × (commands env s headers body now ≡ (status_only 401, s))
        × ((later : ℤ) → interactions env s headers body now later ≡ (status_only 401, s))
  unfolding events commands interactions
  unsigned_refused time foreign = elim (Bool-cases (signature_ok env s headers body now)) [
    | inl fine ↦ absurd (foreign ((signature_ok_iff time).0 fine))
    | inr refused ↦
        (rw (refused, events), rw (refused, commands), λ later. rw (refused, interactions))
  ]

  -- The handling of a message is spawned exactly for a signed request whose body is JSON that is
  -- classified as this message.
  pub events_iff :
      (event_id : Text) (candidate : Option Candidate)
      → IsTime now
      → ((events env s headers body now).1 ≡ some (event_id, candidate)) ↔ (
          IsFromSlack
          × ((value : env.json.Value) × (env.json.parse_bytes body ≡ some value)
              × (classify env.json value ≡ message event_id candidate)))
  unfolding events
  events_iff event_id candidate time = (
    λ e. elim (Bool-cases (signature_ok env s headers body now)) [
      | inr refused ↦ absurd (ground arith)
      | inl fine ↦ elim (Option-cases (env.json.parse_bytes body)) [
        | inl bad ↦ absurd (ground arith)
        | inr (value, good) ↦ ((signature_ok_iff time).0 fine, (value, good, ground arith))
      ]
    ],
    λ (h, (value, good, kind)). rw ((signature_ok_iff time).1 h, good, kind, events),
  )

  by_cmd :
      (form : CommandForm) (cmd : Cmd)
      → parse form.text ≡ cmd
      → ((run_command env cmd form s).1 ≡ s)
        ⊎ (cmd ≡ unbind)
          × ((run_command env cmd form s).1 ≡ (unbind_threads env form.channel_id form.user_id s).1)
  unfolding run_command
  by_cmd form pick e = inl refl
  by_cmd form list e = inl refl
  by_cmd form unbind e = inr (refl, refl)
  by_cmd form help e = inl refl

  -- A command changes the state only if it is signed, by an allowed user, and "unbind"; the change
  -- is then that of the user's threads in the channel where it was given.
  pub commands_lem :
      IsTime now
      → ((commands env s headers body now).1 ≡ s)
        ⊎ (IsFromSlack
            × ((form : CommandForm) × (env.forms.command_form body ≡ some form)
                × (contains s.store.users form.user_id ≡ true)
                × (parse form.text ≡ unbind)
                × ((commands env s headers body now).1
                    ≡ (unbind_threads env form.channel_id form.user_id s).1)))
  unfolding commands run_command
  commands_lem time = elim (Bool-cases (signature_ok env s headers body now)) [
    | inr refused ↦ inl (rw (refused, commands))
    | inl fine ↦ elim (Option-cases (env.forms.command_form body)) [
      | inl bad ↦ inl (rw (fine, bad, commands))
      | inr (form, good) ↦ elim (Bool-cases (contains s.store.users form.user_id)) [
        | inr stranger ↦ inl (rw (fine, good, stranger, commands))
        | inl known ↦ elim (by_cmd form (parse form.text) refl) [
          | inl same ↦ inl (rw (fine, good, known, commands) same)
          | inr (word, effect) ↦ inr (
            (signature_ok_iff time).0 fine,
            (form, good, known, word, rw (fine, good, known, commands) effect),
          )
        ]
      ]
    ]
  ]

  -- A choice in the picker changes the state only if it is signed and by an allowed user; the change
  -- is then the binding that was selected.
  pub interactions_lem :
      (later : ℤ)
      → IsTime now
      → ((interactions env s headers body now later).1 ≡ s)
        ⊎ (IsFromSlack
            × ((text : Text) × (payload : env.json.Value) × (sel : Selection)
                × (env.forms.interaction_payload body ≡ some text)
                × (env.json.parse text ≡ some payload)
                × (selected_session env.json payload ≡ some sel)
                × (contains s.store.users sel.user ≡ true)
                × ((interactions env s headers body now later).1 ≡ bind_selected env later sel s)))
  unfolding interactions
  interactions_lem later time = elim (Bool-cases (signature_ok env s headers body now)) [
    | inr refused ↦ inl (rw (refused, interactions))
    | inl fine ↦ elim (Option-cases (env.forms.interaction_payload body)) [
      | inl bad ↦ inl (rw (fine, bad, interactions))
      | inr (text, form) ↦ elim (Option-cases (env.json.parse text)) [
        | inl bad ↦ inl (rw (fine, form, bad, interactions))
        | inr (payload, good) ↦ elim (Option-cases (selected_session env.json payload)) [
          | inl nothing ↦ inl (rw (fine, form, good, nothing, interactions))
          | inr (sel, chosen) ↦ elim (Bool-cases (contains s.store.users sel.user)) [
            | inr stranger ↦ inl (rw (fine, form, good, chosen, stranger, interactions))
            | inl known ↦ inr (
              (signature_ok_iff time).0 fine,
              (
                text,
                payload,
                sel,
                form,
                good,
                chosen,
                known,
                rw (fine, form, good, chosen, known, interactions),
              ),
            )
          ]
        ]
      ]
    ]
  ]
