-- ===== src/Relay/Slack/Events/Laws.antt =====
-- Which bodies are which envelope.
use slack_claude_remote.Prelude.{
  Option, none, some, ◌≡◌, refl, ◌≢◌, ◌++◌, ◌↔◌, inl, inr, arith, Option-cases, unwrap_or,
}
use slack_claude_remote.Prelude.Text.{
  Text, codes, text_eq, text_eq_iff, text_eq_refl, ne_of_text_eq,
}
use slack_claude_remote.Json.{Json, str_field}
use slack_claude_remote.Relay.Slack.Events.{
  Candidate, Envelope, url_verification, message, other, candidate_from_event, classify,
}

kinds_differ : codes "event_callback" ≢ codes "url_verification"
unfolding codes text_eq
kinds_differ = ne_of_text_eq (codes "event_callback") (codes "url_verification") refl

module _ (json : Json) where
  open json use {Value, get}

  -- A message that somebody wrote as a reply in a thread.
  pub record IsThreadReply (event : Value) (c : Candidate) : Type 0 where
    pub plain : get event (codes "subtype") ≡ none
    pub human : get event (codes "bot_id") ≡ none
    pub thread : str_field json event (codes "thread_ts") ≡ some c.thread_ts
    pub ts : Text
    pub own_ts : str_field json event (codes "ts") ≡ some ts
    pub not_root : c.thread_ts ≢ ts
    pub channel : str_field json event (codes "channel") ≡ some c.channel
    pub user : str_field json event (codes "user") ≡ some c.user
    pub text : c.text ≡ unwrap_or (str_field json event (codes "text")) (codes "")
    pub chat_id : c.chat_id ≡ c.channel ++ codes ":" ++ c.thread_ts

  candidate_sound :
      (event : Value) (c : Candidate)
      → candidate_from_event json event ≡ some c
      → IsThreadReply event c
  unfolding candidate_from_event
  candidate_sound event c e = elim (Option-cases (str_field json event (codes "ts"))) [
    | inl missing ↦ absurd (ground arith)
    | inr (ts, found) ↦ record {
      plain = ground arith;
      human = ground arith;
      thread = ground arith;
      ts = ts;
      own_ts = found;
      not_root = ground (arith, text_eq_iff c.thread_ts ts);
      channel = ground arith;
      user = ground arith;
      text = ground arith;
      chat_id = ground arith;
    }
  ]

  candidate_complete :
      (event : Value) (c : Candidate)
      → IsThreadReply event c
      → candidate_from_event json event ≡ some c
  unfolding candidate_from_event
  candidate_complete event c r = ground (arith, text_eq_iff c.thread_ts r.ts)

  -- A candidate is taken from an event exactly when the event has no subtype and no bot, and is a
  -- reply in a thread with a channel and a user; its fields are then those of the event, its text
  -- is empty if the event has none, and its chat_id is `channel:thread_ts`.
  pub candidate_iff :
      (event : Value) (c : Candidate)
      → (candidate_from_event json event ≡ some c) ↔ IsThreadReply event c
  candidate_iff event c = (candidate_sound event c, candidate_complete event c)

  pub record IsVerification (body : Value) (challenge : Text) : Type 0 where
    pub type : str_field json body (codes "type") ≡ some (codes "url_verification")
    pub challenge_is : str_field json body (codes "challenge") ≡ some challenge

  pub record IsMessage (body : Value) (event_id : Text) (candidate : Option Candidate)
      : Type 0 where
    pub type : str_field json body (codes "type") ≡ some (codes "event_callback")
    pub id_is : str_field json body (codes "event_id") ≡ some event_id
    pub event : Value
    pub event_is : get body (codes "event") ≡ some event
    pub event_type : str_field json event (codes "type") ≡ some (codes "message")
    pub candidate_is : candidate ≡ candidate_from_event json event

  -- What the three answers of `classify` mean, read off the body.
  abbrev pub Means : Value → Envelope → Type 0
  Means body (url_verification challenge) = IsVerification body challenge
  Means body (message event_id candidate) = IsMessage body event_id candidate
  Means body other =
      ((challenge : Text) → ¬ IsVerification body challenge)
      × ((event_id : Text) (candidate : Option Candidate) → ¬ IsMessage body event_id candidate)

  classify_of_IsVerification :
      (body : Value) (challenge : Text)
      → IsVerification body challenge
      → classify json body ≡ url_verification challenge
  unfolding classify
  classify_of_IsVerification body challenge v =
      ground (arith, text_eq_refl (codes "url_verification"))

  classify_of_IsMessage :
      (body : Value) (event_id : Text) (candidate : Option Candidate)
      → IsMessage body event_id candidate
      → classify json body ≡ message event_id candidate
  unfolding classify
  classify_of_IsMessage body event_id candidate m = ground (
    arith,
    text_eq_refl (codes "event_callback"),
    text_eq_refl (codes "message"),
    text_eq_iff (codes "event_callback") (codes "url_verification"),
    kinds_differ,
  )

  sound-IsVerification :
      (body : Value) (challenge : Text)
      → classify json body ≡ url_verification challenge
      → IsVerification body challenge
  unfolding classify
  sound-IsVerification body challenge e = elim (Option-cases (str_field json body (codes "type"))) [
    | inl missing ↦ absurd (ground arith)
    | inr (kind, found) ↦ ground (arith, text_eq_iff kind (codes "url_verification"))
  ]

  sound-IsMessage :
      (body : Value) (event_id : Text) (candidate : Option Candidate)
      → classify json body ≡ message event_id candidate
      → IsMessage body event_id candidate
  unfolding classify
  sound-IsMessage body event_id candidate e =
      elim (Option-cases (str_field json body (codes "type"))) [
        | inl missing ↦ absurd (ground arith)
        | inr (kind, found) ↦ elim (Option-cases (get body (codes "event"))) [
          | inl gone ↦ absurd (ground arith)
          | inr (event, there) ↦ elim (Option-cases (str_field json event (codes "type"))) [
            | inl blank ↦ absurd (ground arith)
            | inr (event_kind, given) ↦ record {
              type = ground (arith, text_eq_iff kind (codes "event_callback"));
              id_is = ground arith;
              event = event;
              event_is = there;
              event_type = ground (arith, text_eq_iff event_kind (codes "message"));
              candidate_is = ground arith;
            }
          ]
        ]
      ]

  -- `classify` answers with a challenge exactly for a verification request that has one, with a
  -- message exactly for an event callback with an id whose event is a message, and with `other`
  -- exactly for the rest; the candidate is the one read from the event.
  pub classify_iff :
      (body : Value) (envelope : Envelope) → (classify json body ≡ envelope) ↔ Means body envelope
  classify_iff body (url_verification challenge) =
      (sound-IsVerification body challenge, classify_of_IsVerification body challenge)
  classify_iff body (message event_id candidate) =
      (sound-IsMessage body event_id candidate, classify_of_IsMessage body event_id candidate)
  classify_iff body other = (
    λ e. (
      λ challenge v. cc (classify_of_IsVerification body challenge v),
      λ event_id candidate m. cc (classify_of_IsMessage body event_id candidate m),
    ),
    λ neither. other_of_neither (classify json body) refl neither,
  )
    where
      other_of_neither :
          (envelope : Envelope)
          → classify json body ≡ envelope
          → Means body other
          → classify json body ≡ other
      other_of_neither (url_verification challenge) e (not_v, _) =
          absurd (not_v challenge (sound-IsVerification body challenge e))
      other_of_neither (message event_id candidate) e (_, not_m) =
          absurd (not_m event_id candidate (sound-IsMessage body event_id candidate e))
      other_of_neither other e _ = e
