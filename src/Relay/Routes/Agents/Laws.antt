-- ===== src/Relay/Routes/Agents/Laws.antt =====
-- Who may connect, and under which name.
use slack_claude_remote.Prelude.{
  subst, ◌≤◌, ◌≡◌, refl, ◌∙◌, ap, ◌↔◌, ◌⊎◌, inl, inr, true, false, Option, none, some, ◌++◌, ok,
  Result-cases, Option-cases, arith, if◌then◌else◌, length, any, is_ok,
}
use slack_claude_remote.Prelude.Text.{
  Text, codes, utf8, is_control, text_eq, strip_prefix, strip_prefix-append, append_of_strip_prefix,
}
use slack_claude_remote.Crypto.{Crypto}
use slack_claude_remote.Http.{Headers, Response}
use slack_claude_remote.Protocol.{
  AgentMsg, hello, reply, permission_request, protocol_version, Codec,
}
use slack_claude_remote.Relay.Hub.{Hub, fresh_channel}
use slack_claude_remote.Relay.Hub.Laws.{channel_of, register_lem}
use slack_claude_remote.Relay.Store.{token_ok}
use slack_claude_remote.Relay.State.{AppState}
use slack_claude_remote.Relay.Routes.Pieces.{}
use slack_claude_remote.Relay.Routes.Agents.{
  Frame, accepted, token_accepted, handler, valid_session_name, read_frame, checked_name, handshake,
}

module _ (crypto : Crypto) where
  open crypto use {ct_eq_iff}

  -- The token of a connection: a stored one, or "dev" in development mode.
  abbrev pub MayConnect : AppState → Text → Type 0
  MayConnect s token =
      (token_ok crypto s.store token ≡ true)
      ⊎ (s.cfg.dev ≡ true) × (utf8 token ≡ utf8 (codes "dev"))

  token_accepted_iff :
      (s : AppState) (token : Text) → (token_accepted crypto s token ≡ true) ↔ MayConnect s token
  unfolding token_accepted
  token_accepted_iff s token = (
    λ e. ground (arith, ct_eq_iff (utf8 token) (utf8 (codes "dev"))),
    λ h. ground (arith, ct_eq_iff (utf8 token) (utf8 (codes "dev"))),
  )

  -- A request becomes a connection exactly if its Authorization header is "Bearer " and a token that
  -- is stored, or "dev" in development mode, and it can be upgraded.
  pub handler_iff :
      (s : AppState) (headers : Headers) (ws : Option Response)
      → (handler crypto s headers ws ≡ accepted) ↔ (
          (token : Text) × (headers (codes "authorization") ≡ some (codes "Bearer " ++ token))
          × MayConnect s token
          × (ws ≡ none))
  unfolding handler
  handler_iff s headers ws = (sound, complete)
    where
      sound :
          handler crypto s headers ws ≡ accepted
          → ((token : Text) × (headers (codes "authorization") ≡ some (codes "Bearer " ++ token))
              × MayConnect s token
              × (ws ≡ none))
      sound e = elim (Option-cases (headers (codes "authorization"))) [
        | inl missing ↦ absurd (ground arith)
        | inr (value, given) ↦ elim (Option-cases (strip_prefix (codes "Bearer ") value)) [
          | inl other ↦ absurd (ground arith)
          | inr (token, stripped) ↦ (
            token,
            (given ∙ ap some (append_of_strip_prefix (codes "Bearer ") value stripped)),
            (token_accepted_iff s token).0 (ground arith),
            ground arith,
          )
        ]
      ]

      complete :
          ((token : Text) × (headers (codes "authorization") ≡ some (codes "Bearer " ++ token))
            × MayConnect s token
            × (ws ≡ none))
          → handler crypto s headers ws ≡ accepted
      complete (token, given, may, upgrade) = ground (
        arith,
        given,
        strip_prefix-append (codes "Bearer ") token,
        (token_accepted_iff s token).1 may,
      )

-- A name of 1 to 150 characters, none of them a control character.
abbrev pub IsName : Text → Type 0
IsName name = (1 ≤ length name) × (length name ≤ 150) × (any is_control name ≡ false)

valid_session_name_iff : (name : Text) → (valid_session_name name ≡ true) ↔ IsName name
unfolding valid_session_name
valid_session_name_iff name = (λ e. ground arith, λ h. ground arith)

checked_name_iff :
    (m : Option AgentMsg) (name : Text)
    → (checked_name m ≡ ok name)
      ↔ ((host cwd : Text) × (m ≡ some (hello protocol_version name host cwd)) × IsName name)
unfolding checked_name
checked_name_iff none name = (λ e. cc, λ (h, c, same, _). cc)
checked_name_iff (some (reply chat_id text)) name =
    (λ e. cc, λ (h, c, same, _). absurd (ground arith))
checked_name_iff (some (permission_request i t d p)) name =
    (λ e. cc, λ (h, c, same, _). absurd (ground arith))
checked_name_iff (some (hello version n host cwd)) name = (
  λ e. (
    host,
    cwd,
    ground (arith, valid_session_name_iff n),
    let same : n ≡ name = ground arith in
        subst IsName same ((valid_session_name_iff n).0 (ground arith)),
  ),
  λ (h, c, same, valid). ground (arith, valid_session_name_iff name),
)

module _ (codec : Codec) where
  -- The first frame is a good hello, and its name is free.
  abbrev pub IsWelcome : Option Frame → Text → Hub → Type 0
  IsWelcome first name hub =
      ((frame : Frame) × (host cwd : Text) × (first ≡ some frame)
        × (read_frame codec frame ≡ some (hello protocol_version name host cwd)))
      × IsName name
      × (channel_of name hub ≡ none)

  checked-IsWelcome :
      (first : Frame) (name : Text) (hub : Hub)
      → IsWelcome (some first) name hub
      → checked_name (read_frame codec first) ≡ ok name
  checked-IsWelcome first name hub ((f, h, c, same, read), valid, _) =
      (checked_name_iff (read_frame codec first) name).1
        (h, c, let here : first ≡ f = cc same in ap (read_frame codec) here ∙ read, valid)

  -- A handshake succeeds with a name if the first frame is a text that reads as a hello of version 1
  -- with this name, the name has 1 to 150 characters and no control character, and it is not
  -- connected: it then connects this name and no other. In any other case it fails and changes
  -- nothing.
  pub handshake_lem :
      (first : Option Frame) (hub : Hub)
      → ((name : Text) × ((handshake codec first hub).0 ≡ ok name)
          × IsWelcome first name hub
          × ((other : Text)
              → channel_of other (handshake codec first hub).1
                ≡ (if text_eq name other then some fresh_channel else channel_of other hub)))
        ⊎ (is_ok (handshake codec first hub).0 ≡ false)
          × ((handshake codec first hub).1 ≡ hub)
          × ((name : Text) → ¬ IsWelcome first name hub)
  unfolding handshake
  handshake_lem none hub = inr (refl, refl, λ name ((f, h, c, same, _), _, _). cc)
  handshake_lem (some first) hub = elim (Result-cases (checked_name (read_frame codec first))) [
    | inr (message, bad) ↦ inr (
      rw (bad, handshake),
      rw (bad, handshake),
      λ name w. let good = checked-IsWelcome first name hub w in absurd (ground arith),
    )
    | inl (name, good) ↦
        let (h, c, read, valid) = (checked_name_iff (read_frame codec first) name).0 good in
        elim (register_lem name name fresh_channel hub) [
          | inl (free, fine, _) ↦ inl (
            name,
            rw (good, fine, handshake),
            ((first, h, c, refl, read), valid, free),
            λ other.
                rw (good, fine, handshake)
                  (elim (register_lem name other fresh_channel hub) [
                    | inl (_, _, effect) ↦ effect
                    | inr (taken, _) ↦ absurd (taken free)
                  ]),
          )
          | inr (taken, unchanged) ↦ inr (
            rw (good, ap (λ x. x.0) unchanged, handshake),
            rw (good, ap (λ x. x.0) unchanged, handshake) (ap (λ x. x.1) unchanged),
            λ other w.
                let again = checked-IsWelcome first other hub w in
                let here : other ≡ name = ground arith in
                taken (subst (λ n. channel_of n hub ≡ none) here w.2),
          )
        ]
  ]
