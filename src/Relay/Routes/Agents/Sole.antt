-- ===== src/Relay/Routes/Agents/Sole.antt =====
-- The connections that are open at once, from the empty table on.
use slack_claude_remote.Prelude.{
  ◌≡◌, refl, sym, ap, ◌∙◌, inl, inr, true, false, none, some, Option, List, [], ◌∷◌, ok, err,
  Result, is_some, if◌then◌else◌, arith, Bool-cases, Result-cases,
}
use slack_claude_remote.Prelude.Text.{Text, text_eq, text_eq_iff, contains}
use slack_claude_remote.Prelude.Map.{lookup}
use slack_claude_remote.Prelude.Sort.{IsDistinct, IsAscending}
use slack_claude_remote.Protocol.{RelayMsg, Codec}
use slack_claude_remote.Relay.Hub.{
  Hub, empty_hub, fresh_channel, register, unregister, list, send, receive,
}
use slack_claude_remote.Relay.Hub.Laws.{
  channel_of, IsValid, register-IsValid, unregister-IsValid, send-IsValid, receive-IsValid,
  unregister_lem, send_lem, receive_lem, list_lem,
}
use slack_claude_remote.Relay.Routes.Agents.{Frame, read_frame, checked_name, handshake}
use slack_claude_remote.Relay.Routes.Agents.Laws.{handshake_lem}

-- The hub, and the names of the connections that are being served: a connection is, from the success
-- of its handshake to its `unregister`.
pub record Served : Type 0 where
  pub hub : Hub
  pub live : List Text

abbrev pub nobody : Served
nobody = record { hub = empty_hub; live = [] }

abbrev pub served_with : Result Text Text → List Text → List Text
served_with (ok name) live = name ∷ live
served_with (err _) live = live

-- The end of one connection of this name.
abbrev without : Text → List Text → List Text
without name [] = []
without name (n ∷ live) = if text_eq n name then live else n ∷ without name live

contains-without :
    (name other : Text) (live : List Text)
    → IsDistinct live
    → contains (without name live) other
      ≡ (if text_eq name other then false else contains live other)
unfolding contains
contains-without name other [] d = ground arith
contains-without name other (n ∷ live) (fresh, d) = ground (
  arith,
  text_eq_iff n name,
  text_eq_iff name other,
  text_eq_iff n other,
  contains-without name other live d,
)

without-IsDistinct :
    (name : Text) (live : List Text) → IsDistinct live → IsDistinct (without name live)
unfolding contains
without-IsDistinct name [] d = tt
without-IsDistinct name (n ∷ live) (fresh, d) =
    ground (arith, contains-without name n live d, without-IsDistinct name live d)

module _ (codec : Codec) where
  -- A first frame and its handshake, the end of a connection, a message to a session, or the next
  -- message of a queue.
  pub data Step : Served → Served → Type 0 where
    hellos :
        (first : Option Frame) (c : Served)
        → Step c (record {
          hub = (handshake codec first c.hub).1;
          live = served_with (handshake codec first c.hub).0 c.live;
        })
    ends :
        (name : Text) (c : Served)
        → contains c.live name ≡ true
        → Step c (record { hub = unregister name c.hub; live = without name c.live })
    sends :
        (target : Text) (msg : RelayMsg) (c : Served)
        → Step c (record c { hub = (send target msg c.hub).1 })
    takes :
        (name : Text) (msg : Option RelayMsg) (after : Hub) (c : Served)
        → receive name c.hub ≡ some (msg, after)
        → Step c (record c { hub = after })

  pub data Reach : Served → Served → Type 0 where
    stop : (c : Served) → Reach c c
    step : (c d e : Served) → Step c d → Reach d e → Reach c e

  -- The connections have different names, and the hub has exactly these.
  record IsSole (c : Served) : Type 0 where
    distinct : IsDistinct c.live
    connected : (name : Text) → contains c.live name ≡ is_some (channel_of name c.hub)
    valid : IsValid c.hub

  handshake-IsValid :
      (first : Option Frame) (hub : Hub) → IsValid hub → IsValid (handshake codec first hub).1
  unfolding handshake
  handshake-IsValid none hub v = v
  handshake-IsValid (some first) hub v =
      elim (Result-cases (checked_name (read_frame codec first))) [
        | inr (message, bad) ↦ rw (bad, handshake) v
        | inl (name, good) ↦ elim (Result-cases (register name fresh_channel hub).0) [
          | inl (_, fine) ↦ rw (good, fine, handshake) (register-IsValid name fresh_channel hub v)
          | inr (_, taken) ↦ rw (good, taken, handshake) (register-IsValid name fresh_channel hub v)
        ]
      ]

  hellos-IsSole :
      (first : Option Frame) (c : Served)
      → IsSole c
      → IsSole (record {
        hub = (handshake codec first c.hub).1;
        live = served_with (handshake codec first c.hub).0 c.live;
      })
  unfolding contains
  hellos-IsSole first c h = elim (handshake_lem codec first c.hub) [
    | inl (name, fine, (_, _, free), effect) ↦ rw fine (record {
      distinct = (h.connected name ∙ ap is_some free, h.distinct);
      connected = λ other. ground (arith, effect other, h.connected other);
      valid = handshake-IsValid first c.hub h.valid;
    })
    | inr (failed, same, _) ↦ elim (Result-cases (handshake codec first c.hub).0) [
      | inl (name, fine) ↦ absurd (ground arith)
      | inr (message, bad) ↦ rw bad (record {
        distinct = h.distinct;
        connected = λ other. h.connected other ∙ ap (λ g. is_some (channel_of other g)) (sym same);
        valid = handshake-IsValid first c.hub h.valid;
      })
    ]
  ]

  sends-connected :
      (target : Text) (msg : RelayMsg) (hub : Hub) (name : Text)
      → is_some (channel_of name (send target msg hub).1) ≡ is_some (channel_of name hub)
  sends-connected target msg hub name = elim (send_lem target name msg hub) [
    | inr (_, unchanged) ↦ ap (λ r. is_some (channel_of name r.1)) unchanged
    | inl (tx, found, _, _, effect) ↦ elim (Bool-cases (text_eq target name)) [
      | inl same ↦
          let one = (text_eq_iff target name).0 same in
          ap is_some (rw same at effect)
          ∙ sym (ap (λ n. is_some (channel_of n hub)) (sym one) ∙ ap is_some found)
      | inr other ↦ ap is_some (rw other at effect)
    ]
  ]

  takes-connected :
      (target : Text) (msg : Option RelayMsg) (hub after : Hub) (name : Text)
      → receive target hub ≡ some (msg, after)
      → is_some (channel_of name after) ≡ is_some (channel_of name hub)
  takes-connected target msg hub after name e = elim (receive_lem target name hub) [
    | inl (_, nothing) ↦ absurd (cc (e, nothing))
    | inr (tx, found, inl (_, idle)) ↦
        let same : after ≡ hub = cc (e, idle) in ap (λ g. is_some (channel_of name g)) same
    | inr (tx, found, inr (first, rest, rest_hub, _, got, effect)) ↦
        let same : after ≡ rest_hub = cc (e, got) in
        ap (λ g. is_some (channel_of name g)) same ∙ elim (Bool-cases (text_eq target name)) [
          | inl here ↦
              let one = (text_eq_iff target name).0 here in
              ap is_some (rw here at effect)
              ∙ sym (ap (λ n. is_some (channel_of n hub)) (sym one) ∙ ap is_some found)
          | inr other ↦ ap is_some (rw other at effect)
        ]
  ]

  Step-IsSole : {c d : Served} → Step c d → IsSole c → IsSole d
  Step-IsSole (hellos first c) h = hellos-IsSole first c h
  Step-IsSole (ends name c served) h = record {
    distinct = without-IsDistinct name c.live h.distinct;
    connected = λ other. ground (
      arith,
      contains-without name other c.live h.distinct,
      unregister_lem name other c.hub,
      h.connected other,
    );
    valid = unregister-IsValid name c.hub h.valid;
  }
  Step-IsSole (sends target msg c) h = record {
    distinct = h.distinct;
    connected = λ name. h.connected name ∙ sym (sends-connected target msg c.hub name);
    valid = send-IsValid target msg c.hub h.valid;
  }
  Step-IsSole (takes target msg after c e) h = record {
    distinct = h.distinct;
    connected = λ name. h.connected name ∙ sym (takes-connected target msg c.hub after name e);
    valid = receive-IsValid target msg c.hub after e h.valid;
  }

  Reach-IsSole : (c d : Served) → Reach c d → IsSole c → IsSole d
  Reach-IsSole c d (stop b) h = h
  Reach-IsSole c d (step a b e st r) h = Reach-IsSole b e r (Step-IsSole st h)

  nobody-IsSole : IsSole nobody
  unfolding contains lookup
  nobody-IsSole = record { distinct = tt; connected = λ name. refl; valid = tt }

  -- Whatever first frames come in, connections end, and messages are sent and taken, in whatever
  -- order, from the start of the relay on: no two connections of one name are served at once, and
  -- the listing of the hub is strictly ascending and has exactly the names of those that are.
  pub served_alone :
      (c : Served)
      → Reach nobody c
      → IsDistinct c.live
        × IsAscending (list c.hub)
        × ((name : Text) → contains (list c.hub) name ≡ contains c.live name)
  served_alone c r =
      let sole = Reach-IsSole nobody c r nobody-IsSole in
      (
        sole.distinct,
        (list_lem c.hub [] sole.valid).0,
        λ name. (list_lem c.hub name sole.valid).1 ∙ sym (sole.connected name),
      )
