-- ===== src/Relay/Hub/Observed.antt =====
-- Two hubs that answer every sequence of calls alike are the same table.
use slack_claude_remote.Prelude.{
  ◌≡◌, refl, sym, Bool, ap, ◌∙◌, ◌↔◌, inl, inr, true, false, none, some, List, [], ◌∷◌, ok, err,
  arith, Option-cases, Bool-cases, List-cases, if◌then◌else◌,
}
use mathlib.Core.Quot
use mathlib.Core.Quot.{Quot}
use slack_claude_remote.Prelude.Text.{Text, text_eq_iff}
use slack_claude_remote.Prelude.Map.{lookup-insert}
use slack_claude_remote.Protocol.{RelayMsg, error}
use slack_claude_remote.Relay.Hub.{Hub, Channel, offline, send, receive}
use slack_claude_remote.Relay.Hub.Laws.{channel_of}
use slack_claude_remote.Relay.Hub.Table.{
  HubCall, sends, receives, was_sent, was_received, call, answers, Same, ValidHub, Table, observe,
  observe-mk,
}

abbrev AnswerAlike : Hub → Hub → Type 0
AnswerAlike g h = (cs : List HubCall) → answers cs g ≡ answers cs h

call-AnswerAlike :
    (c : HubCall) (g h : Hub)
    → AnswerAlike g h
    → ((call c g).0 ≡ (call c h).0) × AnswerAlike (call c g).1 (call c h).1
call-AnswerAlike c g h alike = (cc (alike (c ∷ [])), λ cs. cc (alike (c ∷ cs)))

-- What `receive` and `send` tell of a channel.
received_none :
    (name : Text) (h : Hub)
    → channel_of name h ≡ none
    → (call (receives name) h).0 ≡ was_received none
unfolding receive
received_none name h free = rw (free, receive) refl

received_idle :
    (name : Text) (h : Hub) (tx : Channel)
    → channel_of name h ≡ some tx
    → tx.queue ≡ []
    → (call (receives name) h).0 ≡ was_received (some none)
unfolding receive
received_idle name h tx found idle = rw (found, idle, receive) refl

received_first :
    (name : Text) (h : Hub) (tx : Channel) (msg : RelayMsg) (rest : List RelayMsg)
    → channel_of name h ≡ some tx
    → tx.queue ≡ msg ∷ rest
    → ((call (receives name) h).0 ≡ was_received (some (some msg)))
      × (channel_of name (call (receives name) h).1 ≡ some (record tx { queue = rest }))
unfolding receive
received_first name h tx msg rest found waits =
    let again = lookup-insert name name (record tx { queue = rest }) h.agents in
    (
      rw (found, waits, receive) refl,
      rw (found, waits, receive) (ground (arith, again, text_eq_iff name name)),
    )

sent_lem :
    (name : Text) (h : Hub) (tx : Channel) (msg : RelayMsg)
    → channel_of name h ≡ some tx
    → (call (sends name msg) h).0 ≡ was_sent (if tx.closed then err offline else ok tt)
unfolding send
sent_lem name h tx msg found = elim (Bool-cases tx.closed) [
  | inl shut ↦ rw (found, shut, send) refl
  | inr live ↦ rw (found, live, send) refl
]

closed_of :
    (a b : Bool)
    → was_sent (if a then err offline else ok tt) ≡ was_sent (if b then err offline else ok tt)
    → a ≡ b
closed_of true true e = refl
closed_of true false e = cc
closed_of false true e = cc
closed_of false false e = refl

-- The other hub has the same channel, as its queue can be was_received and its end be tried.
same_channel :
    (q : List RelayMsg) (closed_ : Bool) (name : Text) (g h : Hub)
    → channel_of name g ≡ some (record { queue = q; closed = closed_ })
    → AnswerAlike g h
    → channel_of name h ≡ some (record { queue = q; closed = closed_ })
same_channel [] closed_ name g h found alike =
    let (answer, _) = call-AnswerAlike (receives name) g h alike in
    let (told, _) = call-AnswerAlike (sends name (error [])) g h alike in
    let here = received_idle name g (record { queue = []; closed = closed_ }) found refl in
    elim (Option-cases (channel_of name h)) [
      | inl free ↦ absurd (cc (received_none name h free, answer, here))
      | inr (ty, other) ↦ elim (List-cases ty.queue) [
        | inl idle ↦
            let same : closed_ ≡ ty.closed = closed_of closed_ ty.closed (
              sym (sent_lem name g (record { queue = []; closed = closed_ }) (error []) found)
              ∙ told
              ∙ sent_lem name h ty (error []) other) in
            cc (other, idle, same)
        | inr (first, rest, waits) ↦
            absurd (cc ((received_first name h ty first rest other waits).0, answer, here))
      ]
    ]
same_channel (msg ∷ q) closed_ name g h found alike =
    let (answer, onward) = call-AnswerAlike (receives name) g h alike in
    let (here, left) =
      received_first name g (record { queue = msg ∷ q; closed = closed_ }) msg q found refl in
    elim (Option-cases (channel_of name h)) [
      | inl free ↦ absurd (cc (received_none name h free, answer, here))
      | inr (ty, other) ↦ elim (List-cases ty.queue) [
        | inl idle ↦ absurd (cc (received_idle name h ty other idle, answer, here))
        | inr (first, rest, waits) ↦
            let (there, left_there) = received_first name h ty first rest other waits in
            let again =
              same_channel q closed_ name (call (receives name) g).1 (call (receives name) h).1 left
                onward in
            cc (other, waits, there, answer, here, again, left_there)
      ]
    ]

alike-Same : (g h : Hub) → AnswerAlike g h → Same g h
alike-Same g h alike name = elim (Option-cases (channel_of name g)) [
  | inr (tx, found) ↦ found ∙ sym (same_channel tx.queue tx.closed name g h found alike)
  | inl free ↦ elim (Option-cases (channel_of name h)) [
    | inl too ↦ free ∙ sym too
    | inr (ty, found) ↦
        same_channel ty.queue ty.closed name h g found (λ cs. sym (alike cs)) ∙ sym found
  ]
]

-- The quotient is what the clients of the hub can observe and no more: two hubs with distinct names
-- are the same table exactly if they answer every sequence of calls alike.
pub table_iff :
    (g h : ValidHub)
    → (◌≡◌ {A = Table} (Quot.mk g) (Quot.mk h))
      ↔ ((cs : List HubCall) → answers cs g.0 ≡ answers cs h.0)
table_iff g h = (
  λ same cs. sym (observe-mk cs g) ∙ ap (observe cs) same ∙ observe-mk cs h,
  λ alike. Quot.sound (alike-Same g.0 h.0 alike),
)
