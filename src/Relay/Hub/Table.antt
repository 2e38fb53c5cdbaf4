-- ===== src/Relay/Hub/Table.antt =====
-- The hub as its clients see it: a table whose order does not show. A `HashMap` keeps its entries in
-- an order of its own; the list that stands for it in the model keeps the order of insertion.
use slack_claude_remote.Prelude.{
  ◌≡◌, refl, false, ap, inl, inr, none, some, Option, List, [], ◌∷◌, ◌++◌, Result, Option-cases,
  Bool-cases, List-cases,
}
use mathlib.Core.Path.{ap₂}
use mathlib.Core.Quot
use mathlib.Core.Quot.{Quot, Quot-set}
use native.Mathlib.Nat.{ℕ_set}
use slack_claude_remote.Prelude.Text.{Text}
use slack_claude_remote.Prelude.Map.{lookup}
use slack_claude_remote.Prelude.Unordered.{
  SameEntries, insert-SameEntries, remove-SameEntries, sort-keys,
}
use slack_claude_remote.Protocol.{RelayMsg}
use slack_claude_remote.Relay.Hub.{
  Hub, Channel, Duplicate, Offline, register, unregister, list, send, receive,
}
use slack_claude_remote.Relay.Hub.Laws.{
  IsValid, register-IsValid, unregister-IsValid, send-IsValid, receive-IsValid,
}

-- The calls of the hub, and what they answer.
pub data HubCall : Type 0 where
  registers : Text → Channel → HubCall
  unregisters : Text → HubCall
  lists : HubCall
  sends : Text → RelayMsg → HubCall
  receives : Text → HubCall

pub data HubAnswer : Type 0 where
  registered : Result (Unit {0}) Duplicate → HubAnswer
  unregistered : HubAnswer
  listed : List Text → HubAnswer
  was_sent : Result (Unit {0}) Offline → HubAnswer
  was_received : Option (Option RelayMsg) → HubAnswer

abbrev taken_from : Hub → Option (Option RelayMsg × Hub) → HubAnswer × Hub
taken_from hub none = (was_received none, hub)
taken_from hub (some (msg, after)) = (was_received (some msg), after)

abbrev pub call : HubCall → Hub → HubAnswer × Hub
call (registers name tx) hub = let (r, after) = register name tx hub in (registered r, after)
call (unregisters name) hub = (unregistered, unregister name hub)
call lists hub = (listed (list hub), hub)
call (sends name msg) hub = let (r, after) = send name msg hub in (was_sent r, after)
call (receives name) hub = taken_from hub (receive name hub)

-- What a client observes of a sequence of calls.
abbrev pub answers : List HubCall → Hub → List HubAnswer
answers [] hub = []
answers (c ∷ cs) hub = let (a, after) = call c hub in a ∷ answers cs after

abbrev pub Same : Hub → Hub → Type 0
Same g h = SameEntries g.agents h.agents

-- The two sides of a call: the same answer, and again the same table.
abbrev pub Agree : HubAnswer × Hub → HubAnswer × Hub → Type 0
Agree (a, g) (b, h) = (a ≡ b) × Same g h

register-Agree :
    (name : Text) (tx : Channel) (g h : Hub)
    → Same g h
    → Agree (call (registers name tx) g) (call (registers name tx) h)
unfolding register
register-Agree name tx g h same = elim (Option-cases (lookup name h.agents)) [
  | inl free ↦
      rw (same name, free, register) (refl, insert-SameEntries name tx g.agents h.agents same)
  | inr (old, found) ↦ rw (same name, found, register) (refl, same)
]

pub send-Agree :
    (name : Text) (msg : RelayMsg) (g h : Hub)
    → Same g h
    → Agree (call (sends name msg) g) (call (sends name msg) h)
unfolding send
send-Agree name msg g h same = elim (Option-cases (lookup name h.agents)) [
  | inl free ↦ rw (same name, free, send) (refl, same)
  | inr (tx, found) ↦ elim (Bool-cases tx.closed) [
    | inl shut ↦ rw (same name, found, shut, send) (refl, same)
    | inr live ↦
        rw (same name, found, live, send)
          (
            refl,
            insert-SameEntries name (record { queue = tx.queue ++ msg ∷ []; closed = false })
                g.agents h.agents same,
          )
  ]
]

receive-Agree :
    (name : Text) (g h : Hub) → Same g h → Agree (call (receives name) g) (call (receives name) h)
unfolding receive
receive-Agree name g h same = elim (Option-cases (lookup name h.agents)) [
  | inl free ↦ rw (same name, free, receive) (refl, same)
  | inr (tx, found) ↦ elim (List-cases tx.queue) [
    | inl idle ↦ rw (same name, found, idle, receive) (refl, same)
    | inr (msg, rest, waits) ↦
        rw (same name, found, waits, receive)
          (refl, insert-SameEntries name (record tx { queue = rest }) g.agents h.agents same)
  ]
]

pub call-Agree :
    (c : HubCall) (g h : Hub) → IsValid g → IsValid h → Same g h → Agree (call c g) (call c h)
unfolding list unregister
call-Agree (registers name tx) g h v w same = register-Agree name tx g h same
call-Agree (unregisters name) g h v w same = (refl, remove-SameEntries name g.agents h.agents same)
call-Agree lists g h v w same = (ap listed (sort-keys g.agents h.agents v w same), same)
call-Agree (sends name msg) g h v w same = send-Agree name msg g h same
call-Agree (receives name) g h v w same = receive-Agree name g h same

pub call-IsValid : (c : HubCall) (h : Hub) → IsValid h → IsValid (call c h).1
call-IsValid (registers name tx) h v = register-IsValid name tx h v
call-IsValid (unregisters name) h v = unregister-IsValid name h v
call-IsValid lists h v = v
call-IsValid (sends name msg) h v = send-IsValid name msg h v
call-IsValid (receives name) h v = elim (Option-cases (receive name h)) [
  | inl gone ↦ rw gone v
  | inr ((msg, after), taken) ↦ rw taken (receive-IsValid name msg h after taken v)
]

answers-unordered :
    (cs : List HubCall) (g h : Hub) → IsValid g → IsValid h → Same g h → answers cs g ≡ answers cs h
answers-unordered [] g h v w same = refl
answers-unordered (c ∷ cs) g h v w same =
    let (a, again) = call-Agree c g h v w same in
    ap₂ (◌∷◌) a (
      answers-unordered cs (call c g).1 (call c h).1 (call-IsValid c g v) (call-IsValid c h w)
        again)

-- The table: the hubs of distinct names, up to their order.
abbrev pub ValidHub : Type 0
ValidHub = (h : Hub) × IsValid h

abbrev SameTable : ValidHub → ValidHub → Type 0
SameTable (g, _) (h, _) = Same g h

abbrev pub Table : Type 0
Table = Quot SameTable

Answers-set : IsSet (List HubAnswer)
Answers-set = hlevel ℕ_set

-- The answers are those of the table.
pub observe : List HubCall → Table → List HubAnswer
observe cs =
    Quot.lift Answers-set (λ (h, _). answers cs h)
      (λ (g, v) (h, w) same. answers-unordered cs g h v w same)

pub observe-mk : (cs : List HubCall) (h : ValidHub) → observe cs (Quot.mk h) ≡ answers cs h.0
unfolding observe
observe-mk cs h = refl
