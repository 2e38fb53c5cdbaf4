-- ===== src/Relay/Hub/Laws.antt =====
-- What each operation of the hub leaves behind, and the listing.
use slack_claude_remote.Prelude.{
  ◌≡◌, ◌∙◌, ◌⊎◌, ◌≢◌, inl, inr, true, false, Option, none, some, [], ◌∷◌, ◌++◌, ok, err, arith,
  if◌then◌else◌, Option-cases, Bool-cases, List, List-cases, is_some,
}
use slack_claude_remote.Prelude.Text.{Text, text_eq, contains}
use slack_claude_remote.Prelude.Map.{
  lookup, insert, keys, lookup-insert, lookup-remove, HasDistinctKeys, insert-HasDistinctKeys,
  remove-HasDistinctKeys,
}
use slack_claude_remote.Prelude.Unordered.{contains-keys, keys-IsDistinct}
use slack_claude_remote.Prelude.Sort.{contains-sort, sort-IsAscending, IsAscending}
use slack_claude_remote.Protocol.{RelayMsg}
use slack_claude_remote.Relay.Hub.{
  Hub, Channel, duplicate, offline, register, unregister, list, send, receive,
}

-- The channel of a session, if it is connected.
abbrev pub channel_of : Text → Hub → Option Channel
channel_of name hub = lookup name hub.agents

abbrev pub IsValid : Hub → Type 0
IsValid hub = HasDistinctKeys hub.agents

pub register-IsValid :
    (name : Text) (tx : Channel) (hub : Hub) → IsValid hub → IsValid (register name tx hub).1
unfolding register
register-IsValid name tx hub v = ground (arith, insert-HasDistinctKeys name tx hub.agents v)

pub unregister-IsValid : (name : Text) (hub : Hub) → IsValid hub → IsValid (unregister name hub)
unfolding unregister
unregister-IsValid name hub v = remove-HasDistinctKeys name hub.agents v

pub send-IsValid :
    (name : Text) (msg : RelayMsg) (hub : Hub) → IsValid hub → IsValid (send name msg hub).1
unfolding send
send-IsValid name msg hub v = elim (Option-cases (lookup name hub.agents)) [
  | inl missing ↦ rw (missing, send) v
  | inr (tx, found) ↦
      rw (found, send)
        (ground (
          arith,
          insert-HasDistinctKeys name (record tx { queue = tx.queue ++ msg ∷ [] }) hub.agents v,
        ))
]

pub receive-IsValid :
    (name : Text) (msg : Option RelayMsg) (hub after : Hub)
    → receive name hub ≡ some (msg, after)
    → IsValid hub
    → IsValid after
unfolding receive
receive-IsValid name msg hub after e v = elim (Option-cases (lookup name hub.agents)) [
  | inl missing ↦ absurd (ground arith)
  | inr (tx, found) ↦ elim (List-cases tx.queue) [
    | inl idle ↦ ground arith
    | inr (first, rest, waits) ↦
        ground (arith, insert-HasDistinctKeys name (record tx { queue = rest }) hub.agents v)
  ]
]

-- `register` succeeds exactly for a name that has no connection; it then adds the connection under
-- this name and leaves the others as they are, and otherwise it changes nothing.
pub register_lem :
    (name other : Text) (tx : Channel) (hub : Hub)
    → (channel_of name hub ≡ none)
        × ((register name tx hub).0 ≡ ok tt)
        × (channel_of other (register name tx hub).1
            ≡ (if text_eq name other then some tx else channel_of other hub))
      ⊎ (channel_of name hub ≢ none) × (register name tx hub ≡ (err duplicate, hub))
unfolding register
register_lem name other tx hub = elim (Option-cases (lookup name hub.agents)) [
  | inl absent ↦ inl (absent, rw absent, rw absent (lookup-insert name other tx hub.agents))
  | inr (old, found) ↦ inr ((λ gone. cc), rw found)
]

-- `unregister` drops the connection of its name, and no other.
pub unregister_lem :
    (name other : Text) (hub : Hub)
    → channel_of other (unregister name hub)
      ≡ (if text_eq name other then none else channel_of other hub)
unfolding unregister
unregister_lem name other hub = lookup-remove name other hub.agents

-- A message to a connected session whose connection is open goes to the end of its queue, and to no
-- other; in every other case `send` reports the session offline and changes nothing.
pub send_lem :
    (name other : Text) (msg : RelayMsg) (hub : Hub)
    → ((tx : Channel) × (channel_of name hub ≡ some tx)
        × (tx.closed ≡ false)
        × ((send name msg hub).0 ≡ ok tt)
        × (channel_of other (send name msg hub).1 ≡ (
            if text_eq name other
            then some (record tx { queue = tx.queue ++ msg ∷ [] })
            else channel_of other hub)))
      ⊎ (((tx : Channel) → channel_of name hub ≡ some tx → tx.closed ≡ true)
          × (send name msg hub ≡ (err offline, hub)))
unfolding send
send_lem name other msg hub = elim (Option-cases (lookup name hub.agents)) [
  | inl absent ↦ inr ((λ tx found. cc), rw (absent, send))
  | inr (tx, found) ↦ elim (Bool-cases tx.closed) [
    | inl shut ↦ inr ((λ t same. ground arith), rw (found, shut, send))
    | inr live ↦ inl (
      tx,
      found,
      live,
      rw (found, live, send),
      ground
          (arith, lookup-insert name other (record tx { queue = tx.queue ++ msg ∷ [] }) hub.agents),
    )
  ]
]

-- The listing is strictly ascending and holds exactly the names that have a connection.
pub list_lem :
    (hub : Hub) (name : Text)
    → IsValid hub
    → IsAscending (list hub) × (contains (list hub) name ≡ is_some (channel_of name hub))
unfolding list
list_lem hub name v = (
  sort-IsAscending (keys hub.agents) (keys-IsDistinct hub.agents v),
  contains-sort (keys hub.agents) name ∙ contains-keys name hub.agents,
)

-- The connection of a session takes the message that has waited longest and leaves the rest, and the
-- other queues, as they are; while nothing waits the hub stays as it is.
pub receive_lem :
    (name other : Text) (hub : Hub)
    → (channel_of name hub ≡ none) × (receive name hub ≡ none)
      ⊎ ((tx : Channel) × (channel_of name hub ≡ some tx)
          × ((tx.queue ≡ []) × (receive name hub ≡ some (none, hub))
              ⊎ ((msg : RelayMsg) × (rest : List RelayMsg) × (after : Hub) × (tx.queue ≡ msg ∷ rest)
                  × (receive name hub ≡ some (some msg, after))
                  × (channel_of other after ≡ (
                      if text_eq name other
                      then some (record tx { queue = rest })
                      else channel_of other hub)))))
unfolding receive
receive_lem name other hub = elim (Option-cases (lookup name hub.agents)) [
  | inl absent ↦ inl (absent, rw (absent, receive))
  | inr (tx, found) ↦ inr (
    tx,
    found,
    elim (List-cases tx.queue) [
      | inl idle ↦ inl (idle, rw (found, idle, receive))
      | inr (msg, rest, waits) ↦ inr (
        msg,
        rest,
        record { agents = insert name (record tx { queue = rest }) hub.agents },
        waits,
        rw (found, waits, receive),
        lookup-insert name other (record tx { queue = rest }) hub.agents,
      )
    ],
  )
]
