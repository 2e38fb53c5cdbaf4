-- ===== src/Relay/Hub.antt =====
-- The table of connected agents (crates/relay/src/hub.rs).
-- A sender is named by the session it belongs to: a name has one connection at a time. `queue` is
-- what was sent and not yet received, in order. The channel holds 64 messages; a sender beyond that
-- waits in `send`, in the order of arrival, so its message stands in `queue` behind the 64.
pub mod Laws
pub mod Table
pub mod Observed
mod Tests
use slack_claude_remote.Prelude.{
  Bool, true, false, Option, none, some, List, [], ◌∷◌, ◌++◌, Result, ok, err, if◌then◌else◌,
}
use slack_claude_remote.Prelude.Text.{Text, text_eq}
use slack_claude_remote.Prelude.Map.{Map, lookup, insert, remove, contains_key, keys}
use slack_claude_remote.Prelude.Sort.{sort}
use slack_claude_remote.Protocol.{RelayMsg}

pub data Duplicate : Type 0 where
  duplicate : Duplicate

pub data Offline : Type 0 where
  offline : Offline

-- `closed` once the receiving half is dropped.
pub record Channel : Type 0 where
  pub queue : List RelayMsg
  pub closed : Bool

abbrev pub fresh_channel : Channel
fresh_channel = record { queue = []; closed = false }

pub record Hub : Type 0 where
  pub agents : Map Channel

abbrev pub empty_hub : Hub
empty_hub = record { agents = [] }

unfoldable pub register : Text → Channel → Hub → Result (Unit {0}) Duplicate × Hub
register name tx hub =
    if contains_key name hub.agents
    then (err duplicate, hub)
    else (ok tt, record { agents = insert name tx hub.agents })

unfoldable pub unregister : Text → Hub → Hub
unregister name hub = record { agents = remove name hub.agents }

unfoldable pub list : Hub → List Text
list hub = sort (keys hub.agents)

-- What `tx.send(msg)` does with the channel that was looked up.
deliver : Text → RelayMsg → Channel → Hub → Result (Unit {0}) Offline × Hub
deliver name msg tx hub = if tx.closed then (err offline, hub) else (
  ok tt,
  record { agents = insert name (record tx { queue = tx.queue ++ msg ∷ [] }) hub.agents },
)

unfoldable pub send : Text → RelayMsg → Hub → Result (Unit {0}) Offline × Hub
unfolding deliver
send name msg hub = elim (lookup name hub.agents) [
  | none ↦ (err offline, hub)
  | some tx ↦ deliver name msg tx hub
]

-- `rx.recv()` of the session's connection: `none` once the sender is dropped, and no message as long
-- as the queue is empty.
unfoldable pub receive : Text → Hub → Option (Option RelayMsg × Hub)
receive name hub = elim (lookup name hub.agents) [
  | none ↦ none
  | some tx ↦ elim tx.queue [
    | [] ↦ some (none, hub)
    | msg ∷ rest ↦
        some (some msg, record { agents = insert name (record tx { queue = rest }) hub.agents })
  ]
]
