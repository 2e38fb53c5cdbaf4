-- ===== src/Relay/State.antt =====
-- The state that the handlers share (crates/relay/src/state.rs).
-- Each mutex guards one field. `calls` are the calls made to Slack so far, `disk` is the state file,
-- and `faults` says for each save to come whether it fails, and where.
use slack_claude_remote.Prelude.{
  ℕ, ◌-◌, ◌^◌, ◌≡◌, refl, Bool, Option, none, some, List, [], ◌∷◌, is_ok, ltb, if◌then◌else◌, arith,
}
use slack_claude_remote.Prelude.Int.{ℤ, pos, neg_part, IsI64}
use slack_claude_remote.Prelude.Map.{Map}
use slack_claude_remote.Relay.Config.{Config}
use slack_claude_remote.Relay.Hub.{Hub, empty_hub}
use slack_claude_remote.Relay.Store.{Store, StoreCodec, Disk, Fault, no_fault, save}
use slack_claude_remote.Relay.Slack.Api.{Call}
use slack_claude_remote.Relay.Slack.Dedupe.{Dedupe, new}
use slack_claude_remote.Relay.Permission.{Pending}
use slack_claude_remote.Relay.Session.{Sessions, no_logins}

abbrev pub dedupe_capacity : ℕ
dedupe_capacity = 1000

pub record AppState : Type 0 where
  pub cfg : Config
  pub hub : Hub
  pub store : Store
  pub calls : List Call
  pub dedupe : Dedupe
  pub pending : Map Pending
  pub sessions : Sessions
  pub disk : Disk
  pub faults : List Fault

-- `AppState::new`, beside a disk and what will become of its saves.
unfoldable pub start : Config → Store → Disk → List Fault → AppState
start cfg store disk faults = record {
  cfg = cfg;
  hub = empty_hub;
  store = store;
  calls = [];
  dedupe = new dedupe_capacity;
  pending = [];
  sessions = no_logins;
  disk = disk;
  faults = faults;
}

abbrev pub next_fault : List Fault → Fault
next_fault [] = no_fault
next_fault (f ∷ _) = f

abbrev pub later_faults : List Fault → List Fault
later_faults [] = []
later_faults (_ ∷ fs) = fs

module _ (codec : StoreCodec) where
  unfoldable pub save_store : Store → AppState → Bool × AppState
  save_store store s =
      let (saved, disk) = save codec store (next_fault s.faults) s.disk in
      (is_ok saved, record s { disk = disk; faults = later_faults s.faults })

-- `unix_now`: the whole seconds since the epoch, or `none` for a clock that stands before it.
unfoldable pub unix_now : Option ℕ → ℤ
unix_now none = pos 0
unix_now (some secs) = if ltb secs (2 ^ 63) then pos secs else pos (2 ^ 63 - 1)

-- The clock is an `i64`, and never negative.
pub unix_now-IsI64 : (clock : Option ℕ) → IsI64 (unix_now clock) × (neg_part (unix_now clock) ≡ 0)
unfolding unix_now
unix_now-IsI64 none = (omega arith, refl)
unix_now-IsI64 (some secs) = ground arith
