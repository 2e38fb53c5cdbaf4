-- ===== src/Relay/Main/Tests.antt =====
-- A start in dev mode on the disk that a commit left.
use slack_claude_remote.Prelude.{
  ◌≡◌, refl, ap, ok_or, true, false, none, some, List, [], ◌∷◌, ok, if◌then◌else◌,
}
use slack_claude_remote.Prelude.Text.{codes, text_eq, is_empty, contains}
use slack_claude_remote.Samples.Worlds.{settings, known, answering}
use slack_claude_remote.Samples.Environment.{toy_env}
use slack_claude_remote.Samples.Encoding.{store_codec}
use slack_claude_remote.Relay.Config.{Config, from_env}
use slack_claude_remote.Relay.Store.{Store, Disk, invalid_data, read_file, load, save}
use slack_claude_remote.Relay.Slack.Dedupe.{new}
use slack_claude_remote.Relay.State.{AppState, start, save_store}
use slack_claude_remote.Relay.Auth.Admin.{commit, add_user, store_eq}
use slack_claude_remote.Relay.Auth.Admin.Commit.{IsSynced}
use slack_claude_remote.Relay.Main.{Relay, System, log_slack, start_relay}
use slack_claude_remote.Relay.Main.Restart.{commit_all, restart_lem}

abbrev left_disk : Disk
left_disk = record { file = some (store_codec.to_bytes known); tmp = none }

abbrev earlier : AppState
earlier = start settings known left_disk []

earlier-IsSynced : IsSynced toy_env earlier
unfolding start read_file load
earlier-IsSynced = ap (λ o. ok_or o invalid_data) (store_codec.from_bytes-to_bytes known)

abbrev changes : List (Store → Store)
changes = add_user toy_env (codes "U2") ∷ []

abbrev system : System
system = record {
  vars = λ key. if text_eq key (codes "SCCR_DEV") then some (codes "1") else none;
  refused = false;
  disk = (commit_all toy_env changes earlier).disk;
  faults = [];
  bind = λ address. none;
  show_io = λ e. [];
}

abbrev dev_config : Config
dev_config = record {
  bind = codes "127.0.0.1:8080";
  public_url = [];
  state_file = codes "./sccr-state.json";
  admin_user = [];
  signing_secret = [];
  bot_token = [];
  client_id = [];
  client_secret = [];
  dev = true;
}

abbrev with_two : Store
with_two = add_user toy_env (codes "U2") known

abbrev relay : Relay
relay = record {
  listening_on = codes "127.0.0.1:8080";
  slack = log_slack;
  state = start dev_config with_two system.disk [];
  announced = codes "sccr-relay listening on 127.0.0.1:8080 (dev mode)";
}

starts : start_relay store_codec answering system ≡ ok relay
unfolding start_relay from_env is_empty text_eq codes commit_all commit save_store store_eq contains
    start read_file load save new
starts = rw (store_codec.from_bytes-to_bytes with_two) refl

restart_lem_example : relay.state.store ≡ (commit_all toy_env changes earlier).store
restart_lem_example =
    restart_lem toy_env answering system changes earlier relay earlier-IsSynced refl refl starts
