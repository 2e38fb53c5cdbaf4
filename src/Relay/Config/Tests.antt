-- ===== src/Relay/Config/Tests.antt =====
-- An environment outside dev mode that has every variable.
use slack_claude_remote.Prelude.{◌≡◌, refl, Option, none, some, ok, if◌then◌else◌, false}
use slack_claude_remote.Prelude.Text.{Text, codes, text_eq, is_empty}
use slack_claude_remote.Relay.Config.{Config, from_env}

abbrev environment : Text → Option Text
environment key = if text_eq key (codes "SCCR_DEV") then none else some key

abbrev filled : Config
filled = record {
  bind = codes "SCCR_BIND";
  public_url = codes "SCCR_PUBLIC_URL";
  state_file = codes "SCCR_STATE_FILE";
  admin_user = codes "SCCR_ADMIN_SLACK_USER";
  signing_secret = codes "SLACK_SIGNING_SECRET";
  bot_token = codes "SLACK_BOT_TOKEN";
  client_id = codes "SLACK_CLIENT_ID";
  client_secret = codes "SLACK_CLIENT_SECRET";
  dev = false;
}

reads : from_env environment ≡ ok filled
unfolding from_env is_empty text_eq codes
reads = refl
