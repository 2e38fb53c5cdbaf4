-- ===== src/Relay/Config.antt =====
-- Configuration from the environment (crates/relay/src/config.rs).
-- The variables are a function: `none` for one that is not set or is not Unicode.
pub mod Laws
mod Tests
use slack_claude_remote.Prelude.{
  Bool, true, false, not, Option, none, some, ◌++◌, ◌&&◌, Result, ok, err, if◌then◌else◌, ◌>>=◌,
  unwrap_or,
}
use slack_claude_remote.Prelude.Text.{Text, codes, text_eq, is_empty}

pub record Config : Type 0 where
  pub bind : Text
  pub public_url : Text
  pub state_file : Text
  pub admin_user : Text
  pub signing_secret : Text
  pub bot_token : Text
  pub client_id : Text
  pub client_secret : Text
  pub dev : Bool

module _ (env : Text → Option Text) where
  -- `std::env::var(key).unwrap_or_default()`
  abbrev pub var : Text → Text
  var key = unwrap_or (env key) (codes "")

  abbrev pub is_dev : Bool
  is_dev = text_eq (var (codes "SCCR_DEV")) (codes "1")

  unfoldable pub required : Text → Result Text Text
  required key =
      if is_empty (var key) && not is_dev then err (key ++ codes " is not set") else ok (var key)

  unfoldable pub or_default : Text → Text → Text
  or_default key default = if is_empty (var key) then default else var key

  unfoldable pub from_env : Result Config Text
  unfolding required or_default
  from_env = do
    public_url ← required (codes "SCCR_PUBLIC_URL")
    admin_user ← required (codes "SCCR_ADMIN_SLACK_USER")
    signing_secret ← required (codes "SLACK_SIGNING_SECRET")
    bot_token ← required (codes "SLACK_BOT_TOKEN")
    client_id ← required (codes "SLACK_CLIENT_ID")
    client_secret ← required (codes "SLACK_CLIENT_SECRET")
    ok (record {
      bind = or_default (codes "SCCR_BIND") (codes "127.0.0.1:8080");
      public_url = public_url;
      state_file = or_default (codes "SCCR_STATE_FILE") (codes "./sccr-state.json");
      admin_user = admin_user;
      signing_secret = signing_secret;
      bot_token = bot_token;
      client_id = client_id;
      client_secret = client_secret;
      dev = is_dev;
    })
