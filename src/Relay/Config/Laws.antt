-- ===== src/Relay/Config/Laws.antt =====
-- When the relay starts.
use slack_claude_remote.Prelude.{◌≡◌, false, Option, ok, arith}
use slack_claude_remote.Prelude.Text.{Text, is_empty}
use slack_claude_remote.Relay.Config.{Config, is_dev, required, from_env}

module _ (env : Text → Option Text) where
  -- A configuration that can serve: in dev mode any, else one with all of its secrets.
  pub record IsComplete (c : Config) : Type 0 where
    pub url : is_empty c.public_url ≡ false
    pub admin : is_empty c.admin_user ≡ false
    pub signing : is_empty c.signing_secret ≡ false
    pub bot : is_empty c.bot_token ≡ false
    pub client : is_empty c.client_id ≡ false
    pub secret : is_empty c.client_secret ≡ false

  required_lem :
      (key : Text) {v : Text} → required env key ≡ ok v → is_dev env ≡ false → is_empty v ≡ false
  unfolding required
  required_lem key e live = ground arith

  -- A relay that starts outside dev mode has a public address, an admin and all secrets of Slack;
  -- in particular no request is checked against an empty signing secret there.
  pub from_env-IsComplete : (c : Config) → from_env env ≡ ok c → c.dev ≡ false → IsComplete c
  unfolding from_env
  from_env-IsComplete c e live = record {
    url = ground arith;
    admin = ground arith;
    signing = ground arith;
    bot = ground arith;
    client = ground arith;
    secret = ground arith;
  }
