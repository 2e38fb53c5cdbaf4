-- ===== src/Samples/Worlds.antt =====
-- A cryptography, a Slack, and a relay with one connected agent, one user and one bound thread.
use slack_claude_remote.Prelude.{
  ℕ, ◌%◌, refl, false, none, some, List, [], ◌∷◌, length, ok, err, arith,
}
use slack_claude_remote.Prelude.Int.{pos}
use slack_claude_remote.Prelude.Text.{Text, codes, text_eq, text_eq_iff}
use slack_claude_remote.Http.{Reqwest}
use slack_claude_remote.Crypto.{Crypto, IsBytes}
use slack_claude_remote.Relay.Config.{Config}
use slack_claude_remote.Relay.Hub.{fresh_channel}
use slack_claude_remote.Relay.Store.{Store, Binding, Disk}
use slack_claude_remote.Relay.Slack.Api.{SlackApi}
use slack_claude_remote.Relay.Slack.Events.{Candidate}
use slack_claude_remote.Relay.Permission.{Pending}
use slack_claude_remote.Relay.State.{AppState, start}

unfoldable pub toy_mac : List ℕ → List ℕ → List ℕ
toy_mac key message = (length key % 256) ∷ (length message % 256) ∷ []

pub toy_mac-IsBytes : (key message : List ℕ) → IsBytes (toy_mac key message)
unfolding toy_mac
toy_mac-IsBytes key message = omega arith

-- A MAC of two lengths, and texts as their own hexadecimal form.
abbrev pub toy_crypto : Crypto
toy_crypto = record {
  hmac_sha256 = toy_mac;
  sha256 = λ bs. bs;
  hex_encode = λ bs. bs;
  hex_decode = λ s. some s;
  ct_eq = text_eq;
  hmac_sha256-IsBytes = toy_mac-IsBytes;
  hex_decode-hex_encode = λ bs h. refl;
  ct_eq_iff = text_eq_iff;
}

-- A Slack that takes every call, and one that takes none.
abbrev pub willing : SlackApi
willing = record { answer_post = λ calls. ok (codes "9.9"); answer_respond = λ calls. ok tt }

abbrev pub unwilling : SlackApi
unwilling = record {
  answer_post = λ calls. err (codes "not_in_channel");
  answer_respond = λ calls. err (codes "gone");
}

-- A network that answers every request.
abbrev pub answering : Reqwest
answering = record {
  build = λ timeout. ok tt;
  fetch = λ request. ok (record { answer_status = 200; answer_body = [] });
  form_text = λ fields. [];
  json_error = λ body. [];
}

abbrev pub mac_proj : Text
mac_proj = codes "mac:proj"

abbrev pub thread : Text
thread = codes "C1:1.0"

abbrev pub ann : Text
ann = codes "U1"

abbrev pub settings : Config
settings = record {
  bind = [];
  public_url = [];
  state_file = [];
  admin_user = ann;
  signing_secret = codes "s";
  bot_token = [];
  client_id = [];
  client_secret = [];
  dev = false;
}

abbrev pub asked : Pending
asked = record { chat_id = thread; session = mac_proj; created = pos 1000 }

abbrev pub bound : Binding
bound = record { session = mac_proj; user = ann; created = pos 900 }

abbrev pub known : Store
known = record { users = ann ∷ []; tokens = []; bindings = (thread, bound) ∷ [] }

abbrev pub no_disk : Disk
no_disk = record { file = none; tmp = none }

-- The request "abcde" of the session waits for a verdict.
abbrev pub world : AppState
world = record (start settings known no_disk []) {
  hub = record { agents = (mac_proj, fresh_channel) ∷ [] };
  pending = (codes "abcde", asked) ∷ [];
}

abbrev pub reply_yes : Candidate
reply_yes = record {
  chat_id = thread;
  channel = codes "C1";
  thread_ts = codes "1.0";
  user = ann;
  text = codes "yes ABCDE";
}
