-- ===== src/Relay/Slack/Verify.antt =====
-- Signatures of Slack's requests (crates/relay/src/slack/verify.rs).
pub mod Laws
pub mod Window
mod Tests
use slack_claude_remote.Prelude.{
  ℕ, Option, none, some, List, [], ◌∷◌, ◌++◌, Result, ok, err, ok_or, ◌>>=◌, if◌then◌else◌,
}
use slack_claude_remote.Prelude.Int.{ℤ, pos, sub_i64, abs_i64, ltb_ℤ}
use slack_claude_remote.Prelude.Text.{Text, codes, utf8, parse_i64, strip_prefix}
use slack_claude_remote.Crypto.{Crypto}

pub data VerifyError : Type 0 where
  bad_timestamp stale bad_signature : VerifyError

unfoldable pub base_string : Text → List ℕ → List ℕ
base_string timestamp body = utf8 (codes "v0:" ++ timestamp ++ codes ":") ++ body

module _ (crypto : Crypto) where
  open crypto use {hmac_sha256, hex_encode, hex_decode, ct_eq}

  unfoldable pub sign : Text → Text → List ℕ → Text
  sign secret timestamp body =
      codes "v0=" ++ hex_encode (hmac_sha256 (utf8 secret) (base_string timestamp body))

  unfoldable pub verify : Text → Text → List ℕ → Text → ℤ → Result (Unit {0}) VerifyError
  verify secret timestamp body signature now_unix = do
    ts ← ok_or (parse_i64 timestamp) bad_timestamp
    if ltb_ℤ (pos 300) (abs_i64 (sub_i64 now_unix ts)) then err stale else do
      hex_part ← ok_or (strip_prefix (codes "v0=") signature) bad_signature
      given ← ok_or (hex_decode hex_part) bad_signature
      if ct_eq (hmac_sha256 (utf8 secret) (base_string timestamp body)) given
          then ok tt
          else err bad_signature
