-- ===== src/Relay/Slack/Verify/Tests.antt =====
-- Signed requests, with a toy MAC.
use slack_claude_remote.Prelude.{◌≡◌, refl, ◌↔◌, [], ok, err, arith}
use slack_claude_remote.Prelude.Int.{pos, sub_i64, abs_i64}
use slack_claude_remote.Prelude.Text.{codes, parse_i64}
use slack_claude_remote.Samples.Worlds.{toy_crypto}
use slack_claude_remote.Relay.Slack.Verify.{stale, verify}
use slack_claude_remote.Relay.Slack.Verify.Laws.{IsSigned, verify_iff}

too_old : verify toy_crypto (codes "s") (codes "1000") [] (codes "v0=") (pos 1301) ≡ err stale
unfolding verify parse_i64 sub_i64 abs_i64 codes
too_old = refl

verify_iff_example :
    (verify toy_crypto (codes "s") (codes "1000") [] (codes "v0=") (pos 1301) ≡ ok tt)
    ↔ IsSigned toy_crypto (codes "s") (codes "1000") [] (codes "v0=") (pos 1301)
verify_iff_example =
    verify_iff toy_crypto (codes "s") (codes "1000") [] (codes "v0=") (pos 1301) (omega arith)
