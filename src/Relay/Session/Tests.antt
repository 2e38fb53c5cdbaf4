-- ===== src/Relay/Session/Tests.antt =====
-- The cases of crates/relay/src/auth/session/tests.rs.
use slack_claude_remote.Prelude.{◌≡◌, refl, none}
use slack_claude_remote.Prelude.Int.{pos, add_i64}
use slack_claude_remote.Prelude.Text.{codes, text_eq}
use slack_claude_remote.Prelude.Map.{lookup, insert}
use slack_claude_remote.Relay.Session.{no_logins, begin, take_pending}

expires_at_600 :
    (take_pending (codes "s") (pos 1600) (begin (codes "s") (codes "n") (pos 1000) no_logins).1).0
    ≡ none
unfolding take_pending begin add_i64 insert lookup text_eq codes
expires_at_600 = refl
