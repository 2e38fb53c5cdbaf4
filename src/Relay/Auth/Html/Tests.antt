-- ===== src/Relay/Auth/Html/Tests.antt =====
-- A name that would be a tag.
use slack_claude_remote.Prelude.{◌≡◌, refl}
use slack_claude_remote.Prelude.Text.{codes}
use slack_claude_remote.Relay.Auth.Html.{escape}

escaped : escape (codes "<b a='1'>") ≡ codes "&lt;b a=&#39;1&#39;&gt;"
unfolding escape codes
escaped = refl
