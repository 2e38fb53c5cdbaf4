-- ===== src/Relay/Slack/Dedupe/Tests.antt =====
-- The cases of crates/relay/src/slack/events/tests.rs on `Dedupe`.
use slack_claude_remote.Prelude.{◌≡◌, ◌≤◌, refl, true, false, not, [], ◌∷◌, length}
use slack_claude_remote.Prelude.Text.{Text, contains, codes, text_eq}
use slack_claude_remote.Prelude.Sort.{IsDistinct}
use slack_claude_remote.Relay.Slack.Dedupe.{new, first_seen, feed}
use slack_claude_remote.Relay.Slack.Dedupe.Laws.{first_seen-feed}

abbrev a : Text
a = codes "a"

abbrev b : Text
b = codes "b"

abbrev c : Text
c = codes "c"

-- The third id evicts the first from a set of two, which is then new again.
evicts_oldest :
    ((first_seen (feed (new 2) (a ∷ b ∷ [])) a).0 ≡ false)
    × ((first_seen (feed (new 2) (a ∷ b ∷ c ∷ [])) a).0 ≡ true)
    × ((first_seen (feed (new 2) (a ∷ b ∷ c ∷ [])) b).0 ≡ false)
unfolding feed first_seen new text_eq codes
evicts_oldest = (refl, refl, refl)

first_seen-feed_example :
    ((first_seen (feed (new 2) (a ∷ b ∷ c ∷ [])) b).0
      ≡ not (contains (feed (new 2) (a ∷ b ∷ c ∷ [])).order b))
    × IsDistinct (feed (new 2) (a ∷ b ∷ c ∷ [])).order
    × (length (feed (new 2) (a ∷ b ∷ c ∷ [])).order ≤ (feed (new 2) (a ∷ b ∷ c ∷ [])).capacity)
first_seen-feed_example = first_seen-feed 2 (a ∷ b ∷ c ∷ []) b
