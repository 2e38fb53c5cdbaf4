-- ===== src/Relay/Permission/Tests.antt =====
-- The cases of crates/relay/src/permission/tests.rs.
use slack_claude_remote.Prelude.{◌≡◌, refl, ◌↔◌, none, some, [], ◌∷◌}
use slack_claude_remote.Prelude.Int.{pos}
use slack_claude_remote.Prelude.Text.{
  codes, text_eq, is_ascii_lowercase, to_ascii_lowercase, trim, split_where,
}
use slack_claude_remote.Prelude.Map.{Map}
use slack_claude_remote.Protocol.{allow, deny}
use slack_claude_remote.Samples.Worlds.{mac_proj, ann, thread, bound, asked}
use slack_claude_remote.Relay.Store.{Binding}
use slack_claude_remote.Relay.Permission.{
  Pending, parse_verdict, behavior_of, is_older, latest_binding,
}
use slack_claude_remote.Relay.Permission.Grammar.{IsVerdict, parse_verdict_iff}

accepted :
    (parse_verdict (codes "yes abcde") ≡ some (codes "abcde", allow))
    × (parse_verdict (codes "  N  ABCDE ") ≡ some (codes "abcde", deny))
unfolding parse_verdict behavior_of trim split_where to_ascii_lowercase is_ascii_lowercase text_eq
    codes
accepted = (refl, refl)

refused :
    (parse_verdict (codes "yes abcle") ≡ none)
    × (parse_verdict (codes "yes abcd") ≡ none)
    × (parse_verdict (codes "yes abcde please") ≡ none)
    × (parse_verdict (codes "yeah abcde") ≡ none)
    × (parse_verdict (codes "hello") ≡ none)
unfolding parse_verdict behavior_of trim split_where to_ascii_lowercase is_ascii_lowercase text_eq
    codes
refused = (refl, refl, refl, refl, refl)

parse_verdict_iff_example :
    (parse_verdict (codes "y abcde") ≡ some (codes "abcde", allow))
    ↔ IsVerdict (codes "y abcde") (codes "abcde") allow
parse_verdict_iff_example = parse_verdict_iff (codes "y abcde") (codes "abcde") allow

abbrev waiting : Map Pending
waiting = (codes "abcde", asked) ∷ []

abbrev older : Binding
older = record { session = mac_proj; user = ann; created = pos 10 }

abbrev bindings : Map Binding
bindings = (thread, bound) ∷ (codes "C1:0.5", older) ∷ []

newest : latest_binding bindings mac_proj ≡ some (thread, bound)
unfolding latest_binding is_older text_eq codes
newest = refl
