-- ===== src/Relay/Hub/Tests.antt =====
-- The cases of crates/relay/src/hub/tests.rs.
use slack_claude_remote.Prelude.{◌≡◌, refl, ◌↔◌, List, [], ◌∷◌}
use slack_claude_remote.Prelude.Text.{codes, text_eq, text_lt}
use mathlib.Core.Quot
use slack_claude_remote.Prelude.Map.{lookup}
use slack_claude_remote.Prelude.Sort.{sort}
use slack_claude_remote.Relay.Hub.{Hub, fresh_channel, list}
use slack_claude_remote.Relay.Hub.Laws.{IsValid}
use slack_claude_remote.Relay.Hub.Table.{HubCall, answers, Table}
use slack_claude_remote.Relay.Hub.Observed.{table_iff}

abbrev two : Hub
two = record { agents = (codes "b", fresh_channel) ∷ (codes "a", fresh_channel) ∷ [] }

sorted : list two ≡ codes "a" ∷ codes "b" ∷ []
unfolding list sort text_lt codes
sorted = refl

abbrev swapped : Hub
swapped = record { agents = (codes "a", fresh_channel) ∷ (codes "b", fresh_channel) ∷ [] }

two-IsValid : IsValid two
unfolding lookup text_eq codes
two-IsValid = (refl, (refl, tt))

swapped-IsValid : IsValid swapped
unfolding lookup text_eq codes
swapped-IsValid = (refl, (refl, tt))

table_iff_example :
    (◌≡◌ {A = Table} (Quot.mk (two, two-IsValid)) (Quot.mk (swapped, swapped-IsValid)))
    ↔ ((cs : List HubCall) → answers cs two ≡ answers cs swapped)
table_iff_example = table_iff (two, two-IsValid) (swapped, swapped-IsValid)
