-- ===== src/Relay/Slack/Dedupe.antt =====
-- The bounded set of event ids (`Dedupe` of crates/relay/src/slack/events.rs).
pub mod Laws
pub mod Memory
mod Tests
use slack_claude_remote.Prelude.{
  ℕ, suc, Bool, true, false, not, List, [], ◌∷◌, ◌++◌, length, retain, any, ltb, if◌then◌else◌,
}
use slack_claude_remote.Prelude.Text.{Text, text_eq, contains}

-- `seen` is a hash set; its list has no order that the program observes.
pub record Dedupe : Type 0 where
  pub order : List Text
  pub seen : List Text
  pub capacity : ℕ

abbrev discard : Text → List Text → List Text
discard id xs = retain (λ x. not (text_eq x id)) xs

unfoldable pub new : ℕ → Dedupe
new capacity = record { order = []; seen = []; capacity = capacity }

-- `pop_front` and the removal of what it returns.
evict : Dedupe → List Text → Dedupe
evict d [] = d
evict d (oldest ∷ rest) = record d { order = rest; seen = discard oldest d.seen }

-- `push_back`, and the eviction that keeps the capacity.
unfoldable pub push : Dedupe → Text → Dedupe
unfolding evict
push d id =
    let grown = record d { order = d.order ++ id ∷ []; seen = id ∷ d.seen } in
    if ltb d.capacity (length grown.order) then evict grown grown.order else grown

unfoldable pub first_seen : Dedupe → Text → Bool × Dedupe
unfolding push contains
first_seen d id = if contains d.seen id then (false, d) else (true, push d id)

-- A run of calls, their answers dropped.
unfoldable pub feed : Dedupe → List Text → Dedupe
feed d [] = d
feed d (id ∷ ids) = feed (first_seen d id).1 ids
