-- ===== src/Agent/Ws/Tests.antt =====
-- A client that cannot connect.
use slack_claude_remote.Prelude.{◌≡◌, refl, none, some, List, [], ◌∷◌, arith}
use slack_claude_remote.Prelude.Text.{codes}
use slack_claude_remote.Samples.Trees.{tree_json}
use slack_claude_remote.Samples.Messages.{message_codec}
use slack_claude_remote.Agent.Ws.{
  Backoff, Identity, identity_from, Client, Attempt, bad_request, not_connected, next_wait,
  client_run, attempt,
}
use slack_claude_remote.Agent.Ws.Tries.{AreWithin, sleeps-AreWithin}

abbrev delays : Backoff
delays = record { initial = 1000; max = 30000 }

abbrev self : Identity
self = identity_from none (codes "mac") (some (codes "proj")) (codes "/a/proj")

named : self.name ≡ codes "mac:proj"
unfolding identity_from codes
named = refl

abbrev fresh : Client tree_json [] message_codec delays self
fresh = record { wait = 1000; to_stdout = []; wire = [] }

abbrev offline : List (Attempt tree_json [] message_codec delays self)
offline =
    not_connected ∷ not_connected ∷ bad_request ∷ not_connected ∷ not_connected ∷ not_connected ∷ []

waits :
    (client_run tree_json [] message_codec delays self offline fresh).0
    ≡ 1000 ∷ 2000 ∷ 4000 ∷ 8000 ∷ 16000 ∷ 30000 ∷ []
unfolding client_run attempt next_wait
waits = refl

sleeps-AreWithin_example :
    AreWithin tree_json [] message_codec delays self
      (client_run tree_json [] message_codec delays self offline fresh).0
sleeps-AreWithin_example =
    sleeps-AreWithin tree_json [] message_codec delays self offline fresh (omega arith)
      (omega arith) (omega arith)
