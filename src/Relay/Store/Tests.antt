-- ===== src/Relay/Store/Tests.antt =====
-- Saving and tokens, with a toy encoding and digest.
use slack_claude_remote.Prelude.{◌≡◌, refl, false, ok}
use slack_claude_remote.Samples.Encoding.{store_codec}
use slack_claude_remote.Samples.Worlds.{no_disk}
use slack_claude_remote.Relay.Store.{read_file, load, empty_store}

missing_file : load store_codec (read_file false no_disk) ≡ ok empty_store
unfolding load read_file
missing_file = refl
