-- ===== src/Relay/Main/Restart.antt =====
-- What a restart finds.
use slack_claude_remote.Prelude.{◌≡◌, sym, ap, ◌∙◌, false, List, [], ◌∷◌, ok}
use slack_claude_remote.Http.{Reqwest}
use slack_claude_remote.Relay.Store.{Store, read_file, load}
use slack_claude_remote.Relay.State.{AppState, start}
use slack_claude_remote.Relay.Routes.Env.{Env}
use slack_claude_remote.Relay.Auth.Admin.{commit}
use slack_claude_remote.Relay.Auth.Admin.Commit.{IsSynced, commit_lem}
use slack_claude_remote.Relay.Main.{Relay, System, start_relay}
use slack_claude_remote.Relay.Main.Laws.{start_relay-IsStarted}

module _ (env : Env) where
  -- Changes of the store one after the other, whatever becomes of their saves.
  unfoldable pub commit_all : List (Store → Store) → AppState → AppState
  commit_all [] s = s
  commit_all (change ∷ changes) s = commit_all changes (commit env change s).1

  commit_all-IsSynced :
      (changes : List (Store → Store)) (s : AppState)
      → IsSynced env s
      → IsSynced env (commit_all changes s)
  unfolding commit_all
  commit_all-IsSynced [] s synced = synced
  commit_all-IsSynced (change ∷ changes) s synced =
      commit_all-IsSynced changes (commit env change s).1 (commit_lem env change s synced).0

  -- A relay that starts on the disk that another left has the store that the other had in memory,
  -- after any changes of users and tokens and whichever of their saves failed, if the other had
  -- started with what was on its disk.
  pub restart_lem :
      (reqwest : Reqwest) (system : System) (changes : List (Store → Store)) (s : AppState)
      (relay : Relay)
      → IsSynced env s
      → system.disk ≡ (commit_all changes s).disk
      → system.refused ≡ false
      → start_relay env.store_codec reqwest system ≡ ok relay
      → relay.state.store ≡ (commit_all changes s).store
  unfolding start
  restart_lem reqwest system changes s relay synced same_disk readable starts =
      let started = start_relay-IsStarted env.store_codec reqwest system relay starts in
      let again = commit_all-IsSynced changes s synced in
      let found : ok started.store ≡ ok (commit_all changes s).store =
        sym started.loaded
        ∙ ap (λ d. load env.store_codec (read_file system.refused d)) same_disk
        ∙ ap (λ b. load env.store_codec (read_file b (commit_all changes s).disk)) readable
        ∙ again in
      let stores : started.store ≡ (commit_all changes s).store = cc in
      ap (λ t. t.store) started.state_is ∙ stores
