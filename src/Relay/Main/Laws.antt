-- ===== src/Relay/Main/Laws.antt =====
-- What a relay that starts has, and which failures stop it.
use slack_claude_remote.Prelude.{
  ◌≡◌, ◌⊎◌, inl, inr, true, false, none, ok, arith, Bool-cases, Option-cases, Result-cases,
}
use slack_claude_remote.Http.{Reqwest}
use slack_claude_remote.Relay.Config.{Config, from_env}
use slack_claude_remote.Relay.Store.{Store, StoreCodec, read_file, load}
use slack_claude_remote.Relay.Slack.Http.{new_client}
use slack_claude_remote.Relay.State.{start}
use slack_claude_remote.Relay.Main.{
  SlackClient, log_slack, calling, Relay, System, start_relay, choose_slack,
}

module _ (codec : StoreCodec) (reqwest : Reqwest) (system : System) where
  -- What a relay was started from.
  pub record IsStarted (relay : Relay) : Type 0 where
    pub cfg : Config
    pub configured : from_env system.vars ≡ ok cfg
    pub store : Store
    pub loaded : load codec (read_file system.refused system.disk) ≡ ok store
    pub chosen :
        (cfg.dev ≡ true) × (relay.slack ≡ log_slack)
        ⊎ (cfg.dev ≡ false) × (relay.slack ≡ calling (record { bot_token = cfg.bot_token }))
    pub free : system.bind cfg.bind ≡ none
    pub address : relay.listening_on ≡ cfg.bind
    pub state_is : relay.state ≡ start cfg store system.disk system.faults

  choose_slack_lem :
      (cfg : Config) (slack : SlackClient)
      → choose_slack reqwest cfg ≡ ok slack
      → (cfg.dev ≡ true) × (slack ≡ log_slack)
        ⊎ (cfg.dev ≡ false) × (slack ≡ calling (record { bot_token = cfg.bot_token }))
  unfolding new_client
  choose_slack_lem cfg slack e = elim (Bool-cases cfg.dev) [
    | inl dev ↦ inl (dev, ground arith)
    | inr live ↦ elim (Result-cases (reqwest.build 10)) [
      | inl (_, built) ↦ inr (live, ground arith)
      | inr (_, failed) ↦ absurd (ground arith)
    ]
  ]

  -- A relay that starts has a complete configuration, the store of its state file, the client of
  -- Slack with its bot token or, only in dev mode, the one that prints, and an address that was free;
  -- nothing of an earlier run but the store is in its state.
  pub start_relay-IsStarted :
      (relay : Relay) → start_relay codec reqwest system ≡ ok relay → IsStarted relay
  unfolding start_relay
  start_relay-IsStarted relay e = elim (Result-cases (from_env system.vars)) [
    | inr (_, unset) ↦ absurd (ground arith)
    | inl (cfg, configured) ↦
        elim (Result-cases (load codec (read_file system.refused system.disk))) [
          | inr (_, unread) ↦ absurd (ground arith)
          | inl (store, loaded) ↦ elim (Result-cases (choose_slack reqwest cfg)) [
            | inr (_, unbuilt) ↦ absurd (ground arith)
            | inl (slack, chosen) ↦ elim (Option-cases (system.bind cfg.bind)) [
              | inr (_, taken) ↦ absurd (ground arith)
              | inl free ↦
                  let slack_is : relay.slack ≡ slack = ground arith in
                  record {
                    cfg = cfg;
                    configured = configured;
                    store = store;
                    loaded = loaded;
                    chosen = rw slack_is (choose_slack_lem cfg slack chosen);
                    free = free;
                    address = ground arith;
                    state_is = ground arith;
                  }
            ]
          ]
        ]
  ]
