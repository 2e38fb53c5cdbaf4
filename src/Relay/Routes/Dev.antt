-- ===== src/Relay/Routes/Dev.antt =====
-- The development route (crates/relay/src/routes/dev.rs) and the health check of routes.rs.
use slack_claude_remote.Prelude.{ℕ, none, some, List, [], ◌∷◌, ok, err}
use slack_claude_remote.Prelude.Text.{Text, codes}
use slack_claude_remote.Http.{Response}
use slack_claude_remote.Protocol.{inbound}
use slack_claude_remote.Relay.Hub.{send}
use slack_claude_remote.Relay.State.{AppState}
use slack_claude_remote.Relay.Routes.Env.{Env}

abbrev plain : ℕ → Text → Response
plain code text = record {
  status = code;
  headers = (codes "content-type", codes "text/plain; charset=utf-8") ∷ [];
  body = text;
}

unfoldable pub inject : Env → List ℕ → AppState → Response × AppState
inject env body s = elim (env.forms.inject_body body) [
  | none ↦ (plain 400 (codes "bad request"), s)
  | some req ↦
      let (sent, hub) = send req.session (inbound req.chat_id req.user req.text) s.hub in
      let after = record s { hub = hub } in
      elim sent [
        | ok _ ↦ (plain 200 (codes "ok"), after)
        | err _ ↦ (plain 409 (codes "offline"), after)
      ]
]

unfoldable pub healthz : Response
healthz = plain 200 (codes "ok")
