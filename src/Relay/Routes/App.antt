-- ===== src/Relay/Routes/App.antt =====
-- The routing table and what is behind it (crates/relay/src/routes.rs, and `router` of
-- crates/relay/src/auth/routes.rs). What axum answers itself, to a path or a method of no route, is an
-- argument; a request that it refuses before the handler, as one with too large a body, is left out.
pub mod Strangers
mod Tests
use slack_claude_remote.Prelude.{
  ℕ, Bool, true, false, Option, none, some, List, [], ◌∷◌, ◌++◌, if◌then◌else◌,
}
use slack_claude_remote.Prelude.Int.{ℤ}
use slack_claude_remote.Prelude.Text.{Text, codes, text_eq}
use slack_claude_remote.Http.{Headers, Response}
use slack_claude_remote.Relay.Slack.Events.{Candidate}
use slack_claude_remote.Relay.State.{AppState}
use slack_claude_remote.Relay.Routes.Env.{Env}
use slack_claude_remote.Relay.Routes.Webhooks.{events, commands, interactions}
use slack_claude_remote.Relay.Routes.Agents.{Upgrade, refused, accepted, handler}
use slack_claude_remote.Relay.Routes.Dev.{inject, healthz}
use slack_claude_remote.Relay.Auth.Admin.{login, callback, root, tokens}

-- `get` of axum takes HEAD as well.
pub data Method : Type 0 where
  get head post other_method : Method

pub data Endpoint : Type 0 where
  healthz_page slack_events slack_commands slack_interactions agent_socket : Endpoint
  login_page auth_callback root_page new_token dev_inject : Endpoint

pub data Verb : Type 0 where
  by_get by_post : Verb

pub record Route : Type 0 where
  pub path : Text
  pub verb : Verb
  pub endpoint : Endpoint

abbrev auth_routes : List Route
auth_routes =
    record { path = codes "/login"; verb = by_get; endpoint = login_page }
    ∷ record { path = codes "/auth/callback"; verb = by_get; endpoint = auth_callback }
    ∷ record { path = codes "/"; verb = by_get; endpoint = root_page }
    ∷ record { path = codes "/tokens"; verb = by_post; endpoint = new_token }
    ∷ []

abbrev dev_route : Route
dev_route = record { path = codes "/dev/inject"; verb = by_post; endpoint = dev_inject }

abbrev pub router : (dev : Bool) → List Route
router dev =
    record { path = codes "/healthz"; verb = by_get; endpoint = healthz_page }
      ∷ record { path = codes "/slack/events"; verb = by_post; endpoint = slack_events }
      ∷ record { path = codes "/slack/commands"; verb = by_post; endpoint = slack_commands }
      ∷ record { path = codes "/slack/interactions"; verb = by_post; endpoint = slack_interactions }
      ∷ record { path = codes "/agent/ws"; verb = by_get; endpoint = agent_socket }
      ∷ auth_routes
    ++ (if dev then dev_route ∷ [] else [])

abbrev pub allows : Verb → Method → Bool
allows by_get get = true
allows by_get head = true
allows by_post post = true
allows _ _ = false

-- The endpoint of a request, or the status that axum answers.
pub data Routed : Type 0 where
  to : Endpoint → Routed
  no_such_path no_such_method : Routed

unfoldable pub find_route : Method → Text → List Route → Routed
find_route method path [] = no_such_path
find_route method path (r ∷ rs) =
    let rest = find_route method path rs in
    if text_eq r.path path
    then (if allows r.verb method then to r.endpoint else no_such_method)
    else rest

-- A request, with `upgrade` the answer to one that cannot be upgraded to a WebSocket.
pub record Incoming : Type 0 where
  pub method : Method
  pub path : Text
  pub headers : Headers
  pub cookies : List Text
  pub query : Option Text
  pub body : List ℕ
  pub upgrade : Option Response

-- What is drawn at random or read from the clock while a request is served.
pub record Moment : Type 0 where
  pub now : ℤ
  pub later : ℤ
  pub first_draw : Text
  pub second_draw : Text
  pub today : Text

-- What comes of a request: the answer, the state, the message whose handling is spawned, and whether
-- a connection of an agent begins.
pub record Served : Type 0 where
  pub response : Option Response
  pub state : AppState
  pub spawned : Option (Text × Option Candidate)
  pub connects : Bool

abbrev pub answered : Response × AppState → Served
answered (response, s) = record {
  response = some response;
  state = s;
  spawned = none;
  connects = false;
}

abbrev upgraded : AppState → Upgrade → Served
upgraded s (refused response) = answered (response, s)
upgraded s accepted = record { response = none; state = s; spawned = none; connects = true }

module _ (env : Env) (decode : Text → Option (List ℕ))
    (exchange : (code client_id client_secret redirect : Text) → Option Text)
    (axum : Routed → Response) where
  unfoldable pub endpoint_serve : Endpoint → Incoming → Moment → AppState → Served
  endpoint_serve healthz_page req m s = answered (healthz, s)
  endpoint_serve slack_events req m s =
      let (response, spawned) = events env s req.headers req.body m.now in
      record { response = some response; state = s; spawned = spawned; connects = false }
  endpoint_serve slack_commands req m s = answered (commands env s req.headers req.body m.now)
  endpoint_serve slack_interactions req m s =
      answered (interactions env s req.headers req.body m.now m.later)
  endpoint_serve agent_socket req m s = upgraded s (handler env.crypto s req.headers req.upgrade)
  endpoint_serve login_page req m s = answered (login m.first_draw m.second_draw m.now s)
  endpoint_serve auth_callback req m s =
      answered (callback env decode exchange req.query m.first_draw m.now s)
  endpoint_serve root_page req m s = answered (root env req.cookies m.now s, s)
  endpoint_serve new_token req m s =
      answered (tokens env req.cookies req.body m.first_draw m.today m.now s)
  endpoint_serve dev_inject req m s = answered (inject env req.body s)

  abbrev serve_routed : Routed → Incoming → Moment → AppState → Served
  serve_routed (to endpoint) req m s = endpoint_serve endpoint req m s
  serve_routed no_such_path req m s = answered (axum no_such_path, s)
  serve_routed no_such_method req m s = answered (axum no_such_method, s)

  -- The application on a request.
  unfoldable pub app : Incoming → Moment → AppState → Served
  app req m s = serve_routed (find_route req.method req.path (router s.cfg.dev)) req m s
