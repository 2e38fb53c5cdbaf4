-- ===== src/Relay/Routes/App/Strangers.antt =====
-- What a request can do that comes from nobody the relay knows.
use slack_claude_remote.Prelude.{
  ℕ, ◌≡◌, ◌≢◌, refl, sym, ap, ◌∙◌, inl, inr, ◌⊎◌, false, Option, none, some, List, [], ◌∷◌, ◌++◌,
  arith, Bool-cases, Option-cases, ◌>>=?◌ as ◌>>=◌,
}
use slack_claude_remote.Prelude.Int.{IsTime}
use slack_claude_remote.Prelude.Text.{Text, codes, text_eq}
use slack_claude_remote.Http.{Response, status_only}
use slack_claude_remote.Relay.Session.{take_pending, begin}
use slack_claude_remote.Relay.Session.Laws.{take_pending_once}
use slack_claude_remote.Relay.State.{AppState}
use slack_claude_remote.Relay.Store.{token_ok}
use slack_claude_remote.Relay.Routes.Env.{Env}
use slack_claude_remote.Relay.Routes.Webhooks.Signed.{IsFromSlack, unsigned_refused}
use slack_claude_remote.Relay.Routes.Agents.{Upgrade, refused, accepted, handler}
use slack_claude_remote.Relay.Routes.Agents.Laws.{handler_iff}
use slack_claude_remote.Relay.Auth.Admin.{
  current_user, code_and_state, login, callback, tokens, found,
}
use slack_claude_remote.Relay.Routes.App.{
  Method, Endpoint, healthz_page, slack_events, slack_commands, slack_interactions, agent_socket,
  login_page, auth_callback, root_page, new_token, dev_inject, Route, Routed, to, no_such_path,
  no_such_method, router, allows, find_route, Incoming, Moment, Served, answered, endpoint_serve,
  app,
}

abbrev HasNo : Endpoint → List Route → Type 0
HasNo endpoint [] = Unit
HasNo endpoint (r ∷ rs) = (r.endpoint ≢ endpoint) × HasNo endpoint rs

find_route-ne :
    (method : Method) (path : Text) (endpoint : Endpoint) (rs : List Route)
    → HasNo endpoint rs
    → find_route method path rs ≢ to endpoint
unfolding find_route
find_route-ne method path endpoint [] h = λ e. cc
find_route-ne method path endpoint (r ∷ rs) (other, h) = λ e.
    elim (Bool-cases (text_eq r.path path)) [
      | inr elsewhere ↦ find_route-ne method path endpoint rs h (rw (elsewhere, find_route) at e)
      | inl at_path ↦ elim (Bool-cases (allows r.verb method)) [
        | inl allowed ↦
            let same : to r.endpoint ≡ to endpoint = rw (at_path, allowed, find_route) at e in
            other (cc same)
        | inr denied ↦
            let same : no_such_method ≡ to endpoint = rw (at_path, denied, find_route) at e in
            absurd (cc same)
      ]
    ]

public_routes : HasNo dev_inject (router false)
public_routes = (
  (λ e. cc),
  (
    (λ e. cc),
    ((λ e. cc), ((λ e. cc), ((λ e. cc), ((λ e. cc), ((λ e. cc), ((λ e. cc), ((λ e. cc), tt))))))),
  ),
)

Routed-cases :
    (r : Routed)
    → ((endpoint : Endpoint) × (r ≡ to endpoint)) ⊎ ((r ≡ no_such_path) ⊎ (r ≡ no_such_method))
Routed-cases (to endpoint) = inl (endpoint, refl)
Routed-cases no_such_path = inr (inl refl)
Routed-cases no_such_method = inr (inr refl)

module _ (env : Env) (decode : Text → Option (List ℕ))
    (exchange : (code client_id client_secret redirect : Text) → Option Text)
    (axum : Routed → Response) where
  -- Not signed by Slack, with no cookie of a session, with no login attempt that is pending, and with
  -- no token of an agent.
  pub record IsStranger (req : Incoming) (m : Moment) (s : AppState) : Type 0 where
    pub unsigned : ¬ IsFromSlack env s req.headers req.body m.now
    pub no_cookie : current_user s req.cookies m.now ≡ none
    pub no_attempt :
        (code login_state : Text)
        → code_and_state env decode exchange (req.query >>= env.forms.callback_query)
          ≡ some (code, login_state)
        → (take_pending login_state m.now s.sessions).0 ≡ none
    pub no_token :
        (token : Text)
        → req.headers (codes "authorization") ≡ some (codes "Bearer " ++ token)
        → token_ok env.crypto s.store token ≡ false

  -- Nothing but the login attempts has changed, nothing is spawned, and no agent connects.
  pub record IsHarmless (s : AppState) (served : Served) : Type 0 where
    pub state_is : served.state ≡ record s { sessions = served.state.sessions }
    pub cookies_are : served.state.sessions.cookies ≡ s.sessions.cookies
    pub nothing_spawned : served.spawned ≡ none
    pub not_connected : served.connects ≡ false

  Upgrade-cases : (u : Upgrade) → (u ≡ accepted) ⊎ ((r : Response) × (u ≡ refused r))
  Upgrade-cases accepted = inl refl
  Upgrade-cases (refused r) = inr (r, refl)

  unchanged :
      (s : AppState) (served : Served)
      → served.state ≡ s
      → served.spawned ≡ none
      → served.connects ≡ false
      → IsHarmless s served
  unchanged s served same quiet apart = record {
    state_is = rw same refl;
    cookies_are = rw same refl;
    nothing_spawned = quiet;
    not_connected = apart;
  }

  endpoint-IsHarmless :
      (endpoint : Endpoint) (req : Incoming) (m : Moment) (s : AppState)
      → IsTime m.now
      → endpoint ≢ dev_inject
      → s.cfg.dev ≡ false
      → IsStranger req m s
      → IsHarmless s (endpoint_serve env decode exchange axum endpoint req m s)
  unfolding endpoint_serve login begin callback tokens
  endpoint-IsHarmless healthz_page req m s time other live h = unchanged s _ refl refl refl
  endpoint-IsHarmless slack_events req m s time other live h =
      let (refusal, _, _) = unsigned_refused env s req.headers req.body m.now time h.unsigned in
      unchanged s _ refl (ap (λ x. x.1) refusal) refl
  endpoint-IsHarmless slack_commands req m s time other live h =
      let (_, refusal, _) = unsigned_refused env s req.headers req.body m.now time h.unsigned in
      unchanged s _ (ap (λ x. x.1) refusal) refl refl
  endpoint-IsHarmless slack_interactions req m s time other live h =
      let (_, _, refusal) = unsigned_refused env s req.headers req.body m.now time h.unsigned in
      unchanged s _ (ap (λ x. x.1) (refusal m.later)) refl refl
  endpoint-IsHarmless agent_socket req m s time other live h =
      elim (Upgrade-cases (handler env.crypto s req.headers req.upgrade)) [
        | inr (response, refusal) ↦
            rw (refusal, endpoint_serve) (unchanged s (answered (response, s)) refl refl refl)
        | inl connected ↦
            let (token, bearer, allowed, _) =
              (handler_iff env.crypto s req.headers req.upgrade).0 connected in
            absurd (ground (arith, h.no_token token bearer))
      ]
  endpoint-IsHarmless login_page req m s time other live h = record {
    state_is = refl;
    cookies_are = refl;
    nothing_spawned = refl;
    not_connected = refl;
  }
  endpoint-IsHarmless auth_callback req m s time other live h =
      elim (Option-cases
        (code_and_state env decode exchange (req.query >>= env.forms.callback_query))) [
          | inl missing ↦
              rw (missing, endpoint_serve, callback)
                (unchanged s (answered (status_only 401, s)) refl refl refl)
          | inr ((code, login_state), asked) ↦
              let nothing = h.no_attempt code login_state asked in
              rw (asked, nothing, endpoint_serve, callback)
                (record {
                  state_is = refl;
                  cookies_are = (take_pending_once login_state [] m.now m.now s.sessions).2;
                  nothing_spawned = refl;
                  not_connected = refl;
                })
        ]
  endpoint-IsHarmless root_page req m s time other live h = unchanged s _ refl refl refl
  endpoint-IsHarmless new_token req m s time other live h =
      rw (h.no_cookie, endpoint_serve, tokens)
        (unchanged s (answered (found (codes "/login"), s)) refl refl refl)
  endpoint-IsHarmless dev_inject req m s time other live h = absurd (other refl)

  -- Outside development mode a request of any method to any path that is not signed by Slack, has no
  -- cookie of a session, names no login attempt that is pending and carries no token of an agent
  -- changes nothing but the pending login attempts; no handling of a message is spawned, and no agent
  -- connects.
  pub app-IsHarmless :
      (req : Incoming) (m : Moment) (s : AppState)
      → IsTime m.now
      → s.cfg.dev ≡ false
      → IsStranger req m s
      → IsHarmless s (app env decode exchange axum req m s)
  unfolding app
  app-IsHarmless req m s time live h =
      elim (Routed-cases (find_route req.method req.path (router s.cfg.dev))) [
        | inr (inl gone) ↦ rw (gone, app) (unchanged s _ refl refl refl)
        | inr (inr wrong) ↦ rw (wrong, app) (unchanged s _ refl refl refl)
        | inl (endpoint, found_there) ↦
            let not_dev : endpoint ≢ dev_inject = λ e.
              find_route-ne req.method req.path dev_inject (router false) public_routes (
                ap (λ d. find_route req.method req.path (router d)) (sym live)
                ∙ found_there
                ∙ ap to e) in
            rw (found_there, app) (endpoint-IsHarmless endpoint req m s time not_dev live h)
      ]
