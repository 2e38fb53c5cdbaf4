-- ===== src/Relay/Routes/App/Tests.antt =====
-- A request of nobody, and one that injects in development mode.
use slack_claude_remote.Prelude.{ℕ, ◌≡◌, refl, false, true, Option, none, some, List, [], arith}
use slack_claude_remote.Prelude.Int.{pos}
use slack_claude_remote.Prelude.Text.{Text, codes, text_eq}
use slack_claude_remote.Http.{Response, status_only}
use slack_claude_remote.Samples.Worlds.{world}
use slack_claude_remote.Samples.Environment.{toy_env}
use slack_claude_remote.Relay.State.{start}
use slack_claude_remote.Relay.Auth.Admin.{current_user}
use slack_claude_remote.Relay.Routes.App.{
  get, post, Routed, to, no_such_path, no_such_method, dev_inject, router, find_route, Incoming,
  Moment, app,
}
use slack_claude_remote.Relay.Routes.App.Strangers.{IsStranger, IsHarmless, app-IsHarmless}

abbrev nobody : Incoming
nobody = record {
  method = post;
  path = codes "/slack/events";
  headers = λ name. none;
  cookies = [];
  query = none;
  body = [];
  upgrade = none;
}

abbrev moment : Moment
moment = record {
  now = pos 1000;
  later = pos 1000;
  first_draw = codes "a";
  second_draw = codes "b";
  today = [];
}

abbrev decode : Text → Option (List ℕ)
decode t = some t

abbrev exchange : (code client_id client_secret redirect : Text) → Option Text
exchange code client_id client_secret redirect = none

abbrev axum : Routed → Response
axum r = status_only 404

stranger : IsStranger toy_env decode exchange axum nobody moment world
unfolding current_user
stranger = record {
  unsigned = λ f. cc (f.timestamp_is);
  no_cookie = refl;
  no_attempt = λ code login_state e. cc;
  no_token = λ token e. cc;
}

app-IsHarmless_example :
    IsHarmless toy_env decode exchange axum world
      (app toy_env decode exchange axum nobody moment world)
unfolding start
app-IsHarmless_example =
    app-IsHarmless toy_env decode exchange axum nobody moment world (omega arith) refl stranger

routed :
    (find_route post (codes "/dev/inject") (router true) ≡ to dev_inject)
    × (find_route post (codes "/dev/inject") (router false) ≡ no_such_path)
    × (find_route get (codes "/tokens") (router false) ≡ no_such_method)
unfolding find_route text_eq codes
routed = (refl, refl, refl)
