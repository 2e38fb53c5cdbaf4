-- ===== src/Relay/Auth/Admin/Tests.antt =====
-- The admin signs in and issues a token.
use slack_claude_remote.Prelude.{ℕ, ap, ok_or, ◌≡◌, refl, ◌⊎◌, Option, none, some, List, [], ◌∷◌}
use slack_claude_remote.Prelude.Int.{pos, add_i64}
use slack_claude_remote.Prelude.Text.{Text, is_empty, contains, codes, text_eq, trim, strip_prefix}
use slack_claude_remote.Prelude.Map.{lookup, insert, remove}
use slack_claude_remote.Samples.Encoding.{store_codec}
use slack_claude_remote.Http.{Response}
use slack_claude_remote.Json.{last_value}
use slack_claude_remote.Samples.Environment.{toy_env, toy_forms}
use slack_claude_remote.Samples.Trees.{
  Tree, text, number, object, to_members, tree_get, tree_str, tree_i64, tree_object, tree_json,
}
use slack_claude_remote.Relay.Routes.Env.{Env}
use slack_claude_remote.Samples.Worlds.{world, ann}
use slack_claude_remote.Relay.Store.{invalid_data, load, read_file}
use slack_claude_remote.Relay.Session.{begin, take_pending, no_logins, create_cookie, user_for}
use slack_claude_remote.Relay.State.{AppState, start}
use slack_claude_remote.Relay.Auth.Oidc.{split_on, trim_equals, parse_id_token}
use slack_claude_remote.Relay.Auth.Admin.{
  store_eq, admit, exchange_code, current_user, add_user, commit, callback,
}
use slack_claude_remote.Relay.Auth.Admin.Commit.{IsSynced, IsCommitted, commit_lem}
use slack_claude_remote.Relay.Auth.Admin.Laws.{IsConfirmed, callback_lem}

-- The sample state after a save, with a cookie of the admin.
abbrev signed_in : AppState
signed_in = record world {
  disk = record { file = some (store_codec.to_bytes world.store); tmp = none };
  sessions = (create_cookie (codes "c1") ann (pos 1000) world.sessions).1;
}

synced : IsSynced toy_env signed_in
unfolding load read_file
synced = ap (λ o. ok_or o invalid_data) (store_codec.from_bytes-to_bytes world.store)

abbrev cookies : List Text
cookies = codes "a=b; sccr_sid=c1" ∷ []

known_user : current_user signed_in cookies (pos 1001) ≡ some ann
unfolding current_user split_on trim strip_prefix codes user_for create_cookie lookup insert text_eq
    start add_i64
known_user = refl

commit_lem_example :
    IsSynced toy_env (commit toy_env (add_user toy_env (codes "U2")) signed_in).1
    × IsCommitted toy_env
        (add_user toy_env (codes "U2"))
        signed_in
        (commit toy_env (add_user toy_env (codes "U2")) signed_in)
commit_lem_example = commit_lem toy_env (add_user toy_env (codes "U2")) signed_in synced

abbrev decode : Text → Option (List ℕ)
decode t = some t

abbrev exchange : (code client_id client_secret redirect : Text) → Option Text
exchange code client_id client_secret redirect = some (codes "h.p.s")

abbrev payload : Tree
payload = object (
    to_members (
      (codes "iss", text (codes "https://slack.com"))
      ∷ (codes "aud", text [])
      ∷ (codes "nonce", text (codes "n1"))
      ∷ (codes "exp", number (pos 2000))
      ∷ (codes "sub", text ann)
      ∷ []))

-- Every payload is that object, and every query has the code "1" and the state "st".
abbrev login_env : Env
login_env = record toy_env {
  json = record tree_json { parse_bytes = λ bs. some payload };
  forms = record toy_forms {
    callback_query = λ q. some (record { code = some (codes "1"); state = some (codes "st") });
  };
}

abbrev attempting : AppState
attempting = record signed_in {
  sessions = (begin (codes "st") (codes "n1") (pos 1000) no_logins).1;
}

abbrev admitted : Response × AppState
admitted = callback login_env decode exchange (some []) (codes "c2") (pos 1001) attempting

cookie_made : user_for (codes "c2") (pos 1002) admitted.1.sessions ≡ some ann
unfolding callback exchange_code admit commit take_pending begin create_cookie user_for lookup
    insert remove add_i64 parse_id_token split_on trim_equals codes text_eq last_value tree_get
    tree_str tree_i64 tree_object to_members start store_eq is_empty contains
cookie_made = refl

callback_lem_example :
    IsSynced login_env admitted.1
    × ((admitted.1.sessions.cookies ≡ attempting.sessions.cookies)
        ⊎ IsConfirmed login_env decode exchange (some []) (pos 1001) attempting admitted.1)
callback_lem_example =
    callback_lem login_env decode exchange (some []) (codes "c2") (pos 1001) attempting synced
