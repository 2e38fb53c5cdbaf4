-- ===== src/Relay/Auth/Admin.antt =====
-- Login and the issue of agent tokens (crates/relay/src/auth/routes.rs). The date of a token is
-- an argument (Dates). `exchange` is `OidcHttp::token`; tokens that `random_token` drew are arguments.
-- `cookies` are the values of the Cookie headers that hold visible ASCII.
pub mod Commit
pub mod Laws
mod Tests
use slack_claude_remote.Prelude.{
  ℕ, Bool, true, false, Option, none, some, List, [], ◌∷◌, ◌++◌, ◌&&◌, Result, ok, err, leb, length,
  if◌then◌else◌, ◌>>=?◌ as ◌>>=◌,
}
use slack_claude_remote.Prelude.Int.{ℤ, eqb_ℤ}
use slack_claude_remote.Prelude.Text.{
  Text, codes, utf8, text_eq, is_empty, contains, trim, strip_prefix,
}
use slack_claude_remote.Prelude.Map.{Map}
use slack_claude_remote.Http.{Response, CallbackQuery, status_only}
use slack_claude_remote.Relay.Hub
use slack_claude_remote.Relay.Store.{Store, TokenRecord, Binding}
use slack_claude_remote.Relay.Session.{begin, take_pending, create_cookie, user_for}
use slack_claude_remote.Relay.State.{AppState, save_store}
use slack_claude_remote.Relay.Routes.Env.{Env}
use slack_claude_remote.Relay.Auth.Oidc.{
  IdClaims, OidcError, authorize_url, parse_id_token, split_on,
}
use slack_claude_remote.Relay.Auth.Html.{admin_page, token_page}

abbrev pub found : Text → Response
found location = record { status = 302; headers = (codes "location", location) ∷ []; body = [] }

abbrev pub html : List (Text × Text) → Text → Response
html headers page = record {
  status = 200;
  headers = (codes "content-type", codes "text/html; charset=utf-8") ∷ headers;
  body = page;
}

abbrev pub redirect_uri : AppState → Text
redirect_uri s = s.cfg.public_url ++ codes "/auth/callback"

-- `==` on stores.
module _ {ℓ} {A : Type ℓ} (eq : A → A → Bool) where
  list_eq : List A → List A → Bool
  list_eq [] [] = true
  list_eq (x ∷ xs) (y ∷ ys) = eq x y && list_eq xs ys
  list_eq _ _ = false

abbrev token_eq : TokenRecord → TokenRecord → Bool
token_eq t u = text_eq t.sha256 u.sha256 && text_eq t.label u.label && text_eq t.created u.created

abbrev binding_eq : Text × Binding → Text × Binding → Bool
binding_eq (k, b) (j, c) =
    text_eq k j && text_eq b.session c.session && text_eq b.user c.user && eqb_ℤ b.created c.created

unfoldable pub store_eq : Store → Store → Bool
unfolding list_eq
store_eq a b =
    list_eq text_eq a.users b.users
    && list_eq token_eq a.tokens b.tokens
    && list_eq binding_eq a.bindings b.bindings

-- The first pair of the cookies that is the session's.
first_sid : List Text → Option Text
first_sid [] = none
first_sid (pair ∷ pairs) = elim (strip_prefix (codes "sccr_sid=") (trim pair)) [
  | some sid ↦ some sid
  | none ↦ first_sid pairs
]

cookie_pairs : List Text → List Text
cookie_pairs [] = []
cookie_pairs (v ∷ vs) = split_on b';' v ++ cookie_pairs vs

unfoldable pub current_user : AppState → List Text → ℤ → Option Text
unfolding first_sid cookie_pairs
current_user s cookies now = do sid ← first_sid (cookie_pairs cookies); user_for sid now s.sessions

unfoldable pub login : (login_state nonce : Text) → ℤ → AppState → Response × AppState
login login_state nonce now s =
    let ((st, n), sessions) = begin login_state nonce now s.sessions in
    (found (authorize_url s.cfg.client_id (redirect_uri s) st n), record s { sessions = sessions })

module _ (env : Env) where
  open env use {json, crypto, forms, store_codec}

  unfoldable pub commit : (Store → Store) → AppState → Bool × AppState
  unfolding store_eq
  commit change s =
      let next = change s.store in
      if store_eq next s.store
      then (true, s)
      else (let (saved, s') = save_store store_codec next s in
          if saved then (true, record s' { store = next }) else (false, s'))

  abbrev pub add_user : Text → Store → Store
  add_user sub store =
      if contains store.users sub then store else record store { users = store.users ++ sub ∷ [] }

  abbrev pub cookie_header : Text → Text
  cookie_header sid =
      codes "sccr_sid=" ++ sid ++ codes "; HttpOnly; Secure; SameSite=Lax; Path=/; Max-Age=86400"

  -- The part of `callback` after the claims were accepted.
  unfoldable pub admit : Text → (sid : Text) → ℤ → AppState → Response × AppState
  unfolding commit
  admit sub sid now s =
      if is_empty s.cfg.admin_user
      then (status_only 403, s)
      else if text_eq sub s.cfg.admin_user
      then (let (saved, s') = commit (add_user sub) s in
          if saved
          then (let (cookie, sessions) = create_cookie sid sub now s'.sessions in
              (
                record {
                  status = 302;
                  headers =
                      (codes "location", codes "/")
                      ∷ (codes "set-cookie", cookie_header cookie)
                      ∷ [];
                  body = [];
                },
                record s' { sessions = sessions },
              ))
          else (status_only 500, s'))
      else (status_only 403, s)

  module _ (decode : Text → Option (List ℕ))
      (exchange : (code client_id client_secret redirect : Text) → Option Text) where
    -- The part of `callback` after the login attempt was found.
    unfoldable pub exchange_code : (code nonce sid : Text) → ℤ → AppState → Response × AppState
    unfolding admit
    exchange_code code nonce sid now s =
        elim (exchange code s.cfg.client_id s.cfg.client_secret (redirect_uri s)) [
          | none ↦ (status_only 401, s)
          | some id_token ↦ elim (parse_id_token json decode id_token s.cfg.client_id nonce now) [
            | err _ ↦ (status_only 401, s)
            | ok claims ↦ admit claims.sub sid now s
          ]
        ]

    -- `code` and `state` of the query, if both are there.
    abbrev pub code_and_state : Option CallbackQuery → Option (Text × Text)
    code_and_state query = do
      q ← query
      code ← q.code
      login_state ← q.state
      some (code, login_state)

    unfoldable pub callback : Option Text → (sid : Text) → ℤ → AppState → Response × AppState
    unfolding exchange_code
    callback query sid now s = elim (code_and_state (query >>= forms.callback_query)) [
      | none ↦ (status_only 401, s)
      | some (code, login_state) ↦
          let (nonce, sessions) = take_pending login_state now s.sessions in
          let taken = record s { sessions = sessions } in
          elim nonce [
            | none ↦ (status_only 401, taken)
            | some n ↦ exchange_code code n sid now taken
          ]
    ]

  unfoldable pub root : List Text → ℤ → AppState → Response
  root cookies now s = elim (current_user s cookies now) [
    | none ↦ found (codes "/login")
    | some user ↦ html [] (admin_page user (Hub.list s.hub) s.store.tokens)
  ]

  -- The label of the form, trimmed, of 1 to 64 characters.
  unfoldable pub label_of : List ℕ → Option Text
  label_of body = do
    label ← forms.token_label body
    let trimmed = trim label
    if leb 1 (length trimmed) && leb (length trimmed) 64 then some trimmed else none

  abbrev pub token_record : (token label created : Text) → TokenRecord
  token_record token label created = record {
    sha256 = crypto.hex_encode (crypto.sha256 (utf8 token));
    label = label;
    created = created;
  }

  abbrev pub add_token : TokenRecord → Store → Store
  add_token t store = record store { tokens = store.tokens ++ t ∷ [] }

  -- `created` is the date of the clock.
  unfoldable pub tokens :
      List Text → List ℕ → (token created : Text) → ℤ → AppState → Response × AppState
  unfolding commit label_of
  tokens cookies body token created now s = elim (current_user s cookies now) [
    | none ↦ (found (codes "/login"), s)
    | some user ↦ elim (label_of body) [
      | none ↦ (status_only 400, s)
      | some label ↦
          let (saved, s') = commit (add_token (token_record token label created)) s in
          if saved
          then (html ((codes "cache-control", codes "no-store") ∷ []) (token_page label token), s')
          else (status_only 500, s')
    ]
  ]
