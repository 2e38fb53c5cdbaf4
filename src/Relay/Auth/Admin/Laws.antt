-- ===== src/Relay/Auth/Admin/Laws.antt =====
-- Who is signed in, and who gets a token.
use slack_claude_remote.Prelude.{
  ℕ, ◌≤◌, length, ◌≡◌, ◌≢◌, refl, sym, ap, ◌∙◌, ◌⊎◌, inl, inr, true, Option, some, List, [], ◌∷◌,
  ◌++◌, arith, Bool-cases, Option-cases, Result-cases, ◌>>=?◌ as ◌>>=◌,
}
use slack_claude_remote.Prelude.Int.{ℤ}
use slack_claude_remote.Prelude.Text.{
  Text, text_eq, text_eq_iff, text_eq_refl, is_empty, contains, trim,
}
use slack_claude_remote.Http.{Response}
use slack_claude_remote.Relay.Store.{Store, token_ok}
use slack_claude_remote.Relay.Session.{take_pending}
use slack_claude_remote.Relay.Session.Laws.{take_pending_once}
use slack_claude_remote.Relay.State.{AppState}
use slack_claude_remote.Relay.Routes.Env.{Env}
use slack_claude_remote.Relay.Auth.Oidc.{IdClaims, parse_id_token}
use slack_claude_remote.Relay.Auth.Oidc.Laws.{IsIdToken, parse_id_token_iff}
use slack_claude_remote.Relay.Auth.Admin.{
  redirect_uri, current_user, add_user, add_token, token_record, admit, exchange_code,
  code_and_state, callback,
}
use slack_claude_remote.Relay.Auth.Admin.Commit.{IsSynced, commit_lem}

contains_last : (xs : List Text) (x : Text) → contains (xs ++ x ∷ []) x ≡ true
unfolding contains
contains_last [] x = ground (arith, text_eq_refl x)
contains_last (y ∷ ys) x = ground (arith, contains_last ys x)

module _ (env : Env) where
  -- What `tokens` has done: the user is logged in, the label is good, and the token is accepted from
  -- now on; or the store is as it was, and the answer is no page.
  abbrev pub IsIssued :
      List Text → List ℕ → Text → Text → ℤ → AppState → Response × AppState → Type 0
  IsIssued cookies body token created now s (answer, t) =
      ((user typed label : Text) × (current_user s cookies now ≡ some user)
        × (env.forms.token_label body ≡ some typed)
        × (label ≡ trim typed)
        × (1 ≤ length label)
        × (length label ≤ 64)
        × (answer.status ≡ 200)
        × (t.store ≡ add_token env (token_record env token label created) s.store)
        × (token_ok env.crypto t.store token ≡ true))
      ⊎ (answer.status ≢ 200) × (t.store ≡ s.store)

  contains-add_user :
      (sub : Text) (store : Store) → contains (add_user env sub store).users sub ≡ true
  contains-add_user sub store = elim (Bool-cases (contains store.users sub)) [
    | inl known ↦ rw known known
    | inr new ↦ rw new (contains_last store.users sub)
  ]

  -- Who was admitted, and why.
  abbrev pub IsAdmitted : Text → AppState → AppState → Type 0
  IsAdmitted sub s t = (sub ≡ s.cfg.admin_user) × (sub ≢ []) × (contains t.store.users sub ≡ true)

  admit_lem :
      (sub sid : Text) (now : ℤ) (s : AppState)
      → IsSynced env s
      → IsSynced env (admit env sub sid now s).1
        × (((admit env sub sid now s).1.sessions ≡ s.sessions)
            ⊎ IsAdmitted sub s (admit env sub sid now s).1)
  unfolding admit is_empty
  admit_lem sub sid now s synced = elim (Bool-cases (is_empty s.cfg.admin_user)) [
    | inl nobody ↦ rw (nobody, admit) (synced, inl refl)
    | inr somebody ↦ elim (Bool-cases (text_eq sub s.cfg.admin_user)) [
      | inr other ↦ rw (somebody, other, admit) (synced, inl refl)
      | inl same ↦
          let c = commit_lem env (add_user env sub) s synced in
          elim (c.1.1) [
            | inr (failed, _) ↦
                rw (somebody, same, failed, admit) (c.0, inl (ap (λ t. t.sessions) (c.1.0)))
            | inl (done, changed) ↦
                rw (somebody, same, done, admit)
                  (
                    c.0,
                    inr (
                      (text_eq_iff sub s.cfg.admin_user).0 same,
                      (λ missing.
                          let empty : is_empty s.cfg.admin_user ≡ true =
                            ap is_empty
                              (sym ((text_eq_iff sub s.cfg.admin_user).0 same) ∙ missing) in
                          absurd (ground arith)),
                      ap (λ st. contains st.users sub) changed ∙ contains-add_user sub s.store,
                    ),
                  )
          ]
    ]
  ]

  module _ (decode : Text → Option (List ℕ))
      (exchange : (code client_id client_secret redirect : Text) → Option Text) where
    -- A login that Slack confirms: the query names a login attempt that is pending, the code is
    -- exchanged for an id_token that is good for this attempt, and its subject is the admin.
    pub record IsConfirmed (query : Option Text) (now : ℤ) (s t : AppState) : Type 0 where
      pub code : Text
      pub login_state : Text
      pub asked :
          code_and_state env decode exchange (query >>= env.forms.callback_query)
          ≡ some (code, login_state)
      pub nonce : Text
      pub pending : (take_pending login_state now s.sessions).0 ≡ some nonce
      pub id_token : Text
      pub exchanged :
          exchange code s.cfg.client_id s.cfg.client_secret (redirect_uri s) ≡ some id_token
      pub claims : IdClaims
      pub good : IsIdToken env.json decode id_token s.cfg.client_id nonce now claims
      pub admitted : IsAdmitted claims.sub s t

    -- A login changes the cookies only if Slack confirms it: the query names a pending login attempt,
    -- the code is exchanged for an id_token that is good for this attempt and client, and its subject
    -- is the admin, who is then an allowed user. Memory and state file stay in agreement.
    pub callback_lem :
        (query : Option Text) (sid : Text) (now : ℤ) (s : AppState)
        → IsSynced env s
        → IsSynced env (callback env decode exchange query sid now s).1
          × (((callback env decode exchange query sid now s).1.sessions.cookies
                ≡ s.sessions.cookies)
              ⊎ IsConfirmed query now s (callback env decode exchange query sid now s).1)
    unfolding callback exchange_code
    callback_lem query sid now s synced =
        elim (Option-cases
          (code_and_state env decode exchange (query >>= env.forms.callback_query))) [
            | inl missing ↦ rw (missing, callback) (synced, inl refl)
            | inr ((code, login_state), asked) ↦
                let taken = record s { sessions = (take_pending login_state now s.sessions).1 } in
                let kept = (take_pending_once login_state [] now now s.sessions).2 in
                elim (Option-cases (take_pending login_state now s.sessions).0) [
                  | inl late ↦ rw (asked, late, callback) (synced, inl kept)
                  | inr (nonce, pending) ↦
                      elim (Option-cases
                        (exchange code s.cfg.client_id s.cfg.client_secret (redirect_uri s))) [
                          | inl failed ↦
                              rw (asked, pending, failed, callback, exchange_code)
                                (synced, inl kept)
                          | inr (id_token, exchanged) ↦
                              elim (Result-cases (
                                parse_id_token env.json decode id_token s.cfg.client_id nonce
                                  now)) [
                                    | inr (e, bad) ↦
                                        rw (asked, pending, exchanged, bad, callback, exchange_code)
                                          (synced, inl kept)
                                    | inl (claims, good) ↦
                                        let a = admit_lem claims.sub sid now taken synced in
                                        rw
                                          (asked, pending, exchanged, good, callback, exchange_code)
                                          (
                                            a.0,
                                            elim (a.1) [
                                              | inl same ↦ inl (ap (λ x. x.cookies) same ∙ kept)
                                              | inr admitted ↦ inr (record {
                                                code = code;
                                                login_state = login_state;
                                                asked = asked;
                                                nonce = nonce;
                                                pending = pending;
                                                id_token = id_token;
                                                exchanged = exchanged;
                                                claims = claims;
                                                good =
                                                    (parse_id_token_iff env.json decode id_token
                                                        s.cfg.client_id nonce now claims).0
                                                      good;
                                                admitted = admitted;
                                              })
                                            ],
                                          )
                                  ]
                        ]
                ]
          ]
