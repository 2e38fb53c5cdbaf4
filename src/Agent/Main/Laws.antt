-- ===== src/Agent/Main/Laws.antt =====
-- When the client is started, and with what.
use slack_claude_remote.Prelude.{
  ◌≡◌, refl, ◌⊎◌, inl, inr, true, false, Option, none, some, [], ◌∷◌, ◌++◌, arith, Bool-cases,
  Option-cases, unwrap_or,
}
use slack_claude_remote.Prelude.Text.{Text, codes, is_empty}
use slack_claude_remote.Agent.Ws.{Identity, identity_from}
use slack_claude_remote.Agent.Main.{stdio_only, with_client, hostname, backoff, plan}

-- A variable that is set and not empty.
abbrev pub IsGiven : (Text → Option Text) → Text → Text → Type 0
IsGiven vars key value = (vars key ≡ some value) × (is_empty value ≡ false)

var-IsGiven_or_empty :
    (vars : Text → Option Text) (key : Text)
    → (is_empty (unwrap_or (vars key) []) ≡ true) ⊎ ((v : Text) × IsGiven vars key v)
unfolding is_empty
var-IsGiven_or_empty vars key = elim (Option-cases (vars key)) [
  | inl unset ↦ inl (ground arith)
  | inr (v, set) ↦ elim (Bool-cases (is_empty v)) [
    | inl blank ↦ inl (ground arith)
    | inr full ↦ inr (v, (set, full))
  ]
]

hostname_not_empty : (output : Option Text) → is_empty (hostname output) ≡ false
unfolding hostname is_empty codes
hostname_not_empty none = refl
hostname_not_empty (some output) = ground arith

is_empty-append : (s t : Text) → is_empty s ≡ false → is_empty (s ++ t) ≡ false
unfolding is_empty
is_empty-append [] t h = cc
is_empty-append (c ∷ s) t h = refl

name_not_empty :
    (session_name : Option Text) (host : Text) (file_name : Option Text) (cwd : Text)
    → is_empty host ≡ false
    → is_empty (identity_from session_name host file_name cwd).name ≡ false
unfolding identity_from
name_not_empty none host file_name cwd h =
    is_empty-append (host ++ codes ":") _ (is_empty-append host (codes ":") h)
name_not_empty (some s) host file_name cwd h = elim (Bool-cases (is_empty s)) [
  | inr named ↦ rw named named
  | inl blank ↦
      rw blank (is_empty-append (host ++ codes ":") _ (is_empty-append host (codes ":") h))
]

host_not_changed :
    (session_name : Option Text) (host : Text) (file_name : Option Text) (cwd : Text)
    → (identity_from session_name host file_name cwd).host ≡ host
unfolding identity_from
host_not_changed session_name host file_name cwd = refl

-- The agent runs the client exactly if the address of the relay and the token are both set and not
-- empty; it then uses these two, waits of 1 to 30 seconds, and a host and a session name that are not
-- empty. In every other case it runs the loop over the standard streams alone.
pub plan_lem :
    (vars : Text → Option Text) (output : Option Text) (cwd : Option (Text × Option Text))
    → ((is_empty (unwrap_or (vars (codes "SCCR_RELAY_URL")) []) ≡ true)
          ⊎ (is_empty (unwrap_or (vars (codes "SCCR_TOKEN")) []) ≡ true))
        × (plan vars output cwd ≡ stdio_only)
      ⊎ ((url : Text) × (token : Text) × (id : Identity) × IsGiven vars (codes "SCCR_RELAY_URL") url
          × IsGiven vars (codes "SCCR_TOKEN") token
          × (plan vars output cwd ≡ with_client url token id backoff)
          × (is_empty id.host ≡ false)
          × (is_empty id.name ≡ false))
unfolding plan
plan_lem vars output cwd = elim (var-IsGiven_or_empty vars (codes "SCCR_RELAY_URL")) [
  | inl no_url ↦ inl (inl no_url, ground arith)
  | inr (url, (url_set, url_full)) ↦ elim (var-IsGiven_or_empty vars (codes "SCCR_TOKEN")) [
    | inl no_token ↦ inl (inr no_token, ground arith)
    | inr (token, (token_set, token_full)) ↦
        let (directory, file_name) = unwrap_or cwd (codes "/", none) in
        let session_name = vars (codes "SCCR_SESSION_NAME") in
        let id = identity_from session_name (hostname output) file_name directory in
        let host_is : is_empty id.host ≡ false =
          rw (host_not_changed session_name (hostname output) file_name directory)
            (hostname_not_empty output) in
        inr (
          url,
          token,
          id,
          (url_set, url_full),
          (token_set, token_full),
          rw (url_set, token_set) (rw (url_full, token_full) refl),
          host_is,
          name_not_empty session_name (hostname output) file_name directory
              (hostname_not_empty output),
        )
  ]
]
