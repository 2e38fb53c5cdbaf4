-- ===== src/Relay/Session.antt =====
-- Login attempts and cookie sessions (crates/relay/src/auth/session.rs).
-- `random_token` draws from the operating system: the tokens it returned are arguments.
pub mod Laws
mod Tests
use slack_claude_remote.Prelude.{Option, none, some, [], if◌then◌else◌}
use slack_claude_remote.Prelude.Int.{ℤ, pos, add_i64, ltb_ℤ}
use slack_claude_remote.Prelude.Text.{Text, text_eq}
use slack_claude_remote.Prelude.Map.{Map, lookup, insert, remove}

pub record Sessions : Type 0 where
  pub pending : Map (Text × ℤ)
  pub cookies : Map (Text × ℤ)

abbrev pub no_logins : Sessions
no_logins = record { pending = []; cookies = [] }

-- The state and the nonce are the two tokens drawn.
unfoldable pub begin : (login_state nonce : Text) → ℤ → Sessions → (Text × Text) × Sessions
begin login_state nonce now s = (
  (login_state, nonce),
  record s { pending = insert login_state (nonce, add_i64 now (pos 600)) s.pending },
)

-- A value that counts while `now < expires`.
abbrev unexpired : ℤ → Text × ℤ → Option Text
unexpired now (value, expires) = if ltb_ℤ now expires then some value else none

unfoldable pub take_pending : Text → ℤ → Sessions → Option Text × Sessions
take_pending login_state now s = elim (lookup login_state s.pending) [
  | none ↦ (none, s)
  | some entry ↦ (unexpired now entry, record s { pending = remove login_state s.pending })
]

unfoldable pub create_cookie : (sid user : Text) → ℤ → Sessions → Text × Sessions
create_cookie sid user now s =
    (sid, record s { cookies = insert sid (user, add_i64 now (pos 86400)) s.cookies })

unfoldable pub user_for : Text → ℤ → Sessions → Option Text
user_for sid now s = elim (lookup sid s.cookies) [ none ↦ none | some entry ↦ unexpired now entry ]
