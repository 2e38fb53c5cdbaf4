-- ===== src/Relay/Session/Laws.antt =====
-- A login state works once and for ten minutes, a cookie for a day.
use slack_claude_remote.Prelude.{
  ◌+◌, ◌≡◌, refl, inl, inr, false, none, some, arith, if◌then◌else◌, ltb, Option-cases,
}
use slack_claude_remote.Prelude.Int.{ℤ, pos, pos_part, add_i64, add_i64_lem, IsTime}
use slack_claude_remote.Prelude.Text.{Text, text_eq, text_eq_iff, text_eq_refl}
use slack_claude_remote.Prelude.Map.{lookup, lookup-insert, lookup-remove}
use slack_claude_remote.Relay.Session.{Sessions, begin, take_pending, create_cookie, user_for}

-- A state that `begin` returned gives its nonce at every time before 600 seconds have passed, and
-- at none from then on.
pub take_pending-begin :
    (login_state nonce : Text) (now later : ℤ) (s : Sessions)
    → IsTime now
    → IsTime later
    → (take_pending login_state later (begin login_state nonce now s).1).0
      ≡ (if ltb (pos_part later) (pos_part now + 600) then some nonce else none)
unfolding take_pending begin
take_pending-begin login_state nonce now later s h k = ground (
  arith,
  add_i64_lem now 600 h,
  lookup-insert login_state login_state (nonce, add_i64 now (pos 600)) s.pending,
  text_eq_refl login_state,
)

-- A state can be taken once: after a first attempt, in time or not, it is unknown, and no other
-- state and no cookie has changed.
pub take_pending_once :
    (login_state other : Text) (now later : ℤ) (s : Sessions)
    → ((take_pending login_state later (take_pending login_state now s).1).0 ≡ none)
      × (lookup other (take_pending login_state now s).1.pending
          ≡ (if text_eq login_state other then none else lookup other s.pending))
      × ((take_pending login_state now s).1.cookies ≡ s.cookies)
unfolding take_pending
take_pending_once login_state other now later s =
    elim (Option-cases (lookup login_state s.pending)) [
      | inl missing ↦ (ground arith, ground (arith, text_eq_iff login_state other), ground arith)
      | inr (entry, found) ↦ (
        ground (arith, lookup-remove login_state login_state s.pending, text_eq_refl login_state),
        ground (arith, lookup-remove login_state other s.pending),
        ground arith,
      )
    ]

-- A cookie names its user at every time before 86400 seconds have passed and at none from then on,
-- and making it leaves the other cookies and the login attempts as they are.
pub user_for-create_cookie :
    (sid user other : Text) (now later : ℤ) (s : Sessions)
    → IsTime now
    → IsTime later
    → (user_for sid later (create_cookie sid user now s).1
        ≡ (if ltb (pos_part later) (pos_part now + 86400) then some user else none))
      × ((text_eq sid other ≡ false)
          → user_for other later (create_cookie sid user now s).1 ≡ user_for other later s)
      × ((create_cookie sid user now s).1.pending ≡ s.pending)
unfolding user_for create_cookie
user_for-create_cookie sid user other now later s h k = (
  ground (
    arith,
    add_i64_lem now 86400 h,
    lookup-insert sid sid (user, add_i64 now (pos 86400)) s.cookies,
    text_eq_refl sid,
  ),
  λ different. ground (arith, lookup-insert sid other (user, add_i64 now (pos 86400)) s.cookies),
  refl,
)
