-- ===== src/Relay/Slack/Verify/Window.antt =====
-- The timestamps that count as fresh, with the wrap-around of `i64`.
use slack_claude_remote.Prelude.{◌+◌, ◌^◌, ◌≤◌, ◌≡◌, ◌↔◌, ◌⊎◌, false, arith}
use slack_claude_remote.Prelude.Int.{
  ℤ, pos, negsuc, pos_part, neg_part, sub_i64, abs_i64, ltb_ℤ, IsI64, IsTime,
}

-- At most 300 seconds apart.
abbrev pub IsClose : ℤ → ℤ → Type 0
IsClose now ts =
    (pos_part now + neg_part ts ≤ pos_part ts + neg_part now + 300)
    × (pos_part ts + neg_part now ≤ pos_part now + neg_part ts + 300)

-- The one timestamp 2^63 seconds before the clock.
abbrev pub IsAntipode : ℤ → ℤ → Type 0
IsAntipode now ts = pos_part now + neg_part ts ≡ pos_part ts + neg_part now + 2 ^ 63

-- For a clock between 0 and 2^62 a timestamp passes the age test exactly when it is within 300
-- seconds of the clock, or lies exactly 2^63 seconds before it: there `abs` overflows.
pub fresh_iff :
    (now ts : ℤ)
    → IsTime now
    → IsI64 ts
    → (ltb_ℤ (pos 300) (abs_i64 (sub_i64 now ts)) ≡ false) ↔ (IsClose now ts ⊎ IsAntipode now ts)
unfolding sub_i64 abs_i64
fresh_iff (pos n) (pos t) h k = ground arith
fresh_iff (pos n) (negsuc t) h k = ground arith
fresh_iff (negsuc n) ts h k = absurd (omega arith)
