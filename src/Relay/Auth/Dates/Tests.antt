-- ===== src/Relay/Auth/Dates/Tests.antt =====
-- The dates of crates/relay/src/auth/routes/tests.rs and others.
use slack_claude_remote.Prelude.{◌≡◌, refl}
use slack_claude_remote.Prelude.Int.{pos, negsuc, ◌+ℤ◌}
use slack_claude_remote.Prelude.Text.{codes, decimal, decimal_padded}
use slack_claude_remote.Relay.Auth.Dates.{div_euclid, rem_euclid, civil, rfc3339}
use slack_claude_remote.Relay.Auth.Dates.Laws.{IsDateOf, civil-IsDateOf}

epoch : rfc3339 (pos 0) ≡ codes "1970-01-01T00:00:00Z"
unfolding rfc3339 civil div_euclid rem_euclid decimal decimal_padded codes ◌+ℤ◌
epoch = refl

leap_day : rfc3339 (pos 951827696) ≡ codes "2000-02-29T12:34:56Z"
unfolding rfc3339 civil div_euclid rem_euclid decimal decimal_padded codes ◌+ℤ◌
leap_day = refl

before : rfc3339 (negsuc 0) ≡ codes "1969-12-31T23:59:59Z"
unfolding rfc3339 civil div_euclid rem_euclid decimal decimal_padded codes ◌+ℤ◌
before = refl

civil-IsDateOf_example : IsDateOf 11016 (civil (pos 11016))
civil-IsDateOf_example = civil-IsDateOf 11016
