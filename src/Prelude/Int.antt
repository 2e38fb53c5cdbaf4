-- ===== src/Prelude/Int.antt =====
-- Signed integers over the native numbers, and the wrap-around of Rust's `i64`.
-- `checked` arithmetic is not used by the program: a release build wraps, as here.
use Prim.Native.Nat.{ℕ, suc, ◌+◌, ◌-◌, ◌%◌, ◌^◌, ◌≤◌, ◌<◌}
use mathlib.Core.Path.{◌≡◌}
use mathlib.Core.Logic.{◌↔◌}
use mathlib.Core.Bool.{Bool, true, false}
use native.Mathlib.Omega.{arith}
use slack_claude_remote.Prelude.Tests.{ltb, leb, if◌then◌else◌}

-- `negsuc n` is -(n + 1).
pub data ℤ : Type 0 where
  pos : ℕ → ℤ
  negsuc : ℕ → ℤ

abbrev pub pos_part : ℤ → ℕ
pos_part (pos n) = n
pos_part (negsuc n) = 0

abbrev pub neg_part : ℤ → ℕ
neg_part (pos n) = 0
neg_part (negsuc n) = suc n

-- a - b, as an integer.
abbrev pub sub_ℕ : ℕ → ℕ → ℤ
sub_ℕ a b = if leb b a then pos (a - b) else negsuc (b - a - 1)

infixl 65 ◌+ℤ◌ ◌-ℤ◌
infix 50 ◌≤ℤ◌
unfoldable pub ◌+ℤ◌ : ℤ → ℤ → ℤ
a +ℤ b = sub_ℕ (pos_part a + pos_part b) (neg_part a + neg_part b)

unfoldable pub ◌-ℤ◌ : ℤ → ℤ → ℤ
a -ℤ b = sub_ℕ (pos_part a + neg_part b) (neg_part a + pos_part b)

abbrev pub ◌≤ℤ◌ : ℤ → ℤ → Type 0
a ≤ℤ b = pos_part a + neg_part b ≤ pos_part b + neg_part a

abbrev pub ltb_ℤ : ℤ → ℤ → Bool
ltb_ℤ a b = ltb (pos_part a + neg_part b) (pos_part b + neg_part a)

abbrev pub leb_ℤ : ℤ → ℤ → Bool
leb_ℤ a b = leb (pos_part a + neg_part b) (pos_part b + neg_part a)

abbrev pub eqb_ℤ : ℤ → ℤ → Bool
eqb_ℤ a b = if leb_ℤ a b then leb_ℤ b a else false

pub eqb_ℤ_iff : (a b : ℤ) → (eqb_ℤ a b ≡ true) ↔ (a ≡ b)
eqb_ℤ_iff a b = ground arith

-- The range of `i64`.
abbrev pub IsI64 : ℤ → Type 0
IsI64 a = (pos_part a < 2 ^ 63) × (neg_part a ≤ 2 ^ 63)

-- The `i64` that has the low 64 bits of an integer.
unfoldable pub wrap_i64 : ℤ → ℤ
wrap_i64 (pos n) = let m = n % 2 ^ 64 in if ltb m (2 ^ 63) then pos m else negsuc (2 ^ 64 - 1 - m)
wrap_i64 (negsuc n) =
    let m = n % 2 ^ 64 in if ltb m (2 ^ 63) then negsuc m else pos (2 ^ 64 - 1 - m)

pub wrap_i64-IsI64 : (a : ℤ) → IsI64 (wrap_i64 a)
unfolding wrap_i64
wrap_i64-IsI64 (pos n) = ground arith
wrap_i64-IsI64 (negsuc n) = ground arith

pub wrap_i64_of_IsI64 : (a : ℤ) → IsI64 a → wrap_i64 a ≡ a
unfolding wrap_i64
wrap_i64_of_IsI64 (pos n) h = ground arith
wrap_i64_of_IsI64 (negsuc n) h = ground arith

-- `a + b`, `a - b` and `a.abs()` on `i64`.
unfoldable pub add_i64 : ℤ → ℤ → ℤ
unfolding wrap_i64 ◌+ℤ◌
add_i64 a b = wrap_i64 (a +ℤ b)

unfoldable pub sub_i64 : ℤ → ℤ → ℤ
unfolding wrap_i64 ◌-ℤ◌
sub_i64 a b = wrap_i64 (a -ℤ b)

unfoldable pub abs_i64 : ℤ → ℤ
unfolding wrap_i64
abs_i64 (pos n) = pos n
abs_i64 (negsuc n) = wrap_i64 (pos (suc n))

-- Times of the clock: seconds since 1970, far below the limit of `i64`.
abbrev pub IsTime : ℤ → Type 0
IsTime t = (pos_part t < 2 ^ 62) × (neg_part t ≡ 0)

pub add_i64_lem : (a : ℤ) (n : ℕ) → IsTime a → n < 2 ^ 62 → add_i64 a (pos n) ≡ pos (pos_part a + n)
unfolding add_i64
add_i64_lem (pos a) n h k = ground arith
add_i64_lem (negsuc a) n h k = absurd (omega arith)

pub sub_i64_lem : (a b : ℤ) → IsTime a → IsTime b → sub_i64 a b ≡ sub_ℕ (pos_part a) (pos_part b)
unfolding sub_i64
sub_i64_lem (pos a) (pos b) h k = ground arith
sub_i64_lem (pos a) (negsuc b) h k = absurd (omega arith)
sub_i64_lem (negsuc a) b h k = absurd (omega arith)
