-- ===== src/Crypto.antt =====
-- The crates hmac, sha2, hex and subtle, which the program calls: their operations on bytes and
-- what is documented of them.
use slack_claude_remote.Prelude.{ℕ, ◌<◌, ◌≡◌, ◌↔◌, Bool, true, Option, some, List, All}
use slack_claude_remote.Prelude.Text.{Text}

abbrev pub IsBytes : List ℕ → Type 0
IsBytes bs = All (λ b. b < 256) bs

pub record Crypto : Type 0 where
  pub hmac_sha256 : (key message : List ℕ) → List ℕ
  pub sha256 : List ℕ → List ℕ
  pub hex_encode : List ℕ → Text
  pub hex_decode : Text → Option (List ℕ)
  pub ct_eq : List ℕ → List ℕ → Bool
  pub hmac_sha256-IsBytes : (key message : List ℕ) → IsBytes (hmac_sha256 key message)
  pub hex_decode-hex_encode : (bs : List ℕ) → IsBytes bs → hex_decode (hex_encode bs) ≡ some bs
  pub ct_eq_iff : (xs ys : List ℕ) → (ct_eq xs ys ≡ true) ↔ (xs ≡ ys)
