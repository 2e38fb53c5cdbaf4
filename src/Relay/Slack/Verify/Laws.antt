-- ===== src/Relay/Slack/Verify/Laws.antt =====
-- Which requests are accepted, and that those that Slack signs are.
use slack_claude_remote.Prelude.{
  ℕ, sym, ap, ◌∙◌, [], ◌∷◌, append_assoc, some, List, ◌++◌, ok, ◌≡◌, refl, ◌↔◌, ◌⊎◌, inl, inr,
  arith, Option-cases,
}
use slack_claude_remote.Prelude.Int.{ℤ, IsTime}
use slack_claude_remote.Prelude.Text.{
  Text, codes, utf8, utf8_char, parse_i64, parse_i64-IsI64, strip_prefix, strip_prefix-append,
  append_of_strip_prefix,
}
use slack_claude_remote.Crypto.{Crypto}
use slack_claude_remote.Relay.Slack.Verify.{base_string, sign, verify}
use slack_claude_remote.Relay.Slack.Verify.Window.{IsClose, IsAntipode, fresh_iff}

utf8-append : (s t : Text) → utf8 (s ++ t) ≡ utf8 s ++ utf8 t
unfolding utf8
utf8-append [] t = refl
utf8-append (c ∷ s) t = rw (utf8-append s t) (append_assoc (utf8_char c) (utf8 s) (utf8 t))

-- The bytes that Slack documents as signed: "v0", the timestamp and the body, with colons between
-- them.
abbrev pub signed_bytes : Text → List ℕ → List ℕ
signed_bytes timestamp body = utf8 (codes "v0:") ++ utf8 timestamp ++ utf8 (codes ":") ++ body

base_string-signed_bytes :
    (timestamp : Text) (body : List ℕ) → base_string timestamp body ≡ signed_bytes timestamp body
unfolding base_string
base_string-signed_bytes timestamp body =
    ap (λ x. x ++ body)
      (utf8-append (codes "v0:" ++ timestamp) (codes ":")
        ∙ ap (λ x. x ++ utf8 (codes ":")) (utf8-append (codes "v0:") timestamp))

module _ (crypto : Crypto) (secret timestamp : Text) (body : List ℕ) (signature : Text)
    (now : ℤ) where
  open crypto use {hmac_sha256, hex_decode, hex_encode, ct_eq}

  -- The timestamp is a fresh number, and the signature is "v0=" and a hexadecimal form of the MAC of
  -- what is signed.
  pub record IsSigned : Type 0 where
    pub ts : ℤ
    pub number : parse_i64 timestamp ≡ some ts
    pub fresh : IsClose now ts ⊎ IsAntipode now ts
    pub hex : Text
    pub prefixed : signature ≡ codes "v0=" ++ hex
    pub mac : hex_decode hex ≡ some (hmac_sha256 (utf8 secret) (signed_bytes timestamp body))

  verify_sound : IsTime now → verify crypto secret timestamp body signature now ≡ ok tt → IsSigned
  unfolding verify
  verify_sound time e = elim (Option-cases (parse_i64 timestamp)) [
    | inl missing ↦ absurd (ground arith)
    | inr (ts, number) ↦ elim (Option-cases (strip_prefix (codes "v0=") signature)) [
      | inl missing ↦ absurd (ground arith)
      | inr (hex, stripped) ↦ elim (Option-cases (hex_decode hex)) [
        | inl missing ↦ absurd (ground arith)
        | inr (given, decoded) ↦
            let mac = hmac_sha256 (utf8 secret) (base_string timestamp body) in
            let same_mac =
              ap (hmac_sha256 (utf8 secret)) (base_string-signed_bytes timestamp body) in
            record {
              ts = ts;
              number = number;
              fresh = (fresh_iff now ts time (parse_i64-IsI64 timestamp number)).0 (ground arith);
              hex = hex;
              prefixed = append_of_strip_prefix (codes "v0=") signature stripped;
              mac = (ground (arith, crypto.ct_eq_iff mac given) ∙ ap some same_mac);
            }
      ]
    ]
  ]

  verify_complete :
      IsTime now → IsSigned → verify crypto secret timestamp body signature now ≡ ok tt
  unfolding verify
  verify_complete time s =
      let mac = hmac_sha256 (utf8 secret) (base_string timestamp body) in
      let same_mac =
        ap (hmac_sha256 (utf8 secret)) (sym (base_string-signed_bytes timestamp body)) in
      let young = (fresh_iff now s.ts time (parse_i64-IsI64 timestamp s.number)).1 s.fresh in
      rw (
        s.number,
        young,
        s.prefixed,
        strip_prefix-append (codes "v0=") s.hex,
        s.mac ∙ ap some same_mac,
        (crypto.ct_eq_iff mac mac).1 refl,
      )

  -- With a clock between 0 and 2^62, a request is accepted exactly when its timestamp is a number
  -- that is within 300 seconds of the clock (or exactly 2^63 seconds before it) and its signature
  -- is "v0=" before a hexadecimal form of the MAC, under the secret, of the bytes of "v0:", of the
  -- timestamp, of ":" and of the body, in this order.
  pub verify_iff :
      IsTime now → (verify crypto secret timestamp body signature now ≡ ok tt) ↔ IsSigned
  verify_iff time = (verify_sound time, verify_complete time)

-- What `sign` makes is accepted while its timestamp is within 300 seconds of the clock.
pub verify-sign :
    (crypto : Crypto) (secret timestamp : Text) (body : List ℕ) (now ts : ℤ)
    → IsTime now
    → parse_i64 timestamp ≡ some ts
    → IsClose now ts
    → verify crypto secret timestamp body (sign crypto secret timestamp body) now ≡ ok tt
unfolding sign
verify-sign crypto secret timestamp body now ts time number close =
    let mac = crypto.hmac_sha256 (utf8 secret) (base_string timestamp body) in
    (verify_iff crypto secret timestamp body (sign crypto secret timestamp body) now time).1
      (record {
        ts = ts;
        number = number;
        fresh = inl close;
        hex = crypto.hex_encode mac;
        prefixed = refl;
        mac =
            crypto.hex_decode-hex_encode mac (crypto.hmac_sha256-IsBytes _ _)
            ∙ ap (λ x. some (crypto.hmac_sha256 (utf8 secret) x))
                (base_string-signed_bytes timestamp body);
      })
