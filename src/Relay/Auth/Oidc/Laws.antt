-- ===== src/Relay/Auth/Oidc/Laws.antt =====
-- Which tokens are accepted, and that encoding loses nothing.
use slack_claude_remote.Prelude.{
  ℕ, ◌≡◌, ◌↔◌, inl, inr, true, Option, some, List, ok, arith, Option-cases,
}
use slack_claude_remote.Prelude.Int.{ℤ, ltb_ℤ}
use slack_claude_remote.Prelude.Text.{Text, codes, text_eq_iff, text_eq_refl}
use slack_claude_remote.Json.{Json, str_field}
use slack_claude_remote.Relay.Auth.Oidc.{
  IdClaims, payload_part, split_on, trim_equals, claim_i64, check_claims, parse_id_token,
}

module _ (json : Json) (decode : Text → Option (List ℕ)) (jwt client_id nonce : Text)
    (now : ℤ) where
  open json use {Value, is_object, parse_bytes}

  -- A token in three parts whose payload is a JSON object with the claims that are asked for.
  pub record IsIdToken (claims : IdClaims) : Type 0 where
    pub part : Text
    pub part_is : payload_part (split_on b'.' jwt) ≡ some part
    pub bytes : List ℕ
    pub bytes_are : decode (trim_equals part) ≡ some bytes
    pub value : Value
    pub value_is : parse_bytes bytes ≡ some value
    pub object : is_object value ≡ true
    pub issued_by : str_field json value (codes "iss") ≡ some (codes "https://slack.com")
    pub for_client : str_field json value (codes "aud") ≡ some client_id
    pub for_login : str_field json value (codes "nonce") ≡ some nonce
    pub exp : ℤ
    pub exp_is : claim_i64 json decode value (codes "exp") ≡ some exp
    pub later : ltb_ℤ now exp ≡ true
    pub subject : str_field json value (codes "sub") ≡ some claims.sub
    pub name : str_field json value (codes "name") ≡ claims.name

  IsIdToken-complete :
      (claims : IdClaims)
      → IsIdToken claims
      → parse_id_token json decode jwt client_id nonce now ≡ ok claims
  unfolding parse_id_token check_claims
  IsIdToken-complete claims t =
      ground (
        arith,
        text_eq_refl (codes "https://slack.com"),
        text_eq_refl client_id,
        text_eq_refl nonce,
      )

  IsIdToken-sound :
      (claims : IdClaims)
      → parse_id_token json decode jwt client_id nonce now ≡ ok claims
      → IsIdToken claims
  unfolding parse_id_token check_claims
  IsIdToken-sound claims e = elim (Option-cases (payload_part (split_on b'.' jwt))) [
    | inl missing ↦ absurd (ground arith)
    | inr (part, part_is) ↦ elim (Option-cases (decode (trim_equals part))) [
      | inl missing ↦ absurd (ground arith)
      | inr (bytes, bytes_are) ↦ elim (Option-cases (parse_bytes bytes)) [
        | inl missing ↦ absurd (ground arith)
        | inr (value, value_is) ↦ elim (Option-cases (str_field json value (codes "iss"))) [
          | inl missing ↦ absurd (ground arith)
          | inr (iss, issued_by) ↦ elim (Option-cases (str_field json value (codes "aud"))) [
            | inl missing ↦ absurd (ground arith)
            | inr (aud, for_client) ↦ elim (Option-cases (str_field json value (codes "nonce"))) [
              | inl missing ↦ absurd (ground arith)
              | inr (given, for_login) ↦
                  elim (Option-cases (claim_i64 json decode value (codes "exp"))) [
                    | inl missing ↦ absurd (ground arith)
                    | inr (exp, exp_is) ↦ elim (Option-cases (str_field json value (codes "sub"))) [
                      | inl missing ↦ absurd (ground arith)
                      | inr (sub, subject) ↦ record {
                        part = part;
                        part_is = part_is;
                        bytes = bytes;
                        bytes_are = bytes_are;
                        value = value;
                        value_is = value_is;
                        object = ground arith;
                        issued_by = ground (arith, text_eq_iff iss (codes "https://slack.com"));
                        for_client = ground (arith, text_eq_iff aud client_id);
                        for_login = ground (arith, text_eq_iff given nonce);
                        exp = exp;
                        exp_is = exp_is;
                        later = ground arith;
                        subject = ground arith;
                        name = ground arith;
                      }
                    ]
                  ]
            ]
          ]
        ]
      ]
    ]
  ]

  pub parse_id_token_iff :
      (claims : IdClaims)
      → (parse_id_token json decode jwt client_id nonce now ≡ ok claims) ↔ IsIdToken claims
  parse_id_token_iff claims = (IsIdToken-sound claims, IsIdToken-complete claims)
