-- ===== src/Relay/Store/Laws.antt =====
-- Saving is all or nothing, and what was saved is loaded.
use slack_claude_remote.Prelude.{
  ◌≡◌, refl, subst, ◌↔◌, ◌⊎◌, inl, inr, Bool, true, false, List, [], ◌∷◌, ok, err, arith, any,
  Bool-cases,
}
use mathlib.Core.List.{Memᴰ}
use slack_claude_remote.Prelude.Text.{Text, utf8}
use slack_claude_remote.Crypto.{Crypto}
use slack_claude_remote.Relay.Store.{
  Store, StoreCodec, TokenRecord, Disk, Fault, no_fault, in_open, in_write, in_sync, in_rename,
  other_error, read_file, load, save, token_ok,
}

-- Wherever a save fails, the state file is as it was and the store that it held is loaded; a save
-- that succeeds leaves the new store to be loaded, whole.
pub load-save :
    (codec : StoreCodec) (store : Store) (fault : Fault) (disk : Disk)
    → ((save codec store fault disk).0 ≡ ok tt)
        × (load codec (read_file false (save codec store fault disk).1) ≡ ok store)
      ⊎ ((save codec store fault disk).0 ≡ err other_error)
        × (load codec (read_file false (save codec store fault disk).1)
            ≡ load codec (read_file false disk))
unfolding save load read_file
load-save codec store in_open disk = inr (refl, refl)
load-save codec store (in_write n) disk = inr (refl, refl)
load-save codec store in_sync disk = inr (refl, refl)
load-save codec store in_rename disk = inr (refl, refl)
load-save codec store no_fault disk = inl (refl, rw (codec.from_bytes-to_bytes store))

-- The tokens that a store knows: those whose hexadecimal SHA-256 digest is listed.
module _ (crypto : Crypto) where
  open crypto use {sha256, hex_encode, ct_eq}

  abbrev pub IsListed : Text → List TokenRecord → Type 0
  IsListed raw tokens =
      (t : TokenRecord) × Memᴰ t tokens × (utf8 t.sha256 ≡ utf8 (hex_encode (sha256 (utf8 raw))))

  -- An unknown token is never accepted, and a listed one always is.
  pub token_ok_iff :
      (store : Store) (raw : Text) → (token_ok crypto store raw ≡ true) ↔ IsListed raw store.tokens
  unfolding token_ok
  token_ok_iff store raw = (sound store.tokens, λ (t, m, same). complete store.tokens t m same)
    where
      test : TokenRecord → Bool
      test t = ct_eq (utf8 t.sha256) (utf8 (hex_encode (sha256 (utf8 raw))))

      sound : (ts : List TokenRecord) → any test ts ≡ true → IsListed raw ts
      sound [] e = cc
      sound (t ∷ ts) e = elim (Bool-cases (test t)) [
        | inl here ↦ (t, Memᴰ.head refl, (crypto.ct_eq_iff _ _).0 here)
        | inr not_here ↦ let (u, m, same) = sound ts (rw not_here at e) in (u, Memᴰ.tail m, same)
      ]

      complete :
          (ts : List TokenRecord) (t : TokenRecord)
          → Memᴰ t ts
          → utf8 t.sha256 ≡ utf8 (hex_encode (sha256 (utf8 raw)))
          → any test ts ≡ true
      complete [] t m same = elim m [ ]
      complete (u ∷ us) t (Memᴰ.head e) same =
          let here : test u ≡ true =
            (crypto.ct_eq_iff _ _).1
              (subst (λ r. utf8 r.sha256 ≡ utf8 (hex_encode (sha256 (utf8 raw)))) e same) in
          ground arith
      complete (u ∷ us) t (Memᴰ.tail m) same = ground (arith, complete us t m same)
