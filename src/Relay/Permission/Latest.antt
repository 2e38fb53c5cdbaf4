-- ===== src/Relay/Permission/Latest.antt =====
-- The thread that a prompt goes to.
use slack_claude_remote.Prelude.{
  ◌≡◌, refl, sym, ap, subst, ◌∙◌, ◌≢◌, ◌⊎◌, inl, inr, Bool, true, false, none, some, [], ◌∷◌, All,
  retain, arith, Bool-cases,
}
use mathlib.Core.List.{Memᴰ}
use slack_claude_remote.Prelude.Text.{
  Text, text_eq, text_eq_iff, text_lt_irrefl, text_lt_trans, text_lt_connex,
}
use slack_claude_remote.Prelude.Map.{Map}
use slack_claude_remote.Relay.Store.{Binding}
use slack_claude_remote.Relay.Permission.{is_older, max_from, latest_of, latest_binding}

is_older_irrefl : (x : Text × Binding) → is_older x x ≡ false
unfolding is_older
is_older_irrefl (k, b) = ground (arith, text_lt_irrefl k)

-- "not older" is transitive, as the order is total.
not_older_trans :
    (x y z : Text × Binding) → is_older x y ≡ false → is_older y z ≡ false → is_older x z ≡ false
unfolding is_older
not_older_trans (k, b) (l, c) (m, d) h e = ground (
  arith,
  text_lt_connex k l,
  text_lt_connex l m,
  text_lt_trans l k m,
  text_lt_trans m l k,
  text_lt_trans k m l,
  text_lt_irrefl k,
  text_lt_irrefl m,
)

-- What holds of the pair that `max_by` keeps.
record IsMax (x : Text × Binding) (bs : Map Binding) : Type 0 where
  listed : Memᴰ x bs
  newest : All (λ y. is_older x y ≡ false) bs

not_older-All :
    (x y : Text × Binding) (bs : Map Binding)
    → is_older x y ≡ false
    → All (λ z. is_older y z ≡ false) bs
    → All (λ z. is_older x z ≡ false) bs
not_older-All x y [] h k = tt
not_older-All x y (z ∷ bs) h (p, k) = (not_older_trans x y z h p, not_older-All x y bs h k)

is_older_asym : (x y : Text × Binding) → is_older x y ≡ true → is_older y x ≡ false
unfolding is_older
is_older_asym (k, b) (l, c) h =
    ground (arith, text_lt_irrefl k, text_lt_irrefl l, text_lt_trans k l k)

max_from-IsMax : (best : Text × Binding) (bs : Map Binding) → IsMax (max_from best bs) (best ∷ bs)
unfolding max_from
max_from-IsMax best [] = record { listed = Memᴰ.head refl; newest = (is_older_irrefl best, tt) }
max_from-IsMax best (b ∷ bs) = elim (Bool-cases (is_older b best)) [
  | inl older ↦
      let m = max_from-IsMax best bs in
      rw older (record {
        listed = widen m.listed;
        newest = (
          m.newest.0,
          (not_older_trans _ best b m.newest.0 (is_older_asym b best older), m.newest.1),
        );
      })
  | inr newer ↦
      let m = max_from-IsMax b bs in
      rw newer (record {
        listed = Memᴰ.tail m.listed;
        newest = (not_older_trans _ b best m.newest.0 newer, m.newest);
      })
]
  where
    widen : {x : Text × Binding} → Memᴰ x (best ∷ bs) → Memᴰ x (best ∷ b ∷ bs)
    widen (Memᴰ.head e) = Memᴰ.head e
    widen (Memᴰ.tail m) = Memᴰ.tail (Memᴰ.tail m)

module _ (session : Text) where
  abbrev is_of : Text × Binding → Bool
  is_of (_, b) = text_eq b.session session

  none_of_session : (bs : Map Binding) → retain is_of bs ≡ [] → All (λ y. y.1.session ≢ session) bs
  none_of_session [] e = tt
  none_of_session ((k, b) ∷ bs) e = elim (Bool-cases (text_eq b.session session)) [
    | inl here ↦ absurd (ground arith)
    | inr other ↦ (ground (arith, text_eq_iff b.session session), none_of_session bs (ground arith))
  ]

  retain_listed :
      (x : Text × Binding) (bs : Map Binding)
      → Memᴰ x (retain is_of bs)
      → Memᴰ x bs × (x.1.session ≡ session)
  retain_listed x [] m = elim m [ ]
  retain_listed x ((k, b) ∷ bs) m = elim (Bool-cases (text_eq b.session session)) [
    | inl here ↦
        kept (λ n. retain_listed x bs n) ((text_eq_iff b.session session).0 here) (rw here at m)
    | inr other ↦ let (m', same) = retain_listed x bs (rw other at m) in (Memᴰ.tail m', same)
  ]
    where
      kept :
          (Memᴰ x (retain is_of bs) → Memᴰ x bs × (x.1.session ≡ session))
          → b.session ≡ session
          → Memᴰ x ((k, b) ∷ retain is_of bs)
          → Memᴰ x ((k, b) ∷ bs) × (x.1.session ≡ session)
      kept earlier here (Memᴰ.head e) = (Memᴰ.head e, ap (λ y. y.1.session) e ∙ here)
      kept earlier here (Memᴰ.tail n) = let (m', same) = earlier n in (Memᴰ.tail m', same)

  retain-All :
      (P : Text × Binding → Type 0) (bs : Map Binding)
      → All P (retain is_of bs)
      → All (λ y. y.1.session ≡ session → P y) bs
  retain-All P [] h = tt
  retain-All P ((k, b) ∷ bs) h = elim (Bool-cases (text_eq b.session session)) [
    | inl here ↦ let (p, h') = (rw here at h) in (λ _. p, retain-All P bs h')
    | inr other ↦ (
      λ same. absurd (ground (arith, text_eq_iff b.session session)),
      retain-All P bs (rw other at h),
    )
  ]

-- The prompt goes to a binding of the session that has no older one: of the highest `created`, and
-- among those of the greatest chat_id. There is none exactly if no binding is of the session.
pub latest_binding_lem :
    (bindings : Map Binding) (session : Text)
    → (latest_binding bindings session ≡ none) × All (λ y. y.1.session ≢ session) bindings
      ⊎ ((x : Text × Binding) × (latest_binding bindings session ≡ some x)
          × Memᴰ x bindings
          × (x.1.session ≡ session)
          × All (λ y. y.1.session ≡ session → is_older x y ≡ false) bindings)
unfolding latest_binding
latest_binding_lem bindings session = by_kept (retain (is_of session) bindings) refl
  where
    by_kept :
        (kept : Map Binding)
        → retain (is_of session) bindings ≡ kept
        → (latest_of (retain (is_of session) bindings) ≡ none)
            × All (λ y. y.1.session ≢ session) bindings
          ⊎ ((x : Text × Binding) × (latest_of (retain (is_of session) bindings) ≡ some x)
              × Memᴰ x bindings
              × (x.1.session ≡ session)
              × All (λ y. y.1.session ≡ session → is_older x y ≡ false) bindings)
    by_kept [] e = inl (ap latest_of e, none_of_session session bindings e)
    by_kept (b ∷ bs) e =
        let m = max_from-IsMax b bs in
        let (listed, same) =
          retain_listed session (max_from b bs) bindings
            (subst (Memᴰ (max_from b bs)) (sym e) m.listed) in
        inr (
          max_from b bs,
          ap latest_of e,
          listed,
          same,
          retain-All session (λ y. is_older (max_from b bs) y ≡ false) bindings
              (subst (All (λ y. is_older (max_from b bs) y ≡ false)) (sym e) m.newest),
        )
