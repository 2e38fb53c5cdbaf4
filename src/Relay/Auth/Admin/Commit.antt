-- ===== src/Relay/Auth/Admin/Commit.antt =====
-- A commit changes the memory and the state file together, or neither.
use slack_claude_remote.Prelude.{
  ◌≡◌, refl, sym, ap, ◌∙◌, ◌↔◌, ◌⊎◌, inl, inr, Bool, true, false, List, [], ◌∷◌, ok, is_ok, arith,
  Bool-cases,
}
use slack_claude_remote.Prelude.Int.{eqb_ℤ_iff}
use slack_claude_remote.Prelude.Text.{Text, text_eq, text_eq_iff}
use slack_claude_remote.Relay.Store.{Store, TokenRecord, Binding, load, read_file}
use slack_claude_remote.Relay.Store.Laws.{load-save}
use slack_claude_remote.Relay.State.{AppState, save_store, next_fault}
use slack_claude_remote.Relay.Routes.Env.{Env}
use slack_claude_remote.Relay.Auth.Admin.{list_eq, token_eq, binding_eq, store_eq, commit}

list_eq_iff :
    {A : Type 0} (eq : A → A → Bool)
    → ((x y : A) → (eq x y ≡ true) ↔ (x ≡ y))
    → (xs ys : List A) → (list_eq eq xs ys ≡ true) ↔ (xs ≡ ys)
unfolding list_eq
list_eq_iff eq iff [] [] = (λ e. refl, λ e. refl)
list_eq_iff eq iff [] (y ∷ ys) = (λ e. cc, λ e. cc)
list_eq_iff eq iff (x ∷ xs) [] = (λ e. cc, λ e. cc)
list_eq_iff eq iff (x ∷ xs) (y ∷ ys) = ground (arith, iff x y, list_eq_iff eq iff xs ys)

token_eq_iff : (t u : TokenRecord) → (token_eq t u ≡ true) ↔ (t ≡ u)
token_eq_iff t u = ground (
  arith,
  text_eq_iff t.sha256 u.sha256,
  text_eq_iff t.label u.label,
  text_eq_iff t.created u.created,
)

binding_eq_iff : (x y : Text × Binding) → (binding_eq x y ≡ true) ↔ (x ≡ y)
binding_eq_iff (k, b) (j, c) = ground (
  arith,
  text_eq_iff k j,
  text_eq_iff b.session c.session,
  text_eq_iff b.user c.user,
  eqb_ℤ_iff b.created c.created,
)

pub store_eq_iff : (a b : Store) → (store_eq a b ≡ true) ↔ (a ≡ b)
unfolding store_eq
store_eq_iff a b = ground (
  arith,
  list_eq_iff text_eq text_eq_iff a.users b.users,
  list_eq_iff token_eq token_eq_iff a.tokens b.tokens,
  list_eq_iff binding_eq binding_eq_iff a.bindings b.bindings,
)

module _ (env : Env) where
  -- A restart would load the store that is in memory.
  abbrev pub IsSynced : AppState → Type 0
  IsSynced s = load env.store_codec (read_file false s.disk) ≡ ok s.store

  -- What a commit has done.
  abbrev pub IsCommitted : (Store → Store) → AppState → Bool × AppState → Type 0
  IsCommitted change s (done, t) =
      (t ≡ record s { store = t.store; disk = t.disk; faults = t.faults })
      × ((done ≡ true) × (t.store ≡ change s.store) ⊎ (done ≡ false) × (t.store ≡ s.store))

  save_store-Synced :
      (next : Store) (s : AppState)
      → IsSynced s
      → ((save_store env.store_codec next s).0 ≡ true)
          × (load env.store_codec (read_file false (save_store env.store_codec next s).1.disk)
              ≡ ok next)
        ⊎ ((save_store env.store_codec next s).0 ≡ false)
          × (load env.store_codec (read_file false (save_store env.store_codec next s).1.disk)
              ≡ ok s.store)
  unfolding save_store
  save_store-Synced next s synced =
      elim (load-save env.store_codec next (next_fault s.faults) s.disk) [
        | inl (fine, loaded) ↦ inl (ap is_ok fine, loaded)
        | inr (failed, same) ↦ inr (ap is_ok failed, same ∙ synced)
      ]

  -- If a restart would load the store in memory, then it would after a commit, wherever the save
  -- fails; the commit succeeds with the changed store in memory, or fails with the one of before, and
  -- changes nothing else but the disk.
  pub commit_lem :
      (change : Store → Store) (s : AppState)
      → IsSynced s
      → IsSynced (commit env change s).1 × IsCommitted change s (commit env change s)
  unfolding commit save_store
  commit_lem change s synced = elim (Bool-cases (store_eq (change s.store) s.store)) [
    | inl same ↦
        let unchanged = (store_eq_iff (change s.store) s.store).0 same in
        rw (same, commit) (synced, (refl, inl (refl, sym unchanged)))
    | inr different ↦ elim (save_store-Synced (change s.store) s synced) [
      | inl (fine, loaded) ↦ rw (different, fine, commit) (loaded, (refl, inl (refl, refl)))
      | inr (failed, loaded) ↦ rw (different, failed, commit) (loaded, (refl, inr (refl, refl)))
    ]
  ]
