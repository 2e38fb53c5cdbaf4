-- ===== src/Relay/Permission/Unordered.antt =====
-- What the pending requests and the bindings give does not depend on their order.
use slack_claude_remote.Prelude.{
  ◌≡◌, refl, sym, ap, subst, ◌∙◌, inl, inr, false, some, List, [], ◌∷◌, All, arith, Option-cases,
}
use mathlib.Core.List.{Memᴰ}
use slack_claude_remote.Prelude.Int.{ℤ}
use slack_claude_remote.Prelude.Text.{Text, text_lt_connex}
use slack_claude_remote.Prelude.Map.{Map, lookup, HasDistinctKeys}
use slack_claude_remote.Prelude.Unordered.{SameEntries, Mem-lookup, lookup-Mem}
use slack_claude_remote.Relay.Store.{Binding}
use slack_claude_remote.Relay.Slack.Events.{Candidate}
use slack_claude_remote.Relay.Permission.{
  is_older, latest_binding, Pending, sweep, match_verdict, parse_verdict,
}
use slack_claude_remote.Relay.Permission.Pendings.{lookup-sweep, keep_live}
use slack_claude_remote.Relay.Permission.Latest.{latest_binding_lem}

All-Mem : {A : Type 0} (P : A → Type 0) (x : A) (xs : List A) → All P xs → Memᴰ x xs → P x
All-Mem P x [] h m = elim m [ ]
All-Mem P x (y ∷ ys) (p, h) (Memᴰ.head e) = subst P (sym e) p
All-Mem P x (y ∷ ys) (p, h) (Memᴰ.tail m) = All-Mem P x ys h m

Mem-SameEntries :
    (x : Text × Binding) (m n : Map Binding)
    → HasDistinctKeys m
    → SameEntries m n
    → Memᴰ x m
    → Memᴰ x n
Mem-SameEntries (k, b) m n d same l = lookup-Mem k b n (sym (same k) ∙ Mem-lookup k b m d l)

-- Two entries, neither of them older, have the same key.
older_connex : (x y : Text × Binding) → is_older x y ≡ false → is_older y x ≡ false → x.0 ≡ y.0
unfolding is_older
older_connex (k, b) (l, c) h e = ground (arith, text_lt_connex k l)

pub latest_binding-unordered :
    (m n : Map Binding) (session : Text)
    → HasDistinctKeys m
    → HasDistinctKeys n
    → SameEntries m n
    → latest_binding m session ≡ latest_binding n session
latest_binding-unordered m n session d e same = elim (latest_binding_lem m session) [
  | inl (absent, others) ↦ elim (latest_binding_lem n session) [
    | inl (too, _) ↦ absent ∙ sym too
    | inr (y, found, listed, here, _) ↦
        absurd (All-Mem _ y m others (Mem-SameEntries y n m e (λ k. sym (same k)) listed) here)
  ]
  | inr (x, found, listed, here, newest) ↦ elim (latest_binding_lem n session) [
    | inl (too, others) ↦ absurd (All-Mem _ x n others (Mem-SameEntries x m n d same listed) here)
    | inr (y, found_y, listed_y, here_y, newest_y) ↦
        let back = Mem-SameEntries y n m e (λ k. sym (same k)) listed_y in
        let forth = Mem-SameEntries x m n d same listed in
        let keys =
          older_connex x y (All-Mem _ y m newest back here_y) (All-Mem _ x n newest_y forth here) in
        found ∙ ap some (same_entry m d x y listed back keys) ∙ sym found_y
  ]
]
  where
    same_entry :
        (m : Map Binding)
        → HasDistinctKeys m
        → (x y : Text × Binding) → Memᴰ x m
        → Memᴰ y m
        → x.0 ≡ y.0
        → x ≡ y
    same_entry m d (k, b) (l, c) p q keys =
        let first = Mem-lookup k b m d p in
        let second = Mem-lookup l c m d q in cc (first, second, keys, ap (λ i. lookup i m) keys)

pub sweep-SameEntries :
    (now : ℤ) (p q : Map Pending)
    → HasDistinctKeys p
    → HasDistinctKeys q
    → SameEntries p q
    → SameEntries (sweep now p) (sweep now q)
sweep-SameEntries now p q d e same id =
    lookup-sweep now id p d ∙ ap (keep_live now) (same id) ∙ sym (lookup-sweep now id q e)

pub match_verdict-unordered :
    (p q : Map Pending) (c : Candidate) (b : Binding)
    → SameEntries p q
    → match_verdict p c b ≡ match_verdict q c b
unfolding match_verdict
match_verdict-unordered p q c b same = elim (Option-cases (parse_verdict c.text)) [
  | inl unread ↦ rw (unread, match_verdict) refl
  | inr ((id, behavior), reads) ↦ rw (reads, same id, match_verdict) refl
]
