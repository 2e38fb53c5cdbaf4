-- ===== src/Prelude/Unordered.antt =====
-- Two maps that hold the same entries, in whatever order they were inserted.
use mathlib.Core.Path.{◌≡◌, refl, sym, ap, ap₂, ◌∙◌}
use mathlib.Core.Bool.{true, false}
use mathlib.Core.Logic.{inl, inr}
use mathlib.Core.Option.{none, some}
use mathlib.Core.List.{List, [], ◌∷◌, Memᴰ}
use native.Mathlib.Omega.{arith}
use slack_claude_remote.Prelude.Tests.{if◌then◌else◌, Bool-cases}
use slack_claude_remote.Prelude.Results.{is_some}
use slack_claude_remote.Prelude.Text.{
  Text, text_eq, text_eq_iff, text_lt, text_lt_irrefl, text_lt_trans, contains,
}
use slack_claude_remote.Prelude.Map.{
  Map, lookup, insert, remove, contains_key, keys, lookup-insert, lookup-remove, HasDistinctKeys,
}
use slack_claude_remote.Prelude.Sort.{
  sort, contains-sort, sort-IsAscending, IsBelow, IsAscending, IsDistinct,
}

above-absent : (x : Text) (xs : List Text) → IsBelow x xs → contains xs x ≡ false
unfolding contains
above-absent x [] h = refl
above-absent x (y ∷ ys) (p, h) =
    ground (arith, text_eq_iff y x, text_lt_irrefl x, above-absent x ys h)

above-listed :
    (x k : Text) (xs : List Text) → IsBelow x xs → contains xs k ≡ true → text_lt x k ≡ true
unfolding contains
above-listed x k [] h m = cc
above-listed x k (y ∷ ys) (p, h) m = ground (arith, text_eq_iff y k, above-listed x k ys h)

-- Of two ascending lists with the same members the first ones are equal.
ascending_heads :
    (x y : Text) (xs ys : List Text)
    → IsBelow x xs
    → IsBelow y ys
    → ((k : Text) → contains (x ∷ xs) k ≡ contains (y ∷ ys) k)
    → x ≡ y
unfolding contains
ascending_heads x y xs ys below_x below_y h = ground (
  arith,
  text_eq_iff x y,
  text_eq_iff y x,
  text_eq_iff x x,
  text_eq_iff y y,
  h x,
  h y,
  above-listed x y xs below_x,
  above-listed y x ys below_y,
  text_lt_irrefl x,
  text_lt_trans x y x,
)

-- An ascending list is determined by its members.
ascending_unique :
    (xs ys : List Text)
    → IsAscending xs
    → IsAscending ys
    → ((k : Text) → contains xs k ≡ contains ys k)
    → xs ≡ ys
unfolding contains
ascending_unique [] [] a b h = refl
ascending_unique [] (y ∷ ys) a b h = absurd (ground (arith, h y, text_eq_iff y y))
ascending_unique (x ∷ xs) [] a b h = absurd (ground (arith, h x, text_eq_iff x x))
ascending_unique (x ∷ xs) (y ∷ ys) (below_x, a) (below_y, b) h =
    let same = ascending_heads x y xs ys below_x below_y h in
    let rest : (k : Text) → contains xs k ≡ contains ys k = λ k. ground (
      arith,
      same,
      h k,
      text_eq_iff x k,
      text_eq_iff y k,
      above-absent x xs below_x,
      above-absent y ys below_y,
    ) in
    ap₂ (◌∷◌) same (ascending_unique xs ys a b rest)

pub contains-keys : {V : Type 0} (k : Text) (m : Map V) → contains (keys m) k ≡ contains_key k m
unfolding contains lookup
contains-keys k [] = refl
contains-keys k ((j, v) ∷ m) = ground (arith, contains-keys k m)

pub keys-IsDistinct : {V : Type 0} (m : Map V) → HasDistinctKeys m → IsDistinct (keys m)
keys-IsDistinct [] h = tt
keys-IsDistinct ((k, v) ∷ m) (absent, h) =
    (contains-keys k m ∙ ap is_some absent, keys-IsDistinct m h)

module _ {V : Type 0} where
  abbrev pub SameEntries : Map V → Map V → Type 0
  SameEntries m n = (k : Text) → lookup k m ≡ lookup k n

  pub insert-SameEntries :
      (k : Text) (v : V) (m n : Map V) → SameEntries m n → SameEntries (insert k v m) (insert k v n)
  insert-SameEntries k v m n h j =
      lookup-insert k j v m
      ∙ ap (λ x. if text_eq k j then some v else x) (h j)
      ∙ sym (lookup-insert k j v n)

  pub remove-SameEntries :
      (k : Text) (m n : Map V) → SameEntries m n → SameEntries (remove k m) (remove k n)
  remove-SameEntries k m n h j =
      lookup-remove k j m
      ∙ ap (λ x. if text_eq k j then none else x) (h j)
      ∙ sym (lookup-remove k j n)

  -- The sorted keys do not depend on the order of insertion.
  pub sort-keys :
      (m n : Map V)
      → HasDistinctKeys m
      → HasDistinctKeys n
      → SameEntries m n
      → sort (keys m) ≡ sort (keys n)
  sort-keys m n d e h =
      ascending_unique (sort (keys m)) (sort (keys n))
        (sort-IsAscending (keys m) (keys-IsDistinct m d))
        (sort-IsAscending (keys n) (keys-IsDistinct n e))
        (λ k.
          contains-sort (keys m) k
          ∙ contains-keys k m
          ∙ ap is_some (h k)
          ∙ sym (contains-keys k n)
          ∙ sym (contains-sort (keys n) k))

  -- The entries are what `lookup` finds.
  pub Mem-lookup :
      (k : Text) (v : V) (m : Map V) → HasDistinctKeys m → Memᴰ (k, v) m → lookup k m ≡ some v
  unfolding lookup
  Mem-lookup k v [] d l = elim l [ ]
  Mem-lookup k v ((j, w) ∷ m) (fresh, d) (Memᴰ.head e) = ground (arith, text_eq_iff j k, e)
  Mem-lookup k v ((j, w) ∷ m) (fresh, d) (Memᴰ.tail l) =
      let found = Mem-lookup k v m d l in ground (arith, text_eq_iff j k, found, fresh)

  pub lookup-Mem : (k : Text) (v : V) (m : Map V) → lookup k m ≡ some v → Memᴰ (k, v) m
  unfolding lookup
  lookup-Mem k v [] e = absurd (ground arith)
  lookup-Mem k v ((j, w) ∷ m) e = elim (Bool-cases (text_eq j k)) [
    | inl same ↦ Memᴰ.head (ground (arith, text_eq_iff j k))
    | inr other ↦ Memᴰ.tail (lookup-Mem k v m (ground arith))
  ]
