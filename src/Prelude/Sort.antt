-- ===== src/Prelude/Sort.antt =====
-- `sort()` on strings, as an insertion sort: the result of sorting by a total order is one.
use mathlib.Core.Path.{◌≡◌, refl}
use mathlib.Core.Bool.{true, false}
use mathlib.Core.Logic.{inl, inr}
use mathlib.Core.List.{List, [], ◌∷◌}
use native.Mathlib.Omega.{arith}
use slack_claude_remote.Prelude.Tests.{if◌then◌else◌, Bool-cases}
use slack_claude_remote.Prelude.Lists.{All}
use slack_claude_remote.Prelude.Text.{
  Text, text_eq, text_eq_iff, text_lt, text_lt_trans, text_lt_connex, contains,
}

insert_sorted : Text → List Text → List Text
insert_sorted x [] = x ∷ []
insert_sorted x (y ∷ ys) = if text_lt y x then y ∷ insert_sorted x ys else x ∷ y ∷ ys

unfoldable pub sort : List Text → List Text
unfolding insert_sorted
sort [] = []
sort (x ∷ xs) = insert_sorted x (sort xs)

contains-insert_sorted :
    (x k : Text) (ys : List Text)
    → contains (insert_sorted x ys) k ≡ (if text_eq x k then true else contains ys k)
unfolding insert_sorted contains
contains-insert_sorted x k [] = refl
contains-insert_sorted x k (y ∷ ys) = ground (arith, contains-insert_sorted x k ys)

pub contains-sort : (xs : List Text) (k : Text) → contains (sort xs) k ≡ contains xs k
unfolding sort contains
contains-sort [] k = refl
contains-sort (x ∷ xs) k = ground (arith, contains-insert_sorted x k (sort xs), contains-sort xs k)

-- Strictly ascending, and free of repetitions.
abbrev pub IsBelow : Text → List Text → Type 0
IsBelow x ys = All (λ y. text_lt x y ≡ true) ys

abbrev pub IsAscending : List Text → Type 0
IsAscending [] = Unit
IsAscending (x ∷ xs) = IsBelow x xs × IsAscending xs

abbrev pub IsDistinct : List Text → Type 0
IsDistinct [] = Unit
IsDistinct (x ∷ xs) = (contains xs x ≡ false) × IsDistinct xs

IsBelow-trans : (x y : Text) (zs : List Text) → text_lt x y ≡ true → IsBelow y zs → IsBelow x zs
IsBelow-trans x y [] h k = tt
IsBelow-trans x y (z ∷ zs) h (below, k) = (text_lt_trans x y z h below, IsBelow-trans x y zs h k)

IsBelow-insert_sorted :
    (x y : Text) (zs : List Text)
    → text_lt y x ≡ true
    → IsBelow y zs
    → IsBelow y (insert_sorted x zs)
unfolding insert_sorted
IsBelow-insert_sorted x y [] h k = (h, tt)
IsBelow-insert_sorted x y (z ∷ zs) h (below, k) = elim (Bool-cases (text_lt z x)) [
  | inl later ↦ rw later (below, IsBelow-insert_sorted x y zs h k)
  | inr here ↦ rw here (h, (below, k))
]

insert_sorted-IsAscending :
    (x : Text) (ys : List Text)
    → contains ys x ≡ false
    → IsAscending ys
    → IsAscending (insert_sorted x ys)
unfolding insert_sorted contains
insert_sorted-IsAscending x [] fresh h = (tt, tt)
insert_sorted-IsAscending x (y ∷ ys) fresh (below, h) = elim (Bool-cases (text_lt y x)) [
  | inl later ↦
      rw later
        (IsBelow-insert_sorted x y ys later below, insert_sorted-IsAscending x ys (ground arith) h)
  | inr here ↦
      let first : text_lt x y ≡ true = ground (arith, text_eq_iff y x, text_lt_connex x y) in
      rw here ((first, IsBelow-trans x y ys first below), (below, h))
]

pub sort-IsAscending : (xs : List Text) → IsDistinct xs → IsAscending (sort xs)
unfolding sort
sort-IsAscending [] h = tt
sort-IsAscending (x ∷ xs) (fresh, h) =
    insert_sorted-IsAscending x (sort xs) (ground (arith, contains-sort xs x))
      (sort-IsAscending xs h)
