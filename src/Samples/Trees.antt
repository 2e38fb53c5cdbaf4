-- ===== src/Samples/Trees.antt =====
-- JSON values as trees, in the place of serde_json.
use slack_claude_remote.Prelude.{
  ℕ, ◌≡◌, refl, ap, Bool, true, false, Option, none, some, List, [], ◌∷◌,
}
use slack_claude_remote.Prelude.Int.{ℤ}
use slack_claude_remote.Prelude.Text.{Text}
use slack_claude_remote.Json.{Json, last_value, at}

mutual
  pub data Tree : Type 0 where
    null : Tree
    truth : Bool → Tree
    number : ℤ → Tree
    text : Text → Tree
    array : Items → Tree
    object : Members → Tree

  pub data Items : Type 0 where
    nil : Items
    cons : Tree → Items → Items

  pub data Members : Type 0 where
    end : Members
    member : Text → Tree → Members → Members

items : Items → List Tree
items nil = []
items (cons v vs) = v ∷ items vs

unfoldable pub to_items : List Tree → Items
to_items [] = nil
to_items (v ∷ vs) = cons v (to_items vs)

items-to_items : (vs : List Tree) → items (to_items vs) ≡ vs
unfolding items to_items
items-to_items [] = refl
items-to_items (v ∷ vs) = ap (◌∷◌ v) (items-to_items vs)

members : Members → List (Text × Tree)
members end = []
members (member k v ms) = (k, v) ∷ members ms

unfoldable pub to_members : List (Text × Tree) → Members
to_members [] = end
to_members ((k, v) ∷ fs) = member k v (to_members fs)

members-to_members : (fs : List (Text × Tree)) → members (to_members fs) ≡ fs
unfolding members to_members
members-to_members [] = refl
members-to_members ((k, v) ∷ fs) = ap (◌∷◌ (k, v)) (members-to_members fs)

unfoldable pub tree_get : Tree → Text → Option Tree
unfolding members
tree_get (object ms) k = last_value k (members ms)
tree_get _ k = none

unfoldable pub tree_get_at : Tree → ℕ → Option Tree
unfolding items
tree_get_at (array vs) i = at (items vs) i
tree_get_at _ i = none

unfoldable pub tree_str : Tree → Option Text
tree_str (text s) = some s
tree_str _ = none

unfoldable pub tree_bool : Tree → Option Bool
tree_bool (truth b) = some b
tree_bool _ = none

unfoldable pub tree_i64 : Tree → Option ℤ
tree_i64 (number n) = some n
tree_i64 _ = none

unfoldable pub tree_object : Tree → Bool
tree_object (object _) = true
tree_object _ = false

pub get_object :
    (fs : List (Text × Tree)) (k : Text) → tree_get (object (to_members fs)) k ≡ last_value k fs
unfolding tree_get
get_object fs k = ap (last_value k) (members-to_members fs)

pub get_array : (vs : List Tree) (i : ℕ) → tree_get_at (array (to_items vs)) i ≡ at vs i
unfolding tree_get_at
get_array vs i = ap (λ l. at l i) (items-to_items vs)

pub str_text : (s : Text) → tree_str (text s) ≡ some s
unfolding tree_str
str_text s = refl

pub bool_truth : (b : Bool) → tree_bool (truth b) ≡ some b
unfolding tree_bool
bool_truth b = refl

pub object_object : (fs : List (Text × Tree)) → tree_object (object (to_members fs)) ≡ true
unfolding tree_object
object_object fs = refl

-- It reads and prints nothing: no theorem depends on what it would read.
abbrev pub tree_json : Json
tree_json = record {
  Value = Tree;
  get = tree_get;
  get_at = tree_get_at;
  as_str = tree_str;
  as_bool = tree_bool;
  as_i64 = tree_i64;
  is_object = tree_object;
  str = text;
  num = number;
  bool = truth;
  arr = λ vs. array (to_items vs);
  obj = λ fs. object (to_members fs);
  parse = λ s. none;
  parse_bytes = λ bs. none;
  print = λ v. [];
  as_str-str = str_text;
  as_bool-bool = bool_truth;
  get-obj = get_object;
  get_at-arr = get_array;
  is_object-obj = object_object;
}
