-- ===== src/Json.antt =====
-- serde_json, which the program calls: the operations on `Value` that it uses, and what is
-- documented of them. A `Json` is an argument of every definition that reads or builds JSON.
use slack_claude_remote.Prelude.{
  ℕ, zero, suc, ◌≡◌, Bool, true, false, Option, none, some, List, [], ◌∷◌, if◌then◌else◌,
}
use slack_claude_remote.Prelude.Int.{ℤ}
use slack_claude_remote.Prelude.Text.{Text, text_eq}

-- The value of the last member with a name: a later member of `json!` replaces an earlier one.
unfoldable pub last_value {ℓ} : {V : Type ℓ} → Text → List (Text × V) → Option V
last_value k [] = none
last_value k ((j, v) ∷ fs) = elim (last_value k fs) [
  | some w ↦ some w
  | none ↦ if text_eq j k then some v else none
]

abbrev pub at {ℓ} : {V : Type ℓ} → List V → ℕ → Option V
at [] i = none
at (v ∷ vs) zero = some v
at (v ∷ vs) (suc i) = at vs i

pub record Json : Type 1 where
  pub Value : Type 0
  -- `get(key)` and `get(index)`: `None` on a value of another kind.
  pub get : Value → Text → Option Value
  pub get_at : Value → ℕ → Option Value
  pub as_str : Value → Option Text
  pub as_bool : Value → Option Bool
  pub as_i64 : Value → Option ℤ
  -- `as_object().is_some()`; the map's own `get` is that of the value.
  pub is_object : Value → Bool
  -- What `json!` builds.
  pub str : Text → Value
  pub num : ℤ → Value
  pub bool : Bool → Value
  pub arr : List Value → Value
  pub obj : List (Text × Value) → Value
  -- `from_str`, `from_slice` and `to_string`.
  pub parse : Text → Option Value
  pub parse_bytes : List ℕ → Option Value
  pub print : Value → Text
  pub as_str-str : (s : Text) → as_str (str s) ≡ some s
  pub as_bool-bool : (b : Bool) → as_bool (bool b) ≡ some b
  pub get-obj : (fs : List (Text × Value)) (k : Text) → get (obj fs) k ≡ last_value k fs
  pub get_at-arr : (vs : List Value) (i : ℕ) → get_at (arr vs) i ≡ at vs i
  pub is_object-obj : (fs : List (Text × Value)) → is_object (obj fs) ≡ true

module _ (json : Json) where
  open json use {Value, get, as_str}

  -- `v.get(k).and_then(Value::as_str)`
  abbrev pub str_field : Value → Text → Option Text
  str_field v k = elim (get v k) [ none ↦ none | some w ↦ as_str w ]

-- `o == Some(s)`
abbrev pub is_text : Option Text → Text → Bool
is_text none s = false
is_text (some t) s = text_eq t s
