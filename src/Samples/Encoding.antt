-- ===== src/Samples/Encoding.antt =====
-- A self-delimiting encoding as lists of numbers, in the place of serde_json on a store.
use slack_claude_remote.Prelude.{
  ℕ, zero, suc, ◌≡◌, refl, sym, Option, none, some, List, [], ◌∷◌, ◌++◌, length, ◌>>=?◌ as ◌>>=◌,
}
use mathlib.Core.List.{append_assoc, append-nil}
use slack_claude_remote.Prelude.Int.{ℤ, pos, negsuc}
use slack_claude_remote.Prelude.Text.{Text}
use slack_claude_remote.Relay.Store.{Store, TokenRecord, Binding, StoreCodec}

pub record Encoding (A : Type 0) : Type 0 where
  pub put : A → List ℕ
  pub get : List ℕ → Option (A × List ℕ)
  pub get-put : (a : A) (rest : List ℕ) → get (put a ++ rest) ≡ some (a, rest)

get_number : List ℕ → Option (ℕ × List ℕ)
get_number [] = none
get_number (n ∷ ns) = some (n, ns)

get_number-put : (a : ℕ) (rest : List ℕ) → get_number ((a ∷ []) ++ rest) ≡ some (a, rest)
unfolding get_number
get_number-put a rest = refl

pub number : Encoding ℕ
number = record { put = λ n. n ∷ []; get = get_number; get-put = get_number-put }

put_integer : ℤ → List ℕ
put_integer (pos n) = 0 ∷ n ∷ []
put_integer (negsuc n) = 1 ∷ n ∷ []

get_integer : List ℕ → Option (ℤ × List ℕ)
get_integer [] = none
get_integer (s ∷ []) = none
get_integer (zero ∷ n ∷ ns) = some (pos n, ns)
get_integer (suc _ ∷ n ∷ ns) = some (negsuc n, ns)

get_integer-put : (a : ℤ) (rest : List ℕ) → get_integer (put_integer a ++ rest) ≡ some (a, rest)
unfolding get_integer put_integer
get_integer-put (pos n) rest = refl
get_integer-put (negsuc n) rest = refl

integer : Encoding ℤ
integer = record { put = put_integer; get = get_integer; get-put = get_integer-put }

module _ {A B : Type 0} (ea : Encoding A) (eb : Encoding B) where
  put_pair : A × B → List ℕ
  put_pair (a, b) = ea.put a ++ eb.put b

  get_pair : List ℕ → Option ((A × B) × List ℕ)
  get_pair ns = do (a, r) ← ea.get ns; (b, r') ← eb.get r; some ((a, b), r')

  get_pair-put : (p : A × B) (rest : List ℕ) → get_pair (put_pair p ++ rest) ≡ some (p, rest)
  unfolding get_pair put_pair
  get_pair-put (a, b) rest =
      rw (
        append_assoc (ea.put a) (eb.put b) rest,
        ea.get-put a (eb.put b ++ rest),
        eb.get-put b rest,
      )

  pub pair : Encoding (A × B)
  pair = record { put = put_pair; get = get_pair; get-put = get_pair-put }

module _ {A : Type 0} (e : Encoding A) where
  put_all : List A → List ℕ
  put_all [] = []
  put_all (a ∷ xs) = e.put a ++ put_all xs

  get_all : ℕ → List ℕ → Option (List A × List ℕ)
  get_all zero ns = some ([], ns)
  get_all (suc k) ns = do (a, r) ← e.get ns; (xs, r') ← get_all k r; some (a ∷ xs, r')

  get_all-put :
      (xs : List A) (rest : List ℕ) → get_all (length xs) (put_all xs ++ rest) ≡ some (xs, rest)
  unfolding get_all put_all
  get_all-put [] rest = refl
  get_all-put (a ∷ xs) rest = rw (
    append_assoc (e.put a) (put_all xs) rest,
    e.get-put a (put_all xs ++ rest),
    get_all-put xs rest,
  )

  get_list : List ℕ → Option (List A × List ℕ)
  get_list [] = none
  get_list (k ∷ ns) = get_all k ns

  get_list-put :
      (xs : List A) (rest : List ℕ) → get_list ((length xs ∷ put_all xs) ++ rest) ≡ some (xs, rest)
  unfolding get_list
  get_list-put xs rest = get_all-put xs rest

  list_of : Encoding (List A)
  list_of = record { put = λ xs. length xs ∷ put_all xs; get = get_list; get-put = get_list-put }

module _ {A B : Type 0} (e : Encoding A) (to : B → A) (from : A → B)
    (back : (b : B) → from (to b) ≡ b) where
  get_as : List ℕ → Option (B × List ℕ)
  get_as ns = do (a, r) ← e.get ns; some (from a, r)

  get_as-put : (b : B) (rest : List ℕ) → get_as (e.put (to b) ++ rest) ≡ some (b, rest)
  unfolding get_as
  get_as-put b rest = rw (e.get-put (to b) rest, back b)

  pub via : Encoding B
  via = record { put = λ b. e.put (to b); get = get_as; get-put = get_as-put }

pub text : Encoding Text
text = list_of number

token : Encoding TokenRecord
token =
    via (pair text (pair text text)) (λ t. (t.sha256, (t.label, t.created)))
      (λ (a, (b, c)). record { sha256 = a; label = b; created = c }) (λ t. refl)

binding : Encoding Binding
binding =
    via (pair text (pair text integer)) (λ b. (b.session, (b.user, b.created)))
      (λ (a, (b, c)). record { session = a; user = b; created = c }) (λ b. refl)

store : Encoding Store
store =
    via (pair (list_of text) (pair (list_of token) (list_of (pair text binding))))
      (λ s. (s.users, (s.tokens, s.bindings)))
      (λ (a, (b, c)). record { users = a; tokens = b; bindings = c }) (λ s. refl)

store_of_bytes : List ℕ → Option Store
store_of_bytes ns = do (s, _) ← store.get ns; some s

store_of_bytes-put : (s : Store) → store_of_bytes (store.put s) ≡ some s
unfolding store_of_bytes
store_of_bytes-put s = rw (sym (append-nil (store.put s)), store.get-put s [])

pub store_codec : StoreCodec
store_codec = record {
  to_bytes = store.put;
  from_bytes = store_of_bytes;
  from_bytes-to_bytes = store_of_bytes-put;
}
