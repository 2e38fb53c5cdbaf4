-- ===== src/Relay/Slack/Dedupe/Laws.antt =====
-- The two structures agree, the size stays within the capacity, and an id is remembered for as
-- many later ids as the capacity promises.
use slack_claude_remote.Prelude.{
  ℕ, suc, ◌≤◌, ◌≡◌, refl, sym, ◌∙◌, true, false, not, List, [], ◌∷◌, ◌++◌, length, retain,
  length-append, ltb, if◌then◌else◌, arith, inl, inr, Bool-cases,
}
use slack_claude_remote.Prelude.Text.{Text, contains, text_eq, text_eq_iff}
use slack_claude_remote.Prelude.Sort.{IsDistinct}
use slack_claude_remote.Relay.Slack.Dedupe.{Dedupe, new, evict, push, first_seen, feed}

pub contains-append :
    (xs : List Text) (y id : Text)
    → contains (xs ++ y ∷ []) id ≡ (if contains xs id then true else text_eq y id)
unfolding contains
contains-append [] y id = ground arith
contains-append (x ∷ xs) y id = ground (arith, contains-append xs y id)

pub contains-discard :
    (xs : List Text) (y id : Text)
    → contains (retain (λ x. not (text_eq x y)) xs) id
      ≡ (if text_eq y id then false else contains xs id)
unfolding contains
contains-discard [] y id = ground arith
contains-discard (x ∷ xs) y id =
    ground (arith, contains-discard xs y id, text_eq_iff x y, text_eq_iff x id, text_eq_iff y id)

IsDistinct-append :
    (xs : List Text) (y : Text) → IsDistinct xs → contains xs y ≡ false → IsDistinct (xs ++ y ∷ [])
unfolding contains
IsDistinct-append [] y h k = (refl, tt)
IsDistinct-append (x ∷ xs) y (fresh, h) k = (
  ground (arith, contains-append xs y x, text_eq_iff x y, text_eq_iff y x),
  IsDistinct-append xs y h (ground arith),
)

pub record IsValid (d : Dedupe) : Type 0 where
  pub agree : (id : Text) → contains d.seen id ≡ contains d.order id
  pub distinct : IsDistinct d.order
  pub within : length d.order ≤ d.capacity

pub new-IsValid : (capacity : ℕ) → IsValid (new capacity)
unfolding new contains
new-IsValid capacity = record { agree = λ id. refl; distinct = tt; within = omega arith }

evict-IsValid :
    (d : Dedupe) (xs : List Text)
    → d.order ≡ xs
    → ((id : Text) → contains d.seen id ≡ contains xs id)
    → IsDistinct xs
    → length xs ≤ suc d.capacity
    → IsValid (evict d xs)
unfolding evict contains
evict-IsValid d [] same agree distinct within = record {
  agree = λ id. rw same (agree id);
  distinct = rw same tt;
  within = rw same (omega arith);
}
evict-IsValid d (x ∷ xs) same agree (fresh, distinct) within = record {
  agree = λ id. ground (arith, agree id, contains-discard d.seen x id, text_eq_iff x id);
  distinct = distinct;
  within = omega arith;
}

push-IsValid :
    (d : Dedupe) (id : Text) → IsValid d → contains d.seen id ≡ false → IsValid (push d id)
unfolding push contains
push-IsValid d id v fresh =
    let grown : Dedupe = record d { order = d.order ++ id ∷ []; seen = id ∷ d.seen } in
    let distinct = IsDistinct-append d.order id v.distinct (sym (v.agree id) ∙ fresh) in
    let agree = λ (x : Text). agree_after x in
    let size = length-append d.order (id ∷ []) in
    elim (Bool-cases (ltb d.capacity (length (d.order ++ id ∷ [])))) [
      | inl full ↦ rw full (
          evict-IsValid grown (d.order ++ id ∷ []) refl agree distinct
            (omega (arith, size, v.within)))
      | inr room ↦ rw room (record { agree = agree; distinct = distinct; within = ground arith })
    ]
  where
    agree_after : (x : Text) → contains (id ∷ d.seen) x ≡ contains (d.order ++ id ∷ []) x
    agree_after x = ground (arith, v.agree x, contains-append d.order id x)

-- A call keeps `order` and `seen` in agreement, `order` free of repetitions and within the capacity.
pub first_seen-IsValid : (d : Dedupe) (id : Text) → IsValid d → IsValid (first_seen d id).1
unfolding first_seen
first_seen-IsValid d id v = elim (Bool-cases (contains d.seen id)) [
  | inl old ↦ rw old v
  | inr fresh ↦ rw fresh (push-IsValid d id v fresh)
]

pub feed-IsValid : (d : Dedupe) (ids : List Text) → IsValid d → IsValid (feed d ids)
unfolding feed
feed-IsValid d [] v = v
feed-IsValid d (id ∷ ids) v = feed-IsValid (first_seen d id).1 ids (first_seen-IsValid d id v)

-- After any run of calls from the start, `first_seen` answers true exactly for the ids that
-- `order` does not hold, and `order` holds no id twice and no more ids than the capacity.
pub first_seen-feed :
    (capacity : ℕ) (ids : List Text) (id : Text)
    → ((first_seen (feed (new capacity) ids) id).0
        ≡ not (contains (feed (new capacity) ids).order id))
      × IsDistinct (feed (new capacity) ids).order
      × (length (feed (new capacity) ids).order ≤ (feed (new capacity) ids).capacity)
unfolding first_seen
first_seen-feed capacity ids id =
    let v = feed-IsValid (new capacity) ids (new-IsValid capacity) in
    (ground (arith, v.agree id), v.distinct, v.within)
