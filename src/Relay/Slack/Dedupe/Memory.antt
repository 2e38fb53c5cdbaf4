-- ===== src/Relay/Slack/Dedupe/Memory.antt =====
-- How long an id is remembered, and that no id is refused that never came.
use slack_claude_remote.Prelude.{
  ℕ, suc, ◌+◌, ◌≤◌, ◌<◌, ◌≡◌, refl, ap, true, false, List, [], ◌∷◌, ◌++◌, length, length-append,
  ltb, arith, inl, inr, Bool-cases,
}
use mathlib.Core.List.{append_assoc}
use slack_claude_remote.Prelude.Text.{Text, contains, text_eq, text_eq_refl}
use slack_claude_remote.Relay.Slack.Dedupe.{Dedupe, new, evict, push, first_seen, feed}
use slack_claude_remote.Relay.Slack.Dedupe.Laws.{
  IsValid, feed-IsValid, first_seen-IsValid, contains-discard,
}

-- At most `n` ids stand behind `id`.
abbrev IsRecent : Dedupe → Text → ℕ → Type 0
IsRecent d id n =
    (before : List Text) × (after : List Text) × (d.order ≡ before ++ id ∷ after)
    × (length after ≤ n)

contains_middle : (before after : List Text) (id : Text) → contains (before ++ id ∷ after) id ≡ true
unfolding contains
contains_middle [] after id = ground (arith, text_eq_refl id)
contains_middle (x ∷ before) after id = ground (arith, contains_middle before after id)

evict-IsRecent :
    (d : Dedupe) (before after : List Text) (id : Text) (n : ℕ)
    → length after ≤ n
    → d.capacity < length (before ++ id ∷ after)
    → suc n ≤ d.capacity
    → IsRecent (evict d (before ++ id ∷ after)) id n
unfolding evict
evict-IsRecent d [] after id n few full room = absurd (omega arith)
evict-IsRecent d (x ∷ before) after id n few full room = (before, after, refl, few)

push-IsRecent :
    (d : Dedupe) (x id : Text) (n : ℕ) (before after : List Text)
    → d.order ++ x ∷ [] ≡ before ++ id ∷ after
    → length after ≤ n
    → suc n ≤ d.capacity
    → IsRecent (push d x) id n
unfolding push
push-IsRecent d x id n before after same few room =
    elim (Bool-cases (ltb d.capacity (length (d.order ++ x ∷ [])))) [
      | inl full ↦
          rw (full, same)
            (evict-IsRecent (record d { order = before ++ id ∷ after; seen = x ∷ d.seen }) before
              after id n few (ground (arith, ap length same)) room)
      | inr fits ↦ rw fits (before, after, same, few)
    ]

first_seen-IsRecent :
    (d : Dedupe) (x id : Text) (n : ℕ)
    → suc (suc n) ≤ d.capacity
    → IsRecent d id n
    → IsRecent (first_seen d x).1 id (suc n)
unfolding first_seen
first_seen-IsRecent d x id n room (before, after, same, few) =
    elim (Bool-cases (contains d.seen x)) [
      | inl old ↦ rw old (before, after, same, omega arith)
      | inr fresh ↦ rw fresh (
          push-IsRecent d x id (suc n) before (after ++ x ∷ [])
            (rw same (append_assoc before (id ∷ after) (x ∷ [])))
            (omega (arith, length-append after (x ∷ []))) room)
    ]

capacity-first_seen : (d : Dedupe) (x : Text) → (first_seen d x).1.capacity ≡ d.capacity
unfolding first_seen push evict
capacity-first_seen d x = ground arith

feed-IsRecent :
    (d : Dedupe) (ids : List Text) (id : Text) (n : ℕ)
    → suc (n + length ids) ≤ d.capacity
    → IsRecent d id n
    → IsRecent (feed d ids) id (n + length ids)
unfolding feed
feed-IsRecent d [] id n room (before, after, same, few) = (before, after, same, omega arith)
feed-IsRecent d (x ∷ ids) id n room r =
    let (before, after, same, few) =
      feed-IsRecent (first_seen d x).1 ids id (suc n) (omega (arith, capacity-first_seen d x))
        (first_seen-IsRecent d x id n (omega arith) r) in
    (before, after, same, omega arith)

first_seen-false_of_IsRecent :
    (d : Dedupe) (id : Text) (n : ℕ) → IsValid d → IsRecent d id n → (first_seen d id).0 ≡ false
unfolding first_seen
first_seen-false_of_IsRecent d id n v (before, after, same, _) =
    ground (arith, v.agree id, contains_middle before after id)

accepted-IsRecent :
    (d : Dedupe) (id : Text)
    → 0 < d.capacity
    → (first_seen d id).0 ≡ true
    → IsRecent (first_seen d id).1 id 0
unfolding first_seen
accepted-IsRecent d id room accepted = elim (Bool-cases (contains d.seen id)) [
  | inl old ↦ absurd (ground arith)
  | inr fresh ↦ rw fresh (push-IsRecent d id id 0 d.order [] refl (omega arith) room)
]

-- An id that was accepted in a valid state is refused at every later call before which fewer ids
-- than the capacity came, whatever they were.
pub redelivery_refused :
    (d : Dedupe) (id : Text) (later : List Text)
    → IsValid d
    → (first_seen d id).0 ≡ true
    → length later < d.capacity
    → (first_seen (feed (first_seen d id).1 later) id).0 ≡ false
redelivery_refused d id later v accepted few =
    let d' = (first_seen d id).1 in
    first_seen-false_of_IsRecent (feed d' later) id (0 + length later)
      (feed-IsValid d' later (first_seen-IsValid d id v))
      (feed-IsRecent d' later id 0 (omega (arith, capacity-first_seen d id))
        (accepted-IsRecent d id (omega arith) accepted))

contains-evict :
    (d : Dedupe) (xs : List Text) (id : Text)
    → contains d.seen id ≡ false
    → contains (evict d xs).seen id ≡ false
unfolding evict
contains-evict d [] id h = h
contains-evict d (x ∷ xs) id h = ground (arith, contains-discard d.seen x id)

contains-first_seen :
    (d : Dedupe) (x id : Text)
    → contains d.seen id ≡ false
    → text_eq x id ≡ false
    → contains (first_seen d x).1.seen id ≡ false
unfolding first_seen push contains
contains-first_seen d x id h other = ground (
  arith,
  contains-evict (record d { order = d.order ++ x ∷ []; seen = x ∷ d.seen }) (d.order ++ x ∷ []) id,
)

contains-feed :
    (d : Dedupe) (ids : List Text) (id : Text)
    → contains d.seen id ≡ false
    → contains ids id ≡ false
    → contains (feed d ids).seen id ≡ false
unfolding feed contains
contains-feed d [] id h _ = h
contains-feed d (x ∷ ids) id h k = elim (Bool-cases (text_eq x id)) [
  | inl same ↦ absurd (ground arith)
  | inr other ↦
      contains-feed (first_seen d x).1 ids id (contains-first_seen d x id h other) (ground arith)
]

-- An id that never came before is accepted, however many others did: no event is lost.
pub first_delivery_accepted :
    (capacity : ℕ) (ids : List Text) (id : Text)
    → contains ids id ≡ false
    → (first_seen (feed (new capacity) ids) id).0 ≡ true
unfolding first_seen new contains
first_delivery_accepted capacity ids id absent =
    ground (arith, contains-feed (new capacity) ids id refl absent)
