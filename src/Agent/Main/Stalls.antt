-- ===== src/Agent/Main/Stalls.antt =====
-- How many messages the loop takes when it runs alone.
use slack_claude_remote.Prelude.{
  suc, ◌≤◌, ◌≡◌, refl, sym, ap, subst, ◌∙◌, ◌⊎◌, inl, inr, true, false, List, [], ◌∷◌, ◌++◌, length,
  length-append, arith, leb, leb_iff, Option, none, some, append-nil, append_assoc, Bool-cases,
}
use mathlib.Core.Path.{ap₂}
use slack_claude_remote.Prelude.Text.{Text}
use slack_claude_remote.Json.{Json}
use slack_claude_remote.Protocol.{AgentMsg}
use slack_claude_remote.Agent.Mcp.{dispatch}
use slack_claude_remote.Agent.Mcp.Laws.{response, emitted}
use slack_claude_remote.Agent.Stdio.{
  Event, line, end_of_input, input_fault, value, no_more_values, Streams, goes_on, stdio_round,
}
use slack_claude_remote.Agent.Stdio.Laws.{
  IsWritten, to_list, outputs, messages, after_outcome, value_round,
}
use slack_claude_remote.Agent.Main.{channel_capacity, came_to, waits, stdio_only_run}

module _ (json : Json) (version : Text) where
  -- What an event adds to the output and to the queue.
  abbrev out_of : Event json version → List json.Value
  out_of (line l _) = to_list (response json version (dispatch json version l))
  out_of (value v _) = v ∷ []
  out_of _ = []

  abbrev sent_of : Event json version → List AgentMsg
  sent_of (line l _) = to_list (emitted json version (dispatch json version l))
  sent_of _ = []

  abbrev add_event : Event json version → Streams json version → Streams json version
  add_event e s = record s { output = s.output ++ out_of e; to_relay = s.to_relay ++ sent_of e }

  -- The streams after these events, and that they are those of `stdio_run_lem`.
  abbrev after : List (Event json version) → Streams json version → Streams json version
  after [] s = s
  after (e ∷ es) s = after es (add_event e s)

  abbrev pub grown : List (Event json version) → Streams json version → Streams json version
  grown es s = record s {
    output = s.output ++ outputs json version es;
    to_relay = s.to_relay ++ messages json version es;
  }

  outputs-cons :
      (e : Event json version) (es : List (Event json version))
      → (outputs json version (e ∷ es) ≡ out_of e ++ outputs json version es)
        × (messages json version (e ∷ es) ≡ sent_of e ++ messages json version es)
  outputs-cons (line l _) es = (refl, refl)
  outputs-cons (value v _) es = (refl, refl)
  outputs-cons end_of_input es = (refl, refl)
  outputs-cons input_fault es = (refl, refl)
  outputs-cons no_more_values es = (refl, refl)

  after-grown :
      (es : List (Event json version)) (s : Streams json version) → after es s ≡ grown es s
  after-grown [] s =
      ap₂ (λ x y. record s { output = x; to_relay = y }) (sym (append-nil s.output))
        (sym (append-nil s.to_relay))
  after-grown (e ∷ es) s =
      let (out, sent) = outputs-cons e es in
      after-grown es (add_event e s)
      ∙ ap₂ (λ x y. record s { output = x; to_relay = y })
          (sym (
            ap (λ x. s.output ++ x) out
            ∙ append_assoc s.output (out_of e) (outputs json version es)))
          (sym (
            ap (λ x. s.to_relay ++ x) sent
            ∙ append_assoc s.to_relay (sent_of e) (messages json version es)))

  round_lem :
      (e : Event json version) (s : Streams json version)
      → IsWritten json version (e ∷ [])
      → s.stdout_open ≡ true
      → stdio_round json version e s ≡ (goes_on, add_event e s)
  unfolding stdio_round
  round_lem (line l true) s h live = after_outcome json version (dispatch json version l) s
  round_lem (value v true) s h live =
      value_round json version v s live
      ∙ ap (λ x. (goes_on, record s { output = s.output ++ v ∷ []; to_relay = x }))
          (sym (append-nil s.to_relay))
  round_lem (line l false) s h live = cc
  round_lem (value l false) s h live = cc
  round_lem end_of_input s h live = absurd h
  round_lem input_fault s h live = absurd h
  round_lem no_more_values s h live = absurd h

  length-to_list {ℓ} : {A : Type ℓ} (o : Option A) → length (to_list o) ≤ 1
  length-to_list none = omega arith
  length-to_list (some a) = omega arith

  length-sent_of : (e : Event json version) → length (sent_of e) ≤ 1
  length-sent_of (line l w) = length-to_list (emitted json version (dispatch json version l))
  length-sent_of (value v w) = omega arith
  length-sent_of end_of_input = omega arith
  length-sent_of input_fault = omega arith
  length-sent_of no_more_values = omega arith

  IsWritten-split :
      (e : Event json version) (es : List (Event json version))
      → IsWritten json version (e ∷ es)
      → IsWritten json version (e ∷ []) × IsWritten json version es
  IsWritten-split (line l w) es (h, k) = ((h, tt), k)
  IsWritten-split (value v w) es (h, k) = ((h, tt), k)
  IsWritten-split end_of_input es h = absurd h
  IsWritten-split input_fault es h = absurd h
  IsWritten-split no_more_values es h = absurd h

  -- The loop is stuck with the first message beyond the capacity.
  abbrev pub StallsAfter :
      (shape : List (Event json version) → Streams json version → Streams json version)
      (es : List (Event json version)) (s : Streams json version)
      → Type 0
  StallsAfter shape es s =
      (before : List (Event json version)) × (rest : List (Event json version)) × (es
        ≡ before ++ rest)
      × (length (shape before s).to_relay ≡ suc channel_capacity)
      × (stdio_only_run json version es s ≡ waits (shape before s))

  abbrev pub Ends :
      (shape : List (Event json version) → Streams json version → Streams json version)
      (es : List (Event json version)) (s : Streams json version)
      → Type 0
  Ends shape es s =
      (length (shape es s).to_relay ≤ channel_capacity)
      × (stdio_only_run json version es s ≡ came_to goes_on (shape es s))

  stalls_from :
      (es : List (Event json version)) (s : Streams json version)
      → IsWritten json version es
      → s.stdout_open ≡ true
      → length s.to_relay ≤ channel_capacity
      → Ends after es s ⊎ StallsAfter after es s
  unfolding stdio_only_run
  stalls_from [] s h live room = inl (room, refl)
  stalls_from (e ∷ es) s h live room =
      let (one, others) = IsWritten-split e es h in
      let moved = round_lem e s one live in
      let s' = add_event e s in
      elim (Bool-cases (leb (length s'.to_relay) channel_capacity)) [
        | inr over ↦ inr (
          e ∷ [],
          es,
          refl,
          ground (arith, length-append s.to_relay (sent_of e), length-sent_of e),
          rw (moved, stdio_only_run) (rw over refl),
        )
        | inl fits ↦
            let now_fits = (leb_iff (length s'.to_relay) channel_capacity).0 fits in
            let goes = ap (λ x. stdio_only_run json version es x.1) moved in
            elim (stalls_from es s' others live now_fits) [
              | inl (few, done) ↦ inl (few, rw (moved, stdio_only_run) (rw fits (goes ∙ done)))
              | inr (before, rest, parts, full, stuck) ↦ inr (
                e ∷ before,
                rest,
                ap (λ x. e ∷ x) parts,
                full,
                rw (moved, stdio_only_run) (rw fits (goes ∙ stuck)),
              )
            ]
      ]

  -- With no client beside it and every write succeeding, the loop takes all events as long as the
  -- lines bring at most 32 messages for the relay. Otherwise it stops for ever at the line that
  -- brings the 33rd: it has answered the lines up to that one and no other.
  pub stdio_only_stalls :
      (es : List (Event json version)) (s : Streams json version)
      → IsWritten json version es
      → s.stdout_open ≡ true
      → s.to_relay ≡ []
      → Ends grown es s ⊎ StallsAfter grown es s
  stdio_only_stalls es s h live empty = elim (stalls_from es s h live (rw empty (omega arith))) [
    | inl ended ↦ inl (
        subst
          (λ (t : Streams json version).
            (length t.to_relay ≤ channel_capacity)
            × (stdio_only_run json version es s ≡ came_to goes_on t))
          (after-grown es s) ended)
    | inr (before, rest, parts, full, stuck) ↦ inr (
      before,
      rest,
      parts,
      subst (λ t. length t.to_relay ≡ suc channel_capacity) (after-grown before s) full,
      subst (λ t. stdio_only_run json version es s ≡ waits t) (after-grown before s) stuck,
    )
  ]
