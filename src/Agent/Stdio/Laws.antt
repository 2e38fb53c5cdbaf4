-- ===== src/Agent/Stdio/Laws.antt =====
-- What goes out while the loop runs.
use slack_claude_remote.Prelude.{
  ◌≡◌, refl, sym, ap, ◌∙◌, true, false, Option, none, some, List, [], ◌∷◌, ◌++◌, append-nil,
  append_assoc, append-snoc, if◌then◌else◌,
}
use mathlib.Core.Path.{ap₂}
use slack_claude_remote.Prelude.Text.{Text}
use slack_claude_remote.Json.{Json}
use slack_claude_remote.Protocol.{AgentMsg}
use slack_claude_remote.Agent.Mcp.{Outcome, responds, emits, both, ignores, dispatch}
use slack_claude_remote.Agent.Mcp.Laws.{response, emitted}
use slack_claude_remote.Agent.Stdio.{
  Event, line, end_of_input, input_fault, value, no_more_values, Streams, goes_on, handle_outcome,
  stdio_round, stdio_run, write_line,
}

abbrev pub to_list {ℓ} : {A : Type ℓ} → Option A → List A
to_list none = []
to_list (some a) = a ∷ []

module _ (json : Json) (version : Text) where
  -- Lines and values whose writes succeed.
  abbrev pub IsWritten : List (Event json version) → Type 0
  IsWritten [] = Unit
  IsWritten (line _ written ∷ es) = (written ≡ true) × IsWritten es
  IsWritten (value _ written ∷ es) = (written ≡ true) × IsWritten es
  IsWritten (_ ∷ es) = ⊥

  -- The answers to the lines and the values, and the messages of the lines.
  abbrev pub outputs : List (Event json version) → List json.Value
  outputs [] = []
  outputs (line l _ ∷ es) = to_list (response json version (dispatch json version l)) ++ outputs es
  outputs (value v _ ∷ es) = v ∷ outputs es
  outputs (_ ∷ es) = outputs es

  abbrev pub messages : List (Event json version) → List AgentMsg
  messages [] = []
  messages (line l _ ∷ es) = to_list (emitted json version (dispatch json version l)) ++ messages es
  messages (_ ∷ es) = messages es

  pub after_outcome :
      (o : Outcome json version) (s : Streams json version)
      → handle_outcome json version o true s ≡ (
        goes_on,
        record s {
          output = s.output ++ to_list (response json version o);
          to_relay = s.to_relay ++ to_list (emitted json version o);
        },
      )
  unfolding handle_outcome write_line
  after_outcome (responds v) s =
      ap (λ x. (goes_on, record s { output = s.output ++ v ∷ []; to_relay = x }))
        (sym (append-nil s.to_relay))
  after_outcome (emits m) s =
      ap (λ x. (goes_on, record s { output = x; to_relay = s.to_relay ++ m ∷ [] }))
        (sym (append-nil s.output))
  after_outcome (both v m) s = refl
  after_outcome ignores s =
      ap₂ (λ x y. (goes_on, record s { output = x; to_relay = y })) (sym (append-nil s.output))
        (sym (append-nil s.to_relay))

  pub value_round :
      (v : json.Value) (s : Streams json version)
      → s.stdout_open ≡ true
      → stdio_round json version (value v true) s
        ≡ (goes_on, record s { output = s.output ++ v ∷ [] })
  unfolding stdio_round write_line
  value_round v s live =
      ap (λ open_. if open_ then write_line json version v true s else (goes_on, s)) live

  -- While the input goes on and every write succeeds, the output is the answers to the lines and the
  -- values from the relay, and the relay is sent the messages of the lines, each in the order of the
  -- events.
  pub stdio_run_lem :
      (es : List (Event json version)) (s : Streams json version)
      → IsWritten es
      → s.stdout_open ≡ true
      → stdio_run json version es s ≡ (
        goes_on,
        record s { output = s.output ++ outputs es; to_relay = s.to_relay ++ messages es },
      )
  unfolding stdio_run stdio_round write_line
  stdio_run_lem [] s h live =
      ap₂ (λ x y. (goes_on, record s { output = x; to_relay = y })) (sym (append-nil s.output))
        (sym (append-nil s.to_relay))
  stdio_run_lem (line l false ∷ es) s (wrote, h) live = cc
  stdio_run_lem (line l true ∷ es) s (wrote, h) live =
      let o = dispatch json version l in
      let out = s.output ++ to_list (response json version o) in
      let relay = s.to_relay ++ to_list (emitted json version o) in
      let next = record s { output = out; to_relay = relay } in
      rw (ap (λ x. x.0) (after_outcome o s), stdio_run, stdio_round)
        (ap (λ x. stdio_run json version es x.1) (after_outcome o s)
          ∙ stdio_run_lem es next h live
          ∙ ap₂ (λ x y. (goes_on, record s { output = x; to_relay = y }))
              (sym (append_assoc s.output (to_list (response json version o)) (outputs es)))
              (sym (append_assoc s.to_relay (to_list (emitted json version o)) (messages es))))
  stdio_run_lem (value v false ∷ es) s (wrote, h) live = cc
  stdio_run_lem (value v true ∷ es) s (wrote, h) live =
      let one = value_round v s live in
      rw (ap (λ x. x.0) one, stdio_run)
        (ap (λ x. stdio_run json version es x.1) one
          ∙ stdio_run_lem es (record s { output = s.output ++ v ∷ [] }) h live
          ∙ ap (λ x. (goes_on, record s { output = x; to_relay = s.to_relay ++ messages es }))
              (append-snoc s.output v (outputs es)))
  stdio_run_lem (end_of_input ∷ es) s h live = absurd h
  stdio_run_lem (input_fault ∷ es) s h live = absurd h
  stdio_run_lem (no_more_values ∷ es) s h live = absurd h
