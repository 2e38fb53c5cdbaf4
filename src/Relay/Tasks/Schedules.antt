-- ===== src/Relay/Tasks/Schedules.antt =====
-- Schedules of the tasks and of the connections of agents, on states that differ in the order of
-- their maps.
mod Tests
use slack_claude_remote.Prelude.{
  ℕ, ◌≡◌, refl, ap, subst, List, [], ◌∷◌, ◌∙◌, inl, inr, Option, none, some, ◌++◌, ok, err, arith,
  Option-cases, Bool-cases, Result-cases,
}
use mathlib.Core.Path.{ap₂}
use slack_claude_remote.Prelude.Int.{ℤ}
use slack_claude_remote.Relay.Hub.Table.{
  HubCall, HubAnswer, call, call-Agree, call-IsValid, Same, send-Agree,
}
use slack_claude_remote.Relay.Routes.Env.{Env}
use slack_claude_remote.Relay.Tasks.{
  turn, Task, arrived, admitted, matching, consuming, sending, refused, asking, prompting,
  forgetting, choosing, rooting, binding_thread, inviting, finished, prompting_from, prompt_of,
  Request,
}
use slack_claude_remote.Relay.Tasks.World.{World, update}
use slack_claude_remote.Relay.Tasks.Sound.{IsSound, with_agents, turn-IsSound}
use slack_claude_remote.Relay.Tasks.Unordered.{
  FilesAlike, save-FilesAlike, Alike, Agree, send-Alike, matching-Alike, admitted-Alike,
  asking-Alike,
}
use slack_claude_remote.Prelude.Text.{Text, codes, contains, split_once}
use slack_claude_remote.Prelude.Map.{lookup, insert}
use slack_claude_remote.Prelude.Unordered.{SameEntries, insert-SameEntries, remove-SameEntries}
use slack_claude_remote.Protocol.{RelayMsg, inbound, Behavior}
use slack_claude_remote.Relay.Slack.Dedupe.{first_seen}
use slack_claude_remote.Relay.Slack.Events.{Candidate}
use slack_claude_remote.Relay.Store.{Binding, save}
use slack_claude_remote.Relay.Hub.{empty_hub, send}
use slack_claude_remote.Relay.Permission.{Pending, sweep, match_verdict, latest_binding}
use slack_claude_remote.Relay.Permission.Unordered.{
  latest_binding-unordered, sweep-SameEntries, match_verdict-unordered,
}
use slack_claude_remote.Relay.State.{AppState, save_store, later_faults, next_fault}
use slack_claude_remote.Relay.Routes.Requests.{colon}
use slack_claude_remote.Relay.Routes.Pieces.{pieces_of}
use slack_claude_remote.Relay.Routes.Messages.{notify_offline}

-- A turn of a task, or a call of the hub by somebody else.
pub data Move : Type 0 where
  has_turn : (now : ℤ) (i : ℕ) → Move
  calls_hub : HubCall → Move

module _ (env : Env) (now : ℤ) where
  open env use {api, store_codec}

  turn-Alike :
      (k : Task) (s t : AppState)
      → IsSound s
      → IsSound t
      → Alike env s t
      → Agree env (turn env now k s) (turn env now k t)
  unfolding turn notify_offline save_store
  turn-Alike (arrived event_id candidate) s t v w (hub, bindings, pending, files, rest) = (
    ap (λ f. (turn env now (arrived event_id candidate) f).0) rest,
    (
      hub,
      bindings,
      pending,
      files,
      ap {A = AppState} (λ f. record f { dedupe = (first_seen f.dedupe event_id).1 }) rest,
    ),
  )
  turn-Alike (admitted c) s t v w alike = admitted-Alike env now c s t alike
  turn-Alike (matching c b) s t v w alike = matching-Alike env now c b s t v w alike
  turn-Alike (consuming c b i behavior) s t v w (hub, bindings, pending, files, rest) =
      (refl, (hub, bindings, remove-SameEntries i s.pending t.pending pending, files, rest))
  turn-Alike (sending c session msg) s t v w alike = send-Alike env now c session msg s t alike
  turn-Alike (refused c session) s t v w (hub, bindings, pending, files, rest) =
      (refl, (hub, bindings, pending, files, ap (λ f. notify_offline api c session f) rest))
  turn-Alike (asking r) s t v w alike = asking-Alike env now r s t v w alike
  turn-Alike (prompting r channel thread_ts []) s t v w alike = (refl, alike)
  turn-Alike (prompting r channel thread_ts (p ∷ ps)) s t v w
        (hub, bindings, pending, files, rest) =
      (
        ap (λ f. (turn env now (prompting r channel thread_ts (p ∷ ps)) f).0) rest,
        (
          hub,
          bindings,
          pending,
          files,
          ap (λ f. (turn env now (prompting r channel thread_ts (p ∷ ps)) f).1) rest,
        ),
      )
  turn-Alike (forgetting i) s t v w (hub, bindings, pending, files, rest) =
      (refl, (hub, bindings, remove-SameEntries i s.pending t.pending pending, files, rest))
  turn-Alike (choosing sel) s t v w (hub, bindings, pending, files, rest) =
      (ap (λ f. (turn env now (choosing sel) f).0) rest, (hub, bindings, pending, files, rest))
  turn-Alike (rooting sel) s t v w (hub, bindings, pending, files, rest) = (
    ap (λ f. (turn env now (rooting sel) f).0) rest,
    (hub, bindings, pending, files, ap (λ f. (turn env now (rooting sel) f).1) rest),
  )
  turn-Alike (binding_thread sel ts) s t v w (hub, bindings, pending, files, rest) =
      let binding : Binding = record { session = sel.session; user = sel.user; created = now } in
      let key = sel.channel ++ codes ":" ++ ts in
      let bound = insert-SameEntries key binding s.store.bindings t.store.bindings bindings in
      let a = record s.store { bindings = insert key binding s.store.bindings } in
      let b = record t.store { bindings = insert key binding t.store.bindings } in
      let saved =
        save-FilesAlike env (next_fault s.faults) a b s.disk t.disk
          (ap (λ f. f.store.users) rest, ap (λ f. f.store.tokens) rest, bound) files in
      (
        refl,
        (
          hub,
          bound,
          pending,
          subst
              (λ fault.
                FilesAlike env (save store_codec a (next_fault s.faults) s.disk).1
                  (save store_codec b fault t.disk).1)
              (ap (λ f. next_fault f.faults) rest) saved,
          ap {A = AppState} (λ f. record f { faults = later_faults f.faults }) rest,
        ),
      )
  turn-Alike (inviting sel) s t v w (hub, bindings, pending, files, rest) =
      (refl, (hub, bindings, pending, files, ap (λ f. (turn env now (inviting sel) f).1) rest))
  turn-Alike finished s t v w alike = (refl, alike)

module _ (env : Env) where
  abbrev after_turn : ℤ → ℕ → World → World
  after_turn now i w =
      let (next, state) = turn env now (w.tasks i) w.state in
      record { state = state; tasks = update w.tasks i next }

  abbrev after_call : HubCall → World → World
  after_call c w = record w { state = record w.state { hub = (call c w.state.hub).1 } }

  -- What the hub answers on the way, and where the moves lead. A task that has not begun is one that
  -- has had no turn.
  abbrev pub run_moves : List Move → World → List HubAnswer × World
  run_moves [] w = ([], w)
  run_moves (has_turn now i ∷ ms) w = run_moves ms (after_turn now i w)
  run_moves (calls_hub c ∷ ms) w =
      let (answers, v) = run_moves ms (after_call c w) in ((call c w.state.hub).0 ∷ answers, v)

  -- The same tasks over states that are alike.
  abbrev AlikeWorlds : World → World → Type 0
  AlikeWorlds w v =
      IsSound w.state × IsSound v.state × (w.tasks ≡ v.tasks) × Alike env w.state v.state

  after_turn-AlikeWorlds :
      (now : ℤ) (i : ℕ) (w v : World)
      → AlikeWorlds w v
      → AlikeWorlds (after_turn now i w) (after_turn now i v)
  after_turn-AlikeWorlds now i w v (s, t, tasks, alike) =
      let (next, again) =
        subst (λ k. Agree env (turn env now (w.tasks i) w.state) (turn env now k v.state))
          (ap (λ f. f i) tasks) (turn-Alike env now (w.tasks i) w.state v.state s t alike) in
      (
        turn-IsSound env now (w.tasks i) w.state s,
        turn-IsSound env now (v.tasks i) v.state t,
        ap₂ (λ f k. update f i k) tasks next,
        again,
      )

  after_call-AlikeWorlds :
      (c : HubCall) (w v : World)
      → AlikeWorlds w v
      → ((call c w.state.hub).0 ≡ (call c v.state.hub).0)
        × AlikeWorlds (after_call c w) (after_call c v)
  after_call-AlikeWorlds c w v (s, t, tasks, (hub, bindings, pending, files, rest)) =
      let (answer, again) = call-Agree c w.state.hub v.state.hub s.agents t.agents hub in
      (
        answer,
        (
          with_agents (call c w.state.hub).1 (call-IsValid c w.state.hub s.agents) s,
          with_agents (call c v.state.hub).1 (call-IsValid c v.state.hub t.agents) t,
          tasks,
          (again, bindings, pending, files, rest),
        ),
      )

  -- From two states that differ only in the order in which the hub, the bindings and the pending
  -- requests have their entries, with no key twice, and whose state files a start of the relay
  -- would load alike up to the order of the bindings, or with the same error: the same tasks, in
  -- the same order of turns and calls of the hub, stand where they stood, Slack has been sent the
  -- same calls, the hub has answered alike, and the states and their files are again related in
  -- this way.
  pub run_moves-Alike :
      (ms : List Move) (w v : World)
      → AlikeWorlds w v
      → ((run_moves ms w).0 ≡ (run_moves ms v).0)
        × ((run_moves ms w).1.tasks ≡ (run_moves ms v).1.tasks)
        × ((run_moves ms w).1.state.calls ≡ (run_moves ms v).1.state.calls)
        × Alike env (run_moves ms w).1.state (run_moves ms v).1.state
  run_moves-Alike [] w v (s, t, tasks, (hub, bindings, pending, files, rest)) =
      (refl, tasks, ap (λ f. f.calls) rest, (hub, bindings, pending, files, rest))
  run_moves-Alike (has_turn now i ∷ ms) w v h =
      run_moves-Alike ms (after_turn now i w) (after_turn now i v)
        (after_turn-AlikeWorlds now i w v h)
  run_moves-Alike (calls_hub c ∷ ms) w v h =
      let (answer, h') = after_call-AlikeWorlds c w v h in
      let (answers, tasks, calls, alike) =
        run_moves-Alike ms (after_call c w) (after_call c v) h' in
      (ap₂ (◌∷◌) answer answers, tasks, calls, alike)
