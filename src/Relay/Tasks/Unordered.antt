-- ===== src/Relay/Tasks/Unordered.antt =====
-- What the tasks do does not depend on the order in which the maps hold their entries.
use slack_claude_remote.Prelude.{
  Result, false, ◌≡◌, refl, ap, ◌∙◌, inl, inr, none, some, [], ok, err, arith, Option-cases,
  Bool-cases, Result-cases,
}
use slack_claude_remote.Prelude.Int.{ℤ}
use slack_claude_remote.Prelude.Text.{Text, contains, split_once}
use slack_claude_remote.Prelude.Map.{lookup, insert}
use slack_claude_remote.Prelude.Unordered.{SameEntries, insert-SameEntries}
use slack_claude_remote.Protocol.{RelayMsg, inbound}
use slack_claude_remote.Relay.Slack.Events.{Candidate}
use slack_claude_remote.Relay.Store.{
  Store, IoError, Disk, Fault, no_fault, in_open, in_sync, in_rename, in_write, Binding, load, save,
  read_file,
}
use slack_claude_remote.Relay.Hub.{empty_hub, send}
use slack_claude_remote.Relay.Hub.Table.{Same, send-Agree}
use slack_claude_remote.Relay.Permission.{Pending, sweep, match_verdict, latest_binding}
use slack_claude_remote.Relay.Permission.Unordered.{
  latest_binding-unordered, sweep-SameEntries, match_verdict-unordered,
}
use slack_claude_remote.Relay.State.{AppState}
use slack_claude_remote.Relay.Routes.Env.{Env}
use slack_claude_remote.Relay.Routes.Requests.{colon}
use slack_claude_remote.Relay.Routes.Pieces.{pieces_of}
use slack_claude_remote.Relay.Tasks.{
  Task, admitted, matching, consuming, sending, refused, asking, forgetting, finished,
  prompting_from, prompt_of, Request, turn,
}
use slack_claude_remote.Relay.Tasks.Sound.{IsSound}

-- Two stores, and what comes of the reading of two state files, up to the order of the bindings.
abbrev SameStore : Store → Store → Type 0
SameStore a b = (a.users ≡ b.users) × (a.tokens ≡ b.tokens) × SameEntries a.bindings b.bindings

abbrev ReadAlike : Result Store IoError → Result Store IoError → Type 0
ReadAlike (ok a) (ok b) = SameStore a b
ReadAlike (err e) (err f) = e ≡ f
ReadAlike _ _ = ⊥

-- The state without its maps and the disk.
abbrev unmapped : AppState → AppState
unmapped s = record s {
  hub = empty_hub;
  store = record s.store { bindings = [] };
  pending = [];
  disk = record { file = none; tmp = none };
}

module _ (env : Env) where
  open env use {store_codec}

  -- What a start of the relay would load. The temporary file is read by nobody.
  abbrev pub FilesAlike : Disk → Disk → Type 0
  FilesAlike d e =
      ReadAlike (load store_codec (read_file false d)) (load store_codec (read_file false e))

  -- Two states that differ in the order of their maps, at most, and whose state files are loaded alike
  -- up to that order.
  abbrev pub Alike : AppState → AppState → Type 0
  Alike s t =
      Same s.hub t.hub
      × SameEntries s.store.bindings t.store.bindings
      × SameEntries s.pending t.pending
      × FilesAlike s.disk t.disk
      × (unmapped s ≡ unmapped t)

  abbrev pub Agree : Task × AppState → Task × AppState → Type 0
  Agree x y = (x.0 ≡ y.0) × Alike x.1 y.1

  -- A save, if it succeeds or if it fails like the other one.
  pub save-FilesAlike :
      (fault : Fault) (a b : Store) (d e : Disk)
      → SameStore a b
      → FilesAlike d e
      → FilesAlike (save store_codec a fault d).1 (save store_codec b fault e).1
  unfolding save load read_file
  save-FilesAlike in_open a b d e same files = files
  save-FilesAlike (in_write n) a b d e same files = files
  save-FilesAlike in_sync a b d e same files = files
  save-FilesAlike in_rename a b d e same files = files
  save-FilesAlike no_fault a b d e same files =
      rw (store_codec.from_bytes-to_bytes a, store_codec.from_bytes-to_bytes b) same

module _ (env : Env) (now : ℤ) where
  open env use {api, store_codec}

  turns_to :
      (k : Task) (s t : AppState) (x y : Task × AppState)
      → turn env now k s ≡ x
      → turn env now k t ≡ y
      → Agree env x y
      → Agree env (turn env now k s) (turn env now k t)
  turns_to k s t x y first second h = rw (first, second) h

  pub send-Alike :
      (c : Candidate) (session : Text) (msg : RelayMsg) (s t : AppState)
      → Alike env s t
      → Agree env (turn env now (sending c session msg) s) (turn env now (sending c session msg) t)
  unfolding turn
  send-Alike c session msg s t (hub, bindings, pending, files, rest) =
      let k = sending c session msg in
      let (answer, again) = send-Agree session msg s.hub t.hub hub in
      elim (Result-cases (send session msg t.hub).0) [
        | inl (_, fine) ↦
            let here : (send session msg s.hub).0 ≡ ok tt = cc (answer, fine) in
            turns_to k s t (finished, record s { hub = (send session msg s.hub).1 })
              (finished, record t { hub = (send session msg t.hub).1 }) (ground arith)
              (ground arith) (refl, (again, bindings, pending, files, rest))
        | inr (e, bad) ↦
            let here : (send session msg s.hub).0 ≡ err e = cc (answer, bad) in
            turns_to k s t (refused c session, s) (refused c session, t) (ground arith)
              (ground arith) (refl, (hub, bindings, pending, files, rest))
      ]

  pub matching-Alike :
      (c : Candidate) (b : Binding) (s t : AppState)
      → IsSound s
      → IsSound t
      → Alike env s t
      → Agree env (turn env now (matching c b) s) (turn env now (matching c b) t)
  unfolding turn
  matching-Alike c b s t v w (hub, bindings, pending, files, rest) =
      let k = matching c b in
      let swept = sweep-SameEntries now s.pending t.pending v.requests w.requests pending in
      let same = match_verdict-unordered (sweep now s.pending) (sweep now t.pending) c b swept in
      let s' = record s { pending = sweep now s.pending } in
      let t' = record t { pending = sweep now t.pending } in
      elim (Option-cases (match_verdict (sweep now t.pending) c b)) [
        | inl unmatched ↦
            let msg = inbound c.chat_id c.user c.text in
            turns_to k s t (sending c b.session msg, s') (sending c b.session msg, t')
              (rw (same, unmatched, turn) refl) (rw (unmatched, turn) refl)
              (refl, (hub, bindings, swept, files, rest))
        | inr ((i, behavior), matched) ↦
            turns_to k s t (consuming c b i behavior, s') (consuming c b i behavior, t')
              (rw (same, matched, turn) refl) (rw (matched, turn) refl)
              (refl, (hub, bindings, swept, files, rest))
      ]

  pub admitted-Alike :
      (c : Candidate) (s t : AppState)
      → Alike env s t
      → Agree env (turn env now (admitted c) s) (turn env now (admitted c) t)
  unfolding turn
  admitted-Alike c s t (hub, bindings, pending, files, rest) =
      let k = admitted c in
      let alike : Alike env s t = (hub, bindings, pending, files, rest) in
      let users = ap (λ f. contains f.store.users c.user) rest in
      elim (Bool-cases (contains t.store.users c.user)) [
        | inr unknown ↦
            turns_to k s t (finished, s) (finished, t) (rw (users, unknown, turn) refl)
              (rw (unknown, turn) refl) (refl, alike)
        | inl known ↦ elim (Option-cases (lookup c.chat_id t.store.bindings)) [
          | inl unbound ↦
              turns_to k s t (finished, s) (finished, t)
                (rw (users, known, bindings c.chat_id, unbound, turn) refl)
                (rw (known, unbound, turn) refl) (refl, alike)
          | inr (b, bound) ↦
              turns_to k s t (matching c b, s) (matching c b, t)
                (rw (users, known, bindings c.chat_id, bound, turn) refl)
                (rw (known, bound, turn) refl) (refl, alike)
        ]
      ]

  pub asking-Alike :
      (r : Request) (s t : AppState)
      → IsSound s
      → IsSound t
      → Alike env s t
      → Agree env (turn env now (asking r) s) (turn env now (asking r) t)
  unfolding turn
  asking-Alike r s t v w (hub, bindings, pending, files, rest) =
      let k = asking r in
      let swept = sweep-SameEntries now s.pending t.pending v.requests w.requests pending in
      let same =
        latest_binding-unordered s.store.bindings t.store.bindings r.session v.bindings w.bindings
          bindings in
      elim (Option-cases (latest_binding t.store.bindings r.session)) [
        | inl none_ ↦
            let here = same ∙ none_ in
            turns_to k s t (finished, record s { pending = sweep now s.pending })
              (finished, record t { pending = sweep now t.pending }) (ground arith) (ground arith)
              (refl, (hub, bindings, swept, files, rest))
        | inr ((chat_id, b), found) ↦
            let here = same ∙ found in
            let asked : Pending = record {
              chat_id = chat_id;
              session = r.session;
              created = now;
            } in
            let next : Task = elim (split_once colon chat_id) [
              | none ↦ forgetting r.request_id
              | some (channel, thread_ts) ↦
                  prompting_from r channel thread_ts (pieces_of (prompt_of r))
            ] in
            turns_to k s t
              (next, record s { pending = insert r.request_id asked (sweep now s.pending) })
              (next, record t { pending = insert r.request_id asked (sweep now t.pending) })
              (ground arith) (ground arith)
              (
                refl,
                (
                  hub,
                  bindings,
                  insert-SameEntries r.request_id asked (sweep now s.pending) (sweep now t.pending)
                      swept,
                  files,
                  rest,
                ),
              )
      ]
