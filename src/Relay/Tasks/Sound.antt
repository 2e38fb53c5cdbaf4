-- ===== src/Relay/Tasks/Sound.antt =====
-- What is true of the shared state whatever the order of the turns.
use slack_claude_remote.Prelude.{
  ◌≡◌, refl, inl, inr, [], ◌∷◌, ◌++◌, arith, Option-cases, Bool-cases, Bool, retain, not,
}
use slack_claude_remote.Prelude.Int.{ℤ}
use slack_claude_remote.Prelude.Text.{Text, codes}
use slack_claude_remote.Prelude.Map.{
  Map, lookup, insert, HasDistinctKeys, IsAbsent, insert-HasDistinctKeys, remove-HasDistinctKeys,
}
use slack_claude_remote.Relay.Slack.Api.{post_message}
use slack_claude_remote.Relay.Slack.Dedupe.Laws as Events
use slack_claude_remote.Relay.Hub.{Hub, receive, send}
use slack_claude_remote.Relay.Hub.Laws as Agents
use slack_claude_remote.Relay.Permission.{Pending, sweep, latest_binding}
use slack_claude_remote.Relay.Permission.Pendings.{sweep-HasDistinctKeys}
use slack_claude_remote.Relay.State.{AppState, save_store}
use slack_claude_remote.Relay.Routes.Env.{Env}
use slack_claude_remote.Relay.Routes.Messages.{notify_offline}
use slack_claude_remote.Relay.Routes.Webhooks.{unbind_threads, is_bound_by}
use slack_claude_remote.Relay.Auth.Admin.{commit, store_eq}
use slack_claude_remote.Relay.Tasks.{
  Task, arrived, admitted, matching, consuming, sending, refused, asking, prompting, forgetting,
  choosing, rooting, binding_thread, inviting, finished, turn,
}
use slack_claude_remote.Relay.Tasks.World.{
  World, Section, joins, leaves, takes, injects, unbinds, commits, logs_in, posts_reply, Step,
  begins, turns, elsewhere, Reach, here, later,
}

-- One connection for a name, one request for an id, one binding for a thread, and a memory of event
-- ids whose order and set agree.
pub record IsSound (s : AppState) : Type 0 where
  pub agents : Agents.IsValid s.hub
  pub requests : HasDistinctKeys s.pending
  pub bindings : HasDistinctKeys s.store.bindings
  pub remembered : Events.IsValid s.dedupe

pub with_agents :
    {s : AppState} (hub : Hub) → Agents.IsValid hub → IsSound s → IsSound (record s { hub = hub })
with_agents hub h v = record {
  agents = h;
  requests = v.requests;
  bindings = v.bindings;
  remembered = v.remembered;
}

with_requests :
    {s : AppState} (pending : Map Pending)
    → HasDistinctKeys pending
    → IsSound s
    → IsSound (record s { pending = pending })
with_requests pending h v = record {
  agents = v.agents;
  requests = h;
  bindings = v.bindings;
  remembered = v.remembered;
}

-- The state but for the parts that are not constrained.
abbrev MayDiffer : AppState → AppState → Type 0
MayDiffer s t = t ≡ record s {
  store = t.store;
  calls = t.calls;
  sessions = t.sessions;
  disk = t.disk;
  faults = t.faults;
}

with_store :
    (s t : AppState) → MayDiffer s t → HasDistinctKeys t.store.bindings → IsSound s → IsSound t
with_store s t same h v =
    rw same
      (record { agents = v.agents; requests = v.requests; bindings = h; remembered = v.remembered })

retain-IsAbsent {ℓ} :
    {V : Type ℓ} (p : Text × V → Bool) (k : Text) (m : Map V)
    → IsAbsent k m
    → IsAbsent k (retain p m)
unfolding lookup
retain-IsAbsent p k [] h = refl
retain-IsAbsent p k ((j, v) ∷ m) h = ground (arith, retain-IsAbsent p k m)

retain-HasDistinctKeys {ℓ} :
    {V : Type ℓ} (p : Text × V → Bool) (m : Map V)
    → HasDistinctKeys m
    → HasDistinctKeys (retain p m)
retain-HasDistinctKeys p [] h = tt
retain-HasDistinctKeys p ((k, v) ∷ m) (absent, h) =
    ground (arith, retain-IsAbsent p k m absent, retain-HasDistinctKeys p m h)

module _ (env : Env) where
  open env use {api, store_codec}

  pub turn-IsSound : (now : ℤ) (t : Task) (s : AppState) → IsSound s → IsSound (turn env now t s).1
  unfolding turn notify_offline post_message save_store
  turn-IsSound now (arrived event_id candidate) s v = record {
    agents = v.agents;
    requests = v.requests;
    bindings = v.bindings;
    remembered = Events.first_seen-IsValid s.dedupe event_id v.remembered;
  }
  turn-IsSound now (admitted c) s v = v
  turn-IsSound now (matching c b) s v =
      with_requests _ (sweep-HasDistinctKeys now s.pending v.requests) v
  turn-IsSound now (consuming c b i w) s v =
      with_requests _ (remove-HasDistinctKeys i s.pending v.requests) v
  turn-IsSound now (sending c session msg) s v = ground (
    arith,
    with_agents (send session msg s.hub).1 (Agents.send-IsValid session msg s.hub v.agents) v,
  )
  turn-IsSound now (refused c session) s v = with_store s _ refl v.bindings v
  turn-IsSound now (asking r) s v =
      let pending = sweep now s.pending in
      let swept = sweep-HasDistinctKeys now s.pending v.requests in
      elim (Option-cases (latest_binding s.store.bindings r.session)) [
        | inl unasked ↦ ground (arith, with_requests pending swept v)
        | inr ((chat_id, b), found) ↦
            let asked : Pending = record {
              chat_id = chat_id;
              session = r.session;
              created = now;
            } in
            let recorded = insert-HasDistinctKeys r.request_id asked pending swept in
            ground (arith, with_requests (insert r.request_id asked pending) recorded v)
      ]
  turn-IsSound now (prompting r channel thread_ts []) s v = v
  turn-IsSound now (prompting r channel thread_ts (p ∷ ps)) s v = with_store s _ refl v.bindings v
  turn-IsSound now (forgetting i) s v =
      with_requests _ (remove-HasDistinctKeys i s.pending v.requests) v
  turn-IsSound now (choosing sel) s v = v
  turn-IsSound now (rooting sel) s v = with_store s _ refl v.bindings v
  turn-IsSound now (binding_thread sel ts) s v =
      with_store s _ refl
        (insert-HasDistinctKeys (sel.channel ++ codes ":" ++ ts) _ s.store.bindings v.bindings) v
  turn-IsSound now (inviting sel) s v = with_store s _ refl v.bindings v
  turn-IsSound now finished s v = v

  Section-IsSound : {s t : AppState} → Section env s t → IsSound s → IsSound t
  unfolding unbind_threads save_store commit receive
  Section-IsSound {s} (joins name) v =
      with_agents _ (Agents.register-IsValid name _ s.hub v.agents) v
  Section-IsSound {s} (leaves name) v =
      with_agents _ (Agents.unregister-IsValid name s.hub v.agents) v
  Section-IsSound {s} (takes name {hub} {msg} e) v =
      with_agents hub (Agents.receive-IsValid name msg s.hub hub e v.agents) v
  Section-IsSound {s} (injects session chat_id user text) v =
      with_agents _ (Agents.send-IsValid session _ s.hub v.agents) v
  Section-IsSound {s} (unbinds channel user) v =
      with_store s _ refl
        (retain-HasDistinctKeys (λ x. not (is_bound_by channel user x)) s.store.bindings v.bindings)
        v
  Section-IsSound {s} (commits change same) v =
      elim (Bool-cases (store_eq (change s.store) s.store)) [
        | inl unchanged ↦ rw (unchanged, commit) v
        | inr different ↦ elim (Bool-cases (save_store store_codec (change s.store) s).0) [
          | inl saved ↦
              rw (different, saved, commit) (with_store s _ refl (rw (same s.store) v.bindings) v)
          | inr failed ↦ rw (different, failed, commit) (with_store s _ refl v.bindings v)
        ]
      ]
  Section-IsSound {s} (logs_in sessions) v = with_store s _ refl v.bindings v
  Section-IsSound {s} (posts_reply calls) v = with_store s _ refl v.bindings v

  Step-IsSound : {w v : World} → Step env w v → IsSound w.state → IsSound v.state
  Step-IsSound (begins i b free) h = h
  Step-IsSound {w} (turns now i) h = turn-IsSound now (w.tasks i) w.state h
  Step-IsSound (elsewhere s x) h = Section-IsSound x h

  Reach-IsSound : {w v : World} → Reach env w v → IsSound w.state → IsSound v.state
  Reach-IsSound here h = h
  Reach-IsSound (later r st) h = Step-IsSound st (Reach-IsSound r h)
