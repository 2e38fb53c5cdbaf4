-- ===== src/Relay/Tasks/Races.antt =====
-- Two replies to one request at once. The match and the removal of the request are under two locks.
use slack_claude_remote.Prelude.{
  ℕ, ◌≡◌, ◌≢◌, refl, sym, ap, ◌∙◌, subst, false, some, [], ◌∷◌, ◌++◌, arith, inl, inr,
}
use slack_claude_remote.Prelude.Int.{ℤ}
use slack_claude_remote.Prelude.Text.{Text, text_eq_refl}
use slack_claude_remote.Prelude.Map.{Map, remove}
use slack_claude_remote.Protocol.{Behavior, RelayMsg, permission_verdict}
use slack_claude_remote.Relay.Slack.Events.{Candidate}
use slack_claude_remote.Relay.Hub.{Channel, send}
use slack_claude_remote.Relay.Hub.Laws.{channel_of, send_lem}
use slack_claude_remote.Relay.Store.{Binding}
use slack_claude_remote.Relay.Permission.{Pending, sweep, match_verdict}
use slack_claude_remote.Relay.State.{AppState}
use slack_claude_remote.Relay.Routes.Env.{Env}
use slack_claude_remote.Relay.Tasks.{Task, matching, consuming, sending, finished, turn}
use slack_claude_remote.Relay.Tasks.World.{World, update, turns, Reach, here, later}

sweep-sweep : (now : ℤ) (m : Map Pending) → sweep now (sweep now m) ≡ sweep now m
unfolding sweep
sweep-sweep now [] = refl
sweep-sweep now ((k, p) ∷ m) = ground (arith, sweep-sweep now m)

update-same : (tasks : ℕ → Task) (i : ℕ) (t : Task) → update tasks i t i ≡ t
update-same tasks i t = ground arith

update-other : (tasks : ℕ → Task) (i j : ℕ) (t : Task) → i ≢ j → update tasks i t j ≡ tasks j
update-other tasks i j t different = ground arith

module _ (env : Env) where
  -- A turn of the task with this number, if it stands there.
  turned :
      (now : ℤ) (i : ℕ) (first last : World) (t t' : Task) (s' : AppState)
      → Reach env first last
      → last.tasks i ≡ t
      → turn env now t last.state ≡ (t', s')
      → Reach env first (record { state = s'; tasks = update last.tasks i t' })
  turned now i first last t t' s' r stands moves =
      let moved : turn env now (last.tasks i) last.state ≡ (t', s') =
        ap (λ x. turn env now x last.state) stands ∙ moves in
      subst (λ x. Reach env first (record { state = x.1; tasks = update last.tasks i x.0 })) moved
        (later r (turns now i))

  -- What the two sends of the replies leave in the queue.
  abbrev pub both_queued : Channel → Text → Behavior → Behavior → Channel
  both_queued tx id v w = record tx {
    queue = tx.queue ++ permission_verdict id v ∷ [] ++ permission_verdict id w ∷ [];
  }

  turn-sending :
      (now : ℤ) (c : Candidate) (session : Text) (msg : RelayMsg) (s : AppState) (tx : Channel)
      → channel_of session s.hub ≡ some tx
      → tx.closed ≡ false
      → (turn env now (sending c session msg) s
          ≡ (finished, record s { hub = (send session msg s.hub).1 }))
        × (channel_of session (send session msg s.hub).1
            ≡ some (record tx { queue = tx.queue ++ msg ∷ [] }))
  unfolding turn
  turn-sending now c session msg s tx online live = elim (send_lem session session msg s.hub) [
    | inl (tx', found, _, sent, now_there) ↦
        let same : some tx ≡ some tx' = sym online ∙ found in
        (ground arith, ground (arith, text_eq_refl session))
    | inr (shut, _) ↦ absurd (ground (arith, shut tx online))
  ]

  -- From its match on, a task gets its verdict into the queue of the session.
  verdict_sent :
      (now : ℤ) (i : ℕ) (c : Candidate) (b : Binding) (id : Text) (v : Behavior) (tx : Channel)
      (first last : World)
      → Reach env first last
      → last.tasks i ≡ consuming c b id v
      → channel_of b.session last.state.hub ≡ some tx
      → tx.closed ≡ false
      → (next : World) × Reach env first next
        × (channel_of b.session next.state.hub
            ≡ some (record tx { queue = tx.queue ++ permission_verdict id v ∷ [] }))
        × ((j : ℕ) → i ≢ j → next.tasks j ≡ last.tasks j)
  unfolding turn
  verdict_sent now i c b id v tx first last r stands online live =
      let msg = permission_verdict id v in
      let used = record last.state { pending = remove id last.state.pending } in
      let to_send = update last.tasks i (sending c b.session msg) in
      let r' = turned now i first last _ (sending c b.session msg) used r stands refl in
      let (moves, queued) = turn-sending now c b.session msg used tx online live in
      let sent = record used { hub = (send b.session msg used.hub).1 } in
      let at_send = update-same last.tasks i (sending c b.session msg) in
      (
        record { state = sent; tasks = update to_send i finished },
        turned now i first (record { state = used; tasks = to_send }) _ finished sent r' at_send
            moves,
        queued,
        λ j different.
            update-other to_send i j finished different
            ∙ update-other last.tasks i j (sending c b.session msg) different,
      )

  -- Two replies to the same request, that are about to be matched at the same time, can both be
  -- matched before one of them removes the request: then the session gets both verdicts, be they the
  -- same or not.
  pub both_answer :
      (now : ℤ) (i j : ℕ) (c d : Candidate) (b : Binding) (id : Text) (v w : Behavior)
      (tx : Channel) (first : World)
      → i ≢ j
      → first.tasks i ≡ matching c b
      → first.tasks j ≡ matching d b
      → match_verdict (sweep now first.state.pending) c b ≡ some (id, v)
      → match_verdict (sweep now first.state.pending) d b ≡ some (id, w)
      → channel_of b.session first.state.hub ≡ some tx
      → tx.closed ≡ false
      → (last : World) × Reach env first last
        × (channel_of b.session last.state.hub ≡ some (both_queued tx id v w))
  unfolding turn
  both_answer now i j c d b id v w tx first different at_c at_d match_c match_d online live =
      let pending = sweep now first.state.pending in
      let swept = record first.state { pending = pending } in
      let one = update first.tasks i (consuming c b id v) in
      let r1 =
        turned now i first first _ (consuming c b id v) swept here at_c (rw (match_c, turn) refl) in
      let still_d = update-other first.tasks i j (consuming c b id v) different ∙ at_d in
      let match_d' : match_verdict (sweep now swept.pending) d b ≡ some (id, w) =
        ap (λ m. match_verdict m d b) (sweep-sweep now first.state.pending) ∙ match_d in
      let swept' = record swept { pending = sweep now pending } in
      let two = update one j (consuming d b id w) in
      let r2 =
        turned now j first (record { state = swept; tasks = one }) _ (consuming d b id w) swept' r1
          still_d (rw (match_d', turn) refl) in
      let other_way : j ≢ i = λ e. different (sym e) in
      let at_v =
        update-other one j i (consuming d b id w) other_way
        ∙ update-same first.tasks i (consuming c b id v) in
      let (mid, r3, queued, rest) =
        verdict_sent now i c b id v tx first (record { state = swept'; tasks = two }) r2 at_v online
          live in
      let tx' = record tx { queue = tx.queue ++ permission_verdict id v ∷ [] } in
      let at_w = rest j different ∙ update-same one j (consuming d b id w) in
      let (end, r4, queued', _) = verdict_sent now j d b id w tx' first mid r3 at_w queued live in
      (end, r4, queued')
