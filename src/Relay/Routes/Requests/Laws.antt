-- ===== src/Relay/Routes/Requests/Laws.antt =====
-- What becomes of a permission request.
use slack_claude_remote.Prelude.{
  ℕ, ◌<◌, ◌≤◌, ◌≡◌, refl, sym, ◌⊎◌, inl, inr, none, some, List, [], ◌++◌, take, concat, length,
  Result-cases, Option-cases, append-nil, arith, is_ok, false,
}
use slack_claude_remote.Prelude.Int.{ℤ}
use slack_claude_remote.Prelude.Text.{Text, split_once, text_eq_refl}
use slack_claude_remote.Prelude.Map.{Map, lookup, insert, remove, lookup-insert, lookup-remove}
use slack_claude_remote.Relay.Slack.Api.{SlackApi, Call}
use slack_claude_remote.Relay.Store.{Binding}
use slack_claude_remote.Relay.Permission.{Pending, sweep, latest_binding, prompt_text}
use slack_claude_remote.Relay.State.{AppState}
use slack_claude_remote.Relay.Routes.Pieces.{
  pieces_of, pieces_of-chunk, posts, post_pieces, post_pieces-ArePosted,
}
use slack_claude_remote.Relay.Routes.Requests.{colon, post_prompt, handle_request}

-- Nothing but the calls and the pending requests differs.
abbrev pub KeepsRest : AppState → AppState → Type 0
KeepsRest s t = t ≡ record s { calls = t.calls; pending = t.pending }

-- The whole prompt was posted to the thread, and its request waits.
pub record IsAsked (chat_id prompt request_id : Text) (asked : Pending) (before : List Call)
    (t : AppState) : Type 0 where
  pub channel : Text
  pub thread_ts : Text
  pub split : split_once colon chat_id ≡ some (channel, thread_ts)
  pub pieces : List Text
  pub whole : concat pieces ≡ prompt
  pub posted : t.calls ≡ before ++ posts channel thread_ts pieces
  pub waits : lookup request_id t.pending ≡ some asked

-- A first part of the prompt was posted, of which the last piece was refused, or nothing as the
-- chat_id names no thread; the request is not pending.
pub record IsDropped (api : SlackApi) (chat_id prompt request_id : Text) (before : List Call)
    (t : AppState) : Type 0 where
  pub channel : Text
  pub thread_ts : Text
  pub n : ℕ
  pub split :
      (split_once colon chat_id ≡ some (channel, thread_ts))
        × (0 < n)
        × (is_ok (api.answer_post t.calls) ≡ false)
      ⊎ (split_once colon chat_id ≡ none) × (n ≡ 0)
  pub pieces : List Text
  pub whole : concat pieces ≡ prompt
  pub most : n ≤ length pieces
  pub posted : t.calls ≡ before ++ posts channel thread_ts (take n pieces)
  pub forgotten : lookup request_id t.pending ≡ none

forgotten_after : (id : Text) (m : Map Pending) → lookup id (remove id m) ≡ none
forgotten_after id m = ground (arith, lookup-remove id id m, text_eq_refl id)

module _ (api : SlackApi) where
  abbrev pub Outcome : Text → Text → Text → Pending → AppState → AppState → Type 0
  Outcome chat_id prompt request_id asked s t =
      KeepsRest s t
      × (IsAsked chat_id prompt request_id asked s.calls t
          ⊎ IsDropped api chat_id prompt request_id s.calls t)

  post_prompt_lem :
      (channel thread_ts request_id prompt : Text) (asked : Pending) (chat_id : Text) (s : AppState)
      → split_once colon chat_id ≡ some (channel, thread_ts)
      → lookup request_id s.pending ≡ some asked
      → Outcome chat_id prompt request_id asked s
          (post_prompt api channel thread_ts request_id prompt s)
  unfolding post_prompt
  post_prompt_lem channel thread_ts request_id prompt asked chat_id s split waits =
      let ps = pieces_of prompt in
      let whole = (pieces_of-chunk prompt).1 in
      elim (post_pieces-ArePosted api channel thread_ts ps s.calls) [
        | inl (fine, all) ↦
            rw (fine, post_prompt)
              (
                refl,
                inl (record {
                  channel = channel;
                  thread_ts = thread_ts;
                  split = split;
                  pieces = ps;
                  whole = whole;
                  posted = all;
                  waits = waits;
                }),
              )
        | inr (failed, (n, some_, most, part, last)) ↦
            elim (Result-cases (post_pieces api channel thread_ts ps s.calls).0) [
              | inl (a, fine) ↦ absurd (ground arith)
              | inr (e, bad) ↦
                  rw (bad, post_prompt)
                    (
                      refl,
                      inr (record {
                        channel = channel;
                        thread_ts = thread_ts;
                        n = n;
                        split = inl (split, some_, last);
                        pieces = ps;
                        whole = whole;
                        most = most;
                        posted = part;
                        forgotten = forgotten_after request_id s.pending;
                      }),
                    )
            ]
      ]

  -- A permission request of a session without a binding only sweeps. With one, it goes to the thread
  -- of the newest binding: either its whole prompt is posted there, piece by piece, and the request
  -- waits under its id with this thread, this session and this time; or a first part of the prompt
  -- was posted, and the request does not wait. Nothing but the calls and the requests changes.
  pub handle_request_lem :
      (now : ℤ) (session request_id tool_name description input_preview : Text) (s : AppState)
      → (latest_binding s.store.bindings session ≡ none)
          × (handle_request api now session request_id tool_name description input_preview s
              ≡ record s { pending = sweep now s.pending })
        ⊎ ((b : Text × Binding) × (latest_binding s.store.bindings session ≡ some b)
            × Outcome b.0
                (prompt_text tool_name description input_preview request_id)
                request_id
                (record { chat_id = b.0; session = session; created = now })
                s
                (handle_request api now session request_id tool_name description input_preview s))
  unfolding handle_request
  handle_request_lem now session request_id tool_name description input_preview s =
      let prompt = prompt_text tool_name description input_preview request_id in
      elim (Option-cases (latest_binding s.store.bindings session)) [
        | inl missing ↦ inl (missing, rw (missing, handle_request))
        | inr ((chat_id, b), found) ↦
            let asked : Pending = record { chat_id = chat_id; session = session; created = now } in
            let recorded = record s { pending = insert request_id asked (sweep now s.pending) } in
            inr (
              (chat_id, b),
              found,
              elim (Option-cases (split_once colon chat_id)) [
                | inl bare ↦
                    rw (found, bare, handle_request)
                      (
                        refl,
                        inr (record {
                          channel = [];
                          thread_ts = [];
                          n = 0;
                          split = inr (bare, refl);
                          pieces = pieces_of prompt;
                          whole = (pieces_of-chunk prompt).1;
                          most = omega arith;
                          posted = sym (append-nil s.calls);
                          forgotten = forgotten_after request_id recorded.pending;
                        }),
                      )
                | inr ((channel, thread_ts), split) ↦
                    rw (found, split, handle_request)
                      (post_prompt_lem channel thread_ts request_id prompt asked chat_id recorded
                        split
                        (ground (
                          arith,
                          lookup-insert request_id request_id asked (sweep now s.pending),
                          text_eq_refl request_id,
                        )))
              ],
            )
      ]
