-- ===== src/Relay/Routes/Pieces.antt =====
-- The loops that post a text to a thread piece by piece (`post_reply` of
-- crates/relay/src/routes/agent_ws.rs and `handle_request` of crates/relay/src/permission.rs).
use slack_claude_remote.Prelude.{
  ℕ, suc, ◌≤◌, ◌<◌, ◌≡◌, refl, sym, ◌∙◌, ap, ◌⊎◌, inl, inr, false, some, List, [], ◌∷◌, ◌++◌, map,
  take, concat, length, arith, Result, Result-cases, append-nil, append-snoc, ok, err, is_ok,
  unwrap_or,
}
use slack_claude_remote.Prelude.Text.{Text}
use slack_claude_remote.Relay.Chunk.{chunk}
use slack_claude_remote.Relay.Chunk.Laws.{chunk-Chunking}
use slack_claude_remote.Relay.Chunk.Spec.{Chunking-concat}
use slack_claude_remote.Relay.Slack.Api.{SlackApi, SlackError, Call, post, post_message}

abbrev pub chunk_chars : ℕ
chunk_chars = 3900

-- `chunk` has a result for this limit: `pieces_of-chunk`.
abbrev pub pieces_of : Text → List Text
pieces_of text = unwrap_or (chunk text chunk_chars) []

abbrev pub posts : Text → Text → List Text → List Call
posts channel thread_ts ps = map (post channel (some thread_ts)) ps

module _ (api : SlackApi) (channel thread_ts : Text) where
  -- The loop ends at the first error.
  unfoldable pub post_pieces : List Text → List Call → Result (Unit {0}) SlackError × List Call
  post_pieces [] calls = (ok tt, calls)
  post_pieces (p ∷ ps) calls =
      let (answer, made) = post_message api channel (some thread_ts) p calls in
      elim answer [ err e ↦ (err e, made) | ok _ ↦ post_pieces ps made ]

  -- Either every piece was posted and taken, or the posts are a part of the pieces from the first on,
  -- of which the last was refused.
  abbrev pub ArePosted : List Text → List Call → Result (Unit {0}) SlackError × List Call → Type 0
  ArePosted ps calls (answer, made) =
      (answer ≡ ok tt) × (made ≡ calls ++ posts channel thread_ts ps)
      ⊎ (is_ok answer ≡ false)
        × ((n : ℕ) × (0 < n)
            × (n ≤ length ps)
            × (made ≡ calls ++ posts channel thread_ts (take n ps))
            × (is_ok (api.answer_post made) ≡ false))

  pub post_pieces-ArePosted :
      (ps : List Text) (calls : List Call) → ArePosted ps calls (post_pieces ps calls)
  unfolding post_pieces post_message
  post_pieces-ArePosted [] calls = inl (refl, sym (append-nil calls))
  post_pieces-ArePosted (p ∷ ps) calls =
      let made = calls ++ post channel (some thread_ts) p ∷ [] in
      elim (Result-cases (api.answer_post made)) [
        | inr (e, refused) ↦ inr (
          rw (refused, post_pieces),
          (
            1,
            omega arith,
            omega arith,
            rw (refused, post_pieces),
            rw (refused, post_pieces) (rw refused),
          ),
        )
        | inl (ts, taken) ↦ elim (post_pieces-ArePosted ps made) [
          | inl (fine, all) ↦ inl (
            rw (taken, post_pieces) fine,
            rw (taken, post_pieces) (all ∙ append-snoc calls _ (posts channel thread_ts ps)),
          )
          | inr (failed, (n, some_, most, part, last)) ↦ inr (
            rw (taken, post_pieces) failed,
            (
              suc n,
              omega arith,
              omega arith,
              rw (taken, post_pieces)
                  (part ∙ append-snoc calls _ (posts channel thread_ts (take n ps))),
              rw (taken, post_pieces) last,
            ),
          )
        ]
      ]

pub pieces_of-chunk :
    (text : Text)
    → (chunk text chunk_chars ≡ some (pieces_of text)) × (concat (pieces_of text) ≡ text)
pieces_of-chunk text =
    let (ps, found, c) = chunk-Chunking text chunk_chars (omega arith) in
    (
      found ∙ ap some (sym (ap (λ o. unwrap_or o []) found)),
      ap (λ o. concat (unwrap_or o [])) found ∙ Chunking-concat c,
    )
