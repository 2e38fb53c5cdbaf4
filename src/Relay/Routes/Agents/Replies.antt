-- ===== src/Relay/Routes/Agents/Replies.antt =====
-- What an agent's replies post.
use slack_claude_remote.Prelude.{
  ℕ, ◌≤◌, ◌≡◌, ◌≢◌, refl, sym, ◌∙◌, ap, ◌↔◌, ◌⊎◌, inl, inr, false, none, some, List, [], ◌∷◌, ◌++◌,
  Option-cases, arith, length, concat, take, is_ok,
}
use slack_claude_remote.Prelude.Text.{Text, is_empty, split_once}
use slack_claude_remote.Protocol.{}
use slack_claude_remote.Relay.Slack.Api.{SlackApi}
use slack_claude_remote.Relay.State.{AppState}
use slack_claude_remote.Relay.Routes.Pieces.{
  pieces_of, pieces_of-chunk, posts, post_pieces-ArePosted,
}
use slack_claude_remote.Relay.Routes.Requests.{colon}
use slack_claude_remote.Relay.Routes.Agents.{reply_thread, post_reply}

-- A chat_id names a thread if it has a colon and neither part at the first one is empty.
pub reply_thread_iff :
    (chat_id channel thread_ts : Text)
    → (reply_thread chat_id ≡ some (channel, thread_ts))
      ↔ ((split_once colon chat_id ≡ some (channel, thread_ts)) × (channel ≢ []) × (thread_ts ≢ []))
unfolding reply_thread is_empty
reply_thread_iff chat_id channel thread_ts = elim (Option-cases (split_once colon chat_id)) [
  | inl missing ↦ (λ e. absurd (ground arith), λ (e, _, _). cc)
  | inr ((c, t), found) ↦ by_parts c t found
]
  where
    by_parts :
        (c t : Text)
        → split_once colon chat_id ≡ some (c, t)
        → (reply_thread chat_id ≡ some (channel, thread_ts)) ↔ (
            (split_once colon chat_id ≡ some (channel, thread_ts))
            × (channel ≢ [])
            × (thread_ts ≢ []))
    by_parts [] t found = (λ e. absurd (ground arith), λ (e, full, _). absurd (full (cc)))
    by_parts (a ∷ c) [] found = (λ e. absurd (ground arith), λ (e, _, full). absurd (full (cc)))
    by_parts (a ∷ c) (b ∷ t) found = (
      λ e. (ground arith, λ empty. absurd (ground arith), λ empty. absurd (ground arith)),
      λ (e, _, _). ground arith,
    )

-- The text is in the thread from its start: whole, or up to a piece that was refused.
pub record IsPosted (api : SlackApi) (channel thread_ts text : Text) (s t : AppState) : Type 0 where
  pub pieces : List Text
  pub whole : concat pieces ≡ text
  pub n : ℕ
  pub most : n ≤ length pieces
  pub posted : t ≡ record s { calls = s.calls ++ posts channel thread_ts (take n pieces) }
  pub ended : (n ≡ length pieces) ⊎ (is_ok (api.answer_post t.calls) ≡ false)

take-length : {A : Type 0} (xs : List A) → take (length xs) xs ≡ xs
take-length [] = refl
take-length (x ∷ xs) = ap (◌∷◌ x) (take-length xs)

module _ (api : SlackApi) where
  -- A reply is posted to the thread that its chat_id names, piece by piece, to its end or to the
  -- first piece that is refused; nothing but the calls changes. If the chat_id names no thread or
  -- the text is empty, nothing changes at all.
  pub post_reply_lem :
      (chat_id text : Text) (s : AppState)
      → ((reply_thread chat_id ≡ none) ⊎ (text ≡ [])) × (post_reply api chat_id text s ≡ s)
        ⊎ (text ≢ [])
          × ((channel thread_ts : Text) × (reply_thread chat_id ≡ some (channel, thread_ts))
              × IsPosted api channel thread_ts text s (post_reply api chat_id text s))
  unfolding post_reply is_empty
  post_reply_lem chat_id [] s = inl (inr refl, ground arith)
  post_reply_lem chat_id (x ∷ xs) s = elim (Option-cases (reply_thread chat_id)) [
    | inl missing ↦ inl (inl missing, rw (missing, post_reply))
    | inr ((channel, thread_ts), found) ↦
        let ps = pieces_of (x ∷ xs) in
        let whole = (pieces_of-chunk (x ∷ xs)).1 in
        inr (
          (λ e. cc),
          (
            channel,
            thread_ts,
            found,
            elim (post_pieces-ArePosted api channel thread_ts ps s.calls) [
              | inl (_, all) ↦
                  rw (found, post_reply)
                    (record {
                      pieces = ps;
                      whole = whole;
                      n = length ps;
                      most = omega arith;
                      posted =
                          ap (λ calls. record s { calls = calls })
                            (all
                              ∙ ap (λ qs. s.calls ++ posts channel thread_ts qs)
                                  (sym (take-length ps)));
                      ended = inl refl;
                    })
              | inr (_, (n, _, most, part, last)) ↦
                  rw (found, post_reply)
                    (record {
                      pieces = ps;
                      whole = whole;
                      n = n;
                      most = most;
                      posted = ap (λ calls. record s { calls = calls }) part;
                      ended = inr last;
                    })
            ],
          ),
        )
  ]
