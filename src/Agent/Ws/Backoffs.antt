-- ===== src/Agent/Ws/Backoffs.antt =====
-- How long the client waits between attempts.
use slack_claude_remote.Prelude.{
  ℕ, zero, suc, ◌*◌, ◌≤◌, ◌≡◌, refl, ap, ◌∙◌, List, [], ◌∷◌, length, arith, leb, if◌then◌else◌,
}
use mathlib.Core.Path.{ap₂}
use slack_claude_remote.Prelude.Text.{Text}
use slack_claude_remote.Json.{Json}
use slack_claude_remote.Protocol.{Codec}
use slack_claude_remote.Agent.Ws.{
  Backoff, Identity, next_wait, Client, Attempt, bad_request, not_connected, not_greeted, session,
  attempt, client_run,
}

-- A wait that was doubled k times.
doubled : ℕ → ℕ → ℕ
doubled zero w = w
doubled (suc k) w = doubled k w * 2

abbrev capped : Backoff → ℕ → ℕ
capped b w = if leb w b.max then w else b.max

-- From the k-th wait on.
schedule : Backoff → ℕ → ℕ → List ℕ
schedule b k zero = []
schedule b k (suc n) = capped b (doubled k b.initial) ∷ schedule b (suc k) n

next_wait-capped :
    (b : Backoff) (k : ℕ)
    → next_wait b (capped b (doubled k b.initial)) ≡ capped b (doubled (suc k) b.initial)
unfolding next_wait doubled
next_wait-capped b k = ground arith

module _ (json : Json) (version : Text) (codec : Codec) (b : Backoff) (id : Identity) where
  -- Turns that bring no session.
  abbrev AreFailures : List (Attempt json version codec b id) → Type 0
  AreFailures [] = Unit
  AreFailures (session _ ∷ turns) = ⊥
  AreFailures (_ ∷ turns) = AreFailures turns

  -- What a turn leaves when it brings no session.
  abbrev slept : Client json version codec b id → Client json version codec b id
  slept c = record c { wait = next_wait b c.wait }

  failures_from :
      (k : ℕ) (turns : List (Attempt json version codec b id)) (c : Client json version codec b id)
      → AreFailures turns
      → c.wait ≡ capped b (doubled k b.initial)
      → (client_run json version codec b id turns c).0 ≡ schedule b k (length turns)
  unfolding client_run attempt schedule
  failures_from k [] c h w = refl
  failures_from k (session _ ∷ turns) c h w = absurd h
  failures_from k (bad_request ∷ turns) c h w =
      ap₂ ◌∷◌ w
        (failures_from (suc k) turns (slept c) h (ap (next_wait b) w ∙ next_wait-capped b k))
  failures_from k (not_connected ∷ turns) c h w =
      ap₂ ◌∷◌ w
        (failures_from (suc k) turns (slept c) h (ap (next_wait b) w ∙ next_wait-capped b k))
  failures_from k (not_greeted ∷ turns) c h w =
      ap₂ ◌∷◌ w
        (failures_from (suc k) turns (slept c) h (ap (next_wait b) w ∙ next_wait-capped b k))

  -- While no connection comes about, the client sleeps after its k-th attempt, counted from 0, for the
  -- initial wait doubled k times, and at most the maximum; this holds from any state whose next wait
  -- is the initial one.
  sleeps_while_offline :
      (turns : List (Attempt json version codec b id)) (c : Client json version codec b id)
      → AreFailures turns
      → b.initial ≤ b.max
      → c.wait ≡ b.initial
      → (client_run json version codec b id turns c).0 ≡ schedule b 0 (length turns)
  unfolding doubled
  sleeps_while_offline turns c h bound start = failures_from 0 turns c h (start ∙ ground arith)
