-- ===== src/Agent/Ws/Offline.antt =====
-- What the client does while it has no connection (`drain_while`, `dropped_kind`, `build_request` and
-- the tries of `run` in crates/agent/src/ws.rs).
use slack_claude_remote.Prelude.{
  Bool, Option, none, some, List, [], ◌∷◌, ◌++◌, Result, ok, err, map_err, ◌>>=◌, ◌>>=?◌,
  if◌then◌else◌,
}
use slack_claude_remote.Prelude.Text.{Text, codes}
use slack_claude_remote.Json.{Json}
use slack_claude_remote.Protocol.{AgentMsg, hello, reply, permission_request, Codec}
use slack_claude_remote.Agent.Ws.{
  Backoff, Identity, Event, Attempt, bad_request, not_connected, not_greeted, session,
}

unfoldable pub dropped_kind : AgentMsg → Text
dropped_kind (hello _ _ _ _) = codes "hello"
dropped_kind (reply _ _) = codes "reply"
dropped_kind (permission_request _ _ _ _) = codes "permission_request"

-- What `select!` saw: the end of the future with its output, a message of the MCP side, or the end of
-- that side.
pub data Seen {ℓ} (A : Type ℓ) : Type ℓ where
  output : A → Seen A
  arrival : AgentMsg → Seen A
  mcp_closed : Seen A

-- `(&mut fut).await`
future_alone {ℓ} : {A : Type ℓ} → List (Seen A) → Option A
future_alone [] = none
future_alone (output a ∷ _) = some a
future_alone (_ ∷ seen) = future_alone seen

-- The output of the future and the lines of the log, or `none` while the future has not ended.
unfoldable pub drain_while {ℓ} : {A : Type ℓ} → List (Seen A) → Option (A × List Text)
unfolding future_alone
drain_while [] = none
drain_while (output a ∷ _) = some (a, [])
drain_while (arrival m ∷ seen) = drain_while seen >>=? λ (a, log).
    some (a, (codes "dropped " ++ dropped_kind m ++ codes " while offline") ∷ log)
drain_while (mcp_closed ∷ seen) = future_alone seen >>=? λ a. some (a, [])

-- The requests of tungstenite.
pub record Tungstenite : Type 1 where
  pub Request : Type 0
  pub HeaderValue : Type 0
  pub into_client_request : Text → Result Request Text
  pub header_value : Text → Result HeaderValue Text
  pub insert_authorization : HeaderValue → Request → Request

unfoldable pub build_request : (lib : Tungstenite) → (url token : Text) → Result lib.Request Text
build_request lib url token = do
  request ← map_err (λ e. codes "invalid relay url: " ++ e) (lib.into_client_request url)
  value ← map_err (λ e. codes "invalid token: " ++ e) (lib.header_value (codes "Bearer " ++ token))
  ok (lib.insert_authorization value request)

module _ (json : Json) (version : Text) (codec : Codec) (b : Backoff) (id : Identity)
    (lib : Tungstenite) where
  -- What the network does in a turn: whether it connects to a request, takes the hello, and the events
  -- of the session.
  pub record Network : Type 0 where
    pub connects : lib.Request → Bool
    pub greets : Bool
    pub session_events : List (Event json version codec b id)

  -- The turn that comes of it.
  unfoldable pub try_connect : (url token : Text) → Network → Attempt json version codec b id
  try_connect url token net = elim (build_request lib url token) [
    | err _ ↦ bad_request
    | ok request ↦
        if net.connects request
        then (if net.greets then session net.session_events else not_greeted)
        else not_connected
  ]
