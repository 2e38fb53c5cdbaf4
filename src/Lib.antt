-- ===== src/Lib.antt =====
-- A verification library for slack-claude-remote: Slack threads that talk to Claude Code sessions.
--
-- The program has a relay (crates/relay) that Slack calls over HTTP and that agents reach over
-- WebSocket, an agent (crates/agent) beside each Claude Code session, and the messages between the
-- two (crates/protocol). A user picks a session in Slack; the relay posts a root message and binds
-- the thread to the session. Replies in the thread go to the session's agent; what the session says
-- comes back in pieces; a permission request of the session is posted as a prompt, and a reply
-- "yes id" or "no id" of the user who bound the thread is its verdict.
--
-- Files:
-- - Protocol: the messages of crates/protocol/src/lib.rs.
-- - Relay/Chunk: crates/relay/src/chunk.rs; Spec is the rule of the cuts as a relation.
-- - Relay/Hub: crates/relay/src/hub.rs; Table is the hub up to the order of its entries, as a quotient,
--   and Observed compares it with what the clients see.
-- - Relay/Permission: crates/relay/src/permission.rs; Grammar (with Words) has the language of
--   verdicts, Pendings expiry and matching, Latest the thread of a prompt, Unordered the order of the
--   maps.
-- - Relay/Store: crates/relay/src/store.rs, with the two files that a save touches.
-- - Relay/Session: crates/relay/src/auth/session.rs.
-- - Relay/Config, Relay/State: crates/relay/src/config.rs and state.rs.
-- - Relay/Slack: crates/relay/src/slack, one module for each file; Dedupe is the part of events.rs
--   that remembers event ids.
-- - Relay/Routes/Webhooks: the three webhooks of crates/relay/src/routes/slack.rs; Signed has what a
--   request may do, Bindings what becomes of the bindings.
-- - Relay/Routes/Requests: handle_request of crates/relay/src/permission.rs; Answered goes from the
--   request to its verdict.
-- - Relay/Routes/Agents: crates/relay/src/routes/agent_ws.rs; Connection has the life of a connection
--   among other tasks, Sole the connections that are open at once, Departure what one leaves behind.
--   Pieces is the loop of posts.
-- - Relay/Routes/Dev: crates/relay/src/routes/dev.rs and the health check.
-- - Relay/Routes/Messages: handle_message of crates/relay/src/routes/slack.rs; Verdicts and Delivery
--   are the proofs.
-- - Relay/Routes/App: the routes of crates/relay/src/routes.rs and auth/routes.rs, and the application
--   on a request; Strangers is about requests of nobody the relay knows.
-- - Relay/Tasks: handle_message, interactions and handle_request a lock at a time. World has any number
--   of these tasks over one state, with the other handlers in between; Alone ties a task to its
--   handler, Sound and Authority are invariants, Receipts, Origins and Repeats what a session receives,
--   from which reply, and which events are refused, Races what two replies at once can do, Schedules
--   whether the order of the maps shows.
-- - Relay/Auth: crates/relay/src/auth/oidc.rs (Oidc, Exchange), html.rs and routes.rs (Admin, Dates).
-- - Relay/Main: crates/relay/src/main.rs; Restart goes from the disk of one relay to the next.
-- - Agent: crates/agent/src/mcp.rs, stdio.rs, ws.rs and main.rs; Ws/Offline and Ws/Tries are about the
--   time without a connection, Main/Stalls about the loop with no client beside it.
-- - Journey: a message from the relay's queue to Claude, and from Claude to the handlers of the relay.
-- - Json, Crypto, Http: what is used of the crates serde_json, serde_urlencoded, hmac, sha2, hex,
--   subtle, reqwest and axum. These are arguments of the definitions, with their documented laws.
-- - Samples: concrete values for those arguments, and states for tests.
--
-- Strings are lists of code points; texts are compared and ordered by them, which is the order of the
-- UTF-8 bytes. An i64 is an integer with the wrap-around of a release build written out. Maps are
-- association lists; the program does not observe the order of a hash map, and what it takes from the
-- tree map of bindings does not depend on the order. Time, random tokens, the answers of Slack and
-- the faults of the disk are arguments.
--
-- Fuel: the loop of chunk runs on one more round than the text has characters; with a positive limit
-- each round takes a character, and the result is then proved to be there.
--
-- In Relay/Routes a handler is one step on the state; in Relay/Tasks it is cut where it releases a lock
-- or waits for Slack, and a task ends within a number of turns that is proved to be enough. A send to an
-- agent is one turn: that its sender waits while the queue is full is not told apart. The loop of a
-- connection takes the events that it selected as a list, and in Connection other tasks step between
-- its rounds. Logging is left out, but for the messages that are dropped.
-- Not modelled: what the crates do behind the interfaces above, the requests that axum refuses before a
-- handler, and the text that the development client prints.
pub mod Prelude
pub mod Json
pub mod Crypto
pub mod Http
pub mod Protocol
pub mod Relay
pub mod Agent
pub mod Journey
pub mod Samples
