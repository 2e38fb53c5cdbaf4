-- ===== src/Samples/Messages.antt =====
-- A self-delimiting encoding of the messages, in the place of serde_json.
use slack_claude_remote.Prelude.{ℕ, zero, suc, ◌≡◌, refl, sym, Option, some, [], ◌>>=?◌ as ◌>>=◌}
use mathlib.Core.List.{append-nil}
use slack_claude_remote.Prelude.Text.{Text}
use slack_claude_remote.Protocol.{
  AgentMsg, hello, reply, permission_request, RelayMsg, welcome, inbound, permission_verdict, error,
  allow, deny, Codec,
}
use slack_claude_remote.Samples.Encoding.{Encoding, pair, text, number, via}

-- A tag, a number and four texts.
abbrev Fields : Type 0
Fields = ℕ × (ℕ × (Text × (Text × (Text × Text))))

abbrev agent_fields : AgentMsg → Fields
agent_fields (hello version name host cwd) = (0, (version, (name, (host, (cwd, [])))))
agent_fields (reply chat_id t) = (1, (0, (chat_id, (t, ([], [])))))
agent_fields (permission_request i t d p) = (2, (0, (i, (t, (d, p)))))

abbrev agent_of : Fields → AgentMsg
agent_of (zero, (version, (name, (host, (cwd, _))))) = hello version name host cwd
agent_of (suc zero, (_, (chat_id, (t, _)))) = reply chat_id t
agent_of (_, (_, (i, (t, (d, p))))) = permission_request i t d p

agent_back : (m : AgentMsg) → agent_of (agent_fields m) ≡ m
agent_back (hello version name host cwd) = refl
agent_back (reply chat_id t) = refl
agent_back (permission_request i t d p) = refl

abbrev relay_fields : RelayMsg → Fields
relay_fields (welcome name) = (0, (0, (name, ([], ([], [])))))
relay_fields (inbound chat_id user t) = (1, (0, (chat_id, (user, (t, [])))))
relay_fields (permission_verdict i allow) = (2, (0, (i, ([], ([], [])))))
relay_fields (permission_verdict i deny) = (2, (1, (i, ([], ([], [])))))
relay_fields (error t) = (3, (0, (t, ([], ([], [])))))

abbrev relay_of : Fields → RelayMsg
relay_of (zero, (_, (name, _))) = welcome name
relay_of (suc zero, (_, (chat_id, (user, (t, _))))) = inbound chat_id user t
relay_of (suc (suc zero), (zero, (i, _))) = permission_verdict i allow
relay_of (suc (suc zero), (_, (i, _))) = permission_verdict i deny
relay_of (_, (_, (t, _))) = error t

relay_back : (m : RelayMsg) → relay_of (relay_fields m) ≡ m
relay_back (welcome name) = refl
relay_back (inbound chat_id user t) = refl
relay_back (permission_verdict i allow) = refl
relay_back (permission_verdict i deny) = refl
relay_back (error t) = refl

fields : Encoding Fields
fields = pair number (pair number (pair text (pair text (pair text text))))

agent_encoding : Encoding AgentMsg
agent_encoding = via fields agent_fields agent_of agent_back

relay_encoding : Encoding RelayMsg
relay_encoding = via fields relay_fields relay_of relay_back

module _ {A : Type 0} (e : Encoding A) where
  decode : Text → Option A
  decode ns = do (a, _) ← e.get ns; some a

  decode-put : (a : A) → decode (e.put a) ≡ some a
  unfolding decode
  decode-put a = rw (sym (append-nil (e.put a)), e.get-put a [])

pub message_codec : Codec
message_codec = record {
  write_agent = agent_encoding.put;
  read_agent = decode agent_encoding;
  write_relay = relay_encoding.put;
  read_relay = decode relay_encoding;
  read-write_agent = decode-put agent_encoding;
  read-write_relay = decode-put relay_encoding;
}
