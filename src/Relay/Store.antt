-- ===== src/Relay/Store.antt =====
-- The state file and the store in it (crates/relay/src/store.rs).
pub mod Laws
mod Tests
use slack_claude_remote.Prelude.{
  ℕ, ◌≡◌, Bool, true, false, Option, none, some, List, [], ◌∷◌, take, any, Result, ok, err, ok_or,
  if◌then◌else◌, ◌>>=◌,
}
use slack_claude_remote.Prelude.Int.{ℤ}
use slack_claude_remote.Prelude.Text.{Text, utf8}
use slack_claude_remote.Prelude.Map.{Map}
use slack_claude_remote.Crypto.{Crypto}

pub record TokenRecord : Type 0 where
  pub sha256 : Text
  pub label : Text
  pub created : Text

pub record Binding : Type 0 where
  pub session : Text
  pub user : Text
  pub created : ℤ

pub record Store : Type 0 where
  pub users : List Text
  pub tokens : List TokenRecord
  pub bindings : Map Binding

abbrev pub empty_store : Store
empty_store = record { users = []; tokens = []; bindings = [] }

-- serde_json on a store.
pub record StoreCodec : Type 0 where
  pub to_bytes : Store → List ℕ
  pub from_bytes : List ℕ → Option Store
  pub from_bytes-to_bytes : (s : Store) → from_bytes (to_bytes s) ≡ some s

-- The two files of the directory that are touched: the state file and `{path}.tmp`.
pub record Disk : Type 0 where
  pub file : Option (List ℕ)
  pub tmp : Option (List ℕ)

pub data IoError : Type 0 where
  not_found invalid_data other_error : IoError

-- Where a write fails, if it does; `in_write n` is a failure of `write_all` after n bytes.
pub data Fault : Type 0 where
  no_fault in_open in_sync in_rename : Fault
  in_write : ℕ → Fault

-- What `fs::read` answers: the system may refuse to read a file that is there.
unfoldable pub read_file : Bool → Disk → Result (List ℕ) IoError
read_file refused disk = if refused then err other_error else ok_or disk.file not_found

module _ (codec : StoreCodec) where
  open codec use {to_bytes, from_bytes}

  unfoldable pub load : Result (List ℕ) IoError → Result Store IoError
  load (ok bytes) = ok_or (from_bytes bytes) invalid_data
  load (err not_found) = ok empty_store
  load (err e) = err e

  -- `save`: the temporary file is opened empty, written, synced, and renamed over the state file.
  unfoldable pub save : Store → Fault → Disk → Result (Unit {0}) IoError × Disk
  save store in_open disk = (err other_error, disk)
  save store (in_write n) disk =
      (err other_error, record disk { tmp = some (take n (to_bytes store)) })
  save store in_sync disk = (err other_error, record disk { tmp = some (to_bytes store) })
  save store in_rename disk = (err other_error, record disk { tmp = some (to_bytes store) })
  save store no_fault disk = (ok tt, record { file = some (to_bytes store); tmp = none })

module _ (crypto : Crypto) where
  open crypto use {sha256, hex_encode, ct_eq}

  unfoldable pub token_ok : Store → Text → Bool
  token_ok store raw =
      any (λ t. ct_eq (utf8 t.sha256) (utf8 (hex_encode (sha256 (utf8 raw))))) store.tokens
