-- ===== src/Storage/Ports.antt =====
-- What the adapter calls and this repository does not hold: the JavaScript runtime (JSON, SHA-256,
-- the schema library's string checks) and Pi's session functions.
use nimplex.Prelude.{
  ℕ, String, ◌≡◌, Bool, true, ◌&&◌, Option, some, List, [], ◌∷◌, ◌+◌, ◌==◌, ok, Result,
}
use nimplex.Storage.Records.{
  Entry, KeyedRow, KeyedOp, put, CommittedWrite, entry_write, usage_write, keyed_write, write_seq,
  PiStorageCommit, StorageError, is_finite,
}

-- The `JSON.stringify` replacer throws at a number that is not finite.
abbrev op_finite : KeyedOp → Bool
op_finite (put (some v)) = is_finite v
op_finite _ = true

pub write_finite : CommittedWrite → Bool
write_finite (entry_write e) = is_finite e.body
write_finite (usage_write u) = is_finite u.body
write_finite (keyed_write k) = op_finite k.op

unfoldable pub writes_finite : List CommittedWrite → Bool
unfolding write_finite is_finite
writes_finite [] = true
writes_finite (w ∷ ws) = write_finite w && writes_finite ws

-- `write.seq === first + index` for every write
unfoldable pub is_numbered : ℕ → List CommittedWrite → Bool
is_numbered n [] = true
is_numbered n (w ∷ ws) = (write_seq w == n) && is_numbered (n + 1) ws

pub record Platform : Type 1 where
  pub Text : Type 0
  pub encode : PiStorageCommit → Text
  pub decode : Text → Option PiStorageCommit
  pub sha256 : Text → String
  pub is_uuid : String → Bool
  pub utf16_length : String → ℕ

-- JSON text reads back as the value it was made from, where every number is finite.
pub record PlatformLaws (js : Platform) : Type 0 where
  pub decode-encode :
      (c : PiStorageCommit) → writes_finite c.writes ≡ true → js.decode (js.encode c) ≡ some c

pub record ForkSnapshot : Type 0 where
  pub entries : List Entry
  pub scalar_values : List KeyedRow

pub record PiSession : Type 1 where
  pub Write : Type 0
  pub ForkOptions : Type 0
  pub prepare_storage_commit : List Write → ℕ → ℕ → Result StorageError (List CommittedWrite × ℕ)
  pub validate_committed_writes :
      List CommittedWrite → ℕ → (String → Bool) → (String → Bool) → Result StorageError (Unit {0})
  pub create_fork_snapshot :
      List Entry → List KeyedRow → ForkOptions → Result StorageError ForkSnapshot

-- Preparing a commit gives its writes the sequence numbers from `next_seq` on.
pub record PiSessionLaws (pi : PiSession) : Type 0 where
  pub prepared-is_numbered :
      (writes : List pi.Write) (next_seq now : ℕ) (prepared : List CommittedWrite) (timestamp : ℕ)
      → pi.prepare_storage_commit writes next_seq now ≡ ok (prepared, timestamp)
      → is_numbered next_seq prepared ≡ true
