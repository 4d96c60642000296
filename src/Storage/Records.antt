-- ===== src/Storage/Records.antt =====
-- Rows of the `pi_store_*` tables (packages/runtime/src/pi-storage/schema.ts), the writes of a
-- commit, and the journal's envelope (packages/contracts/src/pi-storage.ts).
use nimplex.Prelude.{ℕ, String, Bool, true, false, ◌&&◌, Option, none, List, []}

-- A JavaScript value that JSON represents; a finite number is its literal.
mutual
  pub data Json : Type 0 where
    null : Json
    boolean : Bool → Json
    number : String → Json
    non_finite : Json
    text : String → Json
    array : Items → Json
    object : Members → Json

  pub data Items : Type 0 where
    nil : Items
    cons : Json → Items → Items

  pub data Members : Type 0 where
    end : Members
    member : String → Json → Members → Members

unfoldable mutual
  pub is_finite : Json → Bool
  is_finite null = true
  is_finite (boolean b) = true
  is_finite (number n) = true
  is_finite non_finite = false
  is_finite (text s) = true
  is_finite (array xs) = items_finite xs
  is_finite (object ms) = members_finite ms

  pub items_finite : Items → Bool
  items_finite nil = true
  items_finite (cons x xs) = is_finite x && items_finite xs

  pub members_finite : Members → Bool
  members_finite end = true
  members_finite (member k x ms) = is_finite x && members_finite ms

-- `body` holds the members that the adapter stores and does not read.
pub record Entry : Type 0 where
  pub id : String
  pub parent_id : Option String
  pub seq : ℕ
  pub timestamp : ℕ
  pub type : String
  pub custom_type : Option String
  pub body : Json

pub record Cost : Type 0 where
  pub input : ℕ
  pub output : ℕ
  pub cache_read : ℕ
  pub cache_write : ℕ
  pub total : ℕ

pub record Usage : Type 0 where
  pub input : ℕ
  pub output : ℕ
  pub cache_read : ℕ
  pub cache_write : ℕ
  pub total_tokens : ℕ
  pub cache_write1h : Option ℕ
  pub reasoning : Option ℕ
  pub cost : Cost

pub record UsageRow : Type 0 where
  pub id : String
  pub seq : ℕ
  pub usage : Usage
  pub body : Json

pub record SessionStats : Type 0 where
  pub message_count : ℕ
  pub usage : Usage

abbrev pub empty_stats : SessionStats
empty_stats = record {
  message_count = 0;
  usage = record {
    input = 0;
    output = 0;
    cache_read = 0;
    cache_write = 0;
    total_tokens = 0;
    cache_write1h = none;
    reasoning = none;
    cost = record { input = 0; output = 0; cache_read = 0; cache_write = 0; total = 0 };
  };
}

-- A scalar value or a list element, by its namespace and key. `put none` writes `undefined`.
pub data KeyedKind : Type 0 where
  value list : KeyedKind

pub data KeyedOp : Type 0 where
  delete : KeyedOp
  put : Option Json → KeyedOp

pub record KeyedWrite : Type 0 where
  pub kind : KeyedKind
  pub namespace : String
  pub key : String
  pub seq : ℕ
  pub op : KeyedOp

pub data CommittedWrite : Type 0 where
  entry_write : Entry → CommittedWrite
  usage_write : UsageRow → CommittedWrite
  keyed_write : KeyedWrite → CommittedWrite

abbrev pub write_seq : CommittedWrite → ℕ
write_seq (entry_write e) = e.seq
write_seq (usage_write u) = u.seq
write_seq (keyed_write k) = k.seq

pub record KeyedRow : Type 0 where
  pub namespace : String
  pub key : String
  pub seq : ℕ
  pub value : Json

pub record Projections : Type 0 where
  pub entries : List Entry
  pub usage : List UsageRow
  pub values : List KeyedRow
  pub lists : List KeyedRow

abbrev pub no_projections : Projections
no_projections = record { entries = []; usage = []; values = []; lists = [] }

pub record PiStorageScope : Type 0 where
  pub tenant_id : String
  pub session_id : String

pub record PiStorageFormat : Type 0 where
  pub version : ℕ
  pub engine : String
  pub pi_version : String

abbrev pub current_format : PiStorageFormat
current_format = record { version = 1; engine = "pi-agent-harness"; pi_version = "0.85.1" }

pub record PiStorageCommit : Type 0 where
  pub version : ℕ
  pub format : PiStorageFormat
  pub scope : PiStorageScope
  pub commit_id : String
  pub committed_at : ℕ
  pub first_seq : ℕ
  pub writes : List CommittedWrite

-- `Text` is the type of JSON texts.
pub record CommitRow (Text : Type 0) : Type 0 where
  pub commit_id : String
  pub first_seq : ℕ
  pub last_seq : ℕ
  pub digest : String
  pub data_text : Text

pub record SessionRow : Type 0 where
  pub format : PiStorageFormat
  pub next_seq : ℕ
  pub stats : SessionStats

pub record Tables (Text : Type 0) : Type 0 where
  pub session : Option SessionRow
  pub commits : List (CommitRow Text)
  pub projections : Projections

abbrev pub no_tables : {Text : Type 0} → Tables Text
no_tables = record { session = none; commits = []; projections = no_projections }

pub data StorageError : Type 0 where
  storage_closed session_missing ownership_lost constraint_failed not_finite not_serializable :
      StorageError
  invalid_scope invalid_format invalid_commit digest_mismatch scope_mismatch : StorageError
  sequence_gap write_gap high_water_mismatch invalid_page fork_not_empty : StorageError
  unknown_start missing_parent : StorageError
  pi_refused : String → StorageError
