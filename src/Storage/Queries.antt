-- ===== src/Storage/Queries.antt =====
-- The readers of `SqlitePiStorage`. Each first asserts that the storage is open.
use nimplex.Prelude.{
  ℕ, String, Bool, true, not, ◌&&◌, Option, none, some, List, [], ◌∷◌, map, find, filter, take,
  if◌then◌else◌, ltb, leb, str_eq, opt_eq, Result, ok, ◌>>=◌, ◌>>◌, guard, or_throw,
}
use nimplex.Prelude.Sorting.{order_by}
use mathlib.Core.List.{reverse}
use nimplex.Storage.Records.{
  Json, Entry, KeyedRow, SessionStats, CommitRow, Tables, PiStorageCommit, PiStorageScope,
  StorageError, storage_closed, session_missing, invalid_page,
}
use nimplex.Storage.Ports.{Platform, PiSession}
use nimplex.Storage.Projections.{same_address}
use nimplex.Storage.Journal.{decode_commit}

-- `assertOpen`: the storage is closing once `close` was called.
abbrev pub assert_open : Bool → Result StorageError (Unit {0})
assert_open closing = guard (not closing) storage_closed

-- `readPage` of a query: `LIMIT` when there is one
abbrev pub limit_rows {ℓ} : {A : Type ℓ} → Option ℕ → List A → List A
limit_rows none rows = rows
limit_rows (some n) rows = take n rows

unfoldable pub find_entry : String → List Entry → Option Entry
find_entry id = find (λ e. str_eq e.id id)

-- `getEntries`: the ids that are found, with their entries
unfoldable pub get_entries : List String → List Entry → List (String × Entry)
unfolding find_entry
get_entries [] entries = []
get_entries (id ∷ ids) entries =
    let rest = get_entries ids entries in
    elim (find_entry id entries) [ none ↦ rest | some e ↦ (id, e) ∷ rest ]

-- `getValue`: the row's sequence number and value
unfoldable pub get_value : String → String → List KeyedRow → Option (ℕ × Json)
get_value namespace key [] = none
get_value namespace key (r ∷ rows) =
    if same_address namespace key r then some (r.seq, r.value) else get_value namespace key rows

pub data Order : Type 0 where
  asc desc : Order

abbrev pub order_rows {ℓ} : {A : Type ℓ} → (A → ℕ) → Order → List A → List A
order_rows key asc rows = order_by key rows
order_rows key desc rows = reverse (order_by key rows)

-- rows after the cursor, in the direction of the scan
abbrev pub past_cursor : Order → Option ℕ → ℕ → Bool
past_cursor order none seq = true
past_cursor asc (some c) seq = ltb c seq
past_cursor desc (some c) seq = ltb seq c

-- `readList`, with the options that Pi has resolved
unfoldable pub read_list : String → String → Order → Option ℕ → ℕ → List KeyedRow → List (ℕ × Json)
unfolding order_by
read_list namespace key order cursor limit rows =
    map (λ r. (r.seq, r.value))
      (take limit (
        order_rows (λ (r : KeyedRow). r.seq) order
          (filter (λ r. same_address namespace key r && past_cursor order cursor r.seq) rows)))

-- `scanEntries`: bounds, type and custom type where the query names them
pub record EntryScan : Type 0 where
  pub from_seq : Option ℕ
  pub to_seq : Option ℕ
  pub type : Option String
  pub custom_type : Option String
  pub order : Order
  pub limit : Option ℕ

abbrev pub at_least : Option ℕ → ℕ → Bool
at_least none n = true
at_least (some m) n = leb m n

abbrev pub at_most : Option ℕ → ℕ → Bool
at_most none n = true
at_most (some m) n = leb n m

abbrev pub same_if : Option String → Option String → Bool
same_if none actual = true
same_if (some wanted) actual = opt_eq (some wanted) actual

abbrev pub in_scan : EntryScan → Entry → Bool
in_scan q e =
    at_least q.from_seq e.seq
    && at_most q.to_seq e.seq
    && same_if q.type (some e.type)
    && same_if q.custom_type e.custom_type

unfoldable pub scan_entries : EntryScan → List Entry → List Entry
unfolding order_by
scan_entries q rows =
    limit_rows q.limit (order_rows (λ (e : Entry). e.seq) q.order (filter (in_scan q) rows))

module _ (js : Platform) (pi : PiSession) (scope : PiStorageScope) where
  unfoldable pub decode_all : List (CommitRow js.Text) → Result StorageError (List PiStorageCommit)
  decode_all [] = ok []
  decode_all (r ∷ rows) = do c ← decode_commit js pi scope r; cs ← decode_all rows; ok (c ∷ cs)

  -- `readCommits`: the commits that end after `after_seq`, at most `limit` of them
  unfoldable pub read_commits :
      Bool → ℕ → ℕ → Tables js.Text → Result StorageError (List PiStorageCommit)
  read_commits closing after_seq limit tables = do
    assert_open closing
    guard (leb 1 limit && leb limit 1000) invalid_page
    decode_all (
        take limit (
          order_by (λ (r : CommitRow js.Text). r.first_seq)
            (filter (λ (r : CommitRow js.Text). ltb after_seq r.last_seq) tables.commits)))

  unfoldable pub get_stats : Bool → Tables js.Text → Result StorageError SessionStats
  get_stats closing tables = do
    assert_open closing
    row ← or_throw tables.session session_missing
    ok row.stats
