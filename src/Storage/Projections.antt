-- ===== src/Storage/Projections.antt =====
-- `apply` of `SqlitePiStorage`: one committed write on the projection tables and the statistics.
use nimplex.Prelude.{
  ℕ, ◌+◌, String, Bool, not, ◌&&◌, ◌||◌, Option, none, some, List, [], ◌∷◌, ◌++◌, any, filter,
  if◌then◌else◌, ◌==◌, str_eq, Result, ok, err, ◌>>=◌,
}
use nimplex.Storage.Records.{
  Json, Entry, Cost, Usage, UsageRow, SessionStats, KeyedKind, value, list, KeyedOp, delete, put,
  KeyedWrite, CommittedWrite, entry_write, usage_write, keyed_write, KeyedRow, Projections,
  StorageError, constraint_failed, not_serializable,
}

abbrev pub same_address : String → String → KeyedRow → Bool
same_address namespace key row = str_eq row.namespace namespace && str_eq row.key key

-- PRIMARY KEY(tenant_id, session_id, id), UNIQUE(tenant_id, session_id, seq)
abbrev pub entry_clash : Entry → Entry → Bool
entry_clash e row = str_eq row.id e.id || row.seq == e.seq

unfoldable pub insert_entry : Entry → List Entry → Result StorageError (List Entry)
insert_entry e rows =
    if any (entry_clash e) rows then err constraint_failed else ok (rows ++ e ∷ [])

abbrev pub usage_clash : UsageRow → UsageRow → Bool
usage_clash u row = str_eq row.id u.id || row.seq == u.seq

unfoldable pub insert_usage : UsageRow → List UsageRow → Result StorageError (List UsageRow)
insert_usage u rows =
    if any (usage_clash u) rows then err constraint_failed else ok (rows ++ u ∷ [])

-- ON CONFLICT(tenant_id,session_id,namespace,key) DO UPDATE
unfoldable pub upsert_value : KeyedRow → List KeyedRow → List KeyedRow
upsert_value row [] = row ∷ []
upsert_value row (r ∷ rows) =
    if same_address row.namespace row.key r then row ∷ rows else r ∷ upsert_value row rows

-- PRIMARY KEY(tenant_id, session_id, namespace, key, seq)
abbrev pub list_clash : KeyedRow → KeyedRow → Bool
list_clash row r = same_address row.namespace row.key r && r.seq == row.seq

unfoldable pub insert_list : KeyedRow → List KeyedRow → Result StorageError (List KeyedRow)
insert_list row rows =
    if any (list_clash row) rows then err constraint_failed else ok (rows ++ row ∷ [])

unfoldable pub delete_rows : String → String → List KeyedRow → List KeyedRow
delete_rows namespace key = filter (λ r. not (same_address namespace key r))

-- `if (usage[key] !== undefined) stats[key] = (stats[key] ?? 0) + usage[key]`
abbrev pub add_optional : Option ℕ → Option ℕ → Option ℕ
add_optional total none = total
add_optional none (some n) = some (0 + n)
add_optional (some t) (some n) = some (t + n)

abbrev pub add_cost : Cost → Cost → Cost
add_cost total c = record {
  input = total.input + c.input;
  output = total.output + c.output;
  cache_read = total.cache_read + c.cache_read;
  cache_write = total.cache_write + c.cache_write;
  total = total.total + c.total;
}

unfoldable pub add_usage : Usage → Usage → Usage
add_usage total u = record {
  input = total.input + u.input;
  output = total.output + u.output;
  cache_read = total.cache_read + u.cache_read;
  cache_write = total.cache_write + u.cache_write;
  total_tokens = total.total_tokens + u.total_tokens;
  cache_write1h = add_optional total.cache_write1h u.cache_write1h;
  reasoning = add_optional total.reasoning u.reasoning;
  cost = add_cost total.cost u.cost;
}

-- `if (entry.type === "message") stats.messageCount++`
unfoldable pub count_message : Entry → SessionStats → SessionStats
count_message e stats =
    if str_eq e.type "message"
    then record stats { message_count = stats.message_count + 1 }
    else stats

unfoldable pub count_usage : UsageRow → SessionStats → SessionStats
unfolding add_usage
count_usage u stats = record stats { usage = add_usage stats.usage u.usage }

abbrev keyed_row : KeyedWrite → Json → KeyedRow
keyed_row w v = record { namespace = w.namespace; key = w.key; seq = w.seq; value = v }

unfoldable pub apply_value :
    KeyedWrite → KeyedOp → List KeyedRow → Result StorageError (List KeyedRow)
unfolding delete_rows upsert_value
apply_value w delete rows = ok (delete_rows w.namespace w.key rows)
apply_value w (put none) rows = err not_serializable
apply_value w (put (some v)) rows = ok (upsert_value (keyed_row w v) rows)

unfoldable pub apply_list :
    KeyedWrite → KeyedOp → List KeyedRow → Result StorageError (List KeyedRow)
unfolding delete_rows insert_list
apply_list w delete rows = ok (delete_rows w.namespace w.key rows)
apply_list w (put none) rows = err not_serializable
apply_list w (put (some v)) rows = insert_list (keyed_row w v) rows

unfoldable pub apply_keyed : KeyedWrite → KeyedKind → Projections → Result StorageError Projections
unfolding apply_value apply_list
apply_keyed w value p = do rows ← apply_value w w.op p.values; ok (record p { values = rows })
apply_keyed w list p = do rows ← apply_list w w.op p.lists; ok (record p { lists = rows })

abbrev pub Projected : Type 0
Projected = SessionStats × Projections

unfoldable pub apply : CommittedWrite → Projected → Result StorageError Projected
unfolding insert_entry insert_usage count_message count_usage apply_keyed
apply (entry_write e) (stats, p) = do
  rows ← insert_entry e p.entries
  ok (count_message e stats, record p { entries = rows })
apply (usage_write u) (stats, p) = do
  rows ← insert_usage u p.usage
  ok (count_usage u stats, record p { usage = rows })
apply (keyed_write w) (stats, p) = do p' ← apply_keyed w w.kind p; ok (stats, p')

unfoldable pub apply_all : List CommittedWrite → Projected → Result StorageError Projected
unfolding apply
apply_all [] s = ok s
apply_all (w ∷ ws) s = do s' ← apply w s; apply_all ws s'
