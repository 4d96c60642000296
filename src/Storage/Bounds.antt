-- ===== src/Storage/Bounds.antt =====
-- Sequence numbers of the projections stay below the next one.
use nimplex.Prelude.{
  ℕ, suc, String, ◌+◌, ◌<◌, ◌≡◌, true, some, none, List, [], ◌∷◌, ◌++◌, length, All, All-imp,
  All-append, ok, >>=-eq-ok, ok-injective, arith,
}
use nimplex.Storage.Records.{
  Entry, UsageRow, KeyedKind, value, list, KeyedOp, delete, put, KeyedWrite, CommittedWrite,
  entry_write, usage_write, keyed_write, write_seq, KeyedRow, Projections,
}
use nimplex.Storage.Ports.{is_numbered}
use nimplex.Storage.Projections.{
  Projected, insert_entry, insert_usage, upsert_value, insert_list, delete_rows, apply_value,
  apply_list, apply_keyed, apply, apply_all,
}
use nimplex.Storage.Totals.{insert_entry-eq-ok, insert_usage-eq-ok}

abbrev Below : ℕ → List KeyedRow → Type 0
Below n = All (λ r. r.seq < n)

pub record IsBelow (n : ℕ) (p : Projections) : Type 0 where
  pub entries : All (λ (e : Entry). e.seq < n) p.entries
  pub usage : All (λ (u : UsageRow). u.seq < n) p.usage
  pub values : All (λ (r : KeyedRow). r.seq < n) p.values
  pub lists : All (λ (r : KeyedRow). r.seq < n) p.lists

IsBelow-suc : (n : ℕ) (p : Projections) → IsBelow n p → IsBelow (n + 1) p
IsBelow-suc n p h = record {
  entries = All-imp p.entries (λ e k. omega arith) h.entries;
  usage = All-imp p.usage (λ e k. omega arith) h.usage;
  values = All-imp p.values (λ e k. omega arith) h.values;
  lists = All-imp p.lists (λ e k. omega arith) h.lists;
}

upsert_value-Below :
    (n : ℕ) (row : KeyedRow) (rows : List KeyedRow)
    → row.seq < n
    → Below n rows
    → Below n (upsert_value row rows)
unfolding upsert_value
upsert_value-Below n row [] h k = (h, tt)
upsert_value-Below n row (r ∷ rows) h k = ground (arith, upsert_value-Below n row rows h k.1)

delete_rows-Below :
    (n : ℕ) (namespace key : String) (rows : List KeyedRow)
    → Below n rows
    → Below n (delete_rows namespace key rows)
unfolding delete_rows
delete_rows-Below n namespace key [] k = tt
delete_rows-Below n namespace key (r ∷ rows) k =
    ground (arith, delete_rows-Below n namespace key rows k.1)

insert_list-Below :
    (n : ℕ) (row : KeyedRow) (rows rows' : List KeyedRow)
    → insert_list row rows ≡ ok rows'
    → row.seq < n
    → Below n rows
    → Below n rows'
unfolding insert_list
insert_list-Below n row rows rows' h k b =
    let grown : rows' ≡ rows ++ row ∷ [] = ground arith in
    rw grown (All-append (λ r. r.seq < n) rows (row ∷ []) b (k, tt))

apply_value-Below :
    (n : ℕ) (w : KeyedWrite) (op : KeyedOp) (rows rows' : List KeyedRow)
    → apply_value w op rows ≡ ok rows'
    → w.seq < n
    → Below n rows
    → Below n rows'
unfolding apply_value
apply_value-Below n w delete rows rows' h k b =
    rw (← ok-injective h) (delete_rows-Below n w.namespace w.key rows b)
apply_value-Below n w (put none) rows rows' h k b = cc
apply_value-Below n w (put (some v)) rows rows' h k b = rw (← ok-injective h) (
    upsert_value-Below n (record { namespace = w.namespace; key = w.key; seq = w.seq; value = v })
      rows k b)

apply_list-Below :
    (n : ℕ) (w : KeyedWrite) (op : KeyedOp) (rows rows' : List KeyedRow)
    → apply_list w op rows ≡ ok rows'
    → w.seq < n
    → Below n rows
    → Below n rows'
unfolding apply_list
apply_list-Below n w delete rows rows' h k b =
    rw (← ok-injective h) (delete_rows-Below n w.namespace w.key rows b)
apply_list-Below n w (put none) rows rows' h k b = cc
apply_list-Below n w (put (some v)) rows rows' h k b =
    insert_list-Below n (record { namespace = w.namespace; key = w.key; seq = w.seq; value = v })
      rows rows' h k b

apply_keyed-IsBelow :
    (n : ℕ) (w : KeyedWrite) (kind : KeyedKind) (p p' : Projections)
    → apply_keyed w kind p ≡ ok p'
    → w.seq < n
    → IsBelow n p
    → IsBelow n p'
unfolding apply_keyed
apply_keyed-IsBelow n w value p p' h k b =
    let (rows, e, h1) = >>=-eq-ok (apply_value w w.op p.values) _ h in
    rw (← ok-injective h1) (record {
      entries = b.entries;
      usage = b.usage;
      values = apply_value-Below n w w.op p.values rows e k b.values;
      lists = b.lists;
    })
apply_keyed-IsBelow n w list p p' h k b =
    let (rows, e, h1) = >>=-eq-ok (apply_list w w.op p.lists) _ h in
    rw (← ok-injective h1) (record {
      entries = b.entries;
      usage = b.usage;
      values = b.values;
      lists = apply_list-Below n w w.op p.lists rows e k b.lists;
    })

apply-IsBelow :
    (n : ℕ) (w : CommittedWrite) (s s' : Projected)
    → apply w s ≡ ok s'
    → write_seq w < n
    → IsBelow n s.1
    → IsBelow n s'.1
unfolding apply
apply-IsBelow n (entry_write e) (stats, p) s' h k b =
    let (rows, e1, h1) = >>=-eq-ok (insert_entry e p.entries) _ h in
    rw (← ok-injective h1, insert_entry-eq-ok e p.entries rows e1)
      (record {
        entries = All-append (λ (x : Entry). x.seq < n) p.entries (e ∷ []) b.entries (k, tt);
        usage = b.usage;
        values = b.values;
        lists = b.lists;
      })
apply-IsBelow n (usage_write u) (stats, p) s' h k b =
    let (rows, e1, h1) = >>=-eq-ok (insert_usage u p.usage) _ h in
    rw (← ok-injective h1, insert_usage-eq-ok u p.usage rows e1)
      (record {
        entries = b.entries;
        usage = All-append (λ (x : UsageRow). x.seq < n) p.usage (u ∷ []) b.usage (k, tt);
        values = b.values;
        lists = b.lists;
      })
apply-IsBelow n (keyed_write w) (stats, p) s' h k b =
    let (p', e, h1) = >>=-eq-ok (apply_keyed w w.kind p) _ h in
    rw (← ok-injective h1) (apply_keyed-IsBelow n w w.kind p p' e k b)

pub apply_all-IsBelow :
    (n : ℕ) (ws : List CommittedWrite) (s s' : Projected)
    → is_numbered n ws ≡ true
    → apply_all ws s ≡ ok s'
    → IsBelow n s.1
    → IsBelow (n + length ws) s'.1
unfolding apply_all is_numbered
apply_all-IsBelow n [] s s' m h b =
    let same : n + 0 ≡ n = omega arith in rw (← ok-injective h, same) b
apply_all-IsBelow n (w ∷ ws) s s' m h b =
    let (r, e, h1) = >>=-eq-ok (apply w s) _ h in
    let first : write_seq w ≡ n = ground arith in
    let rest : is_numbered (n + 1) ws ≡ true = ground arith in
    let total : n + suc (length ws) ≡ n + 1 + length ws = omega arith in
    rw total (
      apply_all-IsBelow (n + 1) ws r s' rest h1
        (apply-IsBelow (n + 1) w s r e (omega arith) (IsBelow-suc n s.1 b)))
