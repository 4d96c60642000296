-- ===== src/Storage/Values.antt =====
-- What the readers of values and lists return after a batch, against the batch itself.
use nimplex.Prelude.{
  ℕ, String, ◌≡◌, refl, Bool, ◌&&◌, Option, none, some, List, [], ◌∷◌, if◌then◌else◌, str_eq,
  eq_iff, ok, >>=-eq-ok, ok-injective, arith,
}
use nimplex.Storage.Records.{
  Json, KeyedKind, value, list, KeyedOp, delete, put, KeyedWrite, CommittedWrite, entry_write,
  usage_write, keyed_write, KeyedRow, Projections,
}
use nimplex.Storage.Projections.{
  Projected, insert_entry, insert_usage, same_address, upsert_value, delete_rows, apply_value,
  apply_list, apply_keyed, apply, apply_all,
}
use nimplex.Storage.Queries.{get_value}

abbrev addressed : String → String → KeyedWrite → Bool
addressed namespace key w = str_eq w.namespace namespace && str_eq w.key key

-- The value at an address after some writes, by the last write to that address.
abbrev after_op : KeyedWrite → KeyedOp → Option (ℕ × Json) → Option (ℕ × Json)
after_op w delete old = none
after_op w (put none) old = old
after_op w (put (some v)) old = some (w.seq, v)

abbrev after_write : String → String → CommittedWrite → Option (ℕ × Json) → Option (ℕ × Json)
after_write namespace key (entry_write e) old = old
after_write namespace key (usage_write u) old = old
after_write namespace key (keyed_write w) old = elim w.kind [
  | value ↦ if addressed namespace key w then after_op w w.op old else old
  | list ↦ old
]

abbrev pub latest_value :
    String → String → List CommittedWrite → Option (ℕ × Json) → Option (ℕ × Json)
latest_value namespace key [] old = old
latest_value namespace key (w ∷ ws) old =
    latest_value namespace key ws (after_write namespace key w old)

get_value-upsert_value :
    (namespace key : String) (row : KeyedRow) (rows : List KeyedRow)
    → get_value namespace key (upsert_value row rows) ≡ (
        if same_address namespace key row
        then some (row.seq, row.value)
        else get_value namespace key rows)
unfolding get_value upsert_value
get_value-upsert_value namespace key row [] = refl
get_value-upsert_value namespace key row (r ∷ rows) = ground (
  arith,
  get_value-upsert_value namespace key row rows,
  eq_iff r.namespace row.namespace,
  eq_iff r.key row.key,
  eq_iff r.namespace namespace,
  eq_iff r.key key,
  eq_iff row.namespace namespace,
  eq_iff row.key key,
)

get_value-delete_rows :
    (namespace key ns k : String) (rows : List KeyedRow)
    → get_value namespace key (delete_rows ns k rows)
      ≡ (if str_eq ns namespace && str_eq k key then none else get_value namespace key rows)
unfolding get_value delete_rows
get_value-delete_rows namespace key ns k [] = ground arith
get_value-delete_rows namespace key ns k (r ∷ rows) = ground (
  arith,
  get_value-delete_rows namespace key ns k rows,
  eq_iff r.namespace ns,
  eq_iff r.key k,
  eq_iff r.namespace namespace,
  eq_iff r.key key,
  eq_iff ns namespace,
  eq_iff k key,
)

apply_value-get_value :
    (namespace key : String) (w : KeyedWrite) (op : KeyedOp) (rows rows' : List KeyedRow)
    → apply_value w op rows ≡ ok rows'
    → get_value namespace key rows' ≡ (
        if addressed namespace key w
        then after_op w op (get_value namespace key rows)
        else get_value namespace key rows)
unfolding apply_value
apply_value-get_value namespace key w delete rows rows' h =
    rw (← ok-injective h) (get_value-delete_rows namespace key w.namespace w.key rows)
apply_value-get_value namespace key w (put none) rows rows' h = cc
apply_value-get_value namespace key w (put (some v)) rows rows' h = rw (← ok-injective h) (
    get_value-upsert_value namespace key
      (record { namespace = w.namespace; key = w.key; seq = w.seq; value = v }) rows)

apply_keyed-get_value :
    (namespace key : String) (w : KeyedWrite) (kind : KeyedKind) (p p' : Projections)
    → apply_keyed w kind p ≡ ok p'
    → get_value namespace key p'.values ≡ elim kind [
      | value ↦
          if addressed namespace key w
          then after_op w w.op (get_value namespace key p.values)
          else get_value namespace key p.values
      | list ↦ get_value namespace key p.values
    ]
unfolding apply_keyed
apply_keyed-get_value namespace key w value p p' h =
    let (rows, e, h1) = >>=-eq-ok (apply_value w w.op p.values) _ h in
    rw (← ok-injective h1) (apply_value-get_value namespace key w w.op p.values rows e)
apply_keyed-get_value namespace key w list p p' h =
    let (rows, e, h1) = >>=-eq-ok (apply_list w w.op p.lists) _ h in rw (← ok-injective h1)

apply-get_value :
    (namespace key : String) (w : CommittedWrite) (s s' : Projected)
    → apply w s ≡ ok s'
    → get_value namespace key s'.1.values
      ≡ after_write namespace key w (get_value namespace key s.1.values)
unfolding apply
apply-get_value namespace key (entry_write e) (stats, p) s' h =
    let (rows, e, h1) = >>=-eq-ok (insert_entry e p.entries) _ h in rw (← ok-injective h1)
apply-get_value namespace key (usage_write u) (stats, p) s' h =
    let (rows, e, h1) = >>=-eq-ok (insert_usage u p.usage) _ h in rw (← ok-injective h1)
apply-get_value namespace key (keyed_write w) (stats, p) s' h =
    let (p', e, h1) = >>=-eq-ok (apply_keyed w w.kind p) _ h in
    rw (← ok-injective h1) (apply_keyed-get_value namespace key w w.kind p p' e)

-- After a batch, `getValue` returns what the last write of the batch to the address has left there,
-- and what it returned before where the batch does not write to the address.
pub get_value-apply_all :
    (namespace key : String) (writes : List CommittedWrite) (s s' : Projected)
    → apply_all writes s ≡ ok s'
    → get_value namespace key s'.1.values
      ≡ latest_value namespace key writes (get_value namespace key s.1.values)
unfolding apply_all
get_value-apply_all namespace key [] s s' h = rw (← ok-injective h)
get_value-apply_all namespace key (w ∷ ws) s s' h =
    let (t, e, h1) = >>=-eq-ok (apply w s) _ h in
    rw (get_value-apply_all namespace key ws t s' h1, apply-get_value namespace key w s t e)
