-- ===== src/Storage/Totals.antt =====
-- The statistics of a session agree with its entries and usage rows after every write.
use nimplex.Prelude.{
  ℕ, suc, ◌+◌, ◌≡◌, refl, List, [], ◌∷◌, ◌++◌, if◌then◌else◌, str_eq, ok, >>=-eq-ok, ok-injective,
  arith,
}
use nimplex.Storage.Records.{
  Entry, Usage, UsageRow, empty_stats, KeyedKind, value, list, KeyedWrite, CommittedWrite,
  entry_write, usage_write, keyed_write, Projections,
}
use nimplex.Storage.Projections.{
  Projected, insert_entry, insert_usage, apply_value, apply_list, apply_keyed, apply, apply_all,
  add_usage,
}

-- the number of message entries, and the sum of the usage rows
unfoldable pub count_messages : List Entry → ℕ
count_messages [] = 0
count_messages (e ∷ es) =
    if str_eq e.type "message" then suc (count_messages es) else count_messages es

unfoldable pub sum_usage : Usage → List UsageRow → Usage
sum_usage total [] = total
sum_usage total (u ∷ us) = sum_usage (add_usage total u.usage) us

pub record IsTotalled (s : Projected) : Type 0 where
  pub messages : s.0.message_count ≡ count_messages s.1.entries
  pub usage : s.0.usage ≡ sum_usage empty_stats.usage s.1.usage

count_messages-append :
    (es : List Entry) (e : Entry)
    → count_messages (es ++ e ∷ [])
      ≡ (if str_eq e.type "message" then count_messages es + 1 else count_messages es)
unfolding count_messages
count_messages-append [] e = ground arith
count_messages-append (x ∷ es) e = ground (arith, count_messages-append es e)

sum_usage-append :
    (total : Usage) (us : List UsageRow) (u : UsageRow)
    → sum_usage total (us ++ u ∷ []) ≡ add_usage (sum_usage total us) u.usage
unfolding sum_usage
sum_usage-append total [] u = refl
sum_usage-append total (x ∷ us) u = sum_usage-append (add_usage total x.usage) us u

pub insert_entry-eq-ok :
    (e : Entry) (rows rows' : List Entry) → insert_entry e rows ≡ ok rows' → rows' ≡ rows ++ e ∷ []
unfolding insert_entry
insert_entry-eq-ok e rows rows' h = ground arith

pub insert_usage-eq-ok :
    (u : UsageRow) (rows rows' : List UsageRow)
    → insert_usage u rows ≡ ok rows'
    → rows' ≡ rows ++ u ∷ []
unfolding insert_usage
insert_usage-eq-ok u rows rows' h = ground arith

apply_keyed-others :
    (w : KeyedWrite) (kind : KeyedKind) (p p' : Projections)
    → apply_keyed w kind p ≡ ok p'
    → (p'.entries ≡ p.entries) × (p'.usage ≡ p.usage)
unfolding apply_keyed
apply_keyed-others w value p p' h =
    let (rows, e, h1) = >>=-eq-ok (apply_value w w.op p.values) _ h in
    rw (← ok-injective h1) (refl, refl)
apply_keyed-others w list p p' h =
    let (rows, e, h1) = >>=-eq-ok (apply_list w w.op p.lists) _ h in
    rw (← ok-injective h1) (refl, refl)

apply-IsTotalled :
    (w : CommittedWrite) (s s' : Projected) → apply w s ≡ ok s' → IsTotalled s → IsTotalled s'
unfolding apply
apply-IsTotalled (entry_write e) (stats, p) s' h t =
    let (rows, e1, h1) = >>=-eq-ok (insert_entry e p.entries) _ h in
    rw (← ok-injective h1) (record {
      messages =
          rw (insert_entry-eq-ok e p.entries rows e1, count_messages-append p.entries e)
            (ground (arith, t.messages));
      usage = ground (arith, t.usage);
    })
apply-IsTotalled (usage_write u) (stats, p) s' h t =
    let (rows, e, h1) = >>=-eq-ok (insert_usage u p.usage) _ h in
    rw (← ok-injective h1) (record {
      messages = t.messages;
      usage = rw (insert_usage-eq-ok u p.usage rows e, sum_usage-append, ← t.usage) refl;
    })
apply-IsTotalled (keyed_write w) (stats, p) s' h t =
    let (p', e, h1) = >>=-eq-ok (apply_keyed w w.kind p) _ h in
    let (entries, usage) = apply_keyed-others w w.kind p p' e in
    rw (← ok-injective h1) (record { messages = rw entries t.messages; usage = rw usage t.usage })

pub apply_all-IsTotalled :
    (ws : List CommittedWrite) (s s' : Projected)
    → apply_all ws s ≡ ok s'
    → IsTotalled s
    → IsTotalled s'
unfolding apply_all
apply_all-IsTotalled [] s s' h t = rw (← ok-injective h) t
apply_all-IsTotalled (w ∷ ws) s s' h t =
    let (r, e, h1) = >>=-eq-ok (apply w s) _ h in
    apply_all-IsTotalled ws r s' h1 (apply-IsTotalled w s r e t)
