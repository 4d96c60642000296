-- ===== src/Checkpoints/History.antt =====
-- Whatever the order of a turn's steps, no model call is charged twice.
use nimplex.Prelude.{
  ℕ, suc, ◌+◌, ◌≤◌, String, ◌≡◌, refl, ◌∙◌, sym, ap, subst, inl, inr, Bool, false, List, [], ◌∷◌,
  ◌++◌, map, any, any-append, Bool-cases, Result-cases, if◌then◌else◌, str_eq, eq_iff, ok,
  >>=-eq-ok, ok-injective, err-ne-ok, arith,
}
use nimplex.Prelude.Dict.{Dict}
use nimplex.Storage.Records.{Json}
use nimplex.Store.Records.{
  Bytes, EntryMetadata, FileChange, ExecutorEvent, file_changed, workspace_committed, spend_updated,
  model_started, tool_started, context_checkpoint,
}
use nimplex.Store.Tables.{Database, append, transaction}
use nimplex.Store.Events.{IsLog, log, log-append}
use nimplex.Checkpoints.Steps.{
  Host, cost, is_settled, rounded_cost, active_turn, start_model_in, commit_model_in,
  commit_tool_in, checkpoint_context, start_tool,
}
use nimplex.Checkpoints.Settlement.{commit_model_in-cases, commit_model_in-IsLog}
use nimplex.Checkpoints.Delta.{commit_tool_in-delta, commit_tool_in-IsLog}

-- how many times a log settles a call
unfoldable pub settlements : String → List ExecutorEvent → ℕ
settlements c [] = 0
settlements c (e ∷ es) = let rest = settlements c es in if is_settled c e then suc rest else rest

settlements-append :
    (c : String) (es fs : List ExecutorEvent)
    → settlements c (es ++ fs) ≡ settlements c es + settlements c fs
unfolding settlements
settlements-append c [] fs = omega arith
settlements-append c (e ∷ es) fs = ground (arith, settlements-append c es fs)

settlements-none :
    (c : String) (es : List ExecutorEvent) → any (is_settled c) es ≡ false → settlements c es ≡ 0
unfolding settlements
settlements-none c [] h = refl
settlements-none c (e ∷ es) h = elim (Bool-cases (is_settled c e)) [
  | inl first ↦ cc (rw first at h)
  | inr other ↦ rw other (settlements-none c es (rw other at h))
]

settlements-settling :
    (c call_id : String) (spent : ℕ) (uncertain : Bool) (es history : List ExecutorEvent)
    → settlements c history ≤ 1
    → any (is_settled c) es ≡ false
    → any (is_settled call_id) history ≡ false
    → settlements c history + settlements c (es ++ spend_updated call_id spent uncertain ∷ []) ≤ 1
unfolding settlements
settlements-settling c call_id spent uncertain es history h plain unsettled =
    let apart = settlements-append c es (spend_updated call_id spent uncertain ∷ []) in
    let none_before = settlements-none c es plain in
    elim (Bool-cases (str_eq call_id c)) [
      | inl same ↦
          let equal : call_id ≡ c = (eq_iff call_id c).0 same in
          let never : settlements c history ≡ 0 =
            settlements-none c history
              (ap (λ k. any (is_settled k) history) (sym equal) ∙ unsettled) in
          let apart' = rw same at apart in omega (arith, apart', none_before, never)
      | inr other ↦ let apart' = rw other at apart in omega (arith, apart', none_before, h)
    ]

settled-changes :
    (c : String) (changes : List FileChange) → any (is_settled c) (map file_changed changes) ≡ false
settled-changes c [] = refl
settled-changes c (f ∷ changes) = settled-changes c changes

settled-tool :
    (c : String) (es : List ExecutorEvent) (changes : List FileChange) (revision : ℕ)
    (metadata : Dict EntryMetadata)
    → any (is_settled c) es ≡ false
    → any
        (is_settled c)
        (es ++ map file_changed changes ++ workspace_committed revision metadata ∷ [])
      ≡ false
settled-tool c es changes revision metadata plain =
    any-append (is_settled c) (es ++ map file_changed changes)
      (workspace_committed revision metadata ∷ [])
    ∙ rw (any-append (is_settled c) es (map file_changed changes), plain, settled-changes c changes)
        refl

-- The executor's events settle no call themselves.
abbrev pub IsPlain : List ExecutorEvent → Type 0
IsPlain es = (c : String) → any (is_settled c) es ≡ false

module _ (host : Host) (id : String) where
  -- One step of the turn, from one store to the next, in a store that is open.
  pub data Steps (db db' : Database) : Type 0 where
    checkpointed :
        (checkpoint : Json)
        → checkpoint_context host false id checkpoint db ≡ (ok tt, db')
        → Steps db db'
    model_begun :
        (call_id : String) (extra : Json)
        → start_model_in host id call_id extra db ≡ ok (call_id, db')
        → Steps db db'
    model_settled :
        (call_id : String) (es : List ExecutorEvent) (n : ℕ) (uncertain : Bool)
        → IsPlain es
        → commit_model_in host id call_id es (cost n) uncertain db ≡ ok db'
        → Steps db db'
    tool_begun :
        (tool_id name : String)
        → start_tool host false id tool_id name db ≡ (ok tt, db')
        → Steps db db'
    tool_committed :
        (es : List ExecutorEvent) (files : Dict Bytes) (metadata : Dict EntryMetadata)
        → IsPlain es
        → commit_tool_in host id es files metadata db ≡ ok db'
        → Steps db db'

  -- what steps reach from a store
  pub data History (start : Database) : Database → Type 0 where
    fresh : History start start
    then_ : {db db' : Database} → History start db → Steps db db' → History start db'

  -- The turn's log has no gaps, and settles no call twice.
  abbrev pub IsOnce : Database → Type 0
  IsOnce db = IsLog db × ((c : String) → settlements c (log id db) ≤ 1)

  plain-IsOnce :
      (es : List ExecutorEvent) (db db' : Database)
      → IsOnce db
      → IsLog db'
      → IsPlain es
      → log id db' ≡ log id db ++ es
      → IsOnce db'
  plain-IsOnce es db db' h dense plain longer = (
    dense,
    λ c. rw (longer, settlements-append c) (omega (arith, h.1 c, settlements-none c es (plain c))),
  )

  append-IsOnce :
      (e : ExecutorEvent) (db : Database)
      → IsOnce db
      → ((c : String) → is_settled c e ≡ false)
      → IsOnce (append host.now id (e ∷ []) db)
  append-IsOnce e db h plain =
      let grown = log-append host.now id (e ∷ []) db h.0 in
      plain-IsOnce (e ∷ []) db (append host.now id (e ∷ []) db) h grown.0 (λ c. rw (plain c) refl)
        grown.1

  settled-IsOnce :
      (call_id : String) (es : List ExecutorEvent) (n : ℕ) (uncertain : Bool) (db db' : Database)
      → IsOnce db
      → IsPlain es
      → commit_model_in host id call_id es (cost n) uncertain db ≡ ok db'
      → IsOnce db'
  settled-IsOnce call_id es n uncertain db db' h plain e =
      elim (commit_model_in-cases host id call_id es n uncertain db db' h.0 e).1 [
        | inl (settled, same) ↦ rw same h
        | inr (unsettled, (t, found, longer, others)) ↦ (
          commit_model_in-IsLog host id call_id es n uncertain db db' h.0 e,
          λ c.
              rw (longer, settlements-append c)
                (settlements-settling c call_id (t.result.spent_usd + rounded_cost n) uncertain es
                  (log id db) (h.1 c) (plain c) unsettled),
        )
      ]

  checkpointed-IsOnce :
      (checkpoint : Json) (db db' : Database)
      → IsOnce db
      → checkpoint_context host false id checkpoint db ≡ (ok tt, db')
      → IsOnce db'
  unfolding checkpoint_context transaction
  checkpointed-IsOnce checkpoint db db' h e = elim (Result-cases (active_turn id db)) [
    | inl (x, stopped) ↦ absurd (err-ne-ok (ap (λ p. p.0) (rw stopped at e)))
    | inr (t, found) ↦
        subst IsOnce (ap (λ p. p.1) (rw found at e))
          (append-IsOnce (context_checkpoint checkpoint) db h (λ c. refl))
  ]

  tool_begun-IsOnce :
      (tool_id name : String) (db db' : Database)
      → IsOnce db
      → start_tool host false id tool_id name db ≡ (ok tt, db')
      → IsOnce db'
  unfolding start_tool transaction
  tool_begun-IsOnce tool_id name db db' h e = elim (Result-cases (active_turn id db)) [
    | inl (x, stopped) ↦ absurd (err-ne-ok (ap (λ p. p.0) (rw stopped at e)))
    | inr (t, found) ↦
        subst IsOnce (ap (λ p. p.1) (rw found at e))
          (append-IsOnce (tool_started tool_id name) db h (λ c. refl))
  ]

  model_begun-IsOnce :
      (call_id : String) (extra : Json) (db db' : Database)
      → IsOnce db
      → start_model_in host id call_id extra db ≡ ok (call_id, db')
      → IsOnce db'
  unfolding start_model_in
  model_begun-IsOnce call_id extra db db' h e =
      let (t, found, e1) = >>=-eq-ok (active_turn id db) _ e in
      subst IsOnce (ap (λ p. p.1) (ok-injective e1))
        (append-IsOnce (model_started call_id extra) db h (λ c. refl))

  tool_committed-IsOnce :
      (es : List ExecutorEvent) (files : Dict Bytes) (metadata : Dict EntryMetadata)
      (db db' : Database)
      → IsOnce db
      → IsPlain es
      → commit_tool_in host id es files metadata db ≡ ok db'
      → IsOnce db'
  tool_committed-IsOnce es files metadata db db' h plain e =
      let (t, before, active, found, stored, (longer, replayed, minimal)) =
        commit_tool_in-delta host id es files metadata db db' h.0 e in
      plain-IsOnce _ db db' h (commit_tool_in-IsLog host id es files metadata db db' h.0 e)
        (λ c. settled-tool c es _ _ metadata (plain c)) longer

  Steps-IsOnce : {db db' : Database} → Steps db db' → IsOnce db → IsOnce db'
  Steps-IsOnce (checkpointed checkpoint e) h = checkpointed-IsOnce checkpoint _ _ h e
  Steps-IsOnce (model_begun call_id extra e) h = model_begun-IsOnce call_id extra _ _ h e
  Steps-IsOnce (model_settled call_id es n uncertain plain e) h =
      settled-IsOnce call_id es n uncertain _ _ h plain e
  Steps-IsOnce (tool_begun tool_id name e) h = tool_begun-IsOnce tool_id name _ _ h e
  Steps-IsOnce (tool_committed es files metadata plain e) h =
      tool_committed-IsOnce es files metadata _ _ h plain e

  -- After any sequence of a turn's steps, in any order, where the executor's own events settle
  -- nothing, the turn's log has no gap and settles each call at most once, if that held before.
  pub History-IsOnce : {start db : Database} → IsOnce start → History start db → IsOnce db
  History-IsOnce h fresh = h
  History-IsOnce h (then_ past step) = Steps-IsOnce step (History-IsOnce h past)
