-- ===== src/Runtime/Opening.antt =====
-- The recovery that the runtime's constructor runs: the turns, then the sandboxes left running.
use nimplex.Prelude.{
  ℕ, String, ◌≡◌, refl, ◌∙◌, sym, ap, subst, Bool, inl, inr, true, false, not, ◌||◌, Option, none,
  some, List, [], ◌∷◌, ◌++◌, append-nil, map, if◌then◌else◌, Bool-cases, Result-cases, str_eq,
  eq_iff, Result, ok, err, ◌>>=◌, >>=-eq-ok, ok-injective, err-ne-ok,
}
use mathlib.Core.Option
use nimplex.Store.Events.{IsLog, log, log-append, log-save_turn, save_turn-IsLog}
use nimplex.Prelude.Dict.{Dict, lookup, lookup-insert, lookup-keys, contains, keys}
use nimplex.Status.{failed, is_terminal}
use nimplex.Store.Records.{
  StoredSession, StoredTurn, UsageReason, RuntimeError, ExecutorEvent, run_interrupted,
}
use nimplex.Store.Tables.{
  events, Database, save_session, save_turn, append, sessions_with_open_interval, transaction,
}
use nimplex.Metering.Usage.{is_some, is_past, mark_uncertain, inherit_sandbox_usage}
use nimplex.Runtime.Lifecycle.{
  interrupted_error, end_turn, interrupt_turn, interrupt_turns, recover_turns,
}
use nimplex.Runtime.Recovery.{IsKeyed, interrupted, lookup-recover_turns}
use nimplex.Runtime.Sandboxes.{IsOwned, settle_sandbox_usage-Touches}

-- The value of the clock that ends turns, the clocks of the log and of the metering, and JSON numbers.
module _ (ended_at : String) (now : ℕ → String) (number_value : String → ℕ) (at : ℕ) where
  -- the loop over the sessions with an open interval
  unfoldable pub inherit_all : List StoredSession → Database → Result RuntimeError Database
  unfolding inherit_sandbox_usage
  inherit_all [] db = ok db
  inherit_all (s ∷ rest) db = do
    db' ← inherit_sandbox_usage number_value now s at db
    inherit_all rest db'

  unfoldable pub recover_in : Database → Result RuntimeError (Unit {0} × Database)
  unfolding recover_turns sessions_with_open_interval inherit_all
  recover_in db =
      let turned = recover_turns ended_at now db in
      do db' ← inherit_all (sessions_with_open_interval turned) turned; ok (tt, db')

  unfoldable pub recover : Database → Result RuntimeError (Unit {0}) × Database
  unfolding recover_in
  recover db = transaction false recover_in db

  -- What inheriting the sandboxes leaves as it was.
  record Keeps (db db' : Database) : Type 0 where
    owned : IsOwned db'
    turns : db'.turns ≡ db.turns
    events : db'.events ≡ db.events
    workspaces : db'.workspaces ≡ db.workspaces

  mark_uncertain-Keeps :
      (s : StoredSession) (db : Database) → IsOwned db → Keeps db (mark_uncertain s db)
  unfolding save_session
  mark_uncertain-Keeps s db owned = record {
    owned = record {
      own = λ k v found.
          let found' =
            sym (lookup-insert s.id k (record s { running_uncertain = true }) db.sessions)
            ∙ found in
          elim (Bool-cases (str_eq s.id k)) [
            | inl here ↦
                let same : record s { running_uncertain = true } ≡ v = cc (rw here at found') in
                ap (λ x. x.id) (sym same) ∙ (eq_iff s.id k).0 here
            | inr away ↦ owned.own k v (rw away at found')
          ];
    };
    turns = refl;
    events = refl;
    workspaces = refl;
  }

  same-Keeps : {db db' : Database} → IsOwned db → db ≡ db' → Keeps db db'
  same-Keeps {db} owned same =
      subst (Keeps db) same
        (record { owned = owned; turns = refl; events = refl; workspaces = refl })

  inherit-Keeps :
      (s : StoredSession) (db db' : Database)
      → IsOwned db
      → inherit_sandbox_usage number_value now s at db ≡ ok db'
      → Keeps db db'
  unfolding inherit_sandbox_usage
  inherit-Keeps s db db' owned h =
      elim (Bool-cases (not (is_some s.running_since) || not (is_some s.sandbox_provider))) [
        | inl idle ↦ same-Keeps owned (ok-injective (rw idle at h))
        | inr open_interval ↦ elim (Bool-cases (is_past s.run_deadline at)) [
          | inl past ↦
              let touch =
                settle_sandbox_usage-Touches now s.id number_value UsageReason.expired at true db
                  db' owned (rw (open_interval, past) at h) in
              record {
                owned = touch.owned;
                turns = touch.turns;
                events = touch.events;
                workspaces = touch.workspaces;
              }
          | inr lives ↦ elim (Bool-cases s.running_uncertain) [
            | inl known ↦ same-Keeps owned (ok-injective (rw (open_interval, lives, known) at h))
            | inr certain ↦
                subst (Keeps db) (ok-injective (rw (open_interval, lives, certain) at h))
                  (mark_uncertain-Keeps s db owned)
          ]
        ]
      ]

  inherit_all-Keeps :
      (ss : List StoredSession) (db db' : Database)
      → IsOwned db
      → inherit_all ss db ≡ ok db'
      → Keeps db db'
  unfolding inherit_all
  inherit_all-Keeps [] db db' owned h = same-Keeps owned (ok-injective h)
  inherit_all-Keeps (s ∷ ss) db db' owned h =
      let (db1, first, rest) = >>=-eq-ok (inherit_sandbox_usage number_value now s at db) _ h in
      let k = inherit-Keeps s db db1 owned first in
      let k' = inherit_all-Keeps ss db1 db' k.owned rest in
      record {
        owned = k'.owned;
        turns = k'.turns ∙ k.turns;
        events = k'.events ∙ k.events;
        workspaces = k'.workspaces ∙ k.workspaces;
      }

  interrupt_turns-rest :
      (ts : List StoredTurn) (db : Database)
      → ((interrupt_turns ended_at now ts db).sessions ≡ db.sessions)
        × ((interrupt_turns ended_at now ts db).workspaces ≡ db.workspaces)
  unfolding interrupt_turns interrupt_turn append save_turn
  interrupt_turns-rest [] db = (refl, refl)
  interrupt_turns-rest (t ∷ ts) db =
      let (sessions, workspaces) = interrupt_turns-rest ts (interrupt_turn ended_at now t db) in
      elim (Bool-cases (is_terminal t.result.status)) [
        | inl ended ↦ (sessions ∙ rw ended refl, workspaces ∙ rw ended refl)
        | inr live ↦ (sessions ∙ rw live refl, workspaces ∙ rw live refl)
      ]

  recover_turns-rest :
      (db : Database)
      → ((recover_turns ended_at now db).sessions ≡ db.sessions)
        × ((recover_turns ended_at now db).workspaces ≡ db.workspaces)
  unfolding recover_turns
  recover_turns-rest db = interrupt_turns-rest (map (λ e. e.1) db.turns) db

  -- What recovery logs for a turn: its interruption where it was live.
  abbrev pub interruption : Option StoredTurn → List ExecutorEvent
  interruption none = []
  interruption (some t) =
      if is_terminal t.result.status then [] else run_interrupted interrupted_error ∷ []

  no_more : (b : Bool) (es : List ExecutorEvent) → es ≡ es ++ (if b then [] else [])
  no_more true es = sym (append-nil es)
  no_more false es = sym (append-nil es)

  -- an append to one turn's log, as another turn's reader sees it
  appended :
      (k id : String) (more : List ExecutorEvent) (db : Database)
      → IsLog db
      → log id (append now k more db) ≡ log id db ++ (if str_eq k id then more else [])
  appended k id more db h = elim (Bool-cases (str_eq k id)) [
    | inl own ↦
        let same : k ≡ id = (eq_iff k id).0 own in
        rw own (
          subst (λ j. log j (append now k more db) ≡ log j db ++ more) same
            (log-append now k more db h).1)
    | inr foreign ↦ rw foreign ((log-append now k more db h).2 id foreign ∙ sym (append-nil _))
  ]

  interrupted_one :
      (t : StoredTurn) (db : Database) (id : String)
      → IsLog db
      → IsLog (interrupt_turn ended_at now t db)
        × (log id (interrupt_turn ended_at now t db)
            ≡ log id db ++ (if str_eq t.result.id id then interruption (some t) else []))
  unfolding interrupt_turn
  interrupted_one t db id h = elim (Bool-cases (is_terminal t.result.status)) [
    | inl ended ↦ (rw ended h, rw ended (no_more (str_eq t.result.id id) (log id db)))
    | inr live ↦
        let t' = end_turn failed (some interrupted_error) ended_at t in
        let more = run_interrupted interrupted_error ∷ [] in
        let grown = log-append now t.result.id more (save_turn t' db) (save_turn-IsLog t' db h) in
        (
          rw live grown.0,
          rw live (
              appended t.result.id id more (save_turn t' db) (save_turn-IsLog t' db h)
              ∙ ap (λ l. l ++ (if str_eq t.result.id id then more else []))
                  (log-save_turn t' db id)),
        )
  ]

  log-interrupt_turns :
      (d : Dict StoredTurn) (db : Database) (id : String)
      → IsKeyed d
      → IsLog db
      → log id (interrupt_turns ended_at now (map (λ e. e.1) d) db)
        ≡ log id db ++ interruption (lookup id d)
  unfolding interrupt_turns lookup
  log-interrupt_turns [] db id keyed h = sym (append-nil (log id db))
  log-interrupt_turns ((k, t) ∷ d) db id (own, once, keyed) h =
      let (dense, first) = interrupted_one t db id h in
      let rest = log-interrupt_turns d (interrupt_turn ended_at now t db) id keyed dense in
      let both = rest ∙ ap (λ l. l ++ interruption (lookup id d)) first in
      elim (Bool-cases (str_eq k id)) [
        | inl here ↦
            let same : k ≡ id = (eq_iff k id).0 here in
            let mine : str_eq t.result.id id ≡ true = ap (λ x. str_eq x id) own ∙ here in
            let gone : lookup id d ≡ none =
              lookup-keys id d (subst (λ x. contains x (keys d) ≡ false) same once) in
            rw here (rw (mine, gone, append-nil) at both)
        | inr away ↦
            let other : str_eq t.result.id id ≡ false = ap (λ x. str_eq x id) own ∙ away in
            rw away (rw (other, append-nil) at both)
      ]

  -- The turns, the workspaces and the log of a store that has been recovered.
  abbrev pub Recovered : Database → Database → Type 0
  Recovered db db' =
      ((id : String)
        → lookup id db'.turns ≡ Option.map (interrupted ended_at now) (lookup id db.turns))
      × (db'.workspaces ≡ db.workspaces)
      × ((id : String) → log id db' ≡ log id db ++ interruption (lookup id db.turns))

  logs_of : (db db' : Database) (id : String) → db'.events ≡ db.events → log id db' ≡ log id db
  unfolding events
  logs_of db db' id same = ap (λ es. log id (record db { events = es })) same

  log-recover_turns :
      (db : Database) (id : String)
      → IsKeyed db.turns
      → IsLog db
      → log id (recover_turns ended_at now db) ≡ log id db ++ interruption (lookup id db.turns)
  unfolding recover_turns
  log-recover_turns db id keyed dense = log-interrupt_turns db.turns db id keyed dense

  inherit_all-Recovered :
      (ss : List StoredSession) (db db' : Database)
      → IsKeyed db.turns
      → IsOwned db
      → IsLog db
      → inherit_all ss (recover_turns ended_at now db) ≡ ok db'
      → Recovered db db'
  inherit_all-Recovered ss db db' keyed owned dense h =
      let (sessions, workspaces) = recover_turns-rest db in
      let owned' : IsOwned (recover_turns ended_at now db) = record {
        own = λ k s found. owned.own k s (ap (lookup k) (sym sessions) ∙ found);
      } in
      let k = inherit_all-Keeps ss (recover_turns ended_at now db) db' owned' h in
      (
        λ id. ap (lookup id) k.turns ∙ lookup-recover_turns ended_at now db id keyed,
        k.workspaces ∙ workspaces,
        λ id.
            logs_of (recover_turns ended_at now db) db' id k.events
            ∙ log-recover_turns db id keyed dense,
      )

  -- Where every turn and every session is stored under its identity, every turn once, and no log has a
  -- gap: a recovery that returns has interrupted the live turns, left every ended one and every
  -- workspace as it was, and added to the log of each live turn its interruption and to no other log
  -- anything, whatever sandboxes were left running; one that throws has changed nothing.
  pub recover_lem :
      (db db' : Database)
      → IsKeyed db.turns
      → IsOwned db
      → IsLog db
      → (recover db ≡ (ok tt, db') → Recovered db db')
        × ((e : RuntimeError) → recover db ≡ (err e, db') → db' ≡ db)
  unfolding recover transaction recover_in
  recover_lem db db' keyed owned dense =
      let turned = recover_turns ended_at now db in
      elim (Result-cases (inherit_all (sessions_with_open_interval turned) turned)) [
        | inl (e, thrown) ↦ (
          λ h. absurd (err-ne-ok (ap (λ p. p.0) (rw thrown at h))),
          λ x h. sym (ap (λ p. p.1) (rw thrown at h)),
        )
        | inr (db1, returned) ↦ (
          λ h.
              let same : db1 ≡ db' = ap (λ p. p.1) (rw returned at h) in
              subst (Recovered db) same (
                inherit_all-Recovered (sessions_with_open_interval turned) db db1 keyed owned dense
                  returned),
          λ x h. absurd (err-ne-ok (sym (ap (λ p. p.0) (rw returned at h)))),
        )
      ]
