-- ===== src/Sessions/Forking.antt =====
-- A branch inherits a prefix of its source that ends with the selected turn, and a copy of its Pi
-- history.
use nimplex.Prelude.{
  ℕ, suc, ◌+◌, String, ◌≡◌, refl, ◌∙◌, sym, ap, inl, inr, Bool, true, false, not, Option, none,
  some, List, [], ◌∷◌, ◌++◌, take, drop, take-append-drop, get_last?, Bool-cases, Option-cases,
  Result-cases, str_eq, eq_iff, opt_eq, ok, err, guard, guard-eq-ok, or_throw, or_throw-eq-ok,
  >>=-eq-ok, ok-injective, err-ne-ok, arith,
}
use nimplex.Status.{is_terminal}
use nimplex.Storage.Ports.{Platform, PiSession}
use nimplex.Storage.Journal.{open_storage}
use nimplex.Storage.Fork.{import_fork_sync}
use nimplex.Store.Records.{
  StoredSession, StoredTurn, RuntimeError, fork_unfinished, fork_interrupted, refused,
}
use nimplex.Store.Tables.{Database, session, turn, save_session}
use nimplex.Sessions.Seeding.{is_harness}
use nimplex.Sessions.Branching.{
  index_of, lift, tip_of, scope_of, owner_of, forked, settle_fork, branch_turns, selected_turn,
  branch_of, Stores, tables_of, fork_pi_session, store_branch, fork_session,
}
use nimplex.Sessions.Copying.{Rows, store_branch-Rows}

not-true : (b : Bool) → not b ≡ true → b ≡ false
not-true true h = cc
not-true false h = refl

last-cons :
    (x id : String) (ids : List String) (k : ℕ)
    → index_of id ids ≡ some k
    → get_last? (x ∷ take (suc k) ids) ≡ get_last? (take (suc k) ids)
unfolding index_of
last-cons x id [] k h = cc
last-cons x id (y ∷ ys) k h = refl

last-index_of :
    (id : String) (ids : List String) (i : ℕ)
    → index_of id ids ≡ some i
    → get_last? (take (suc i) ids) ≡ some id
unfolding index_of
last-index_of id [] i h = cc
last-index_of id (j ∷ ids) i h = elim (Bool-cases (str_eq j id)) [
  | inl own ↦
      let zeroth : 0 ≡ i = cc (rw own at h) in
      let same : j ≡ id = (eq_iff j id).0 own in rw (← zeroth) (ap (λ k. some k) same)
  | inr other ↦
      let h1 = rw other at h in
      elim (Option-cases (index_of id ids)) [
        | inl absent ↦ cc (rw absent at h1)
        | inr (k, found) ↦
            let h2 = rw found at h1 in
            let next : suc k ≡ i = ground arith in
            rw (← next) (last-cons j id ids k found ∙ last-index_of id ids k found)
      ]
]

-- What a branch inherits: the turns up to the selected one, which has ended and does not wait to be
-- resumed; nothing where no turn is selected.
abbrev pub Inherits : Option String → List String → List String → Database → Type 0
Inherits none ids turn_ids db = turn_ids ≡ []
Inherits (some selected) ids turn_ids db =
    (t : StoredTurn) × (rest : List String) × (turn_ids ++ rest ≡ ids)
    × (get_last? turn_ids ≡ some selected)
    × (turn selected db ≡ ok t)
    × (is_terminal t.result.status ≡ true)
    × (opt_eq t.result.error (some "runtime_interrupted") ≡ false)

branch_turns-Inherits :
    (selected : Option String) (ids turn_ids : List String) (db : Database)
    → branch_turns selected ids db ≡ ok turn_ids
    → Inherits selected ids turn_ids db
unfolding branch_turns
branch_turns-Inherits none ids turn_ids db h = sym (ok-injective h)
branch_turns-Inherits (some selected) ids turn_ids db h =
    let (i, found, h1) = >>=-eq-ok (or_throw (index_of selected ids) fork_unfinished) _ h in
    let (t, there, h2) = >>=-eq-ok (turn selected db) _ h1 in
    let (_, ended, h3) = >>=-eq-ok (guard (is_terminal t.result.status) fork_unfinished) _ h2 in
    let (_, settled, h4) =
      >>=-eq-ok (guard (not (opt_eq t.result.error (some "runtime_interrupted"))) fork_interrupted)
        _ h3 in
    let same : take (i + 1) ids ≡ turn_ids = ok-injective h4 in
    let one : i + 1 ≡ suc i = omega arith in
    (
      t,
      drop (i + 1) ids,
      ap (λ front. front ++ drop (i + 1) ids) (sym same) ∙ take-append-drop (i + 1) ids,
      ap get_last? (sym same)
          ∙ ap (λ k. get_last? (take k ids)) one
          ∙ last-index_of selected ids i (or_throw-eq-ok _ fork_unfinished found),
      there,
      guard-eq-ok _ fork_unfinished ended,
      not-true _ (guard-eq-ok _ fork_interrupted settled),
    )

module _ (js : Platform) (pi : PiSession) (at_tip : String → pi.ForkOptions) (fuel : ℕ) where
  db-fork_pi_session :
      (source_id branch_id turn_id : String) (now : ℕ) (commit_id : String) (st st' : Stores js pi)
      → fork_pi_session js pi at_tip fuel source_id branch_id turn_id now commit_id st ≡ ok st'
      → st'.db ≡ st.db
  unfolding fork_pi_session
  db-fork_pi_session source_id branch_id turn_id now commit_id st st' h =
      let ((owner, result), _, h1) = >>=-eq-ok (owner_of js pi fuel turn_id source_id st) _ h in
      let (from, _, h2) =
        >>=-eq-ok (lift (open_storage js pi (scope_of js pi owner) (tables_of js pi owner st))) _
          h1 in
      let (to, _, h3) =
        >>=-eq-ok
          (lift (open_storage js pi (scope_of js pi branch_id) (tables_of js pi branch_id st))) _
          h2 in
      let (tip, _, h4) =
        >>=-eq-ok
          (or_throw (tip_of result)
            (refused "The selected turn left no conversation to branch from."))
          _ h3 in
      let ((receipt, to'), _, h5) =
        >>=-eq-ok
          (lift
            (import_fork_sync js pi (scope_of js pi branch_id) from (at_tip tip) now commit_id to))
          _ h4 in
      sym (ap (λ (x : Stores js pi). x.db) (ok-injective h5))

  db-store_branch :
      (id : String) (source branch : StoredSession) (selected : Option String) (now : ℕ)
      (commit_id : String) (st st' : Stores js pi)
      → store_branch js pi at_tip fuel id source branch selected now commit_id st ≡ ok st'
      → st'.db ≡ save_session branch st.db
  db-store_branch id source branch none now commit_id st st' h =
      sym (ap (λ (x : Stores js pi). x.db) (ok-injective h))
  db-store_branch id source branch (some turn_id) now commit_id st st' h =
      elim (Bool-cases (is_harness source.engine)) [
        | inl harness ↦
            db-fork_pi_session id branch.id turn_id now commit_id
              (record st { db = save_session branch st.db }) st' (rw harness at h)
        | inr legacy ↦ sym (ap (λ (x : Stores js pi). x.db) (ok-injective (rw legacy at h)))
      ]

  -- What a fork that returns leaves: the branch, over the sessions that were there.
  pub record Branched (id : String) (turn_id : Option String) (branch_id at : String) (now : ℕ)
      (commit_id : String) (st st' : Stores js pi) : Type 0 where
    pub source : StoredSession
    pub branch : StoredSession
    pub found : session id st.db ≡ ok source
    pub left : st'.db ≡ save_session branch st.db
    pub own : branch.id ≡ branch_id
    pub child : branch.parent_session_id ≡ some id
    pub same_place : branch.cwd ≡ source.cwd
    pub same_engine : branch.engine ≡ source.engine
    pub no_sandbox : branch.sandbox_state ≡ none
    pub not_running : branch.running_since ≡ none
    pub inherits :
        Inherits (selected_turn turn_id source.turn_ids) source.turn_ids branch.turn_ids st.db
    pub rows :
        Rows js pi at_tip fuel source branch.id
          (selected_turn turn_id source.turn_ids)
          now
          commit_id
          st
          st'

  forked-branch :
      (id : String) (turn_id : Option String) (branch_id at : String) (now : ℕ) (commit_id : String)
      (st st' : Stores js pi) {b : String}
      → b ≡ branch_id
      → forked js pi at_tip fuel id turn_id branch_id at now commit_id st ≡ ok st'
      → (b ≡ branch_id) × Branched id turn_id branch_id at now commit_id st st'
  unfolding forked
  forked-branch id turn_id branch_id at now commit_id st st' same h =
      let (source, found, h1) = >>=-eq-ok (session id st.db) _ h in
      let selected = selected_turn turn_id source.turn_ids in
      let (turn_ids, inherited, h2) =
        >>=-eq-ok (branch_turns selected source.turn_ids st.db) _ h1 in
      (
        same,
        record {
          source = source;
          branch = branch_of branch_id id at turn_ids source;
          found = found;
          left =
              db-store_branch id source (branch_of branch_id id at turn_ids source) selected now
                commit_id st st' h2;
          own = refl;
          child = refl;
          same_place = refl;
          same_engine = refl;
          no_sandbox = refl;
          not_running = refl;
          inherits = branch_turns-Inherits selected source.turn_ids turn_ids st.db inherited;
          rows =
              store_branch-Rows js pi at_tip fuel id source
                (branch_of branch_id id at turn_ids source) selected now commit_id st st' h2;
        },
      )

  -- The reads and the transaction of a fork: where they return they have stored the branch and the
  -- copy of its Pi history, and where they throw they have changed nothing.
  pub fork_session_lem :
      (id : String) (turn_id : Option String) (branch_id at : String) (now : ℕ) (commit_id : String)
      (st st' : Stores js pi)
      → let r = fork_session js pi at_tip fuel id turn_id branch_id at now commit_id st in
        ((b : String)
          → r ≡ (ok b, st')
          → (b ≡ branch_id) × Branched id turn_id branch_id at now commit_id st st')
        × ((e : RuntimeError) → r ≡ (err e, st') → st' ≡ st)
  unfolding fork_session
  fork_session_lem id turn_id branch_id at now commit_id st st' =
      elim (Result-cases (forked js pi at_tip fuel id turn_id branch_id at now commit_id st)) [
        | inl (e, thrown) ↦
            let settled = ap (settle_fork js pi at_tip branch_id st) thrown in
            (
              λ b h. absurd (err-ne-ok (ap (λ p. p.0) (sym settled ∙ h))),
              λ x h. ap (λ p. p.1) (sym h ∙ settled),
            )
        | inr (st1, returned) ↦
            let settled = ap (settle_fork js pi at_tip branch_id st) returned in
            (
              λ b h.
                  let same = sym settled ∙ h in
                  let same_st : st1 ≡ st' = ap (λ p. p.1) same in
                  forked-branch id turn_id branch_id at now commit_id st st'
                    (sym (ok-injective (ap (λ p. p.0) same))) (returned ∙ ap (λ x. ok x) same_st),
              λ x h. absurd (err-ne-ok (ap (λ p. p.0) (sym h ∙ settled))),
            )
      ]
