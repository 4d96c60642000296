-- ===== src/Sessions/Copying.antt =====
-- The rows of Pi's stores that a fork leaves: a copy for the branch, and its source's as they were.
use nimplex.Prelude.{
  Result, ℕ, zero, suc, String, ◌≡◌, ◌∙◌, sym, ap, subst, ◌⊎◌, inl, inr, true, false, Option, none,
  some, if◌then◌else◌, Bool-cases, Option-cases, Result-cases, str_eq, ok, err, or_throw,
  or_throw-eq-ok, >>=-eq-ok, ok-injective, err-ne-ok, arith,
}
use nimplex.Prelude.Dict.{lookup, insert, lookup-insert}
use nimplex.Storage.Records.{Json, PiStorageScope, Tables, StorageError}
use nimplex.Storage.Ports.{Platform, PiSession}
use nimplex.Storage.Journal.{Receipt, open_storage}
use nimplex.Storage.Fork.{import_fork_sync}
use nimplex.Store.Records.{StoredSession, refused}
use nimplex.Store.Tables.{Database, session, save_session}
use nimplex.Sessions.Seeding.{is_harness}
use nimplex.Sessions.Branching.{
  lift, tip_of, scope_of, pi_result, find_owner, owner_of, Stores, tables_of, fork_pi_session,
  store_branch,
}

lift-eq-ok : {A : Type 0} {a : A} (r : Result StorageError A) → lift r ≡ ok a → r ≡ ok a
lift-eq-ok (ok b) h = ap (λ x. ok x) (ok-injective h)
lift-eq-ok (err e) h = absurd (err-ne-ok h)

module _ (js : Platform) (pi : PiSession) where
  -- A session's rows as a store opens them: its journal and its projections as they were.
  open_storage-keeps :
      (scope : PiStorageScope) (before after : Tables js.Text)
      → open_storage js pi scope before ≡ ok after
      → (after.commits ≡ before.commits) × (after.projections ≡ before.projections)
  unfolding open_storage
  open_storage-keeps scope before after h = ground arith

  find_owner-pi_result :
      (fuel : ℕ) (turn_id start : String) (st : Stores js pi) {owner : String} {result : Json}
      → find_owner js pi fuel turn_id start st ≡ some (ok (some (owner, result)))
      → (seq : ℕ) × (pi_result js pi owner turn_id st ≡ some (seq, result))
  unfolding find_owner
  find_owner-pi_result zero turn_id start st h = cc
  find_owner-pi_result (suc fuel) turn_id start st {owner = owner} {result = result} h =
      elim (Option-cases (pi_result js pi start turn_id st)) [
        | inr ((seq, v), settled) ↦
            let h1 = rw (settled, find_owner) at h in
            let same : ◌≡◌ {A = String × Json} (start, v) (owner, result) = cc in
            (seq, subst (λ p. pi_result js pi p.0 turn_id st ≡ some (seq, p.1)) same settled)
        | inl unsettled ↦
            let h1 = rw (unsettled, find_owner) at h in
            elim (Result-cases (session start st.db)) [
              | inl (e, absent) ↦ let h2 = rw absent at h1 in cc
              | inr (s, found) ↦
                  let h2 = rw found at h1 in
                  elim (Option-cases s.parent_session_id) [
                    | inl root ↦ let h3 = rw root at h2 in cc
                    | inr (parent, up) ↦ find_owner-pi_result fuel turn_id parent st (rw up at h2)
                  ]
            ]
      ]

  owner_of-pi_result :
      (fuel : ℕ) (turn_id start : String) (st : Stores js pi) {owner : String} {result : Json}
      → owner_of js pi fuel turn_id start st ≡ ok (owner, result)
      → (seq : ℕ) × (pi_result js pi owner turn_id st ≡ some (seq, result))
  owner_of-pi_result fuel turn_id start st h =
      elim (Option-cases (find_owner js pi fuel turn_id start st)) [
        | inl out ↦ absurd (err-ne-ok (rw (out, owner_of) at h))
        | inr (err e, thrown) ↦ absurd (err-ne-ok (rw (thrown, owner_of) at h))
        | inr (ok none, absent) ↦ absurd (err-ne-ok (rw (absent, owner_of) at h))
        | inr (ok (some found), returned) ↦
            let same = ok-injective (rw (returned, owner_of) at h) in
            find_owner-pi_result fuel turn_id start st
              (returned ∙ ap (λ x. some (ok (some x))) same)
      ]

  -- A copy for a branch: from the session that settled the turn, whose journal and projections
  -- stay as they were, at the turn's tip; no other session's rows change.
  pub record Copied (at_tip : String → pi.ForkOptions) (branch_id turn_id : String) (now : ℕ)
      (commit_id : String) (st st' : Stores js pi) : Type 0 where
    pub owner : String
    pub result : Json
    pub seq : ℕ
    pub settled : pi_result js pi owner turn_id st ≡ some (seq, result)
    pub tip : String
    pub tip_found : tip_of result ≡ some tip
    pub source : Tables js.Text
    pub same_commits : source.commits ≡ (tables_of js pi owner st).commits
    pub same_projections : source.projections ≡ (tables_of js pi owner st).projections
    pub empty : Tables js.Text
    pub opened :
        open_storage js pi (scope_of js pi branch_id) (tables_of js pi branch_id st) ≡ ok empty
    pub receipt : Receipt
    pub copy : Tables js.Text
    pub copied :
        import_fork_sync js pi (scope_of js pi branch_id) source (at_tip tip) now commit_id empty
        ≡ ok (receipt, copy)
    pub scopes :
        (j : String)
        → lookup j st'.scopes ≡ (
            if str_eq branch_id j
            then some copy
            else (if str_eq owner j then some source else lookup j st.scopes))

  module _ (at_tip : String → pi.ForkOptions) (fuel : ℕ) where
    fork_pi_session-Copied :
        (source_id branch_id turn_id : String) (now : ℕ) (commit_id : String) (db : Database)
        (st st' : Stores js pi)
        → fork_pi_session js pi at_tip fuel source_id branch_id turn_id now commit_id
            (record st { db = db })
          ≡ ok st'
        → Copied at_tip branch_id turn_id now commit_id st st'
    unfolding fork_pi_session
    fork_pi_session-Copied source_id branch_id turn_id now commit_id db st st' h =
        let saved : Stores js pi = record st { db = db } in
        let ((owner, result), owned, h1) =
          >>=-eq-ok (owner_of js pi fuel turn_id source_id saved) _ h in
        let (from, read, h2) =
          >>=-eq-ok (lift (open_storage js pi (scope_of js pi owner) (tables_of js pi owner st))) _
            h1 in
        let (to, opened, h3) =
          >>=-eq-ok
            (lift (open_storage js pi (scope_of js pi branch_id) (tables_of js pi branch_id st))) _
            h2 in
        let (tip, tipped, h4) =
          >>=-eq-ok
            (or_throw (tip_of result)
              (refused "The selected turn left no conversation to branch from."))
            _ h3 in
        let ((receipt, to'), imported, h5) =
          >>=-eq-ok
            (lift (
              import_fork_sync js pi (scope_of js pi branch_id) from (at_tip tip) now commit_id to))
            _ h4 in
        let (seq, settled) = owner_of-pi_result fuel turn_id source_id saved owned in
        let (commits, projections) =
          open_storage-keeps (scope_of js pi owner) (tables_of js pi owner st) from
            (lift-eq-ok _ read) in
        record {
          owner = owner;
          result = result;
          seq = seq;
          settled = settled;
          tip = tip;
          tip_found = or_throw-eq-ok _ _ tipped;
          source = from;
          same_commits = commits;
          same_projections = projections;
          empty = to;
          opened = lift-eq-ok _ opened;
          receipt = receipt;
          copy = to';
          copied = lift-eq-ok _ imported;
          scopes = λ j.
              ap (λ (x : Stores js pi). lookup j x.scopes) (sym (ok-injective h5))
              ∙ lookup-insert branch_id j to' (insert owner from st.scopes)
              ∙ ap (λ x. if str_eq branch_id j then some to' else x)
                  (lookup-insert owner j from st.scopes);
        }

    -- What a fork leaves of Pi's rows: no change where no turn is selected or the source has no
    -- Pi history, a copy for the branch otherwise.
    abbrev pub Rows :
        StoredSession → String → Option String → ℕ → String → Stores js pi → Stores js pi → Type 0
    Rows source branch_id none now commit_id st st' = st'.scopes ≡ st.scopes
    Rows source branch_id (some turn_id) now commit_id st st' =
        ((is_harness source.engine ≡ false) × (st'.scopes ≡ st.scopes))
        ⊎ ((is_harness source.engine ≡ true) × Copied at_tip branch_id turn_id now commit_id st st')

    pub store_branch-Rows :
        (id : String) (source branch : StoredSession) (selected : Option String) (now : ℕ)
        (commit_id : String) (st st' : Stores js pi)
        → store_branch js pi at_tip fuel id source branch selected now commit_id st ≡ ok st'
        → Rows source branch.id selected now commit_id st st'
    store_branch-Rows id source branch none now commit_id st st' h =
        sym (ap (λ (x : Stores js pi). x.scopes) (ok-injective h))
    store_branch-Rows id source branch (some turn_id) now commit_id st st' h =
        elim (Bool-cases (is_harness source.engine)) [
          | inl harness ↦ inr (
            harness,
            fork_pi_session-Copied id branch.id turn_id now commit_id (save_session branch st.db) st
                st' (rw harness at h),
          )
          | inr legacy ↦
              inl
                (legacy, sym (ap (λ (x : Stores js pi). x.scopes) (ok-injective (rw legacy at h))))
        ]
