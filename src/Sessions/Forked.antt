-- ===== src/Sessions/Forked.antt =====
-- `forkSession` as a whole: the transaction, and then the snapshot of the branch.
use nimplex.Prelude.{
  ℕ, String, ◌≡◌, ◌∙◌, sym, ap, subst, ◌⊎◌, inl, inr, Option, Result, Result-cases, ok, err,
  err-ne-ok,
}
use nimplex.Storage.Ports.{Platform, PiSession}
use nimplex.Store.Records.{RuntimeError}
use nimplex.Sessions.Branching.{Stores, fork_session}
use nimplex.Sessions.Forking.{Branched, fork_session_lem}
use nimplex.Sessions.Snapshots.{SessionSnapshot, get_session}

module _ (js : Platform) (pi : PiSession) where
  -- `return this.getSession(branch.id)`, after the transaction
  abbrev pub show_branch :
      Result RuntimeError String × Stores js pi → Result RuntimeError SessionSnapshot × Stores js pi
  show_branch (err e, st) = (err e, st)
  show_branch (ok branch_id, st) = (get_session branch_id st.db, st)

  module _ (at_tip : String → pi.ForkOptions) (fuel : ℕ) (id : String) (turn_id : Option String)
      (branch_id at : String) (now : ℕ) (commit_id : String) where
    unfoldable pub fork_and_show : Stores js pi → Result RuntimeError SessionSnapshot × Stores js pi
    unfolding fork_session
    fork_and_show st =
        show_branch (fork_session js pi at_tip fuel id turn_id branch_id at now commit_id st)

    -- A fork that returns has stored the branch, and no other session: it has the directory and the
    -- engine of its source, names it as its parent and inherits its turns up to the selected one,
    -- which has ended and does not wait to be resumed. Where a turn is selected in a session on the
    -- Pi harness, the branch's Pi rows are the copy at the tip that the turn left, from the session
    -- that settled it, whose journal and projections stay as they were, and no other session's Pi
    -- rows change; otherwise none do. What is returned is the snapshot of the branch. A fork that
    -- throws has changed nothing, or has stored the branch in that way and throws what its snapshot
    -- does.
    pub fork_and_show_lem :
        (st st' : Stores js pi)
        → ((shown : SessionSnapshot)
            → fork_and_show st ≡ (ok shown, st')
            → Branched js pi at_tip fuel id turn_id branch_id at now commit_id st st'
              × (get_session branch_id st'.db ≡ ok shown))
          × ((e : RuntimeError)
              → fork_and_show st ≡ (err e, st')
              → (st' ≡ st)
                ⊎ (Branched js pi at_tip fuel id turn_id branch_id at now commit_id st st'
                    × (get_session branch_id st'.db ≡ err e)))
    unfolding fork_and_show
    fork_and_show_lem st st' =
        let r = fork_session js pi at_tip fuel id turn_id branch_id at now commit_id st in
        elim (Result-cases r.0) [
          | inl (e, thrown) ↦
              let eq : r ≡ (err e, r.1) = ap (λ x. (x, r.1)) thrown in
              let law =
                fork_session_lem js pi at_tip fuel id turn_id branch_id at now commit_id st r.1 in
              let whole : fork_and_show st ≡ (err e, r.1) = ap show_branch eq in
              (
                λ shown h. absurd (err-ne-ok (ap (λ p. p.0) (sym whole ∙ h))),
                λ x h. inl (ap (λ p. p.1) (sym h ∙ whole) ∙ law.1 e eq),
              )
          | inr (b, returned) ↦
              let eq : r ≡ (ok b, r.1) = ap (λ x. (x, r.1)) returned in
              let law =
                fork_session_lem js pi at_tip fuel id turn_id branch_id at now commit_id st r.1 in
              let (own, branched) = law.0 b eq in
              let whole : fork_and_show st ≡ (get_session branch_id r.1.db, r.1) =
                ap show_branch eq ∙ ap (λ i. (get_session i r.1.db, r.1)) own in
              let moved : (x : Result RuntimeError SessionSnapshot)
                  → fork_and_show st ≡ (x, st')
                  → Branched js pi at_tip fuel id turn_id branch_id at now commit_id st st'
                    × (get_session branch_id st'.db ≡ x) =
                λ x h.
                  let same = sym whole ∙ h in
                  let same_st : r.1 ≡ st' = ap (λ p. p.1) same in
                  (
                    subst (Branched js pi at_tip fuel id turn_id branch_id at now commit_id st)
                        same_st branched,
                    ap (λ s. get_session branch_id s.db) (sym same_st) ∙ ap (λ p. p.0) same,
                  ) in
              (λ shown h. moved _ h, λ e h. inr (moved _ h))
        ]
