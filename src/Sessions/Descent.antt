-- ===== src/Sessions/Descent.antt =====
-- A branch keeps the parents of the stored sessions free of cycles.
use nimplex.Prelude.{
  ℕ, suc, ◌<◌, String, ◌≡◌, ◌≢◌, ◌∙◌, sym, ap, subst, inl, inr, false, Bool-cases, if◌then◌else◌,
  str_eq, eq_iff, Option, some, ok, or_throw, or_throw-eq-ok, arith,
}
use nimplex.Prelude.Dict.{lookup, insert, lookup-insert}
use nimplex.Storage.Ports.{Platform, PiSession}
use nimplex.Store.Records.{StoredSession, session_not_found}
use nimplex.Store.Tables.{Database, session, save_session}
use nimplex.Sessions.Branching.{Stores, fork_session}
use nimplex.Sessions.Forking.{fork_session_lem}
use nimplex.Sessions.Owner.{Descends}

-- An identity that no session has and none names as its parent.
pub record IsFresh (id : String) (db : Database) : Type 0 where
  pub unused : (s : StoredSession) → session id db ≢ ok s
  pub childless :
      (j : String) (s : StoredSession) → session j db ≡ ok s → s.parent_session_id ≢ some id

-- the ranks with a session right above its parent
abbrev pub ranked_above : String → String → (String → ℕ) → String → ℕ
ranked_above branch_id id rank j = if str_eq branch_id j then suc (rank id) else rank j

other_name : (a b : String) → a ≢ b → str_eq a b ≡ false
other_name a b h = elim (Bool-cases (str_eq a b)) [
  | inl same ↦ absurd (h ((eq_iff a b).0 same))
  | inr differ ↦ differ
]

module _ (rank : String → ℕ) (id branch_id : String) (db : Database) (down : Descends rank db)
    (fresh : IsFresh branch_id db) where
  -- where the branch does not stand, nothing has changed
  elsewhere :
      (j parent : String) (s : StoredSession)
      → session j db ≡ ok s
      → s.parent_session_id ≡ some parent
      → str_eq branch_id j ≡ false
      → ranked_above branch_id id rank parent < ranked_above branch_id id rank j
  elsewhere j parent s stored up away =
      let apart =
        other_name branch_id parent
          (λ same. fresh.childless j s stored (up ∙ ap (λ x. some x) (sym same))) in
      rw (apart, away) (down.below j parent s stored up)

  -- the branch stands right above its source
  at_branch :
      (source : StoredSession)
      → session id db ≡ ok source
      → ranked_above branch_id id rank id < suc (rank id)
  at_branch source stored =
      let apart =
        other_name branch_id id
          (λ same. fresh.unused source (ap (λ x. session x db) same ∙ stored)) in
      rw apart (omega arith)

  save_session-Descends :
      (source branch : StoredSession)
      → session id db ≡ ok source
      → branch.id ≡ branch_id
      → branch.parent_session_id ≡ some id
      → Descends (ranked_above branch_id id rank) (save_session branch db)
  unfolding save_session session
  save_session-Descends source branch stored own child = record {
    below = λ j parent s found up.
        let at =
          or_throw-eq-ok (lookup j (insert branch.id branch db.sessions)) (session_not_found j)
            found in
        let at' = sym (lookup-insert branch.id j branch db.sessions) ∙ at in
        let at'' =
          subst (λ x. (if str_eq x j then some branch else lookup j db.sessions) ≡ some s) own
            at' in
        elim (Bool-cases (str_eq branch_id j)) [
          | inl here ↦
              let same : branch ≡ s = cc (rw here at at'') in
              let above : id ≡ parent = cc in
              rw here (
                subst (λ p. ranked_above branch_id id rank p < suc (rank id)) above
                  (at_branch source stored))
          | inr away ↦
              elsewhere j parent s (ap (λ o. or_throw o (session_not_found j)) (rw away at at'')) up
                away
        ];
  }

-- Where every session's parent ranks below it, a fork that returns, under an identity that no session
-- has or names as its parent, leaves that so: the branch ranks right above its source.
pub fork_session-Descends :
    (js : Platform) (pi : PiSession) (at_tip : String → pi.ForkOptions) (fuel : ℕ) (id : String)
    (turn_id : Option String) (branch_id at : String) (now : ℕ) (commit_id : String)
    (st st' : Stores js pi) (rank : String → ℕ)
    → Descends rank st.db
    → IsFresh branch_id st.db
    → fork_session js pi at_tip fuel id turn_id branch_id at now commit_id st ≡ (ok branch_id, st')
    → Descends (ranked_above branch_id id rank) st'.db
fork_session-Descends js pi at_tip fuel id turn_id branch_id at now commit_id st st' rank down fresh
      forked =
    let law = fork_session_lem js pi at_tip fuel id turn_id branch_id at now commit_id st st' in
    let (_, b) = law.0 branch_id forked in
    subst (Descends (ranked_above branch_id id rank)) (sym b.left) (
      save_session-Descends rank id branch_id st.db down fresh b.source b.branch b.found b.own
        b.child)
