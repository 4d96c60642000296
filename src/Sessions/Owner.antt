-- ===== src/Sessions/Owner.antt =====
-- The search of `forkSession` for the session that ran a turn: where the parents do not form a cycle
-- it ends, and the fuel is only a bound.
use nimplex.Prelude.{
  ℕ, zero, suc, ◌+◌, ◌<◌, String, ◌≡◌, inl, inr, Option, none, some, Option-cases, Result-cases,
  Result, ok, err, arith,
}
use nimplex.Storage.Records.{Json}
use nimplex.Storage.Ports.{Platform, PiSession}
use nimplex.Store.Records.{StoredSession, RuntimeError}
use nimplex.Store.Tables.{Database, session}
use nimplex.Sessions.Branching.{Stores, pi_result, find_owner}

-- Every session's parent ranks below it: no cycle of parents.
pub record Descends (rank : String → ℕ) (db : Database) : Type 0 where
  pub below :
      (id parent : String) (s : StoredSession)
      → session id db ≡ ok s
      → s.parent_session_id ≡ some parent
      → rank parent < rank id

next : (more fuel : ℕ) → more + suc fuel ≡ suc (more + fuel)
next more fuel = omega arith

module _ (js : Platform) (pi : PiSession) (turn_id : String) (st : Stores js pi) (rank : String → ℕ)
    (down : Descends rank st.db) where
  -- What the search returns, with any fuel from `fuel` on.
  abbrev pub Found : ℕ → String → Type 0
  Found fuel owner =
      (r : Result RuntimeError (Option (String × Json))) × ((more : ℕ)
        → find_owner js pi (more + fuel) turn_id owner st ≡ some r)

  -- Where every session's parent ranks below it, the search returns with any fuel above the rank of the
  -- session that it starts from, and more fuel does not change what it returns.
  pub find_owner_lem : (fuel : ℕ) (owner : String) → rank owner < fuel → Found fuel owner
  unfolding find_owner
  find_owner_lem zero owner h = absurd (omega arith)
  find_owner_lem (suc fuel) owner h = elim (Option-cases (pi_result js pi owner turn_id st)) [
    | inr ((seq, v), here) ↦ (ok (some (owner, v)), λ more. rw (next more fuel, here, find_owner))
    | inl elsewhere ↦ elim (Result-cases (session owner st.db)) [
      | inl (e, thrown) ↦ (err e, λ more. rw (next more fuel, elsewhere, thrown, find_owner))
      | inr (s, stored) ↦ elim (Option-cases s.parent_session_id) [
        | inl root ↦ (ok none, λ more. rw (next more fuel, elsewhere, stored, root, find_owner))
        | inr (parent, child) ↦
            let lower = down.below owner parent s stored child in
            let (r, returns) = find_owner_lem fuel parent (omega arith) in
            (r, λ more. rw (next more fuel, elsewhere, stored, child, find_owner) (returns more))
      ]
    ]
  ]
