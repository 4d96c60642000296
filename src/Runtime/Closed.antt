-- ===== src/Runtime/Closed.antt =====
-- What one round of the loop that closes the sessions does.
use nimplex.Prelude.{
  ℕ, String, ◌≡◌, refl, ◌∙◌, sym, ap, subst, ◌⊎◌, inl, inr, Bool, true, false, Option, none, some,
  Bool-cases, Result-cases, guard, ok, >>=-eq-ok, ok-injective, err-ne-ok,
}
use nimplex.Prelude.Dict.{erase}
use nimplex.Store.Records.{
  StoredSession, Sandbox, SandboxSessionState, UsageReason, session_has_turns,
}
use nimplex.Store.Tables.{Database, session, delete_session, transaction, is_nil}
use nimplex.Metering.Usage.{settle_sandbox_usage}
use nimplex.Metering.Ledger.{session-found}
use nimplex.Runtime.Sandboxes.{
  IsOwned, Touches, Touches-refl, Touches-trans, save_session-Touches, settle_sandbox_usage-Touches,
}
use nimplex.Runtime.Closing.{
  resumable, is_untouched, discard_sandbox, clean_up, cleanup_sandbox, delete_in, close_session,
}

module _ (deletes : Sandbox → SandboxSessionState → Bool) (number_value : String → ℕ)
    (now : ℕ → String) (at : ℕ) where
  discard_sandbox-Touches :
      (id : String) (db db' : Database)
      → IsOwned db
      → discard_sandbox deletes number_value now at id db ≡ ok (tt, db')
      → Touches id db db'
  unfolding discard_sandbox
  discard_sandbox-Touches id db db' owned h =
      let (db1, settled, h1) =
        >>=-eq-ok (settle_sandbox_usage number_value now id UsageReason.deleted none at false db) _
          h in
      let (s, found, h2) = >>=-eq-ok (session id db1) _ h1 in
      let before =
        settle_sandbox_usage-Touches now id number_value UsageReason.deleted at false db db1 owned
          settled in
      subst (Touches id db) (ap (λ p. p.1) (ok-injective h2)) (
        Touches-trans id before (
          save_session-Touches id s (record s { sandbox_state = none }) db1 before.owned
            (session-found id db1 s found) refl refl))

  clean_up-Touches :
      (id : String) (provider : Option Sandbox) (state : Option SandboxSessionState) (db : Database)
      → IsOwned db
      → Touches id db (clean_up deletes number_value now at false id provider state db).1
  unfolding transaction
  clean_up-Touches id (some provider) (some state) db owned =
      elim (Bool-cases (deletes provider state)) [
        | inr fails ↦ rw fails (Touches-refl id db owned)
        | inl done ↦ elim (Result-cases (discard_sandbox deletes number_value now at id db)) [
          | inl (e, thrown) ↦ rw (done, thrown) (Touches-refl id db owned)
          | inr ((u, db'), returned) ↦
              rw (done, returned) (discard_sandbox-Touches id db db' owned returned)
        ]
      ]
  clean_up-Touches id none state db owned = Touches-refl id db owned
  clean_up-Touches id (some provider) none db owned = Touches-refl id db owned

  cleanup_sandbox-Touches :
      (id : String) (db : Database)
      → IsOwned db
      → Touches id db (cleanup_sandbox deletes number_value now at false id db).1
  unfolding cleanup_sandbox
  cleanup_sandbox-Touches id db owned = elim (Result-cases (session id db)) [
    | inl (e, missing) ↦ rw (missing, cleanup_sandbox) (Touches-refl id db owned)
    | inr (s, found) ↦
        rw (found, cleanup_sandbox)
          (clean_up-Touches id s.sandbox_provider s.sandbox_state db owned)
  ]

  -- the store without a session
  abbrev pub Without : String → Database → Database → Type 0
  Without id db db' = db' ≡ record db { sessions = erase id db.sessions }

  delete_in-Without :
      (id : String) (db db' : Database) → delete_in id db ≡ ok (tt, db') → Without id db db'
  unfolding delete_session
  delete_in-Without id db db' h =
      let (db1, deleted, h1) = >>=-eq-ok (delete_session id db) _ h in
      let (s, found, h2) = >>=-eq-ok (session id db) _ deleted in
      let (_, empty, h3) = >>=-eq-ok (guard (is_nil s.turn_ids) session_has_turns) _ h2 in
      sym (ap (λ p. p.1) (ok-injective h1)) ∙ sym (ok-injective h3)

  -- What a round that returns has done.
  abbrev pub Round : StoredSession → Database → Database → Type 0
  Round s db db' =
      ((is_untouched s ≡ true) × Without s.id db db')
      ⊎ (((resumable s db ≡ ok true) × (db ≡ db'))
          ⊎ ((resumable s db ≡ ok false) × Touches s.id db db'))

  pub close_session-Round :
      (s : StoredSession) (db db' : Database)
      → IsOwned db
      → close_session deletes number_value now at s db ≡ (ok tt, db')
      → Round s db db'
  unfolding close_session transaction
  close_session-Round s db db' owned h = elim (Bool-cases (is_untouched s)) [
    | inl untouched ↦ elim (Result-cases (delete_in s.id db)) [
      | inl (e, thrown) ↦ absurd (err-ne-ok (ap (λ p. p.0) (rw (untouched, thrown) at h)))
      | inr ((u, db1), returned) ↦
          let same : db1 ≡ db' = ap (λ p. p.1) (rw (untouched, returned) at h) in
          inl (untouched, subst (Without s.id db) same (delete_in-Without s.id db db1 returned))
    ]
    | inr used ↦ elim (Result-cases (resumable s db)) [
      | inl (e, thrown) ↦ absurd (err-ne-ok (ap (λ p. p.0) (rw (used, thrown) at h)))
      | inr (resumes, known) ↦ elim (Bool-cases resumes) [
        | inl yes_resumes ↦
            let known' = known ∙ ap (λ b. ok b) yes_resumes in
            inr (inl (known', ap (λ p. p.1) (rw (used, known') at h)))
        | inr no_resumes ↦
            let known' = known ∙ ap (λ b. ok b) no_resumes in
            inr (
              inr (
                known',
                subst (Touches s.id db) (ap (λ p. p.1) (rw (used, known') at h))
                    (cleanup_sandbox-Touches s.id db owned),
              ))
      ]
    ]
  ]
