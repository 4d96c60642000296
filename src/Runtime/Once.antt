-- ===== src/Runtime/Once.antt =====
-- A request with an identity is accepted once: a retry has the first answer and starts nothing.
use nimplex.Prelude.{
  String, ◌≡◌, ◌∙◌, sym, ap, subst, ◌⊎◌, inl, inr, true, false, ◌&&◌, Option, none, some, [], ◌∷◌,
  ◌++◌, any, find, find-append_last, Bool-cases, str_eq, eq_refl, ok, ok-injective, err-ne-ok,
}
use nimplex.Store.Records.{StartTurnRequest, AcceptedTurnInput, StoredTurn}
use nimplex.Store.Tables.{
  Database, accepted_input, is_input, save_accepted_input, save_workspace, save_turn, save_session,
  append,
}
use nimplex.Sessions.Requests.{is_request, request_eq}
use nimplex.Sessions.Equality.{request_eq_refl}
use nimplex.Sessions.Seeding.{SeedHost, Fresh, with_id, request_id_of, accepted, Seed, store_seed}
use nimplex.Sessions.Plan.{plan_turn-Planned}
use nimplex.Runtime.Lifecycle.{Runtime, launch}
use nimplex.Runtime.Starting.{Started, retried, accepted_before, start_turn}
use nimplex.Runtime.Acceptance.{Retried, Launched, meets, start_turn-branches}

-- What a transaction that stores a seed has accepted.
pub inputs-store_seed :
    (host : SeedHost) (seed : Seed) (db db' : Database) {t : StoredTurn}
    → store_seed host seed db ≡ ok (t, db')
    → db'.accepted_inputs ≡ db.accepted_inputs ++ seed.input ∷ []
unfolding store_seed save_accepted_input save_workspace save_turn save_session append
inputs-store_seed host seed db db' h =
    elim (Bool-cases
      (any (is_input seed.input.session_id seed.input.request_id) db.accepted_inputs)) [
        | inl used ↦ absurd (err-ne-ok (rw used at h))
        | inr new ↦
            let stored = rw new at h in
            sym (ap (λ (p : StoredTurn × Database). p.1.accepted_inputs) (ok-injective stored))
      ]

request_id_of-named :
    (r : StartTurnRequest) (fresh : Fresh) (q : String)
    → r.request_id ≡ some q
    → request_id_of r fresh ≡ q
request_id_of-named r fresh q e = rw e

accepted_before-named :
    (session_id q : String) (r : StartTurnRequest) (db : Database)
    → r.request_id ≡ some q
    → accepted_before session_id r db ≡ find (is_input session_id q) db.accepted_inputs
unfolding accepted_input
accepted_before-named session_id q r db e = rw e

retried-equal :
    (a : AcceptedTurnInput) (r : StartTurnRequest)
    → request_eq a.request r ≡ true
    → retried a r ≡ ok (record { run_id = a.turn_id; request_id = a.request_id })
unfolding request_eq
retried-equal a r e = rw e

with_id-same :
    (r : StartTurnRequest) (fresh : Fresh) (q : String)
    → r.request_id ≡ some q
    → with_id r fresh ≡ r
with_id-same r fresh q e =
    ap (λ (o : Option String). record r { request_id = o })
      (ap (λ q'. some q') (request_id_of-named r fresh q e) ∙ sym e)

module _ (host : SeedHost) (session_id q : String) (r : StartTurnRequest)
    (named : r.request_id ≡ some q) (fresh other : Fresh) (rt : Runtime) where
  input-Launched :
      (rt' : Runtime) (started : Started) (l : Launched host session_id r fresh rt rt' started)
      → l.seed.input ≡ accepted session_id r fresh
  input-Launched rt' started l =
      ap (λ (x : Seed). x.input)
        (plan_turn-Planned host session_id (with_id r fresh) rt.db fresh l.seed l.planned).new
      ∙ ap (λ x. accepted session_id x fresh) (with_id-same r fresh q named)

  accepted_before-Launched :
      (rt' : Runtime) (started : Started)
      → Launched host session_id r fresh rt rt' started
      → accepted_before session_id r rt'.db ≡ some (accepted session_id r fresh)
  unfolding launch
  accepted_before-Launched rt' started l =
      let x = accepted session_id r fresh in
      let before : find (is_input session_id q) rt.db.accepted_inputs ≡ none =
        sym (accepted_before-named session_id q r rt.db named) ∙ l.unknown in
      let matches : is_input session_id q x ≡ true =
        ap (λ i. str_eq session_id session_id && str_eq i q) (request_id_of-named r fresh q named)
        ∙ rw (eq_refl session_id) (eq_refl q) in
      let inputs : rt'.db.accepted_inputs ≡ rt.db.accepted_inputs ++ x ∷ [] =
        ap (λ (s : Runtime). s.db.accepted_inputs) l.next
        ∙ inputs-store_seed host l.seed rt.db l.db' l.stored
        ∙ ap (λ i. rt.db.accepted_inputs ++ i ∷ []) (input-Launched rt' started l) in
      accepted_before-named session_id q r rt'.db named
      ∙ ap (find (is_input session_id q)) inputs
      ∙ find-append_last (is_input session_id q) rt.db.accepted_inputs x before matches

  retried-Launched :
      (rt' : Runtime) (started : Started)
      → Launched host session_id r fresh rt rt' started
      → retried (accepted session_id r fresh) r ≡ ok started
  retried-Launched rt' started l =
      let equal : request_eq (with_id r fresh) r ≡ true =
        ap (λ y. request_eq y r) (with_id-same r fresh q named) ∙ request_eq_refl r in
      let id : l.seed.turn.result.id ≡ fresh.id =
        ap (λ (x : Seed). x.turn.result.id)
          (plan_turn-Planned host session_id (with_id r fresh) rt.db fresh l.seed l.planned).new in
      retried-equal (accepted session_id r fresh) r equal
      ∙ ap (λ i. ok (record { run_id = i; request_id = request_id_of r fresh })) (sym id)
      ∙ ap (λ x. ok x) (sym l.answer)

  again :
      (rt' : Runtime) (started : Started)
      → rt.closing ≡ false
      → is_request r ≡ true
      → Retried session_id r rt rt' started ⊎ Launched host session_id r fresh rt rt' started
      → start_turn host session_id r other rt' ≡ (ok started, rt')
  unfolding launch
  again rt' started still_open fits (inl old) =
      rw old.same
        (meets host session_id r other rt still_open fits old.found ∙ ap (λ x. (x, rt)) old.answer)
  again rt' started still_open fits (inr new) =
      let open' : rt'.closing ≡ false = ap (λ (s : Runtime). s.closing) new.next ∙ still_open in
      meets host session_id r other rt' open' fits (accepted_before-Launched rt' started new)
      ∙ ap (λ x. (x, rt')) (retried-Launched rt' started new)

  -- Where `startTurn` returns for a request that carries an identity, starting the same request again,
  -- whatever identities and time it would be seeded with, gives the same answer and changes nothing.
  pub start_turn-again :
      (rt' : Runtime) (started : Started)
      → start_turn host session_id r fresh rt ≡ (ok started, rt')
      → start_turn host session_id r other rt' ≡ (ok started, rt')
  start_turn-again rt' started h = elim (start_turn-branches host session_id r fresh rt) [
    | inl (e, thrown) ↦ absurd (err-ne-ok (ap (λ p. p.0) (sym thrown ∙ h)))
    | inr (rt1, started1, returned, still_open, fits, how) ↦
        let same = sym returned ∙ h in
        let same_rt : rt1 ≡ rt' = ap (λ p. p.1) same in
        let same_answer : started1 ≡ started = ok-injective (ap (λ p. p.0) same) in
        subst (λ s. start_turn host session_id r other rt' ≡ (ok s, rt')) same_answer
          (subst (λ x. start_turn host session_id r other x ≡ (ok started1, x)) same_rt
            (again rt1 started1 still_open fits how))
  ]
