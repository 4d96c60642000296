-- ===== src/Sessions/Plan.antt =====
-- What a turn that passes the plan's checks has found and what its transaction stores.
use nimplex.Prelude.{
  String, ◌≡◌, refl, subst, Bool, true, false, not, Option, List, get_last?, ok, guard, guard-eq-ok,
  >>=-eq-ok, ok-injective,
}
use nimplex.Storage.Records.{Json}
use nimplex.Store.Records.{StartTurnRequest, StoredSession, StoredTurn, Workspace, refused}
use nimplex.Store.Tables.{Database, session, workspace}
use nimplex.Checkpoints.Steps.{check_workspace_limits}
use nimplex.Sessions.Requests.{SelectedModel}
use nimplex.Sessions.Attachments.{attach_all}
use nimplex.Sessions.Seeding.{
  SeedHost, Fresh, Seed, read_parent, is_live, is_interrupted, attachments_of, prior_messages,
  open_conversation, seed_workspace, select_model, new_seed, plan_turn,
}

not-true : (b : Bool) → not b ≡ true → b ≡ false
not-true true h = cc
not-true false h = refl

module _ (host : SeedHost) (session_id : String) (r : StartTurnRequest) (db : Database) where
  -- The conversation is open: its last turn, if it has one, has ended and is not to be resumed.
  pub record Opened (s : StoredSession) (parent : Option StoredTurn) : Type 0 where
    pub found : session session_id db ≡ ok s
    pub last : read_parent (get_last? s.turn_ids) db ≡ ok parent
    pub ended : is_live parent ≡ false
    pub settled : is_interrupted parent ≡ false

  pub open_conversation-Opened :
      (s : StoredSession) (parent : Option StoredTurn)
      → open_conversation host session_id db ≡ ok (s, parent)
      → Opened s parent
  unfolding open_conversation
  open_conversation-Opened s parent h =
      let (s', found, h1) = >>=-eq-ok (session session_id db) _ h in
      let (parent', last, h2) = >>=-eq-ok (read_parent (get_last? s'.turn_ids) db) _ h1 in
      let (_, ended, h3) =
        >>=-eq-ok (guard (not (is_live parent')) (refused "The previous turn is still active.")) _
          h2 in
      let (_, settled, h4) =
        >>=-eq-ok
          (guard (not (is_interrupted parent'))
            (refused "Resume the interrupted turn first, or start a new session."))
          _ h3 in
      let opened : Opened s' parent' = record {
        found = found;
        last = last;
        ended = not-true _ (guard-eq-ok _ _ ended);
        settled = not-true _ (guard-eq-ok _ _ settled);
      } in
      subst (λ p. Opened p.0 p.1) (ok-injective h4) opened

  -- The new turn's files are its parent's with the attachments, within the limits.
  pub record Attached (parent_id : Option String) (w : Workspace) : Type 0 where
    pub inherited : Workspace
    pub base : workspace parent_id db ≡ ok inherited
    pub attached : attach_all host.posix (attachments_of r) inherited ≡ ok w
    pub within : check_workspace_limits host.steps w.files w.metadata ≡ ok tt

  pub seed_workspace-Attached :
      (parent_id : Option String) (w : Workspace)
      → seed_workspace host r parent_id db ≡ ok w
      → Attached parent_id w
  unfolding seed_workspace
  seed_workspace-Attached parent_id w h =
      let (inherited, base, h1) = >>=-eq-ok (workspace parent_id db) _ h in
      let (w', attached, h2) =
        >>=-eq-ok (attach_all host.posix (attachments_of r) inherited) _ h1 in
      let (_, within, h3) =
        >>=-eq-ok (check_workspace_limits host.steps w'.files w'.metadata) _ h2 in
      subst (Attached parent_id) (ok-injective h3)
        (record { inherited = inherited; base = base; attached = attached; within = within })

  pub record Planned (fresh : Fresh) (seed : Seed) : Type 0 where
    pub row : StoredSession
    pub parent : Option StoredTurn
    pub opened : Opened row parent
    pub files : Attached (get_last? row.turn_ids) seed.workspace
    pub selected : SelectedModel
    pub supported : select_model host r row ≡ ok selected
    pub prior : List Json
    pub continued : prior_messages host r parent db ≡ ok prior
    pub new : seed ≡ new_seed host session_id r fresh row parent seed.workspace selected prior

  pub plan_turn-Planned :
      (fresh : Fresh) (seed : Seed)
      → plan_turn host session_id r fresh db ≡ ok seed
      → Planned fresh seed
  unfolding plan_turn
  plan_turn-Planned fresh seed h =
      let ((s, parent), found, h1) = >>=-eq-ok (open_conversation host session_id db) _ h in
      let (w, files, h2) = >>=-eq-ok (seed_workspace host r (get_last? s.turn_ids) db) _ h1 in
      let (selected, supported, h3) = >>=-eq-ok (select_model host r s) _ h2 in
      let (prior, continued, h4) = >>=-eq-ok (prior_messages host r parent db) _ h3 in
      subst (Planned fresh) (ok-injective h4) (record {
        row = s;
        parent = parent;
        opened = open_conversation-Opened s parent found;
        files = seed_workspace-Attached (get_last? s.turn_ids) w files;
        selected = selected;
        supported = supported;
        prior = prior;
        continued = continued;
        new = refl;
      })
