-- ===== src/Storage/Invariants.antt =====
-- What holds of the projections of every reachable store, by the replay of its journal.
use nimplex.Prelude.{
  ℕ, ◌+◌, ◌≡◌, refl, true, some, List, [], ◌∷◌, length, ok, >>=-eq-ok, ok-injective, guard,
  guard-eq-ok, ◌&&◌, ◌==◌, ◌-◌, subst,
}
use nimplex.Storage.Records.{
  SessionRow, empty_stats, no_projections, CommittedWrite, CommitRow, Tables, PiStorageScope,
  sequence_gap, write_gap,
}
use nimplex.Storage.Ports.{Platform, PlatformLaws, PiSession, PiSessionLaws, is_numbered}
use nimplex.Storage.Projections.{Projected, apply_all}
use nimplex.Storage.Journal.{decode_commit, validate, replay_record, replay}
use nimplex.Storage.Reach.{Reach, Reach-Journalled}
use nimplex.Storage.Totals.{IsTotalled, apply_all-IsTotalled, count_messages, sum_usage}
use nimplex.Storage.Bounds.{IsBelow, apply_all-IsBelow}

module _ (js : Platform) (pi : PiSession) (scope : PiStorageScope) (P : ℕ → Projected → Type 0)
    (keep : (n : ℕ) (ws : List CommittedWrite) (s s' : Projected)
      → is_numbered n ws ≡ true
      → apply_all ws s ≡ ok s'
      → P n s
      → P (n + length ws) s') where
  replay_record_induction :
      (r : CommitRow js.Text) (n n' : ℕ) (s s' : Projected)
      → replay_record js pi scope r (n, s) ≡ ok (n', s')
      → P n s
      → P n' s'
  unfolding replay_record
  replay_record_induction r n n' s s' h p =
      let (c, _, h1) = >>=-eq-ok (decode_commit js pi scope r) _ h in
      let (_, _, h2) =
        >>=-eq-ok
          (guard (c.first_seq == n && r.first_seq == n && r.last_seq == n + length c.writes - 1)
            sequence_gap)
          _ h1 in
      let (_, numbered, h3) = >>=-eq-ok (guard (is_numbered n c.writes) write_gap) _ h2 in
      let (_, _, h4) = >>=-eq-ok (validate js pi scope c.writes n s.1) _ h3 in
      let (t, applied, h5) = >>=-eq-ok (apply_all c.writes s) _ h4 in
      let done : P (n + length c.writes) t =
        keep n c.writes s t (guard-eq-ok _ write_gap numbered) applied p in
      subst (λ r. P r.0 r.1) (ok-injective h5) done

  pub replay_induction :
      (rows : List (CommitRow js.Text)) (n n' : ℕ) (s s' : Projected)
      → replay js pi scope rows (n, s) ≡ ok (n', s')
      → P n s
      → P n' s'
  unfolding replay
  replay_induction [] n n' s s' h p = subst (λ r. P r.0 r.1) (ok-injective h) p
  replay_induction (r ∷ rows) n n' s s' h p =
      let ((m, t), e, h1) = >>=-eq-ok (replay_record js pi scope r (n, s)) _ h in
      replay_induction rows m n' t s' h1 (replay_record_induction r n m s t e p)

module _ (js : Platform) (pi : PiSession) (scope : PiStorageScope) (js_laws : PlatformLaws js)
    (pi_laws : PiSessionLaws pi) where
  -- In every reachable store with session row `row`, the message count is the number of message
  -- entries, the usage statistics are the sums over the usage rows, and every entry, usage row,
  -- value and list element has a sequence number below the row's next one.
  pub projections-Reach :
      {t : Tables js.Text} {row : SessionRow}
      → Reach js pi scope t
      → t.session ≡ some row
      → (row.stats.message_count ≡ count_messages t.projections.entries)
        × (row.stats.usage ≡ sum_usage empty_stats.usage t.projections.usage)
        × IsBelow row.next_seq t.projections
  unfolding count_messages sum_usage
  projections-Reach {t} {row} r h =
      let (row', j) = Reach-Journalled js pi scope js_laws pi_laws r in
      let session = j.session in
      let same : row' ≡ row = cc in
      let totalled =
        replay_induction js pi scope (λ n s. IsTotalled s)
          (λ n ws s s' _ e k. apply_all-IsTotalled ws s s' e k) t.commits 1 row'.next_seq
          (empty_stats, no_projections) (row'.stats, t.projections) j.replayed
          (record { messages = refl; usage = refl }) in
      let below =
        replay_induction js pi scope (λ n s. IsBelow n s.1)
          (λ n ws s s' m e k. apply_all-IsBelow n ws s s' m e k) t.commits 1 row'.next_seq
          (empty_stats, no_projections) (row'.stats, t.projections) j.replayed
          (record { entries = tt; usage = tt; values = tt; lists = tt }) in
      rw (← same) (totalled.messages, totalled.usage, below)
