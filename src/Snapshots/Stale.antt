-- ===== src/Snapshots/Stale.antt =====
-- A delegation that stays away becomes stale.
use capcom.Prelude.{
  ℕ, suc, ◌+◌, ◌≤◌, String, true, false, ◌≡◌, ap, ◌∙◌, some, List, [], ◌∷◌, arith, eq_iff,
}
use capcom.Prelude.Bytes.{length}
use capcom.Errors.{ok}
use capcom.Tenant.{Context}
use capcom.Domain.Snapshot.{RuntimeSyncRun, RuntimeSnapshot}
use capcom.Snapshots.Tables.{World, Env, Seen, is_missed, missed, status_after}
use capcom.Snapshots.Persist.{persist_snapshot}
use capcom.Snapshots.Missed.{state_of, mentions, later}
use capcom.Snapshots.Counted.{persist_snapshot-outlook}

abbrev pub Step : Type 0
Step = RuntimeSyncRun × RuntimeSnapshot

-- Snapshots that are stored one after the other.
unfoldable pub persist_all : Env → Context → ℕ → List Step → World → World
persist_all env ctx threshold [] w = w
persist_all env ctx threshold ((run, s) ∷ steps) w =
    persist_all env ctx threshold steps (persist_snapshot env ctx run s threshold w).1

module _ (env : Env) (ctx : Context) (threshold : ℕ) (id o k : String) where
  -- Each step stores a snapshot of the runtime that does not have the delegation, in a run that
  -- is not the one that saw it last.
  unfoldable pub IsAway : Seen → List Step → World → Type 0
  IsAway seen [] w = Unit {0}
  IsAway seen ((run, s) ∷ steps) w =
      ((r : RuntimeSyncRun) × ((persist_snapshot env ctx run s threshold w).0 ≡ ok r))
      × (id ≡ run.runtime_connection_id)
      × (mentions o k s.agent_delegations ≡ false)
      × (is_missed run.id seen ≡ true)
      × IsAway seen steps (persist_snapshot env ctx run s threshold w).1

  away-state_of :
      (run : RuntimeSyncRun) (s : RuntimeSnapshot) (w : World) (r : RuntimeSyncRun)
      (status : String) (seen : Seen)
      → (persist_snapshot env ctx run s threshold w).0 ≡ ok r
      → id ≡ run.runtime_connection_id
      → mentions o k s.agent_delegations ≡ false
      → is_missed run.id seen ≡ true
      → state_of id o k w.delegations ≡ some (status, seen)
      → state_of id o k (persist_snapshot env ctx run s threshold w).1.delegations
        ≡ some (status_after threshold seen status, missed seen)
  unfolding later
  away-state_of run s w r status seen e same absent unseen before =
      persist_snapshot-outlook env ctx run s threshold w r id o k e
      ∙ rw (before, absent, unseen) (ground (arith, same, eq_iff id run.runtime_connection_id))

  missed-IsAway :
      (seen : Seen) (steps : List Step) (w : World)
      → IsAway seen steps w
      → IsAway (missed seen) steps w
  unfolding IsAway is_missed
  missed-IsAway seen [] w h = h
  missed-IsAway seen ((run, s) ∷ steps) w h =
      let (e, same, absent, unseen, rest) = h in
      (e, same, absent, unseen, missed-IsAway seen steps _ rest)

  status_after-reached :
      (seen : Seen) (status : String)
      → threshold ≤ suc seen.missing
      → status_after threshold seen status ≡ "stale"
  status_after-reached seen status h = ground (arith, h)

  -- A delegation that stays away while snapshots of its runtime are stored, at least one, becomes
  -- stale once the times that it was missed reach the threshold.
  pub persist_all-stale :
      (step : Step) (steps : List Step) (w : World) (status : String) (seen : Seen)
      → state_of id o k w.delegations ≡ some (status, seen)
      → IsAway seen (step ∷ steps) w
      → threshold ≤ seen.missing + length (step ∷ steps)
      → (s : Seen) × (state_of id o k (persist_all env ctx threshold (step ∷ steps) w).delegations
          ≡ some ("stale", s))
  unfolding IsAway persist_all length
  persist_all-stale (run, s) [] w status seen before h enough =
      let (e, same, absent, unseen, _) = h in
      let (r, e') = e in
      let now = away-state_of run s w r status seen e' same absent unseen before in
      (
        missed seen,
        now
            ∙ ap (λ t. some (t, missed seen))
                (status_after-reached seen status (omega (arith, enough))),
      )
  persist_all-stale (run, s) (next ∷ steps) w status seen before h enough =
      let (e, same, absent, unseen, rest) = h in
      let (r, e') = e in
      let now = away-state_of run s w r status seen e' same absent unseen before in
      persist_all-stale next steps _ _ (missed seen) now (missed-IsAway seen (next ∷ steps) _ rest)
        (omega (arith, enough))
