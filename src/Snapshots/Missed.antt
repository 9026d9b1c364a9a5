-- ===== src/Snapshots/Missed.antt =====
-- What a stored snapshot does to the delegations: those that it has are active, the others of the
-- same runtime have been missed once more.
use capcom.Prelude.{
  ℕ, String, Bool, true, false, ◌&&◌, ◌||◌, ◌==◌, ◌≡◌, refl, if◌then◌else◌, Option, none, some,
  List, [], ◌∷◌, arith, eq_iff,
}
use capcom.Prelude.Rows.{update_where, upsert}
use capcom.Tenant.{Context}
use capcom.Domain.Snapshot.{RuntimeSyncRun, AgentDelegationSnapshot}
use capcom.Snapshots.Tables.{DelegationRow, Env, Seen, is_missed, missed, seen_in, status_after}
use capcom.Snapshots.Upserts.{delegate_key, is_delegation}
use capcom.Snapshots.Persist.{advance_delegation, is_own_delegation}

abbrev pub State : Type 0
State = Option (String × Seen)

unfoldable pub is_at : String → String → String → DelegationRow → Bool
is_at id o k r =
    r.runtime_connection_id == id
    && r.delegation.orchestrator_runtime_agent_id == o
    && r.delegate_key == k

-- The status of the delegation that a runtime has under a key, and when it was seen.
unfoldable pub state_of : String → String → String → List DelegationRow → State
state_of id o k [] = none
state_of id o k (r ∷ rows) =
    let rest = state_of id o k rows in if is_at id o k r then some (r.status, r.seen) else rest

unfoldable pub mentions : String → String → List AgentDelegationSnapshot → Bool
mentions o k [] = false
mentions o k (d ∷ l) =
    (d.orchestrator_runtime_agent_id == o && delegate_key d == k) || mentions o k l

-- One more snapshot without it.
unfoldable pub later : RuntimeSyncRun → ℕ → State → State
later run threshold none = none
later run threshold (some (status, seen)) =
    if is_missed run.id seen
    then some (status_after threshold seen status, missed seen)
    else some (status, seen)

abbrev pub renewed : RuntimeSyncRun → AgentDelegationSnapshot → DelegationRow → DelegationRow
renewed run d r = record r { delegation = d; status = "active"; seen = seen_in run.id }

abbrev pub fresh : RuntimeSyncRun → AgentDelegationSnapshot → DelegationRow
fresh run d = record {
  runtime_connection_id = run.runtime_connection_id;
  delegate_key = delegate_key d;
  delegation = d;
  status = "active";
  seen = seen_in run.id;
}

unfoldable pub upsert_row :
    RuntimeSyncRun → AgentDelegationSnapshot → List DelegationRow → List DelegationRow
upsert_row run d rows =
    upsert (is_delegation run.runtime_connection_id d) (renewed run d) (fresh run d) rows

module _ (run : RuntimeSyncRun) (d : AgentDelegationSnapshot) (id o k : String) where
  unfoldable pub is_same : Bool
  is_same =
      run.runtime_connection_id == id && d.orchestrator_runtime_agent_id == o && delegate_key d == k

  abbrev pub renewed_state : State → State
  renewed_state none = none
  renewed_state (some _) = some ("active", seen_in run.id)

  same-names :
      is_same ≡ true
      → (run.runtime_connection_id ≡ id)
        × (d.orchestrator_runtime_agent_id ≡ o)
        × (delegate_key d ≡ k)
  unfolding is_same
  same-names h = (
    ground (arith, h, eq_iff run.runtime_connection_id id),
    ground (arith, h, eq_iff d.orchestrator_runtime_agent_id o),
    ground (arith, h, eq_iff (delegate_key d) k),
  )

  pub same-is_at :
      (r : DelegationRow)
      → is_same ≡ true
      → is_delegation run.runtime_connection_id d r ≡ is_at id o k r
  unfolding is_delegation is_at
  same-is_at r h = let (p, q, s) = same-names h in rw (← p, ← q, ← s) refl

  row-names :
      (r : DelegationRow)
      → is_delegation run.runtime_connection_id d r ≡ true
      → (r.runtime_connection_id ≡ run.runtime_connection_id)
        × (r.delegation.orchestrator_runtime_agent_id ≡ d.orchestrator_runtime_agent_id)
        × (r.delegate_key ≡ delegate_key d)
  unfolding is_delegation
  row-names r h = (
    ground (arith, h, eq_iff r.runtime_connection_id run.runtime_connection_id),
    ground (
      arith,
      h,
      eq_iff r.delegation.orchestrator_runtime_agent_id d.orchestrator_runtime_agent_id,
    ),
    ground (arith, h, eq_iff r.delegate_key (delegate_key d)),
  )

  other-is_at :
      (r : DelegationRow)
      → is_delegation run.runtime_connection_id d r ≡ true
      → is_at id o k r ≡ is_same
  unfolding is_at is_same
  other-is_at r h = let (p, q, s) = row-names r h in rw (p, q, s) refl

  renewed-is_at :
      (r : DelegationRow)
      → is_delegation run.runtime_connection_id d r ≡ true
      → is_at id o k (renewed run d r) ≡ is_same
  unfolding is_at is_same
  renewed-is_at r h = let (p, q, s) = row-names r h in rw (p, s) refl

  pub state_of-update :
      (rows : List DelegationRow)
      → state_of id o k
          (update_where (is_delegation run.runtime_connection_id d) (renewed run d) rows)
        ≡ (if is_same then renewed_state (state_of id o k rows) else state_of id o k rows)
  unfolding state_of update_where
  state_of-update [] = ground arith
  state_of-update (r ∷ rows) =
      let ih = state_of-update rows in
      let same = same-is_at r in
      let other = other-is_at r in
      let renews = renewed-is_at r in ground (arith, ih, same, other, renews)

pub state_of-advance :
    (env : Env) (ctx : Context) (run : RuntimeSyncRun) (threshold : ℕ) (id o k : String)
    (rows : List DelegationRow)
    → state_of id o k
        (update_where (is_own_delegation env ctx run) (advance_delegation threshold) rows)
      ≡ (if id == run.runtime_connection_id
          then later run threshold (state_of id o k rows)
          else state_of id o k rows)
unfolding state_of update_where is_own_delegation advance_delegation later is_at
state_of-advance env ctx run threshold id o k [] = ground arith
state_of-advance env ctx run threshold id o k (r ∷ rows) =
    let ih = state_of-advance env ctx run threshold id o k rows in
    let a = eq_iff r.runtime_connection_id id in
    let b = eq_iff r.runtime_connection_id run.runtime_connection_id in
    let c = eq_iff id run.runtime_connection_id in ground (arith, ih, a, b, c)
