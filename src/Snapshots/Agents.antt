-- ===== src/Snapshots/Agents.antt =====
-- `upsertSnapshotAgent`, `upsertSnapshotSkill` and `upsertActualAccess` of
-- internal/store/sync_repository.go.
use capcom.Prelude.{
  String, Bool, ◌&&◌, ◌||◌, ◌==◌, if◌then◌else◌, Option, none, some, List, [], ◌∷◌,
}
use capcom.Prelude.Rows.{update_where, upsert}
use capcom.Errors.{Result, ok, err, wrap}
use capcom.Effects.{Effect, ◌>>=◌, ◌>>◌, try, write, done, read}
use capcom.Tenant.{Context, organization_id}
use capcom.Domain.Agents.{AgentSnapshot, AgentSkillSnapshot, AccessDocument}
use capcom.Domain.Snapshot.{RuntimeSyncRun}
use capcom.Snapshots.Tables.{BindingRow, SkillRow, ConnectionRow, World, Env, seen_in}
use capcom.Snapshots.Upserts.{at}

unfoldable pub find_agent : String → String → List BindingRow → Option String
find_agent id agent [] = none
find_agent id agent (b ∷ l) =
    let rest = find_agent id agent l in
    if b.runtime_connection_id == id && b.runtime_agent_id == agent then some b.agent_id else rest

-- `SELECT organization_id FROM runtime_connections WHERE id=$5 AND ($6='' OR …)`
unfoldable pub organization_of : String → String → List ConnectionRow → Option String
organization_of org id [] = none
organization_of org id (c ∷ l) =
    let rest = organization_of org id l in
    if c.id == id && (org == "" || c.organization_id == org) then some c.organization_id else rest

unfoldable pub binding_seen : RuntimeSyncRun → AgentSnapshot → BindingRow → BindingRow
binding_seen run a b = record b {
  kind = a.kind;
  parent_runtime_agent_id = a.parent_runtime_agent_id;
  last_seen_at = a.observed_at;
  seen = seen_in run.id;
  raw = a.metadata;
}

module _ (env : Env) (ctx : Context) (run : RuntimeSyncRun) where
  -- `INSERT … SELECT` adds no row where the connection is not visible, and then the binding has no
  -- agent to refer to.
  abbrev insert_agent_row :
      String → AgentSnapshot → Option String → World → Result (Unit {0}) × World
  insert_agent_row id a none w = (err (wrap "insert snapshot binding" env.foreign_key), w)
  insert_agent_row id a (some org) w = (
    ok tt,
    record w {
      agents =
          record {
            id = id;
            organization_id = org;
            name = a.name;
            status = a.status;
            metadata = a.metadata;
          }
          ∷ w.agents;
    },
  )

  unfoldable pub insert_agent : AgentSnapshot → Effect World String
  insert_agent a = do
    id ← read env.new_id
    try (at env "insert snapshot agent" a.runtime_agent_id)
    (λ w.
        insert_agent_row id a
          (organization_of (organization_id ctx) run.runtime_connection_id w.connections) w)
    try (at env "insert snapshot binding" a.runtime_agent_id)
    write (λ w. record w {
      bindings =
          record {
            agent_id = id;
            runtime_connection_id = run.runtime_connection_id;
            runtime_agent_id = a.runtime_agent_id;
            kind = a.kind;
            parent_runtime_agent_id = a.parent_runtime_agent_id;
            last_seen_at = a.observed_at;
            seen = seen_in run.id;
            raw = a.metadata;
          }
          ∷ w.bindings;
    })
    done id

  unfoldable pub update_agent : String → AgentSnapshot → Effect World String
  update_agent id a = do
    try (at env "update snapshot agent" a.runtime_agent_id)
    write (λ w. record w {
      agents =
          update_where (λ r. r.id == id)
            (λ r. record r { name = a.name; status = a.status; metadata = a.metadata }) w.agents;
    })
    try (at env "update snapshot binding" a.runtime_agent_id)
    write (λ w. record w {
      bindings = update_where (λ b. b.agent_id == id) (binding_seen run a) w.bindings;
    })
    done id

  abbrev known_or_new : AgentSnapshot → Option String → World → Result String × World
  known_or_new a none = insert_agent a
  known_or_new a (some id) = update_agent id a

  unfoldable pub upsert_snapshot_agent : AgentSnapshot → Effect World String
  upsert_snapshot_agent a = do
    try (at env "find snapshot agent" a.runtime_agent_id)
    (λ w. known_or_new a (find_agent run.runtime_connection_id a.runtime_agent_id w.bindings) w)

  abbrev is_skill : AgentSkillSnapshot → SkillRow → Bool
  is_skill s r =
      r.runtime_connection_id == run.runtime_connection_id
      && r.skill.runtime_skill_id == s.runtime_skill_id

  unfoldable pub find_skill : AgentSkillSnapshot → List SkillRow → Option String
  find_skill s [] = none
  find_skill s (r ∷ l) = let rest = find_skill s l in if is_skill s r then some r.id else rest

  -- `RETURNING id`, of the row that is there or of a new one
  abbrev skill_id : AgentSkillSnapshot → World → Result String
  skill_id s w = elim (find_skill s w.skills) [ some id ↦ ok id | none ↦ env.new_id w ]

  unfoldable pub upsert_snapshot_skill : String → AgentSkillSnapshot → Effect World (Unit {0})
  upsert_snapshot_skill agent_id s = do
    try (at env "upsert runtime skill" s.runtime_skill_id)
    id ← read (skill_id s)
    write (λ w. record w {
      skills =
          upsert (is_skill s) (λ r. record r { skill = s; seen = seen_in run.id })
            (record {
              id = id;
              runtime_connection_id = run.runtime_connection_id;
              skill = s;
              seen = seen_in run.id;
            })
            w.skills;
    })
    try (at env "upsert agent skill binding" s.runtime_skill_id)
    write (λ w. record w {
      skill_bindings =
          upsert (λ r. r.agent_id == agent_id && r.runtime_skill_id == id)
            (λ r. record r {
              status = "active";
              observed_at = s.observed_at;
              seen = seen_in run.id;
            })
            (record {
              agent_id = agent_id;
              runtime_skill_id = id;
              status = "active";
              observed_at = s.observed_at;
              seen = seen_in run.id;
            })
            w.skill_bindings;
    })

  unfoldable pub upsert_actual_access : String → AccessDocument → Effect World (Unit {0})
  upsert_actual_access agent_id a = do
    try (at env "upsert actual access" agent_id)
    write (λ w. record w {
      access =
          upsert
            (λ r. r.agent_id == agent_id && r.runtime_connection_id == run.runtime_connection_id)
            (λ r. record r {
              runtime_status = "active";
              access = a;
              last_seen_run = run.id;
              freshness_status = "live";
            })
            (record {
              agent_id = agent_id;
              runtime_connection_id = run.runtime_connection_id;
              runtime_status = "active";
              access = a;
              last_seen_run = run.id;
              freshness_status = "live";
            })
            w.access;
    })
