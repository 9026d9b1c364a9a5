-- ===== src/Control/Repository.antt =====
-- internal/store/control_repository.go over the table `control_actions`, and the lookups of
-- `runtime_connections` that it and the services make. The section's `org` is
-- `tenant.OrganizationID(ctx)`, empty for a platform administrator.
use capcom.Prelude.{String, Bool, true, false, ◌&&◌, ◌||◌, not, Option, none, some, List, [], ◌∷◌}
use capcom.Prelude.{◌==◌, if◌then◌else◌}
use capcom.Errors.{Error, sentinel, message, wrap, no_rows, unique_violation, Result, ok, err}
use capcom.Domain.Values.{Fields, text, end, put}
use capcom.Domain.Runtime.{Time, RuntimeConnection}
use capcom.Domain.Control.{ControlAction, succeeded, failed, rejected, ControlActionStatus}
use capcom.Control.World.{RuntimeRow, ActionRow, World, Env, created, updated}
use capcom.Control.World.{select_runtime, insert_action, select_action, update_action}

-- `$n='' OR organization_id=$n::uuid`
abbrev pub in_org : String → String → Bool
in_org org owner = org == "" || owner == org

-- The row of a runtime that the organization may see.
unfoldable pub find_runtime : String → String → List RuntimeRow → Option RuntimeRow
find_runtime org id [] = none
find_runtime org id (r ∷ rows) =
    if r.conn.id == id && in_org org r.conn.organization_id
    then some r
    else find_runtime org id rows

-- The unique index on (organization_id, idempotency_key), for keys that are not NULL, and the
-- primary key.
unfoldable pub clashes : ActionRow → List ActionRow → Bool
clashes row [] = false
clashes row (r ∷ rows) =
    r.id == row.id
    || (not (row.idempotency_key == "")
        && r.idempotency_key == row.idempotency_key
        && r.organization_id == row.organization_id)
    || clashes row rows

unfoldable pub find_action : String → List ActionRow → Option ActionRow
find_action id [] = none
find_action id (r ∷ rows) = if r.id == id then some r else find_action id rows

unfoldable pub set_action : ActionRow → List ActionRow → List ActionRow
set_action row [] = []
set_action row (r ∷ rows) = (if r.id == row.id then row else r) ∷ set_action row rows

abbrev pub new_row : String → ControlAction → ActionRow
new_row owner a = record {
  id = a.id;
  organization_id = owner;
  runtime_connection_id = a.runtime_connection_id;
  agent_id = a.agent_id;
  action_type = a.action_type;
  requested_by = a.actor;
  reason = a.reason;
  idempotency_key = a.idempotency_key;
  parameters = a.after;
  status = a.status;
  request = none;
  response = none;
  error = "";
  created_at = a.created_at;
  updated_at = a.updated_at;
  finished_at = none;
}

abbrev pub is_final : ControlActionStatus → Bool
is_final succeeded = true
is_final failed = true
is_final rejected = true
is_final _ = false

-- The columns that `Update` writes.
abbrev pub updated_row :
    Time → ControlAction → Option Fields → Option Fields → String → ActionRow → ActionRow
updated_row now a request response error row = record row {
  status = a.status;
  request = request;
  response = response;
  error = error;
  updated_at = now;
  finished_at = if is_final a.status then some now else none;
}

-- `EXISTS(SELECT 1 FROM runtime_connections …)`, which an administrator's query does not need.
unfoldable pub visible : String → String → List RuntimeRow → Bool
visible org id runtimes =
    org == "" || elim (find_runtime org id runtimes) [ some _ ↦ true | none ↦ false ]

-- `if action.Result == nil { action.Result = map[string]any{} }`
abbrev or_empty : Option Fields → Fields
or_empty none = end
or_empty (some m) = m

-- The action that `FindByIdempotencyKey` reads from a row. `Before` is no column, and the error
-- text goes into the result.
unfoldable pub row_action : ActionRow → ControlAction
row_action r = record {
  id = r.id;
  runtime_connection_id = r.runtime_connection_id;
  agent_id = r.agent_id;
  action_type = r.action_type;
  status = r.status;
  actor = r.requested_by;
  reason = r.reason;
  idempotency_key = r.idempotency_key;
  before = none;
  after = r.parameters;
  result = some (
      if r.error == ""
      then or_empty r.response
      else put "error" (text r.error) (or_empty r.response));
  created_at = r.created_at;
  updated_at = r.updated_at;
}

-- `(domain.ControlAction, error)`, where both parts count.
abbrev pub Outcome : Type 0
Outcome = ControlAction × Option Error

module _ (env : Env) (org : String) where
  -- The INSERT … SELECT: `agent_id` is a uuid column, which takes no empty text; no row of `runtime_connections` means that nothing is inserted.
  unfoldable pub insert_row : ControlAction → World → Outcome × World
  insert_row a w = elim (env.fault w (insert_action a)) [
    | some e ↦ ((a, some (wrap "create control action" e)), w)
    | none ↦
        if a.agent_id == ""
        then ((a, some (wrap "create control action" (message "invalid uuid"))), w)
        else elim (find_runtime org a.runtime_connection_id w.runtimes) [
          | none ↦ ((a, none), w)
          | some r ↦
              let row = new_row r.conn.organization_id a in
              if clashes row w.actions
              then ((a, some (wrap "create control action" (sentinel unique_violation))), w)
              else ((a, none), record w { actions = row ∷ w.actions; log = created row ∷ w.log })
        ]
  ]

  unfoldable pub create : ControlAction → World → Outcome × World
  unfolding insert_row
  create a w = elim (if a.id == "" then env.new_id w else ok a.id) [
    | err e ↦ ((a, some e), w)
    | ok id ↦ insert_row (record a { id = id; created_at = env.now w; updated_at = env.now w }) w
  ]

  unfoldable pub update :
      ControlAction → Option Fields → Option Fields → String → World → Outcome × World
  update a request response error w = elim (env.fault w (update_action a)) [
    | some e ↦ ((a, some (wrap "update control action" e)), w)
    | none ↦ elim (find_action a.id w.actions) [
      | none ↦ ((a, some (wrap "update control action" (sentinel no_rows))), w)
      | some old ↦
          let row = updated_row (env.now w) a request response error old in
          (
            (record a { updated_at = env.now w; result = response }, none),
            record w { actions = set_action row w.actions; log = updated row ∷ w.log },
          )
    ]
  ]

  -- An empty key is stored as NULL, which no parameter equals.
  unfoldable pub matching : String → List RuntimeRow → List ActionRow → List ActionRow
  unfolding visible
  matching key runtimes [] = []
  matching key runtimes (r ∷ rows) =
      let rest = matching key runtimes rows in
      if not (r.idempotency_key == "")
        && r.idempotency_key == key
        && visible org r.runtime_connection_id runtimes
      then r ∷ rest
      else rest

  -- In an organization a unique index leaves at most one row. A platform admin may see several, of
  -- which the statement takes one.
  unfoldable pub find_key : String → List RuntimeRow → List ActionRow → Option ActionRow
  unfolding matching
  find_key key runtimes rows = env.any_row (matching key runtimes rows)

  -- `sql.ErrNoRows` comes back as it is.
  unfoldable pub find_by_idempotency_key : String → World → Result ControlAction
  unfolding find_key
  find_by_idempotency_key key w = elim (env.fault w (select_action key)) [
    | some e ↦ err e
    | none ↦ elim (find_key key w.runtimes w.actions) [
      | none ↦ err (sentinel no_rows)
      | some row ↦ ok (row_action row)
    ]
  ]

  -- `Get` of internal/store/repositories.go.
  unfoldable pub get_runtime : String → World → Result RuntimeConnection
  get_runtime id w = elim (env.fault w (select_runtime id)) [
    | some e ↦ err (wrap "get runtime connection" e)
    | none ↦ elim (find_runtime org id w.runtimes) [
      | none ↦ err (wrap "get runtime connection" (sentinel no_rows))
      | some r ↦
          if r.archived then err (wrap "get runtime connection" (sentinel no_rows)) else ok r.conn
    ]
  ]
