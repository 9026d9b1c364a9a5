-- ===== src/Control/Rows/Stages.antt =====
-- How far an action has come, told by the table: before its row is created, and after.
use capcom.Prelude.{String, ◌≡◌, refl, Option, none, some}
use capcom.Prelude.{List, ◌∷◌, arith}
use capcom.Errors.{Error}
use capcom.Domain.Values.{Fields}
use capcom.Domain.Control.{ControlAction, ControlActionStatus}
use capcom.Control.World.{World, Env, Statement, RuntimeRow, ActionRow, update_action}
use capcom.Control.Repository.{create, update, find_runtime, find_action, new_row, updated_row}
use capcom.Control.Rows.Table.{find_action-clashes, find_action_head, set_action_head}

-- A database that never fails a statement.
abbrev pub IsReliable : Env → Type 0
IsReliable env = (w : World) (s : Statement) → env.fault w s ≡ none

-- The start: the tables `actions` and `runtimes`, as the request found them.
module _ (env : Env) (org : String) (actions : List ActionRow) (runtimes : List RuntimeRow)
    (key : String) where
  -- The tables are as they were.
  pub record IsFresh (rows : List ActionRow) (conns : List RuntimeRow) : Type 0 where
    pub same : rows ≡ actions
    pub same_runtimes : conns ≡ runtimes

  -- The action is not yet stored, and its connection is there.
  pub record IsReady (a : ControlAction) (rows : List ActionRow) (conns : List RuntimeRow)
      : Type 0 where
    pub same : rows ≡ actions
    pub same_runtimes : conns ≡ runtimes
    pub keyed : a.idempotency_key ≡ key
    pub runtime : RuntimeRow
    pub found : find_runtime org a.runtime_connection_id runtimes ≡ some runtime

  -- The action with this id is the row on top; `S` tells its status.
  pub record IsStored (S : ControlActionStatus → Type 0) (id : String) (rows : List ActionRow)
      (conns : List RuntimeRow) : Type 0 where
    pub row : ActionRow
    pub top : rows ≡ row ∷ actions
    pub same_runtimes : conns ≡ runtimes
    pub same_id : row.id ≡ id
    pub fresh : find_action row.id actions ≡ none
    pub keyed : row.idempotency_key ≡ key
    pub runtime : RuntimeRow
    pub found : find_runtime org row.runtime_connection_id runtimes ≡ some runtime
    pub status : S row.status

  pub create_stores :
      (a : ControlAction) (w : World) (h : IsReady a w.actions w.runtimes)
      → let (o, w') = create env org a w in
        o.1 ≡ none → IsStored (λ s. s ≡ a.status) o.0.id w'.actions w'.runtimes
  unfolding create
  create_stores a w h went = record {
    row = new_row h.runtime.conn.organization_id (create env org a w).0.0;
    top = ground arith;
    same_runtimes = ground arith;
    same_id = refl;
    fresh = ground (
      arith,
      find_action-clashes (new_row h.runtime.conn.organization_id (create env org a w).0.0)
          w.actions,
    );
    keyed = ground arith;
    runtime = h.runtime;
    found = ground arith;
    status = ground arith;
  }

  pub create_fails :
      (a : ControlAction) (w : World) (e : Error)
      → IsReady a w.actions w.runtimes
      → let (o, w') = create env org a w in o.1 ≡ some e → IsFresh w'.actions w'.runtimes
  unfolding create
  create_fails a w e h failed = ground arith

  -- `Update` writes the status of `a` into the row, or leaves everything as it was.
  pub update_stores :
      {S : ControlActionStatus → Type 0} (a : ControlAction) (request response : Option Fields)
      (text : String) (w : World) (h : IsStored S a.id w.actions w.runtimes)
      → let (o, w') = update env org a request response text w in
        o.1 ≡ none → IsStored (λ s. s ≡ a.status) o.0.id w'.actions w'.runtimes
  unfolding update
  update_stores a request response text w h went = record {
    row = updated_row (env.now w) a request response text h.row;
    top = ground (
      arith,
      find_action_head h.row actions,
      set_action_head h.row (updated_row (env.now w) a request response text h.row) actions refl
          h.fresh,
    );
    same_runtimes = ground arith;
    same_id = ground arith;
    fresh = h.fresh;
    keyed = h.keyed;
    runtime = h.runtime;
    found = h.found;
    status = refl;
  }

  pub update_fails :
      {S : ControlActionStatus → Type 0} (a : ControlAction) (request response : Option Fields)
      (text : String) (w : World) (e : Error) (h : IsStored S a.id w.actions w.runtimes)
      → let (o, w') = update env org a request response text w in
        o.1 ≡ some e → IsStored S o.0.id w'.actions w'.runtimes
  unfolding update
  update_fails a request response text w e h failed = record {
    row = h.row;
    top = ground arith;
    same_runtimes = ground arith;
    same_id = ground arith;
    fresh = h.fresh;
    keyed = h.keyed;
    runtime = h.runtime;
    found = h.found;
    status = h.status;
  }

  pub update_reliable :
      {S : ControlActionStatus → Type 0} (a : ControlAction) (request response : Option Fields)
      (text : String) (w : World)
      → IsReliable env
      → IsStored S a.id w.actions w.runtimes
      → (update env org a request response text w).0.1 ≡ none
  unfolding update
  update_reliable a request response text w sound h =
      ground (arith, sound w (update_action a), find_action_head h.row actions)

  pub IsStored-map :
      {S T : ControlActionStatus → Type 0} {id : String} {rows : List ActionRow}
      {conns : List RuntimeRow}
      → ((s : ControlActionStatus) → S s → T s)
      → IsStored S id rows conns
      → IsStored T id rows conns
  IsStored-map f h = record {
    row = h.row;
    top = h.top;
    same_runtimes = h.same_runtimes;
    same_id = h.same_id;
    fresh = h.fresh;
    keyed = h.keyed;
    runtime = h.runtime;
    found = h.found;
    status = f h.row.status h.status;
  }
