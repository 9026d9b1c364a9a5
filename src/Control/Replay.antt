-- ===== src/Control/Replay.antt =====
-- Requests with a key that is stored, in internal/services/control_actions.go.
use capcom.Prelude.{
  [], ◌∷◌, some, String, Bool, true, false, sym, ◌≡◌, ◌&&◌, ◌||◌, ◌==◌, none, arith,
}
use mathlib.Core.Path.{subst}
use capcom.Errors.{ok}
use capcom.Domain.Agents.{status_enabled, status_disabled}
use capcom.Domain.Control.{ControlAction, succeeded}
use capcom.Control.World.{World, Env, RuntimeRow, ActionRow}
use capcom.Control.Repository.{Outcome, matching, find_runtime, find_by_idempotency_key}
use capcom.Control.Exec.{run}
use capcom.Control.Protocol.{Plan, perform}
use capcom.Control.Rows.Stages.{IsReliable}
use capcom.Control.Rows.Performed.{perform-IsFound}
use capcom.Control.Audit.{all_given, replay}
use capcom.Control.Access.{items, all_identified, reconcile_access}
use capcom.Control.Status.{set_agent_status}
use capcom.Control.Delete.{delete_agent}
use capcom.Control.Cancel.{cancel_execution}
use capcom.Control.Requests.{Request, access, status, removal, cancellation, handle}

-- The key of a request, as it is looked up.
abbrev pub key_of : Request → String
key_of (access input) = input.idempotency_key
key_of (status input) = input.idempotency_key
key_of (removal input) = input.idempotency_key
key_of (cancellation input) = input.idempotency_key

-- A request with all that its method asks for before it looks for the key.
abbrev pub is_complete : Request → Bool
is_complete (access input) =
    all_given input.agent_id input.actor input.reason input.idempotency_key
    && all_identified (items input.access.selections)
is_complete (status input) =
    all_given input.agent_id input.actor input.reason input.idempotency_key
    && (input.status == status_enabled || input.status == status_disabled)
is_complete (removal input) =
    all_given input.agent_id input.actor input.reason input.idempotency_key
is_complete (cancellation input) =
    all_given input.execution_id input.actor input.reason input.idempotency_key

module _ (env : Env) (org : String) where
  -- A complete request whose key the table has, as it was sent, is answered with the stored action.
  handle-replay :
      (r : Request) (w : World) (a : ControlAction)
      → is_complete r ≡ true
      → find_by_idempotency_key env org (key_of r) w ≡ ok a
      → handle env org r w ≡ ((a, none), w)
  unfolding handle reconcile_access set_agent_status delete_agent cancel_execution replay
  handle-replay (access input) w a complete stored = ground arith
  handle-replay (status input) w a complete stored = ground arith
  handle-replay (removal input) w a complete stored = ground arith
  handle-replay (cancellation input) w a complete stored = ground arith

  -- A repeated request is answered with the action that it repeats, and does nothing.
  pub record IsRepeated (r : Request) (o : Outcome) (w : World) : Type 0 where
    pub existing : ControlAction
    pub answer : handle env org r w ≡ ((existing, none), w)
    pub same_action : existing.id ≡ o.0.id
    pub done : existing.status ≡ succeeded

  -- If the database never fails, and gives the row of a query that has one, then after an admitted
  -- action with a key that no row visible to the caller had, on a connection of the organization,
  -- that returned no error, every complete request with that key, as it was stored, is answered
  -- with that action, as succeeded, and no error, and leaves the tables and the log as they are: no
  -- second row, no audit event and no call of the runtime.
  pub perform-IsRepeated :
      (p : Plan) (a : ControlAction) (w : World) (row : RuntimeRow) (r : Request)
      → IsReliable env
      → ((one : ActionRow) → env.any_row (one ∷ []) ≡ some one)
      → (a.idempotency_key == "") ≡ false
      → matching env org a.idempotency_key w.runtimes w.actions ≡ []
      → find_runtime org a.runtime_connection_id w.runtimes ≡ some row
      → (run (perform env org p a) w).0.1 ≡ none
      → is_complete r ≡ true
      → key_of r ≡ a.idempotency_key
      → IsRepeated r (run (perform env org p a) w).0 (run (perform env org p a) w).1
  perform-IsRepeated p a w row r sound single given fresh found went complete key =
      let w' = (run (perform env org p a) w).1 in
      let first = perform-IsFound env org p a w row sound single given fresh found went in
      record {
        existing = first.existing;
        answer = handle-replay r w' first.existing complete (
            subst (λ k. find_by_idempotency_key env org k w' ≡ ok first.existing) (sym key)
              first.looked_up);
        same_action = first.same_action;
        done = first.done;
      }
