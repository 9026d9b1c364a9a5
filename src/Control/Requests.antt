-- ===== src/Control/Requests.antt =====
-- The four control actions behind one entry, as the routes of internal/api/control_handlers.go
-- reach them, and a server that takes one request after another.
use capcom.Prelude.{String, Bool, List, [], ◌∷◌}
use capcom.Control.World.{World, Env}
use capcom.Control.Repository.{Outcome}
use capcom.Control.Exec.{Exec, run}
use capcom.Control.Access.{ReconcileAccessInput, reconcile_access}
use capcom.Control.Status.{SetAgentStatusInput, set_agent_status}
use capcom.Control.Delete.{DeleteAgentInput, delete_agent}
use capcom.Control.Cancel.{CancelExecutionInput, cancel_execution}

pub data Request : Type 0 where
  access : ReconcileAccessInput → Request
  status : SetAgentStatusInput → Request
  removal : DeleteAgentInput → Request
  cancellation : CancelExecutionInput → Request

abbrev pub is_dry : Request → Bool
is_dry (access input) = input.dry_run
is_dry (status input) = input.dry_run
is_dry (removal input) = input.dry_run
is_dry (cancellation input) = input.dry_run

module _ (env : Env) where
  abbrev pub method : String → Request → Exec Outcome
  method org (access input) = reconcile_access env org input
  method org (status input) = set_agent_status env org input
  method org (removal input) = delete_agent env org input
  method org (cancellation input) = cancel_execution env org input

  unfoldable pub handle : String → Request → World → Outcome × World
  handle org r = run (method org r)

  -- Requests of any organizations, in any order.
  unfoldable pub serve : List (String × Request) → World → World
  unfolding handle
  serve [] w = w
  serve ((org, r) ∷ rest) w = serve rest (handle org r w).1
