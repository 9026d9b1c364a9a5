-- ===== src/Control/Rows/Performed.antt =====
-- The row that an admitted action leaves, for every end of it.
use capcom.Errors.{ok}
use capcom.Prelude.{arith, eq_iff, String, false, ◌==◌, ◌≡◌, refl, none, some, [], ◌∷◌, ap, ◌∙◌}
use capcom.Domain.Control.{ControlAction, succeeded}
use capcom.Control.World.{select_action, World, Env, RuntimeRow, ActionRow}
use capcom.Control.Repository.{
  Outcome, find_runtime, find_by_idempotency_key, find_key, matching, visible, row_action,
}
use capcom.Control.Exec.{Step, next, return, outcome, run}
use capcom.Control.Protocol.{Plan, perform}
use capcom.Control.Triple.{Post}
use capcom.Control.Rows.Stages.{IsReliable}
use capcom.Control.Rows.Settled.{IsSettled, unstored, stored}
use capcom.Control.Rows.Phases.{perform-Settles}

returned :
    (R : Outcome → World → Type 0) (s : Step Outcome) (w : World)
    → Post (λ _ _. ⊥) R s w
    → R (outcome s) w
returned R (next o) w h = absurd h
returned R (return o) w h = h

module _ (env : Env) (org : String) (p : Plan) (a : ControlAction) (w : World)
    (r : RuntimeRow) where
  perform-IsSettled :
      find_runtime org a.runtime_connection_id w.runtimes ≡ some r
      → IsSettled env org w.actions w.runtimes a.idempotency_key
          (λ _. ⊥)
          (run (perform env org p a) w).0
          (run (perform env org p a) w).1
  perform-IsSettled found =
      returned (IsSettled env org w.actions w.runtimes a.idempotency_key (λ _. ⊥))
        (perform env org p a w).0 (perform env org p a w).1
        ((perform-Settles env org w.actions w.runtimes a.idempotency_key (λ _. ⊥) p a).at w
          record { same = refl; same_runtimes = refl; keyed = refl; runtime = r; found = found })

  -- What an action that goes through leaves: one more row, with its id and key, marked as
  -- succeeded.
  pub record IsSucceeded (o : Outcome) (w' : World) : Type 0 where
    pub row : ActionRow
    pub top : w'.actions ≡ row ∷ w.actions
    pub same_id : row.id ≡ o.0.id
    pub keyed : row.idempotency_key ≡ a.idempotency_key
    pub status : row.status ≡ succeeded

  IsSettled-IsSucceeded :
      (o : Outcome) (w' : World)
      → IsSettled env org w.actions w.runtimes a.idempotency_key (λ _. ⊥) o w'
      → o.1 ≡ none
      → IsSucceeded o w'
  IsSettled-IsSucceeded o w' (unstored _ never) went = absurd (never went)
  IsSettled-IsSucceeded o w' (stored h) went = record {
    row = h.row;
    top = h.top;
    same_id = h.same_id;
    keyed = h.keyed;
    status = h.status.0 went;
  }

  -- An admitted action on a connection of the organization whose method returns no error leaves
  -- the table with one more row, which has the id that was returned, the action's key and the
  -- status succeeded.
  pub perform-IsSucceeded :
      find_runtime org a.runtime_connection_id w.runtimes ≡ some r
      → (run (perform env org p a) w).0.1 ≡ none
      → IsSucceeded (run (perform env org p a) w).0 (run (perform env org p a) w).1
  perform-IsSucceeded found went = IsSettled-IsSucceeded _ _ (perform-IsSettled found) went

  -- The stored action that a lookup of the key gives.
  pub record IsFound (o : Outcome) (w' : World) : Type 0 where
    pub existing : ControlAction
    pub looked_up : find_by_idempotency_key env org a.idempotency_key w' ≡ ok existing
    pub same_action : existing.id ≡ o.0.id
    pub done : existing.status ≡ succeeded

  find_by_idempotency_key-found :
      (key : String) (row : ActionRow) (w' : World)
      → env.fault w' (select_action key) ≡ none
      → find_key env org key w'.runtimes w'.actions ≡ some row
      → find_by_idempotency_key env org key w' ≡ ok (row_action row)
  unfolding find_by_idempotency_key
  find_by_idempotency_key-found key row w' reads picked = ground (arith, reads, picked)

  IsSettled-IsFound :
      (o : Outcome) (w' : World)
      → IsReliable env
      → ((one : ActionRow) → env.any_row (one ∷ []) ≡ some one)
      → (a.idempotency_key == "") ≡ false
      → matching env org a.idempotency_key w.runtimes w.actions ≡ []
      → IsSettled env org w.actions w.runtimes a.idempotency_key (λ _. ⊥) o w'
      → o.1 ≡ none
      → IsFound o w'
  unfolding find_key matching visible row_action
  IsSettled-IsFound o w' sound single given fresh (unstored _ never) went = absurd (never went)
  IsSettled-IsFound o w' sound single given fresh (stored h) went =
      let top = h.top in
      let conns = h.same_runtimes in
      let keyed = h.keyed in
      let found = h.found in
      let reads = sound w' (select_action a.idempotency_key) in
      let same = eq_iff h.row.idempotency_key a.idempotency_key in
      let matched : matching env org a.idempotency_key w'.runtimes w'.actions ≡ h.row ∷ [] =
        ground (arith, same) in
      let one = single h.row in
      let picked : find_key env org a.idempotency_key w'.runtimes w'.actions ≡ some h.row =
        ap env.any_row matched ∙ one in
      record {
        existing = row_action h.row;
        looked_up = find_by_idempotency_key-found a.idempotency_key h.row w' reads picked;
        same_action = h.same_id;
        done = h.status.0 went;
      }

  -- If the database never fails, and gives the row of a query that has one, then after an admitted
  -- action with a key that no row visible to the caller had, on a connection of the organization,
  -- that returned no error, a lookup of the key finds that action, as succeeded.
  pub perform-IsFound :
      IsReliable env
      → ((one : ActionRow) → env.any_row (one ∷ []) ≡ some one)
      → (a.idempotency_key == "") ≡ false
      → matching env org a.idempotency_key w.runtimes w.actions ≡ []
      → find_runtime org a.runtime_connection_id w.runtimes ≡ some r
      → (run (perform env org p a) w).0.1 ≡ none
      → IsFound (run (perform env org p a) w).0 (run (perform env org p a) w).1
  perform-IsFound sound single given fresh found went =
      IsSettled-IsFound _ _ sound single given fresh (perform-IsSettled found) went
