-- ===== src/Runtimes/Removed.antt =====
-- What the removal of a runtime connection leaves.
use capcom.Prelude.{Option-cases, inl, inr, String, false, ◌≡◌, none, some, arith, eq_iff}
use capcom.Prelude.Text.{trim_space, blank}
use capcom.Errors.{ok}
use capcom.Tenant.{Context, organization_id}
use capcom.Domain.Runtime.{RuntimeConnection}
use capcom.Runtimes.Input.{RemoveRuntimeInstanceInput}
use capcom.Runtimes.Table.{World, Env, find_visible}
use capcom.Runtimes.Changes.{archive}
use capcom.Runtimes.Repository.{get}
use capcom.Runtimes.Service.{audited}
use capcom.Runtimes.Settings.{remove}
use capcom.Runtimes.Rows.{find_visible-archived}

archive-gone :
    (env : Env) (ctx : Context) (id actor reason : String) (w : World)
    → (archive env ctx id actor reason w).0 ≡ ok tt
    → find_visible (organization_id ctx) id (archive env ctx id actor reason w).1.runtimes ≡ none
unfolding archive
archive-gone env ctx id actor reason w e =
    let gone =
      find_visible-archived (organization_id ctx) id
        (record { by = actor; reason = reason; kind = "removed"; merged_into = none }) (env.now w)
        w.runtimes in
    ground (arith, gone, e)

-- What a removal that went through says: there was an active connection of the caller's, its
-- stable key was given, somebody did it for a reason, and it is not found any more.
pub record IsRemoved (ctx : Context) (input : RemoveRuntimeInstanceInput) (w w' : World)
    : Type 0 where
  pub conn : RuntimeConnection
  pub was : find_visible (organization_id ctx) (trim_space input.id) w.runtimes ≡ some conn
  pub confirmed : trim_space input.confirmation ≡ conn.name
  pub attributed : (blank input.actor ≡ false) × (blank input.reason ≡ false)
  pub gone : find_visible (organization_id ctx) (trim_space input.id) w'.runtimes ≡ none

remove-confirmed :
    (env : Env) (ctx : Context) (input : RemoveRuntimeInstanceInput) (w : World)
    → (remove env ctx input w).0 ≡ ok tt
    → (conn : RuntimeConnection) × (find_visible
          (organization_id ctx)
          (trim_space input.id)
          w.runtimes
        ≡ some conn)
      × (trim_space input.confirmation ≡ conn.name)
unfolding remove get audited
remove-confirmed env ctx input w e =
    elim (Option-cases (find_visible (organization_id ctx) (trim_space input.id) w.runtimes)) [
      | inl missing ↦ absurd (ground (arith, e, missing))
      | inr found ↦
          let (c, f) = found in
          (c, f, ground (arith, e, f, eq_iff (trim_space input.confirmation) c.name))
    ]

-- If the removal of a runtime connection succeeds, the caller could see an active connection with
-- the id, the confirmation was its name, the actor and the reason were not blank, and afterwards
-- no active connection with the id is visible to the caller.
pub remove-IsRemoved :
    (env : Env) (ctx : Context) (input : RemoveRuntimeInstanceInput) (w : World)
    → (remove env ctx input w).0 ≡ ok tt
    → IsRemoved ctx input w (remove env ctx input w).1
unfolding remove get audited
remove-IsRemoved env ctx input w e =
    let gone =
      archive-gone env ctx (trim_space input.id) (trim_space input.actor) (trim_space input.reason)
        w in
    let (conn, was, confirmed) = remove-confirmed env ctx input w e in
    record {
      conn = conn;
      was = was;
      confirmed = confirmed;
      attributed = ground (arith, e);
      gone = ground (arith, gone, e);
    }
