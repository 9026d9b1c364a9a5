-- ===== src/Workers/Reached.antt =====
-- What holds of the synchronization worker in every state that it reaches.
use capcom.Prelude.{ℕ, ◌≤◌, Bool, true, not, ◌&&◌, ◌==◌, ◌≡◌, refl, List, [], ◌∷◌, ◌++◌, arith}
use capcom.Prelude.Bytes.{length, length-append}
use capcom.Domain.Runtime.{Time, RuntimeConnection, status_disabled}
use capcom.Workers.Schedule.{
  concurrency, is_due, Worker, visit, Step, tick, turn, ended, Reachable, idle, then_step,
}

-- The connection is one that may be synchronized at all.
unfoldable pub is_enabled : RuntimeConnection → Bool
is_enabled c = c.sync_enabled && not (c.status == status_disabled) && not (c.auth_ref == "")

unfoldable pub all_enabled : List RuntimeConnection → Bool
all_enabled [] = true
all_enabled (c ∷ l) = is_enabled c && all_enabled l

pub record IsSound (max : ℕ) (w : Worker) : Type 0 where
  pub bounded : length w.running ≤ concurrency max
  pub enabled : all_enabled w.running ≡ true

is_due-enabled : (now : Time) (c : RuntimeConnection) → is_due now c ≡ true → is_enabled c ≡ true
unfolding is_due is_enabled
is_due-enabled now c h = ground (arith, h)

all_enabled-without :
    (before after : List RuntimeConnection) (c : RuntimeConnection)
    → all_enabled (before ++ (c ∷ after)) ≡ true
    → all_enabled (before ++ after) ≡ true
unfolding all_enabled
all_enabled-without [] after c h = ground (arith, h)
all_enabled-without (b ∷ before) after c h =
    let rest = all_enabled-without before after c in ground (arith, h, rest)

visit-IsSound :
    (max : ℕ) (now : Time) (c : RuntimeConnection) (rest : List RuntimeConnection) (w : Worker)
    → IsSound max w
    → IsSound max (visit max now c rest w)
unfolding visit length all_enabled
visit-IsSound max now c rest w h =
    let due = is_due-enabled now c in
    let bounded = h.bounded in
    let enabled = h.enabled in
    record { bounded = ground (arith, bounded); enabled = ground (arith, due, enabled) }

Step-IsSound : (max : ℕ) (v w : Worker) → Step max v w → IsSound max v → IsSound max w
unfolding length
Step-IsSound max v w (tick listed running) h = record { bounded = h.bounded; enabled = h.enabled }
Step-IsSound max v w (turn now c rest running) h = visit-IsSound max now c rest _ h
Step-IsSound max v w (ended todo before after c) h =
    let bounded = h.bounded in
    let with = length-append before (c ∷ after) in
    let without = length-append before after in
    record {
      bounded = ground (arith, bounded, with, without);
      enabled = all_enabled-without before after c h.enabled;
    }

-- In every state that the worker reaches, whatever the order in which goroutines end, at most as
-- many synchronizations run as it allows, and each is of a connection that is enabled, not
-- disabled, and has credentials.
pub Reachable-IsSound : (max : ℕ) (w : Worker) → Reachable max w → IsSound max w
unfolding length all_enabled
Reachable-IsSound max _ idle = record { bounded = ground arith; enabled = refl }
Reachable-IsSound max _ (then_step v w r s) = Step-IsSound max v w s (Reachable-IsSound max v r)
