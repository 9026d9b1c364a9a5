-- ===== src/Workers/Schedule.antt =====
-- `RuntimeSyncWorker` of internal/workers/runtime_sync.go. Times are in nanoseconds. The goroutines
-- that synchronize run beside the loop: each turn of the loop, and each end of a goroutine, is a
-- step, and they come in any order. Logging, the timeout and the waiting at the end are left out.
use capcom.Prelude.{
  ℕ, ◌-◌, ◌*◌, Bool, false, not, ◌&&◌, ◌||◌, ◌==◌, ltb, nat_eq, if◌then◌else◌, Option, none, some,
  List, [], ◌∷◌, ◌++◌,
}
use capcom.Prelude.Bytes.{length}
use capcom.Domain.Runtime.{Time, RuntimeConnection, status_disabled}
use capcom.Domain.Snapshot.{trigger_scheduled}
use capcom.Control.World.{SyncRuntimeInput}

-- `maxConcurrency`, as `NewRuntimeSyncWorker` sets it
unfoldable pub concurrency : ℕ → ℕ
concurrency n = if nat_eq n 0 then 4 else n

unfoldable pub interval : RuntimeConnection → ℕ
interval conn =
    let n = if nat_eq conn.sync_interval_seconds 0 then 60 else conn.sync_interval_seconds in
    n * 1000000000

-- `now.Sub(*conn.LastSyncStartedAt) < interval`, also where the start is in the future
abbrev too_early : Time → ℕ → Option Time → Bool
too_early now i none = false
too_early now i (some t) = ltb now t || ltb (now - t) i

-- the loop does not `continue`
unfoldable pub is_due : Time → RuntimeConnection → Bool
is_due now conn =
    not (not conn.sync_enabled || conn.status == status_disabled || conn.auth_ref == "")
    && not (too_early now (interval conn) conn.last_sync_started_at)

-- The connections that the loop has yet to see, and those whose goroutine runs, which hold the
-- semaphore.
pub record Worker : Type 0 where
  pub todo : List RuntimeConnection
  pub running : List RuntimeConnection

unfoldable pub visit : ℕ → Time → RuntimeConnection → List RuntimeConnection → Worker → Worker
visit max now conn rest w =
    if not (is_due now conn)
    then record w { todo = rest }
    else if ltb (length w.running) (concurrency max)
    then record { todo = rest; running = conn ∷ w.running }
    else record w { todo = [] }

-- What the goroutine calls `Sync` with.
unfoldable pub scheduled_input : RuntimeConnection → SyncRuntimeInput
scheduled_input conn = record {
  runtime_connection_id = conn.id;
  trigger = trigger_scheduled;
  actor = "capcom-sync-worker";
  reason = "scheduled runtime synchronization";
}

-- A tick lists the connections when the loop is idle; a turn of the loop looks at one; a goroutine
-- that ends gives its place back.
pub data Step (max : ℕ) : Worker → Worker → Type 0 where
  tick :
      (listed running : List RuntimeConnection)
      → Step max
          (record { todo = []; running = running })
          (record { todo = listed; running = running })
  turn :
      (now : Time) (conn : RuntimeConnection) (rest running : List RuntimeConnection)
      → Step max
          (record { todo = conn ∷ rest; running = running })
          (visit max now conn rest (record { todo = conn ∷ rest; running = running }))
  ended :
      (todo before after : List RuntimeConnection) (conn : RuntimeConnection)
      → Step max
          (record { todo = todo; running = before ++ (conn ∷ after) })
          (record { todo = todo; running = before ++ after })

pub data Reachable (max : ℕ) : Worker → Type 0 where
  idle : Reachable max (record { todo = []; running = [] })
  then_step : (v w : Worker) → Reachable max v → Step max v w → Reachable max w
