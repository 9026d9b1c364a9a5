-- ===== src/Sync/Trail.antt =====
-- Only a snapshot that validation lets through reaches the database.
use capcom.Prelude.{String, [], ◌∷◌, arith}
use capcom.Errors.{Error, Result}
use capcom.Domain.Runtime.{RuntimeConnection}
use capcom.Domain.Snapshot.{RuntimeSnapshot, RuntimeSyncRun}
use capcom.Control.World.{SyncRuntimeInput}
use capcom.Sync.Validated.{IsConsistent, validate_runtime_snapshot-IsConsistent}
use capcom.Sync.Service.{
  persisted, World, Env, audit_sync, fail_sync, persist_sync, locked_sync, with_lock, admitted_sync,
  sync,
}

-- Every snapshot that was handed to `PersistSnapshot` is consistent.
abbrev pub IsClean : World → Type 0
IsClean [] = Unit
IsClean (persisted _ s _ ∷ w) = IsConsistent s × IsClean w
IsClean (_ ∷ w) = IsClean w

module _ (env : Env) where
  fail_sync-IsClean :
      (input : SyncRuntimeInput) (run : RuntimeSyncRun) (code said : String) (cause back : Error)
      (w : World)
      → IsClean w
      → IsClean (fail_sync env input run code said cause back w).1
  unfolding fail_sync audit_sync
  fail_sync-IsClean input run code said cause back w h = ground arith

  persist_sync-IsClean :
      (input : SyncRuntimeInput) (run : RuntimeSyncRun) (s : RuntimeSnapshot) (w : World)
      → IsClean w
      → IsClean (persist_sync env input run s w).1
  unfolding persist_sync audit_sync
  persist_sync-IsClean input run s w h =
      grind (arith, fail_sync-IsClean, validate_runtime_snapshot-IsConsistent)

  locked_sync-IsClean :
      (input : SyncRuntimeInput) (conn : RuntimeConnection)
      (collect : World → RuntimeConnection → Result RuntimeSnapshot) (w : World)
      → IsClean w
      → IsClean (locked_sync env input conn collect w).1
  unfolding locked_sync
  locked_sync-IsClean input conn collect w h =
      grind (arith, fail_sync-IsClean, persist_sync-IsClean)

  with_lock-IsClean :
      (input : SyncRuntimeInput) (conn : RuntimeConnection)
      (collect : World → RuntimeConnection → Result RuntimeSnapshot) (w : World)
      → IsClean w
      → IsClean (with_lock env input conn collect w).1
  unfolding with_lock
  with_lock-IsClean input conn collect w h = grind (arith, locked_sync-IsClean)

  -- A sync keeps the log clean: every snapshot that it hands to `PersistSnapshot` is consistent.
  pub sync-IsClean :
      (input : SyncRuntimeInput) (w : World) → IsClean w → IsClean (sync env input w).1
  unfolding sync admitted_sync
  sync-IsClean input w h = grind (arith, with_lock-IsClean)
