-- ===== src/Sync/Lock.antt =====
-- What a sync leaves behind: its lock, counted in the log.
use capcom.Prelude.{ℕ, suc, ◌+◌, String, ◌≡◌, [], ◌∷◌, ◌==◌, if◌then◌else◌, arith}
use capcom.Errors.{Result}
use capcom.Domain.Runtime.{RuntimeConnection}
use capcom.Domain.Snapshot.{RuntimeSnapshot}
use capcom.Control.World.{SyncRuntimeInput}
use capcom.Sync.Service.{
  locked, released, World, Env, audit_sync, fail_sync, persist_sync, locked_sync, with_lock,
  admitted_sync, sync,
}

-- How often the lock of `id` was taken, and how often it was given back.
unfoldable pub locks : String → World → ℕ
locks id [] = 0
locks id (locked j ∷ w) = let n = locks id w in if j == id then suc n else n
locks id (_ ∷ w) = locks id w

unfoldable pub releases : String → World → ℕ
releases id [] = 0
releases id (released j ∷ w) = let n = releases id w in if j == id then suc n else n
releases id (_ ∷ w) = releases id w

-- How the counters move in the body of a sync, between the lock and its release.
record IsBody (w w' : World) : Type 0 where
  lock : (id : String) → locks id w' ≡ locks id w
  release : (id : String) → releases id w' ≡ releases id w

module _ (env : Env) where
  locked_sync-IsBody :
      (input : SyncRuntimeInput) (conn : RuntimeConnection)
      (collect : World → RuntimeConnection → Result RuntimeSnapshot) (w : World)
      → IsBody w (locked_sync env input conn collect w).1
  unfolding locked_sync persist_sync fail_sync audit_sync locks releases
  locked_sync-IsBody input conn collect w = record {
    lock = λ id. ground arith;
    release = λ id. ground arith;
  }

  with_lock-releases :
      (input : SyncRuntimeInput) (conn : RuntimeConnection)
      (collect : World → RuntimeConnection → Result RuntimeSnapshot) (w : World) (id : String)
      → let w' = (with_lock env input conn collect w).1 in
        locks id w' + releases id w ≡ locks id w + releases id w'
  unfolding with_lock locks releases
  with_lock-releases input conn collect w id =
      let body = locked_sync-IsBody input conn collect (locked conn.id ∷ w) in
      let l = body.lock id in let r = body.release id in ground (arith, l, r)

  -- Whatever happens in it, a sync gives back each lock as often as it takes it.
  pub sync_releases :
      (input : SyncRuntimeInput) (w : World) (id : String)
      → let w' = (sync env input w).1 in locks id w' + releases id w ≡ locks id w + releases id w'
  unfolding sync admitted_sync locks releases
  sync_releases input w id = grind (arith, with_lock-releases)
