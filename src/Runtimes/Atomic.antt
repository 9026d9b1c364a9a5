-- ===== src/Runtimes/Atomic.antt =====
-- The transactions of RuntimeConnectionRepository in internal/store/repositories.go.
use capcom.Prelude.{◌≡◌, ◌⊎◌}
use capcom.Errors.{Result, ok}
use capcom.Runtimes.Table.{World}

-- It returned no error, or it changed nothing.
abbrev pub IsAtomic {ℓ} : {A : Type ℓ} → World → Result A × World → Type ℓ
IsAtomic {A = A} w (r, w') = ((a : A) × (r ≡ ok a)) ⊎ (w' ≡ w)
