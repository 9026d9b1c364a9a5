-- ===== src/Effects.antt =====
-- Methods that return `(value, err)` and change a state: what an early return leaves behind, and a
-- transaction, which leaves nothing behind when it is rolled back.
use capcom.Prelude.{String, Bool, true, false, Option, none, some}
use capcom.Errors.{Error, wrap, Result, ok, err}

abbrev pub Effect {ℓ κ} : Type ℓ → Type κ → Type (ℓ ⊔ κ)
Effect W A = W → Result A × W

module _ {ℓ κ μ} {W : Type ℓ} {A : Type κ} {B : Type μ} where
  abbrev pub after : Result A → (A → W → Result B × W) → W → Result B × W
  after (ok a) f w = f a w
  after (err e) f w = (err e, w)

  infixl 10 ◌>>=◌
  abbrev pub ◌>>=◌ : (W → Result A × W) → (A → W → Result B × W) → W → Result B × W
  ◌>>=◌ m f w = after (m w).0 f (m w).1

infixl 10 ◌>>◌
abbrev pub ◌>>◌ {ℓ μ} :
    {W : Type ℓ} {B : Type μ} → (W → Result (Unit {0}) × W) → (W → Result B × W) → W → Result B × W
m >> n = m >>= λ _. n

abbrev pub passed : Option Error → Result (Unit {0})
passed none = ok tt
passed (some e) = err e

-- `if err != nil { return fmt.Errorf(t + ": %w", err) }`
abbrev pub failed : String → Option Error → Option Error
failed t none = none
failed t (some e) = some (wrap t e)

module _ {ℓ} {W : Type ℓ} where
  -- `if err := …; err != nil { return err }`
  abbrev pub try : (W → Option Error) → W → Result (Unit {0}) × W
  try f w = (passed (f w), w)

  -- `if !cond { return err }`
  abbrev pub require : Bool → Error → W → Result (Unit {0}) × W
  require true e w = (ok tt, w)
  require false e w = (err e, w)

  abbrev pub write : (W → W) → W → Result (Unit {0}) × W
  write f w = (ok tt, f w)

module _ {ℓ κ} {W : Type ℓ} {A : Type κ} where
  abbrev pub done : A → W → Result A × W
  done a w = (ok a, w)

  abbrev pub throw : Error → W → Result A × W
  throw e w = (err e, w)

  abbrev pub read : (W → Result A) → W → Result A × W
  read f w = (f w, w)

  abbrev pub rolled_back : W → Result A × W → Result A × W
  rolled_back w (ok a, w') = (ok a, w')
  rolled_back w (err e, _) = (err e, w)

  -- `tx, err := db.BeginTx(…)`, `defer tx.Rollback()`, the body and `tx.Commit()`
  unfoldable pub transaction : (W → Result A × W) → W → Result A × W
  transaction m w = rolled_back w (m w)

-- `if err != nil { return nil, fmt.Errorf(t + ": %w", err) }`
abbrev pub in_context {ℓ} : {A : Type ℓ} → String → Result A → Result A
in_context t (ok a) = ok a
in_context t (err e) = err (wrap t e)

module _ {ℓ κ} {W : Type ℓ} {A : Type κ} where
  -- `v, err := …` where the code goes on with the error
  abbrev pub attempt : (W → Result A × W) → W → Result (Result A) × W
  attempt m w = (ok (m w).0, (m w).1)

  abbrev pub wrapping : String → (W → Result A × W) → W → Result A × W
  wrapping t m w = (in_context t (m w).0, (m w).1)
