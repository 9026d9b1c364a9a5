-- ===== src/Control/Exec.antt =====
-- The body of a method that returns `(domain.ControlAction, error)`: a chain of effects, of which
-- each may return early. What was written before an early return stays written.
use capcom.Prelude.{Bool, true, false, Option, none, some, ◌∷◌}
use capcom.Errors.{Error, Result, ok, err}
use capcom.Domain.Control.{ControlAction, no_action}
use capcom.Control.World.{World, Event}
use capcom.Control.Repository.{Outcome}

pub data Step {ℓ} (A : Type ℓ) : Type ℓ where
  next : A → Step A
  return : Outcome → Step A

abbrev pub Exec {ℓ} : Type ℓ → Type ℓ
Exec A = World → Step A × World

module _ {ℓ κ} {A : Type ℓ} {B : Type κ} where
  abbrev pub continue : Step A → (A → World → Step B × World) → World → Step B × World
  continue (next a) f w = f a w
  continue (return o) f w = (return o, w)

  infixl 10 ◌>>=◌
  abbrev pub ◌>>=◌ :
      (World → Step A × World) → (A → World → Step B × World) → World → Step B × World
  ◌>>=◌ m f w = continue (m w).0 f (m w).1

infixl 10 ◌>>◌
abbrev pub ◌>>◌ {κ} :
    {B : Type κ} → Exec (Unit {0}) → (World → Step B × World) → World → Step B × World
m >> n = m >>= λ _. n

-- A method's body ends in `return action, err`.
abbrev pub finish : Outcome → Exec Outcome
finish o w = (return o, w)

-- What the caller of the method gets.
abbrev pub outcome : Step Outcome → Outcome
outcome (next o) = o
outcome (return o) = o

abbrev pub run : Exec Outcome → World → Outcome × World
run m w = (outcome (m w).0, (m w).1)

-- `if !cond { return domain.ControlAction{}, err }`
abbrev pub require : Bool → Error → Exec (Unit {0})
require true e w = (next tt, w)
require false e w = (return (no_action, some e), w)

-- `x, err := f(…); if err != nil { return domain.ControlAction{}, err }`
abbrev read_step {ℓ} : {A : Type ℓ} → Result A → Step A
read_step (ok a) = next a
read_step (err e) = return (no_action, some e)

abbrev pub read {ℓ} : {A : Type ℓ} → (World → Result A) → Exec A
read f w = (read_step (f w), w)

-- `action, err = f(…); if err != nil { return action, err }`
abbrev checked_step : Outcome → Step ControlAction
checked_step (a, none) = next a
checked_step (a, some e) = return (a, some e)

abbrev pub or_return : (World → Outcome × World) → Exec ControlAction
or_return f w = (checked_step (f w).0, (f w).1)

-- `created, err := f(…); if err != nil { return … }`, where what goes back is another action.
abbrev other_step : (Error → Outcome) → Outcome → Step ControlAction
other_step back (a, none) = next a
other_step back (a, some e) = return (back e)

abbrev pub returning : (Error → Outcome) → (World → Outcome × World) → Exec ControlAction
returning back f w = (other_step back (f w).0, (f w).1)

-- `action, _ = f(…)`
abbrev pub ignoring : (World → Outcome × World) → Exec ControlAction
ignoring f w = (next (f w).0.0, (f w).1)

-- `action, err = f(…)`
abbrev pub both : (World → Outcome × World) → Exec Outcome
both f w = (next (f w).0, (f w).1)

-- `adapter, ok := s.adapters[kind]; if !ok { … }`
abbrev pub unless_found {ℓ} :
    {A : Type ℓ} → Option A → Exec Outcome → (A → Exec Outcome) → Exec Outcome
unless_found none missing go = missing
unless_found (some a) missing go = go a

-- `if err != nil { … }`, where the branch is a method's own.
abbrev pub unless_failed {ℓ} :
    {A : Type ℓ} → (Error → Exec Outcome) → (A → Exec Outcome) → Result A → Exec Outcome
unless_failed failed go (ok a) = go a
unless_failed failed go (err e) = failed e

-- An effect outside the tables: it is logged, and its answer may depend on what came before it.
abbrev pub effect {ℓ} : {A : Type ℓ} → Event → (World → A) → Exec A
effect e f w = (next (f w), record w { log = e ∷ w.log })
