-- ===== src/Control/Keeps.antt =====
-- Invariants of the effects, one rule for each way to build a method's body. A method keeps `P` if
-- `P` holds after it where it held before, whether it went through or returned early.
use capcom.Prelude.{Bool, true, false, Option, none, some, ◌∷◌, ◌≡◌, refl, if◌then◌else◌}
use capcom.Errors.{Error, Result, ok, err}
use capcom.Domain.Control.{ControlAction}
use capcom.Control.World.{World, Event}
use capcom.Control.Repository.{Outcome}
use capcom.Control.Exec.{
  Step, next, return, Exec, continue, ◌>>=◌, finish, require, read, or_return, returning, ignoring,
  both, effect, unless_found, unless_failed,
}

pub record Keeps {ℓ} {A : Type ℓ} (P : World → Type 0) (m : World → Step A × World) : Type ℓ where
  pub at : (w : World) → P w → P (m w).1

-- The same of a call of the repository.
pub record KeepsCall (P : World → Type 0) (f : World → Outcome × World) : Type 0 where
  pub at : (w : World) → P w → P (f w).1

module _ {P : World → Type 0} where
  pub Keeps-finish : (o : Outcome) → Keeps P (finish o)
  Keeps-finish o = record { at = λ w h. h }

  pub Keeps-require : (b : Bool) (e : Error) → Keeps P (require b e)
  Keeps-require true e = record { at = λ w h. h }
  Keeps-require false e = record { at = λ w h. h }

  pub Keeps-or_return : (f : World → Outcome × World) → KeepsCall P f → Keeps P (or_return f)
  Keeps-or_return f k = record { at = k.at }

  pub Keeps-returning :
      (back : Error → Outcome) (f : World → Outcome × World)
      → KeepsCall P f
      → Keeps P (returning back f)
  Keeps-returning back f k = record { at = k.at }

  pub Keeps-ignoring : (f : World → Outcome × World) → KeepsCall P f → Keeps P (ignoring f)
  Keeps-ignoring f k = record { at = k.at }

  pub Keeps-both : (f : World → Outcome × World) → KeepsCall P f → Keeps P (both f)
  Keeps-both f k = record { at = k.at }

module _ {ℓ} {A : Type ℓ} {P : World → Type 0} where
  pub Keeps-read : (f : World → Result A) → Keeps P (read f)
  Keeps-read f = record { at = λ w h. h }

  pub Keeps-if :
      (test : Bool) (taken other : World → Step A × World)
      → (test ≡ true → Keeps P taken)
      → (test ≡ false → Keeps P other)
      → Keeps P (if test then taken else other)
  Keeps-if true taken other keeps _ = keeps refl
  Keeps-if false taken other _ keeps = keeps refl

module _ {ℓ} {A : Type ℓ} {P : World → Type 0} where
  pub Keeps-effect :
      (e : Event) (f : World → A)
      → ((w : World) → P w → P (record w { log = e ∷ w.log }))
      → Keeps P (effect e f)
  Keeps-effect e f k = record { at = k }

  pub Keeps-unless_found :
      (o : Option A) (missing : Exec Outcome) (go : A → Exec Outcome)
      → Keeps P missing
      → ((a : A) → Keeps P (go a))
      → Keeps P (unless_found o missing go)
  Keeps-unless_found none missing go km kg = km
  Keeps-unless_found (some a) missing go km kg = kg a

  pub Keeps-unless_failed :
      (failed : Error → Exec Outcome) (go : A → Exec Outcome) (r : Result A)
      → ((e : Error) → Keeps P (failed e))
      → ((a : A) → Keeps P (go a))
      → Keeps P (unless_failed failed go r)
  Keeps-unless_failed failed go (ok a) kf kg = kg a
  Keeps-unless_failed failed go (err e) kf kg = kf e

module _ {ℓ κ} {A : Type ℓ} {B : Type κ} {P : World → Type 0} where
  Keeps-continue :
      (s : Step A) (f : A → World → Step B × World)
      → ((a : A) → Keeps P (f a))
      → Keeps P (continue s f)
  Keeps-continue (next a) f k = k a
  Keeps-continue (return o) f k = record { at = λ w h. h }

  pub Keeps-bind :
      (m : World → Step A × World) (f : A → World → Step B × World)
      → Keeps P m
      → ((a : A) → Keeps P (f a))
      → Keeps P (m >>= f)
  Keeps-bind m f km kf = record { at = λ w h. (Keeps-continue (m w).0 f kf).at (m w).1 (km.at w h) }

-- The rest of the body may use what holds after a call that went through.
module _ {ℓ} {B : Type ℓ} {P Q : World → Type 0} where
  Keeps-checked :
      (o : Outcome) (w : World) (k : ControlAction → World → Step B × World)
      → (o.1 ≡ none → Q w)
      → ((a : ControlAction) (v : World) → Q v → P v → P (k a v).1)
      → P w
      → P ((or_return (λ _. (o, w)) >>= k) w).1
  Keeps-checked (a, none) w k q keep h = keep a w (q refl) h
  Keeps-checked (a, some e) w k q keep h = h

  pub Keeps-or_return-bind :
      (f : World → Outcome × World) (k : ControlAction → World → Step B × World)
      → KeepsCall P f
      → ((w : World) → (f w).0.1 ≡ none → Q (f w).1)
      → ((a : ControlAction) (v : World) → Q v → P v → P (k a v).1)
      → Keeps P (or_return f >>= k)
  Keeps-or_return-bind f k kf q keep = record {
    at = λ w h. Keeps-checked (f w).0 (f w).1 k (q w) keep (kf.at w h);
  }

pub ruleset keeps_rules = (
  Keeps-finish, Keeps-require, Keeps-or_return, Keeps-returning, Keeps-ignoring, Keeps-both,
  Keeps-read, Keeps-if, Keeps-bind, Keeps-effect, Keeps-unless_found, Keeps-unless_failed,
)
