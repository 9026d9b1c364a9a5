-- ===== src/Control/Triple.antt =====
-- Pre- and postconditions of a method's body: `Q` of what a step passes on, `R` of an early return.
use capcom.Prelude.{Bool, true, false, Option, none, some, ◌≡◌, refl, if◌then◌else◌}
use capcom.Errors.{Error, Result, ok, err}
use capcom.Domain.Control.{ControlAction, no_action}
use capcom.Control.World.{World}
use capcom.Control.Repository.{Outcome}
use capcom.Control.Exec.{
  Step, next, return, Exec, continue, ◌>>=◌, finish, require, read, unless_found, unless_failed,
  or_return, returning, ignoring, both,
}

abbrev pub Post {ℓ} :
    {A : Type ℓ} → (A → World → Type 0) → (Outcome → World → Type 0) → Step A → World → Type 0
Post Q R (next a) w = Q a w
Post Q R (return o) w = R o w

pub record Triple {ℓ} {A : Type ℓ} (P : World → Type 0) (m : World → Step A × World)
    (Q : A → World → Type 0) (R : Outcome → World → Type 0) : Type ℓ where
  pub at : (w : World) → P w → Post Q R (m w).0 (m w).1

module _ {ℓ κ} {A : Type ℓ} {B : Type κ} {R : Outcome → World → Type 0} where
  bind-Post :
      {Q : A → World → Type 0} {S : B → World → Type 0} (f : A → World → Step B × World)
      → ((a : A) → Triple (Q a) (f a) S R)
      → (s : Step A) (w : World) → Post Q R s w
      → Post S R (continue s f w).0 (continue s f w).1
  bind-Post f k (next a) w h = (k a).at w h
  bind-Post f k (return o) w h = h

  pub Triple-bind :
      {P : World → Type 0} {Q : A → World → Type 0} {S : B → World → Type 0}
      {m : World → Step A × World} {f : A → World → Step B × World}
      → Triple P m Q R
      → ((a : A) → Triple (Q a) (f a) S R)
      → Triple P (m >>= f) S R
  Triple-bind {m} {f} t k = record { at = λ w h. bind-Post f k (m w).0 (m w).1 (t.at w h) }

module _ {P : World → Type 0} {R : Outcome → World → Type 0} where
  pub Triple-finish :
      {Q : Outcome → World → Type 0} (o : Outcome)
      → ((w : World) → P w → R o w)
      → Triple P (finish o) Q R
  Triple-finish o k = record { at = k }

  pub Triple-require :
      (b : Bool) (e : Error)
      → ((w : World) → P w → R (no_action, some e) w)
      → Triple P (require b e) (λ _. P) R
  Triple-require true e k = record { at = λ w h. h }
  Triple-require false e k = record { at = k }

  pub Triple-if {ℓ} :
      {A : Type ℓ} {Q : A → World → Type 0} (b : Bool) (m n : World → Step A × World)
      → Triple P m Q R
      → Triple P n Q R
      → Triple P (if b then m else n) Q R
  Triple-if true m n t u = t
  Triple-if false m n t u = u

  pub Triple-unless_found {ℓ} :
      {A : Type ℓ} {Q : Outcome → World → Type 0} (o : Option A) {m : Exec Outcome}
      {f : A → Exec Outcome}
      → Triple P m Q R
      → ((a : A) → Triple P (f a) Q R)
      → Triple P (unless_found o m f) Q R
  Triple-unless_found none t k = t
  Triple-unless_found (some a) t k = k a

  pub Triple-unless_failed {ℓ} :
      {A : Type ℓ} {Q : Outcome → World → Type 0} {m : Error → Exec Outcome} {f : A → Exec Outcome}
      (r : Result A)
      → ((e : Error) → Triple P (m e) Q R)
      → ((a : A) → Triple P (f a) Q R)
      → Triple P (unless_failed m f r) Q R
  Triple-unless_failed (ok a) t k = k a
  Triple-unless_failed (err e) t k = t e

module _ {A : Type 0} where
  read-Post :
      (Q : A → World → Type 0) (R : Outcome → World → Type 0) (r : Result A) (w : World)
      → ((e : Error) → R (no_action, some e) w)
      → ((a : A) → r ≡ ok a → Q a w)
      → Post Q R (read (λ _. r) w).0 w
  read-Post Q R (ok a) w k q = q a refl
  read-Post Q R (err x) w k q = k x

  pub Triple-read :
      {P : World → Type 0} {Q : A → World → Type 0} {R : Outcome → World → Type 0}
      (f : World → Result A)
      → ((e : Error) (w : World) → P w → R (no_action, some e) w)
      → ((a : A) (w : World) → P w → f w ≡ ok a → Q a w)
      → Triple P (read f) Q R
  Triple-read {Q} {R} f k q = record {
    at = λ w h. read-Post Q R (f w) w (λ e. k e w h) (λ a. q a w h);
  }

-- The calls of the repository, by what holds of `(f w)`, the outcome and the world of the call.
module _ (Q : ControlAction → World → Type 0) (R : Outcome → World → Type 0) where
  checked-Post :
      (o : Outcome) (w : World)
      → (o.1 ≡ none → Q o.0 w)
      → ((e : Error) → o.1 ≡ some e → R o w)
      → Post Q R (or_return (λ _. (o, w)) w).0 w
  checked-Post (a, none) w q r = q refl
  checked-Post (a, some e) w q r = r e refl

  other-Post :
      (back : Error → Outcome) (o : Outcome) (w : World)
      → (o.1 ≡ none → Q o.0 w)
      → ((e : Error) → o.1 ≡ some e → R (back e) w)
      → Post Q R (returning back (λ _. (o, w)) w).0 w
  other-Post back (a, none) w q r = q refl
  other-Post back (a, some e) w q r = r e refl

module _ {P : World → Type 0} {Q : ControlAction → World → Type 0} {R : Outcome → World → Type 0}
    (f : World → Outcome × World) where
  pub Triple-or_return :
      ((w : World) → P w → (f w).0.1 ≡ none → Q (f w).0.0 (f w).1)
      → ((w : World) (e : Error) → P w → (f w).0.1 ≡ some e → R (f w).0 (f w).1)
      → Triple P (or_return f) Q R
  Triple-or_return q r = record {
    at = λ w h. checked-Post Q R (f w).0 (f w).1 (q w h) (λ e. r w e h);
  }

  pub Triple-returning :
      (back : Error → Outcome)
      → ((w : World) → P w → (f w).0.1 ≡ none → Q (f w).0.0 (f w).1)
      → ((w : World) (e : Error) → P w → (f w).0.1 ≡ some e → R (back e) (f w).1)
      → Triple P (returning back f) Q R
  Triple-returning back q r = record {
    at = λ w h. other-Post Q R back (f w).0 (f w).1 (q w h) (λ e. r w e h);
  }

  pub Triple-ignoring : ((w : World) → P w → Q (f w).0.0 (f w).1) → Triple P (ignoring f) Q R
  Triple-ignoring q = record { at = q }

pub Triple-both :
    {P : World → Type 0} {Q : Outcome → World → Type 0} {R : Outcome → World → Type 0}
    (f : World → Outcome × World)
    → ((w : World) → P w → Q (f w).0 (f w).1)
    → Triple P (both f) Q R
Triple-both f q = record { at = q }
