-- ===== src/Control/Guarded.antt =====
-- No runtime is called unless its connection is in control mode and the action is stored as
-- running; a dry run calls none.
use capcom.Prelude.{ℕ, suc, Bool, true, ◌≡◌, refl, sym, ◌∙◌, List, [], ◌∷◌, String, arith}
use capcom.Prelude.{false≢true}
use capcom.Domain.Runtime.{mode_control_enabled}
use capcom.Control.World.{World, Env, Event, called}
use capcom.Control.Repository.{create, update}
use capcom.Control.Audit.{write_audit}
use capcom.Control.Requests.{Request, handle, serve, is_dry}
use capcom.Control.Invariant.{Primitives, IsAnnounced, IsQuiet, method-Keeps}

abbrev pub IsGuarded : List Event → Type 0
IsGuarded [] = Unit
IsGuarded (called conn call ∷ rest) =
    (conn.mode ≡ mode_control_enabled) × IsAnnounced rest × IsGuarded rest
IsGuarded (_ ∷ rest) = IsGuarded rest

abbrev Guarded : World → Type 0
Guarded w = IsGuarded w.log

quiet-IsGuarded : (e : Event) → IsQuiet e → (log : List Event) → IsGuarded log → IsGuarded (e ∷ log)
quiet-IsGuarded (called conn call) q log h = absurd q
quiet-IsGuarded _ q log h = h

module _ (env : Env) (org : String) where
  guarded : (dry : Bool) → Primitives env org dry Guarded
  unfolding create update write_audit
  guarded dry = record {
    on_create = λ a. record { at = λ w h. ground arith };
    on_update = λ a request response error. record { at = λ w h. ground arith };
    on_audit = λ event. record { at = λ w h. ground arith };
    on_quiet = λ e q w h. quiet-IsGuarded e q w.log h;
    on_call = λ conn call w live mode said h. (mode, said, h);
  }

  handle-IsGuarded :
      (r : Request) (w : World) → IsGuarded w.log → IsGuarded (handle env org r w).1.log
  unfolding handle
  handle-IsGuarded r = (method-Keeps env org (is_dry r) (guarded (is_dry r)) r refl).at

-- Whatever requests arrive, of whatever organizations, and however the database and the runtimes
-- answer: in the log of effects, every call that changes a runtime goes to a connection in control
-- mode, and the effect just before it has stored a control action as running, if this was so of
-- the log at the start.
pub serve-IsGuarded :
    (env : Env) (requests : List (String × Request)) (w : World)
    → IsGuarded w.log
    → IsGuarded (serve env requests w).log
unfolding serve
serve-IsGuarded env [] w h = h
serve-IsGuarded env ((org, r) ∷ rest) w h =
    serve-IsGuarded env rest (handle env org r w).1 (handle-IsGuarded env org r w h)

-- How many of the effects changed a runtime.
abbrev pub calls : List Event → ℕ
calls [] = 0
calls (called conn call ∷ rest) = suc (calls rest)
calls (_ ∷ rest) = calls rest

calls-quiet : (e : Event) → IsQuiet e → (log : List Event) → calls (e ∷ log) ≡ calls log
calls-quiet (called conn call) q log = absurd q
calls-quiet _ q log = refl

module _ (env : Env) (org : String) where
  uncalled : (n : ℕ) → Primitives env org true (λ w. calls w.log ≡ n)
  unfolding create update write_audit
  uncalled n = record {
    on_create = λ a. record { at = λ w h. ground arith };
    on_update = λ a request response error. record { at = λ w h. ground arith };
    on_audit = λ event. record { at = λ w h. ground arith };
    on_quiet = λ e q w h. calls-quiet e q w.log ∙ h;
    on_call = λ conn call w live mode said h. absurd (false≢true (sym live));
  }

  -- A dry run makes no call that changes a runtime, whatever its outcome.
  pub calls-handle_dry :
      (r : Request) (w : World) → is_dry r ≡ true → calls (handle env org r w).1.log ≡ calls w.log
  unfolding handle
  calls-handle_dry r w dry = (method-Keeps env org true (uncalled (calls w.log)) r dry).at w refl
