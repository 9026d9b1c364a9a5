-- ===== src/Examples/Replays.antt =====
-- A control action whose key is looked up again.
use capcom.Prelude.{true, false, ◌≡◌, refl, []}
use capcom.Control.Repository.{matching, visible, find_runtime}
use capcom.Control.Audit.{all_given}
use capcom.Control.Exec.{run}
use capcom.Control.Protocol.{perform}
use capcom.Control.Replay.{is_complete, IsRepeated, perform-IsRepeated}
use capcom.Control.Rows.Performed.{IsFound, perform-IsFound}
use capcom.Examples.Actions.{env, start, plan, action, row, disable, found, went}

all_there : is_complete (disable false) ≡ true
unfolding all_given
all_there = refl

none_before : matching env "org-1" "k-1" start.runtimes start.actions ≡ []
unfolding matching visible find_runtime
none_before = refl

perform-IsFound_example :
    IsFound env "org-1" plan action start row
      (run (perform env "org-1" plan action) start).0
      (run (perform env "org-1" plan action) start).1
perform-IsFound_example =
    perform-IsFound env "org-1" plan action start row (λ _ _. refl) (λ _. refl) refl none_before
      found went

perform-IsRepeated_example :
    IsRepeated env "org-1"
      (disable false)
      (run (perform env "org-1" plan action) start).0
      (run (perform env "org-1" plan action) start).1
perform-IsRepeated_example =
    perform-IsRepeated env "org-1" plan action start row (disable false) (λ _ _. refl) (λ _. refl)
      refl none_before found went all_there refl
