-- ===== src/Control/Rows/Table.antt =====
-- The table of actions under `Create` and `Update`.
use capcom.Prelude.{false, ◌≡◌, refl, none, some, List, [], ◌∷◌, arith}
use capcom.Prelude.{eq_iff, eq_refl}
use capcom.Control.World.{ActionRow}
use capcom.Control.Repository.{clashes, find_action, set_action}

-- A row that clashes with none has a new id.
pub find_action-clashes :
    (row : ActionRow) (rows : List ActionRow)
    → clashes row rows ≡ false
    → find_action row.id rows ≡ none
unfolding clashes find_action
find_action-clashes row [] h = refl
find_action-clashes row (r ∷ rows) h = ground (arith, find_action-clashes row rows)

-- An id that is not there changes nothing.
pub set_action_absent :
    (row : ActionRow) (rows : List ActionRow)
    → find_action row.id rows ≡ none
    → set_action row rows ≡ rows
unfolding set_action find_action
set_action_absent row [] h = refl
set_action_absent row (r ∷ rows) h = ground (arith, set_action_absent row rows)

pub find_action_head :
    (row : ActionRow) (rows : List ActionRow) → find_action row.id (row ∷ rows) ≡ some row
unfolding find_action
find_action_head row rows = rw (eq_refl row.id)

pub set_action_head :
    (old row : ActionRow) (rows : List ActionRow)
    → row.id ≡ old.id
    → find_action old.id rows ≡ none
    → set_action row (old ∷ rows) ≡ row ∷ rows
unfolding set_action
set_action_head old row rows e h = ground (arith, eq_iff old.id row.id, set_action_absent row rows)
