-- ===== src/Runtimes/Rows.antt =====
-- What the statements do to the rows.
use capcom.Prelude.{String, ◌≡◌, refl, Option, none, some, List, [], ◌∷◌, arith, eq_iff}
use capcom.Domain.Runtime.{Time, RuntimeConnection}
use capcom.Prelude.Rows.{update_where}
use capcom.Runtimes.Table.{Archive, RuntimeRow, is_visible, find_visible}
use capcom.Runtimes.Changes.{archived_row, with_settings}

-- A row that was archived is not found again.
pub find_visible-archived :
    (org id : String) (a : Archive) (now : Time) (rows : List RuntimeRow)
    → find_visible org id (update_where (is_visible org id) (archived_row a now) rows) ≡ none
unfolding find_visible update_where archived_row is_visible
find_visible-archived org id a now [] = refl
find_visible-archived org id a now (r ∷ rows) =
    let ih = find_visible-archived org id a now rows in ground (arith, ih)

-- The connection of a row after `UpdateSettings`
abbrev pub settled : RuntimeConnection → Time → Option RuntimeConnection → Option RuntimeConnection
settled c now none = none
settled c now (some d) = some (with_settings c now (record { conn = d; archived = none })).conn

-- A row is found again after its settings were written, with them.
pub find_visible-settings :
    (org id : String) (c : RuntimeConnection) (now : Time) (rows : List RuntimeRow)
    → find_visible org id (update_where (is_visible org id) (with_settings c now) rows)
      ≡ settled c now (find_visible org id rows)
unfolding find_visible update_where with_settings is_visible
find_visible-settings org id c now [] = refl
find_visible-settings org id c now (r ∷ rows) =
    let ih = find_visible-settings org id c now rows in ground (arith, ih)

pub find_visible-id :
    (org id : String) (rows : List RuntimeRow) (d : RuntimeConnection)
    → find_visible org id rows ≡ some d
    → d.id ≡ id
unfolding find_visible is_visible
find_visible-id org id [] d e = ground (arith, e)
find_visible-id org id (r ∷ rows) d e =
    ground (arith, e, eq_iff r.conn.id id, find_visible-id org id rows d)
