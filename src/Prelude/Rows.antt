-- ===== src/Prelude/Rows.antt =====
-- Statements over the rows of a table, in the order in which the table has them.
use mathlib.Core.Bool.{Bool, false, ◌||◌}
use mathlib.Core.List.{List, [], ◌∷◌}
use capcom.Prelude.Tests.{if◌then◌else◌}

module _ {ℓ} {A : Type ℓ} where
  unfoldable pub any : (A → Bool) → List A → Bool
  any p [] = false
  any p (a ∷ l) = p a || any p l

  -- `UPDATE … WHERE p`
  unfoldable pub update_where : (A → Bool) → (A → A) → List A → List A
  update_where p f [] = []
  update_where p f (a ∷ l) = (if p a then f a else a) ∷ update_where p f l

  -- `INSERT … ON CONFLICT … DO UPDATE`, where p says which row conflicts
  unfoldable pub upsert : (A → Bool) → (A → A) → A → List A → List A
  upsert p f new l = if any p l then update_where p f l else new ∷ l
