-- ===== src/Domain/Values.antt =====
-- `map[string]any` and what stands in it: the document tree of encoding/json. A map is an
-- association list whose first entry for a key counts; the program never reads its order.
use capcom.Prelude.{ℕ, String, ◌≡◌, refl, Bool, Option, none, some, arith, eq_iff}
use capcom.Prelude.{◌==◌, if◌then◌else◌}

mutual
  pub data Value : Type 0 where
    null : Value
    obj : Fields → Value
    arr : Items → Value
    text : String → Value
    flag : Bool → Value
    num : ℕ → Value

  pub data Fields : Type 0 where
    end : Fields
    field : String → Value → Fields → Fields

  pub data Items : Type 0 where
    nil : Items
    cons : Value → Items → Items

-- `m[k]`, with `none` for a missing key.
unfoldable pub get : String → Fields → Option Value
get k end = none
get k (field j v m) = if j == k then some v else get k m

-- `m[k] = v`
unfoldable pub put : String → Value → Fields → Fields
put k v end = field k v end
put k v (field j w m) = if j == k then field k v m else field j w (put k v m)

-- `delete(m, k)`
unfoldable pub delete : String → Fields → Fields
delete k end = end
delete k (field j v m) = let rest = delete k m in if j == k then rest else field j v rest

pub get-put :
    (k j : String) (v : Value) (m : Fields)
    → get j (put k v m) ≡ (if k == j then some v else get j m)
unfolding get put
get-put k j v end = refl
get-put k j v (field i w m) = ground (arith, eq_iff k j, eq_iff i k, eq_iff i j, get-put k j v m)

pub get-delete :
    (k j : String) (m : Fields) → get j (delete k m) ≡ (if k == j then none else get j m)
unfolding get delete
get-delete k j end = ground arith
get-delete k j (field i w m) = ground (arith, eq_iff k j, eq_iff i k, eq_iff i j, get-delete k j m)

-- The assertion `v.(string)` with its zero value, and `v.(map[string]any)`.
unfoldable pub as_text : Option Value → String
as_text (some (text s)) = s
as_text _ = ""

unfoldable pub as_map : Option Value → Option Fields
as_map (some (obj m)) = some m
as_map _ = none
