-- ===== src/Telemetry/Catalog.antt =====
-- internal/services/model_catalog.go: the resolver of models that the configuration gives. The lock
-- is left out, since nothing writes after `NewModelCatalog`.
use capcom.Prelude.{String, ◌<>◌, not, ◌==◌, if◌then◌else◌, Option, none, some, List, [], ◌∷◌}
use capcom.Prelude.Text.{trim_space}
use capcom.Errors.{Result, ok}
use capcom.Domain.Telemetry.{Int64, Decimal}

pub record ModelMetadata : Type 0 where
  pub provider : String
  pub model : String
  pub context_window_tokens : Int64
  pub input_cost_per_1m_tokens : Option Decimal
  pub output_cost_per_1m_tokens : Option Decimal
  pub version : String

-- `metadata, found, err`
abbrev pub Resolver : Type 0
Resolver = String → String → Result (Option ModelMetadata)

-- `strings.ToLower` and the keys of `items`, the last one first.
abbrev pub Items : Type 0
Items = List (String × ModelMetadata)

unfoldable pub model_key : (String → String) → String → String → String
unfolding trim_space
model_key to_lower provider model =
    to_lower (trim_space provider) <> ("\0" <> to_lower (trim_space model))

unfoldable pub new_model_catalog_into : (String → String) → Items → List ModelMetadata → Items
unfolding model_key
new_model_catalog_into to_lower items [] = items
new_model_catalog_into to_lower items (item ∷ l) =
    new_model_catalog_into to_lower ((model_key to_lower item.provider item.model, item) ∷ items) l

unfoldable pub new_model_catalog : (String → String) → List ModelMetadata → Items
unfolding new_model_catalog_into
new_model_catalog to_lower l = new_model_catalog_into to_lower [] l

unfoldable pub find_model : String → Items → Option ModelMetadata
find_model key [] = none
find_model key ((k, item) ∷ items) =
    let rest = find_model key items in if k == key then some item else rest

unfoldable pub resolve : (String → String) → Items → Resolver
unfolding model_key find_model
resolve to_lower items provider model =
    elim (find_model (model_key to_lower provider model) items) [
      | some item ↦ ok (some item)
      | none ↦
          if not (provider == "")
          then ok (find_model (model_key to_lower "" model) items)
          else ok none
    ]
