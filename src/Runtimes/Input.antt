-- ===== src/Runtimes/Input.antt =====
-- The inputs of internal/services/runtime_connections.go and how they are checked. Parsing and
-- printing an address and lowering a text are Go's.
use Prim.Native.Char.{Char, code}
use Prim.Native.String.{String, [], ◌∷◌}
use mathlib.Core.List.{List, [] as nil, ◌∷◌ as ◌+>◌}
use capcom.Prelude.{
  ℕ, zero, suc, Bool, true, false, not, ◌&&◌, ◌||◌, ◌==◌, leb, nat_eq, if◌then◌else◌, Option, none,
  some, ◌<>◌,
}
use capcom.Prelude.Text.{trim_space, blank}
use capcom.Prelude.Text.Quote.{quote}
use capcom.Errors.{Error, message, Result, ok, err}
use capcom.Domain.Runtime.{
  RuntimeKind, RuntimeMode, RuntimeEndpointKind, kind_gantry, kind_langgraph, mode_read_only,
  mode_control_enabled,
}

abbrev pub Labels : Type 0
Labels = List (String × String)

pub record CreateRuntimeConnectionInput : Type 0 where
  pub name : String
  pub display_name : String
  pub environment : String
  pub labels : Labels
  pub kind : RuntimeKind
  pub mode : RuntimeMode
  pub endpoint : String
  pub actor : String
  pub reason : String
  pub description : String
  pub auth_ref : String

pub record UpdateRuntimeInstanceSettingsInput : Type 0 where
  pub id : String
  pub display_name : String
  pub environment : String
  pub labels : Labels
  pub mode : RuntimeMode
  pub endpoint : String
  pub auth_ref : String
  pub description : String
  pub sync_enabled : Bool
  pub sync_interval_seconds : ℕ
  pub actor : String
  pub reason : String

pub record RemoveRuntimeInstanceInput : Type 0 where
  pub id : String
  pub confirmation : String
  pub actor : String
  pub reason : String

pub record ConsolidateRuntimeEndpointInput : Type 0 where
  pub canonical_id : String
  pub duplicate_id : String
  pub kind : RuntimeEndpointKind
  pub confirmation : String
  pub actor : String
  pub reason : String

-- The fields of `url.URL` that the code reads or sets.
pub record Url : Type 0 where
  pub scheme : String
  pub host : String
  pub path : String
  pub raw_query : String
  pub fragment : String

-- `url.Parse`, `URL.String` and `strings.ToLower`
pub record Texts : Type 0 where
  pub parse_url : String → Option Url
  pub print_url : Url → String
  pub to_lower : String → String

-- `strings.TrimRight(s, "/")`
unfoldable pub trim_slashes : String → String
trim_slashes [] = []
trim_slashes (c ∷ s) =
    let rest = trim_slashes s in if nat_eq (code c) 47 && rest == "" then [] else c ∷ rest

unfoldable pub normalize_runtime_endpoint : Texts → String → Result String
unfolding trim_slashes trim_space
normalize_runtime_endpoint texts raw = elim (texts.parse_url (trim_space raw)) [
  | none ↦ err (message "endpoint must be an absolute http or https URL")
  | some u ↦
      if not (u.scheme == "http" || u.scheme == "https") || u.host == ""
      then err (message "endpoint must be an absolute http or https URL")
      else ok (
          trim_slashes (
            texts.print_url (record {
              scheme = texts.to_lower u.scheme;
              host = texts.to_lower u.host;
              path = trim_slashes u.path;
              raw_query = "";
              fragment = "";
            })))
]

abbrev set_label : String → String → Labels → Labels
set_label k v nil = (k, v) +> nil
set_label k v ((j, u) +> m) =
    let rest = set_label k v m in if j == k then (j, v) +> m else (j, u) +> rest

-- The loop over the labels, in the order in which Go happens to visit them.
unfoldable pub normalize_labels_into : Texts → Labels → Labels → Labels
unfolding trim_space
normalize_labels_into texts result nil = result
normalize_labels_into texts result ((k, v) +> labels) =
    let key = texts.to_lower (trim_space k) in
    let value = trim_space v in
    normalize_labels_into texts
      (if not (key == "") && not (value == "") then set_label key value result else result) labels

unfoldable pub normalize_labels : Texts → Labels → Labels
unfolding normalize_labels_into
normalize_labels texts labels = normalize_labels_into texts nil labels

abbrev between : ℕ → ℕ → Char → Bool
between a z c = leb a (code c) && leb (code c) z

-- `[a-z0-9_-]{0,n}$`
unfoldable pub is_environment_rest : ℕ → String → Bool
is_environment_rest n [] = true
is_environment_rest zero (c ∷ s) = false
is_environment_rest (suc n) (c ∷ s) =
    let rest = is_environment_rest n s in
    (between 97 122 c || between 48 57 c || nat_eq (code c) 95 || nat_eq (code c) 45) && rest

-- `^[a-z][a-z0-9_-]{0,31}$`
unfoldable pub is_environment : String → Bool
unfolding is_environment_rest
is_environment [] = false
is_environment (c ∷ s) = between 97 122 c && is_environment_rest 31 s

abbrev pub bad_environment : Error
bad_environment =
    message
      "environment must start with a letter and contain only lowercase letters, digits, underscores, or hyphens"

abbrev pub is_kind : RuntimeKind → Bool
is_kind k = k == kind_gantry || k == kind_langgraph

unfoldable pub is_mode : RuntimeMode → Bool
is_mode m = m == mode_read_only || m == mode_control_enabled

abbrev pub bad_mode : Error
bad_mode =
    message
      ("mode must be one of " <> (quote mode_read_only <> (", " <> quote mode_control_enabled)))

unfoldable pub validate_create_runtime_connection :
    Texts → CreateRuntimeConnectionInput → Option Error
unfolding is_environment trim_space
validate_create_runtime_connection texts input =
    let environment = texts.to_lower (trim_space input.environment) in
    if blank input.name
    then some (message "name is required")
    else if not (is_kind input.kind)
    then some (
        message
          ("runtime_type must be one of " <> (quote kind_gantry <> (", " <> quote kind_langgraph))))
    else if not (is_mode input.mode)
    then some bad_mode
    else if blank input.endpoint
    then some (message "endpoint is required")
    else if not (environment == "") && not (is_environment environment)
    then some bad_environment
    else if blank input.auth_ref
    then some (message "auth_ref is required")
    else if blank input.actor
    then some (message "actor is required")
    else if blank input.reason
    then some (message "reason is required")
    else none
