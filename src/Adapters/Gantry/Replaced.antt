-- ===== src/Adapters/Gantry/Replaced.antt =====
-- `ReplaceAgentAccess` of internal/adapters/gantry/client.go.
use capcom.Prelude.{
  String, ◌<>◌, ◌==◌, if◌then◌else◌, List, [], sym, ◌≢◌, Option-cases, Bool-cases, ◌≡◌, refl, ◌∙◌,
  ap, inl, inr, Option, none, some, ◌∷◌, arith, eq_iff,
}
use capcom.Prelude.Text.{trim_space}
use capcom.Errors.{ok, Result-cases}
use capcom.Domain.Values.{
  Value, Fields, Items, null, obj, arr, text, flag, num, nil, cons, get as get_field, as_text,
}
use capcom.Domain.Runtime.{RuntimeConnection, mode_control_enabled}
use capcom.Domain.Agents.{AccessDocument, AccessSelection}
use capcom.Adapters.Http.{Web, Requests, Request, request_of, marshal_body, normalize_base_url}
use capcom.Adapters.Sent.{IsSent, do_json-IsSent}
use capcom.Adapters.Gantry.Dto.{Json, entries, unmarshal_access}
use capcom.Adapters.Gantry.Client.{api, do_json, agent_path}
use capcom.Adapters.Gantry.Access.{
  is_controlled, selection_items, gantry_selections, selections_of, sources_in, replacement,
  get_agent_access, replace_agent_access,
}

-- The version that an access document states of a selection.
pub stated_version : AccessSelection → Option Value
stated_version s =
    let v = trim_space (as_text (get_field "version" (entries s.attributes))) in
    if v == "" then none else some (text v)

-- What is sent of a selection: its id, and its version where it has one.
pub IsSelected : AccessSelection → Value → Type 0
IsSelected s (obj m) =
    (get_field "id" m ≡ some (text (trim_space s.id))) × (get_field "version" m ≡ stated_version s)
IsSelected s _ = ⊥

-- One for each, in their order.
pub AreSelected : List AccessSelection → Items → Type 0
AreSelected [] nil = Unit
AreSelected (s ∷ l) (cons v items) = IsSelected s v × AreSelected l items
AreSelected _ _ = ⊥

pub asked : Option (List AccessSelection) → List AccessSelection
asked none = []
asked (some l) = l

-- The body of the second request, by the documents that were read and given.
pub record IsBody (current access : AccessDocument) (fields : Fields) : Type 0 where
  pub sources : get_field "sources" fields ≡ get_field "sources" (entries current.raw)
  pub present : get_field "sources" fields ≢ none
  pub filled : get_field "sources" fields ≢ some null
  pub items : Items
  pub selections : get_field "selections" fields ≡ some (arr items)
  pub selected : AreSelected (asked access.selections) items

-- The document was read, and what is written keeps the sources that were read.
pub record IsReplaced (web : Web) (json : Json) (conn : RuntimeConnection) (id : String)
    (access : AccessDocument) (sent sent' : Requests) : Type 0 where
  pub controlled : conn.mode ≡ mode_control_enabled
  pub current : AccessDocument
  pub fields : Fields
  pub get : Request
  pub put : Request
  pub was_read : (get_agent_access web json conn id sent).0 ≡ ok current
  pub said : IsBody current access fields
  pub marshaled : (b : String) × (web.marshal fields ≡ ok b) × (put.body ≡ some b)
  pub methods : (get.method ≡ "GET") × (put.method ≡ "PUT")
  pub same_url : put.url ≡ get.url
  pub requests : sent' ≡ put ∷ get ∷ sent

abbrev path_of : Web → String → String
path_of web id = agent_path web id "/access"

get_agent_access-IsSent :
    (web : Web) (json : Json) (conn : RuntimeConnection) (id : String) (sent : Requests)
    (current : AccessDocument)
    → (get_agent_access web json conn id sent).0 ≡ ok current
    → IsSent web
        (api web)
        conn
        "GET"
        (path_of web id)
        none
        sent
        (get_agent_access web json conn id sent)
unfolding get_agent_access
get_agent_access-IsSent web json conn id sent current h =
    let call = do_json web conn "GET" (path_of web id) none (unmarshal_access json) sent in
    elim (Result-cases call.0) [
      | inr (e, p) ↦ absurd (ground (arith, h, p))
      | inl (access, p) ↦
          let s =
            do_json-IsSent web (api web) conn "GET" (path_of web id) none (unmarshal_access json)
              sent access p in
          record {
            base = s.base;
            token = s.token;
            payload = s.payload;
            marshaled = s.marshaled;
            resolved = s.resolved;
            based = s.based;
            requests = ground (arith, s.requests, p);
          }
    ]

-- The body of a request with fields is their encoding.
marshal_body-some :
    (web : Web) (fields : Fields) (payload : Option String)
    → marshal_body web (api web) (some fields) ≡ ok payload
    → (b : String) × (web.marshal fields ≡ ok b) × (payload ≡ some b)
marshal_body-some web fields payload h = elim (Result-cases (web.marshal fields)) [
  | inl (b, p) ↦ (b, p, ground (arith, h, p))
  | inr (e, p) ↦ absurd (ground (arith, h, p))
]

found_sources :
    (raw : Option Fields) (v w : Value)
    → get_field "sources" (entries raw) ≡ some v
    → sources_in raw ≡ ok w
    → (w ≡ v) × (some w ≢ some null)
found_sources raw null w p h = absurd (ground (arith, h, p))
found_sources raw (obj m) w p h = let e : w ≡ obj m = ground (arith, h, p) in (e, λ n. cc)
found_sources raw (arr l) w p h = let e : w ≡ arr l = ground (arith, h, p) in (e, λ n. cc)
found_sources raw (text t) w p h = let e : w ≡ text t = ground (arith, h, p) in (e, λ n. cc)
found_sources raw (flag b) w p h = let e : w ≡ flag b = ground (arith, h, p) in (e, λ n. cc)
found_sources raw (num n) w p h = let e : w ≡ num n = ground (arith, h, p) in (e, λ n. cc)

sources_in-found :
    (raw : Option Fields) (w : Value)
    → sources_in raw ≡ ok w
    → (get_field "sources" (entries raw) ≡ some w) × (some w ≢ some null)
sources_in-found raw w h = elim (Option-cases (get_field "sources" (entries raw))) [
  | inl p ↦ absurd (ground (arith, h, p))
  | inr (v, p) ↦ let (e, full) = found_sources raw v w p h in (p ∙ ap (λ x. some x) (sym e), full)
]

selection_items-AreSelected :
    (l : List AccessSelection) → AreSelected l (selection_items (gantry_selections l))
unfolding selection_items gantry_selections AreSelected IsSelected stated_version get_field
selection_items-AreSelected [] = tt
selection_items-AreSelected (s ∷ l) = ((refl, ground arith), selection_items-AreSelected l)

same_asked : (o : Option (List AccessSelection)) → selections_of o ≡ asked o
unfolding asked
same_asked none = refl
same_asked (some l) = refl

replacement-IsBody :
    (current access : AccessDocument) (sources : Value)
    → sources_in current.raw ≡ ok sources
    → IsBody current access (replacement sources access)
unfolding get_field
replacement-IsBody current access sources h =
    let (e, full) = sources_in-found current.raw sources h in
    record {
      sources = sym e;
      present = λ n. cc;
      filled = full;
      items = selection_items (gantry_selections (asked access.selections));
      selections =
          ap (λ l. some (arr (selection_items (gantry_selections l))))
            (same_asked access.selections);
      selected = selection_items-AreSelected (asked access.selections);
    }

-- The bases of two requests to the same connection are the same.
same_base :
    (web : Web) (conn : RuntimeConnection) (a b : String)
    → normalize_base_url web (api web) conn.base_url ≡ ok a
    → normalize_base_url web (api web) conn.base_url ≡ ok b
    → a ≡ b
same_base web conn a b p q = cc

-- A replacement of an agent's access that succeeds is one of a connection in control mode. It sent
-- two requests: one that read the agent's document, and one to the same address. The body of the
-- second has the sources that were read, which are neither missing nor null, and one selection for
-- each that was asked for, in their order, with its id and, unless it is empty, its version, trimmed.
pub replace_agent_access-IsReplaced :
    (web : Web) (json : Json) (conn : RuntimeConnection) (id : String) (access doc : AccessDocument)
    (sent : Requests)
    → (replace_agent_access web json conn id access sent).0 ≡ ok doc
    → IsReplaced web json conn id access sent (replace_agent_access web json conn id access sent).1
unfolding replace_agent_access
replace_agent_access-IsReplaced web json conn id access doc sent h =
    elim (Bool-cases (is_controlled conn)) [
      | inr n ↦ absurd (ground (arith, h, n))
      | inl y ↦ elim (Result-cases (get_agent_access web json conn id sent).0) [
        | inr (e, p) ↦ absurd (ground (arith, h, y, p))
        | inl (current, p) ↦ elim (Result-cases (sources_in current.raw)) [
          | inr (e, q) ↦ absurd (ground (arith, h, y, p, q))
          | inl (sources, q) ↦
              let middle = (get_agent_access web json conn id sent).1 in
              let fields = replacement sources access in
              let call =
                do_json web conn "PUT" (path_of web id) (some fields) (unmarshal_access json)
                  middle in
              elim (Result-cases call.0) [
                | inr (e, r) ↦ absurd (ground (arith, h, y, p, q, r))
                | inl (response, r) ↦
                    let s1 = get_agent_access-IsSent web json conn id sent current p in
                    let s2 =
                      do_json-IsSent web (api web) conn "PUT" (path_of web id) (some fields)
                        (unmarshal_access json) middle response r in
                    let last : (replace_agent_access web json conn id access sent).1 ≡ call.1 =
                      ground (arith, y, p, q, r) in
                    let get =
                      request_of (api web) "GET" (s1.base <> path_of web id) s1.payload s1.token in
                    let put =
                      request_of (api web) "PUT" (s2.base <> path_of web id) s2.payload s2.token in
                    record {
                      controlled = ground (arith, y, eq_iff conn.mode mode_control_enabled);
                      current = current;
                      fields = fields;
                      get = get;
                      put = put;
                      was_read = p;
                      said = replacement-IsBody current access sources q;
                      marshaled = marshal_body-some web fields s2.payload s2.marshaled;
                      methods = (refl, refl);
                      same_url =
                          ap (λ b. b <> path_of web id)
                            (same_base web conn s2.base s1.base s2.based s1.based);
                      requests = last ∙ s2.requests ∙ ap (λ l. put ∷ l) s1.requests;
                    }
              ]
        ]
      ]
    ]
