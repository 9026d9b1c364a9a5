-- ===== src/Adapters/Http.antt =====
-- What the two HTTP clients share: `normalizeBaseURL` and `doJSON` of
-- internal/adapters/langgraph/client.go and internal/adapters/gantry/client.go, which differ in
-- the name in their texts, the header of the credential and the error of a refused request.
use capcom.Prelude.{
  ℕ, String, ◌<>◌, Bool, not, ◌&&◌, ◌||◌, ◌==◌, ltb, leb, if◌then◌else◌, Option, none, some, List,
  [], ◌∷◌,
}
use capcom.Prelude.Text.{trim_space, blank}
use capcom.Prelude.Text.Quote.{quote}
use capcom.Errors.{Error, message, wrap, Result, ok, err}
use capcom.Effects.{Effect, ◌>>=◌, ◌>>◌, try, failed, require, read}
use capcom.Domain.Values.{Fields, Value}
use capcom.Domain.Runtime.{Time, RuntimeConnection}
use capcom.Runtimes.Input.{Url, trim_slashes}

pub record Request : Type 0 where
  pub method : String
  pub url : String
  pub headers : List (String × String)
  pub body : Option String

pub record Response : Type 0 where
  pub status_code : ℕ
  pub body : String

-- The requests that have been sent, the latest first.
abbrev pub Requests : Type 0
Requests = List Request

-- net/http, net/url, encoding/json, io, fmt, strings, time and the resolver of credentials. The runtime's
-- answer, the credentials and the clock may depend on everything that has been sent.
pub record Web : Type 0 where
  pub parse_url : String → Result Url
  pub path_escape : String → String
  pub marshal : Fields → Result String
  pub new_request : String → String → Option Error
  pub credentials : Option (Requests → String → Result String)
  pub send : Requests → Request → Result Response
  pub limited : String → String
  pub decimal : ℕ → String
  pub parse_time : String → Option Time
  pub to_lower : String → String
  pub sprint : Value → String
  pub now : Requests → Time

-- Where the two clients differ.
pub record Api : Type 0 where
  pub name : String
  pub marshal_failed : String
  pub authorize : String → String × String
  pub refused : String → String → ℕ → String → Error

unfoldable pub normalize_base_url : Web → Api → String → Result String
unfolding trim_space trim_slashes
normalize_base_url web api raw =
    let value = trim_slashes (trim_space raw) in
    if value == ""
    then err (message (api.name <> " endpoint is required"))
    else elim (web.parse_url value) [
      | err e ↦ err (wrap ("parse " <> (api.name <> " endpoint")) e)
      | ok u ↦
          if not (u.scheme == "http") && not (u.scheme == "https")
          then err (message (api.name <> " endpoint must use http or https"))
          else if u.host == ""
          then err (message (api.name <> " endpoint host is required"))
          else ok value
    ]

-- `json.Marshal(body)`, where there is a body
abbrev pub marshal_body : Web → Api → Option Fields → Result (Option String)
marshal_body web api none = ok none
marshal_body web api (some fields) = elim (web.marshal fields) [
  | ok payload ↦ ok (some payload)
  | err e ↦ err (wrap api.marshal_failed e)
]

unfoldable pub resolve_credential : Web → Api → String → Requests → Result String
unfolding trim_space
resolve_credential web api ref sent = elim web.credentials [
  | none ↦ err (message (api.name <> " credential resolver is required"))
  | some resolve ↦ elim (resolve sent ref) [
    | err e ↦ err (wrap ("resolve " <> (api.name <> (" credential " <> quote ref))) e)
    | ok token ↦
        if blank token
        then err (message (api.name <> (" credential " <> (quote ref <> " is empty"))))
        else ok token
  ]
]

abbrev pub content_type : Option String → List (String × String)
content_type none = []
content_type (some _) = ("Content-Type", "application/json") ∷ []

abbrev pub request_of : Api → String → String → Option String → String → Request
request_of api method url payload token = record {
  method = method;
  url = url;
  headers = ("Accept", "application/json") ∷ api.authorize token ∷ content_type payload;
  body = payload;
}

-- `c.httpClient.Do(req)`: the request is sent, whatever comes back.
abbrev pub call : Web → String → Request → Effect Requests Response
call web text r sent =
    (elim (web.send sent r) [ ok p ↦ ok p | err e ↦ err (wrap text e) ], r ∷ sent)

abbrev pub decoded {ℓ} : {A : Type ℓ} → Api → Result A → Result A
decoded api (ok a) = ok a
decoded api (err e) = err (wrap ("decode " <> (api.name <> " response")) e)

abbrev pub is_success : ℕ → Bool
is_success n = not (ltb n 200 || leb 300 n)

unfoldable pub do_json {ℓ} :
    {A : Type ℓ}
    → Web
    → Api
    → RuntimeConnection
    → String
    → String
    → Option Fields
    → (String → Result A)
    → Effect Requests A
unfolding normalize_base_url resolve_credential trim_space
do_json web api conn method path body decode = do
  base ← read (λ _. normalize_base_url web api conn.base_url)
  payload ← read (λ _. marshal_body web api body)
  try (λ _. failed ("build " <> (api.name <> " request")) (web.new_request method (base <> path)))
  token ← read (resolve_credential web api conn.auth_ref)
  reply ←
      call web ("call " <> (api.name <> (" " <> (method <> (" " <> path)))))
        (request_of api method (base <> path) payload token)
  require (is_success reply.status_code)
      (api.refused method path reply.status_code (trim_space (web.limited reply.body)))
  read (λ _. decoded api (decode reply.body))

-- `UnmarshalJSON` of the documents that keep themselves as a map: encoding/json decodes the named
-- fields and then the map, and the first error is returned.
abbrev pub both_decoded {ℓ κ} :
    {A : Type ℓ} {R : Type κ} → Result A → Result R → (R → A → A) → Result A
both_decoded (err e) _ _ = err e
both_decoded (ok a) (err e) _ = err e
both_decoded (ok a) (ok raw) with_raw = ok (with_raw raw a)

-- `out == nil`
abbrev pub no_output : String → Result (Unit {0})
no_output _ = ok tt

-- `time.Now().UTC()`
abbrev pub clock : Web → Effect Requests Time
clock web sent = (ok (web.now sent), sent)
