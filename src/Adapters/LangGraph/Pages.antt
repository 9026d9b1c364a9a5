-- ===== src/Adapters/LangGraph/Pages.antt =====
-- `doJSON` of internal/adapters/langgraph/client.go and the loops over pages: listAssistants,
-- listThreads and listRuns.
use capcom.Prelude.{
  ℕ, zero, suc, ◌+◌, ◌*◌, String, ◌<>◌, true, false, ltb, Option, none, some, List, [], ◌++◌,
}
use capcom.Prelude.Bytes.{length}
use capcom.Errors.{Error, message, http_response, Result}
use capcom.Effects.{Effect, ◌>>=◌, done, throw}
use capcom.Domain.Values.{Fields, end, field, num, text}
use capcom.Domain.Runtime.{RuntimeConnection}
use capcom.Adapters.Http.{Web, Api, Requests, do_json as http_json}
use capcom.Adapters.LangGraph.Dto.{
  Json, Assistant, Thread, Run, unmarshal_assistant, unmarshal_thread, unmarshal_run,
}

abbrev pub page_size : ℕ
page_size = 100

abbrev pub max_assistant_pages : ℕ
max_assistant_pages = 100

abbrev pub max_thread_pages : ℕ
max_thread_pages = 2

abbrev pub max_run_pages : ℕ
max_run_pages = 10

unfoldable pub http_response_error : Web → String → String → ℕ → String → Error
http_response_error web method path status body = http_response status (
    "langgraph "
    <> (method <> (" " <> (path <> (" returned " <> (web.decimal status <> (": " <> body)))))))

abbrev pub api : Web → Api
api web = record {
  name = "langgraph";
  marshal_failed = "marshal langgraph request";
  authorize = λ key. ("X-Api-Key", key);
  refused = http_response_error web;
}

abbrev pub do_json {ℓ} :
    {A : Type ℓ}
    → Web
    → RuntimeConnection
    → String
    → String
    → Option Fields
    → (String → Result A)
    → Effect Requests A
do_json web conn = http_json web (api web) conn

-- `for page := 0; page < n; page++`: how many pages are left, the page that is next, and what the
-- pages before it held. `end_of` is what follows the loop.
unfoldable pub collect {ℓ} :
    {A : Type ℓ}
    → (ℕ → Effect Requests (List A))
    → (List A → Effect Requests (List A))
    → ℕ
    → ℕ
    → List A
    → Effect Requests (List A)
collect fetch end_of zero page result = end_of result
collect fetch end_of (suc left) page result = fetch page >>= λ items.
    elim (ltb (length items) page_size) [
      | true ↦ done (result ++ items)
      | false ↦ collect fetch end_of left (page + 1) (result ++ items)
    ]

abbrev pub too_many_assistants : Error
too_many_assistants = message "langgraph assistant pagination exceeded 100 pages"

abbrev pub search : ℕ → String → String → Fields
search page by order = field "limit" (num page_size) (
    field "offset" (num (page * page_size))
      (field "sort_by" (text by) (field "sort_order" (text order) end)))

module _ (web : Web) (json : Json) (conn : RuntimeConnection) where
  -- One turn of each loop.
  unfoldable pub assistants_page : ℕ → Effect Requests (List Assistant)
  unfolding http_response_error unmarshal_assistant http_json
  assistants_page page =
      do_json web conn "POST" "/assistants/search" (some (search page "assistant_id" "asc"))
        (json.list (unmarshal_assistant json))

  unfoldable pub threads_page : ℕ → Effect Requests (List Thread)
  unfolding http_response_error unmarshal_thread http_json
  threads_page page =
      do_json web conn "POST" "/threads/search" (some (search page "updated_at" "desc"))
        (json.list (unmarshal_thread json))

  unfoldable pub runs_page : String → ℕ → Effect Requests (List Run)
  unfolding http_response_error unmarshal_run http_json
  runs_page thread_id page =
      let path =
        "/threads/"
        <> (web.path_escape thread_id
            <> ("/runs?limit="
                <> (web.decimal page_size <> ("&offset=" <> web.decimal (page * page_size))))) in
      do_json web conn "GET" path none (json.list (unmarshal_run json))

  unfoldable pub list_assistants : Effect Requests (List Assistant)
  unfolding collect assistants_page
  list_assistants =
      collect assistants_page (λ _. throw too_many_assistants) max_assistant_pages 0 []

  unfoldable pub list_threads : Effect Requests (List Thread)
  unfolding collect threads_page
  list_threads = collect threads_page done max_thread_pages 0 []

  unfoldable pub list_runs : String → Effect Requests (List Run)
  unfolding collect runs_page
  list_runs thread_id = collect (runs_page thread_id) done max_run_pages 0 []
