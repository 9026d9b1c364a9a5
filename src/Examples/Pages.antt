-- ===== src/Examples/Pages.antt =====
-- An agent server with one assistant, one thread and one run.
use capcom.Prelude.{
  ℕ, zero, suc, ◌+◌, ◌*◌, ◌≤◌, String, ◌==◌, if◌then◌else◌, ◌≡◌, refl, sym, ◌∙◌, Option, none, some,
  List, [], ◌∷◌, ltb, ap, arith,
}
use capcom.Prelude.Bytes.{length, take, drop, drop_nil}
use capcom.Errors.{Result, ok, err}
use capcom.Domain.Values.{Value, Fields, end, get as get_field, num}
use capcom.Domain.Runtime.{RuntimeConnection}
use capcom.Runtimes.Input.{Url}
use capcom.Adapters.Http.{Web, do_json as http_json}
use capcom.Adapters.LangGraph.Dto.{
  Json, Assistant, Thread, Run, unmarshal_assistant, unmarshal_thread, unmarshal_run,
}
use capcom.Adapters.LangGraph.Pages.{
  http_response_error, threads_page, list_assistants, list_threads, list_runs, too_many_assistants,
}
use capcom.Adapters.LangGraph.Snapshot.{collect_snapshot}
use capcom.Adapters.LangGraph.Listed.{IsSearched, IsListed, list_pages-IsServed}
use capcom.Adapters.LangGraph.Bounded.{IsLimited, collect_snapshot-IsBounded}
use capcom.Examples.Instances.{conn}

abbrev base : Url
base = record { scheme = "https"; host = "lg"; path = ""; raw_query = ""; fragment = "" }

abbrev page_text : ℕ → String → String
page_text zero later = "first"
page_text (suc n) later = later

abbrev number : Option Value → ℕ
number (some (num n)) = n
number _ = 0

-- Whether the first item is asked for.
abbrev answer_text : ℕ → ℕ → String
answer_text zero offset = "later"
answer_text (suc limit) offset = page_text offset "later"

abbrev window : Fields → String
window f = answer_text (number (get_field "limit" f)) (number (get_field "offset" f))

abbrev answered : Option String → String → String
answered none url =
    if url == "https://lg/threads/t-1/runs?limit=&offset=first" then "first" else "later"
answered (some b) url = b

abbrev pub web : Web
web = record {
  parse_url = λ _. ok base;
  path_escape = λ s. s;
  marshal = λ f. ok (window f);
  new_request = λ _ _. none;
  credentials = some (λ _ _. ok "key");
  send = λ _ r. ok record { status_code = 200; body = answered r.body r.url };
  limited = λ s. s;
  decimal = λ n. page_text n "";
  parse_time = λ _. none;
  to_lower = λ s. s;
  sprint = λ _. "";
  now = λ _. 5;
}

abbrev assistant : Assistant
assistant = record {
  assistant_id = "a-1";
  graph_id = "";
  name = "One";
  description = "";
  version = 1;
  created_at = "";
  updated_at = "";
  config = end;
  context = end;
  metadata = end;
  raw = end;
}

abbrev thread : Thread
thread = record {
  thread_id = "t-1";
  status = "idle";
  created_at = "";
  updated_at = "";
  state_updated = "";
  metadata = end;
  config = end;
  values = end;
  interrupts = end;
  raw = end;
}

abbrev run : Run
run = record {
  run_id = "r-1";
  thread_id = "t-1";
  assistant_id = "a-1";
  status = "success";
  created_at = "";
  updated_at = "";
  metadata = end;
  kwargs = end;
  multitask_strategy = "";
  lang_smith_session_name = "";
  raw = end;
}

abbrev only {ℓ} : {A : Type ℓ} → Result A → String → Result (List A)
only (ok a) body = ok (if body == "first" then a ∷ [] else [])
only (err e) body = err e

abbrev json : Json
json = record {
  map = λ _. ok end;
  server_info =
      λ _. ok record { version = "1"; lang_graph_py_version = ""; flags = end; metadata = end };
  assistant = λ _. ok assistant;
  thread = λ _. ok thread;
  run = λ _. ok run;
  list = λ f body. only (f body) body;
}

abbrev server : RuntimeConnection
server = record conn { base_url = "https://lg" }

assistants-IsSearched :
    IsSearched web json server "/assistants/search" "assistant_id" "asc"
      (unmarshal_assistant json)
      (assistant ∷ [])
unfolding take drop get_field http_json http_response_error unmarshal_assistant
assistants-IsSearched zero zero sent = refl
assistants-IsSearched zero (suc offset) sent = refl
assistants-IsSearched (suc zero) zero sent = refl
assistants-IsSearched (suc (suc limit)) zero sent = refl
assistants-IsSearched (suc limit) (suc offset) sent =
    ap (λ l. ok (take (suc limit) l)) (sym (drop_nil offset))

threads-IsSearched :
    IsSearched web json server "/threads/search" "updated_at" "desc"
      (unmarshal_thread json)
      (thread ∷ [])
unfolding take drop get_field http_json http_response_error unmarshal_thread
threads-IsSearched zero zero sent = refl
threads-IsSearched zero (suc offset) sent = refl
threads-IsSearched (suc zero) zero sent = refl
threads-IsSearched (suc (suc limit)) zero sent = refl
threads-IsSearched (suc limit) (suc offset) sent =
    ap (λ l. ok (take (suc limit) l)) (sym (drop_nil offset))

runs-IsListed : IsListed web json server "t-1" (run ∷ [])
unfolding take drop get_field http_json http_response_error unmarshal_run
runs-IsListed zero zero sent = refl
runs-IsListed zero (suc offset) sent = refl
runs-IsListed (suc zero) zero sent = refl
runs-IsListed (suc (suc limit)) zero sent = refl
runs-IsListed (suc limit) (suc offset) sent =
    ap (λ l. ok (take (suc limit) l)) (sym (drop_nil offset))

list_pages-IsServed_example :
    ((list_assistants web json server []).0 ≡ (
      if ltb (length (assistant ∷ [])) 10000 then ok (assistant ∷ []) else err too_many_assistants))
    × ((list_threads web json server []).0 ≡ ok (take 200 (thread ∷ [])))
    × ((list_runs web json server "t-1" []).0 ≡ ok (take 1000 (run ∷ [])))
list_pages-IsServed_example =
    list_pages-IsServed web json server "t-1" (assistant ∷ []) (thread ∷ []) (run ∷ []) []
      assistants-IsSearched threads-IsSearched runs-IsListed

take-short {ℓ} :
    {A : Type ℓ} (n : ℕ) (l items : List A) → ok items ≡ ok (take n l) → length items ≤ n
unfolding take length
take-short zero l items h = ground (arith, h)
take-short (suc n) [] items h = ground (arith, h)
take-short (suc n) (a ∷ l) [] h = omega arith
take-short (suc n) (a ∷ l) (i ∷ items) h = omega (arith, take-short n l items cc)

threads-IsLimited : IsLimited (threads_page web json server)
unfolding threads_page
threads-IsLimited page sent items h =
    take-short 100 (drop (page * 100) (thread ∷ [])) items
      (sym h ∙ threads-IsSearched 100 (page * 100) sent)

collect_snapshot-IsBounded_example :
    (length (collect_snapshot web json server []).1 ≤ 0 + 2104)
    × (length (collect_snapshot web json server []).1 ≡ 5)
unfolding collect_snapshot length get_field
collect_snapshot-IsBounded_example =
    (collect_snapshot-IsBounded web json server threads-IsLimited [], refl)
