-- ===== src/Adapters/LangGraph/Bounded.antt =====
-- How many requests the methods of internal/adapters/langgraph/client.go send at most.
use capcom.Prelude.{
  ℕ, zero, suc, ◌+◌, ◌*◌, ◌≤◌, String, ◌<>◌, Bool-cases, ◌≡◌, refl, sym, ◌∙◌, inl, inr, none, map,
  List, [], ◌∷◌, ◌++◌, ltb, arith,
}
use capcom.Prelude.Bytes.{length, length-append}
use capcom.Prelude.Text.Quote.{quote}
use capcom.Errors.{Result, ok, err, Result-cases}
use capcom.Effects.{Effect, ◌>>=◌, done, throw, read, attempt, wrapping, in_context}
use capcom.Domain.Runtime.{Time, RuntimeConnection}
use capcom.Domain.Snapshot.{RuntimeExecutionSnapshot}
use capcom.Adapters.Http.{Web, clock, Requests}
use capcom.Adapters.Sent.{
  IsBounded, do_json-IsBounded, bind-IsBounded, raised-IsBounded, map-IsBounded, read-IsBounded,
  either-IsBounded,
}
use capcom.Adapters.LangGraph.Dto.{Json, Thread}
use capcom.Adapters.LangGraph.Pages.{
  collect, assistants_page, threads_page, runs_page, list_assistants, list_threads, list_runs,
  too_many_assistants, do_json,
}
use capcom.Adapters.LangGraph.Turns.{collect_last, collect_next, collect_failed}
use capcom.Adapters.LangGraph.Client.{tolerated, check_result, agent_snapshot, check, list_agents}
use capcom.Adapters.LangGraph.Snapshot.{snapshot_of, collect_executions, collect_snapshot}

-- A server that never puts more than `limit` items on a page.
abbrev pub IsLimited {ℓ} : {A : Type ℓ} → (ℕ → Effect Requests (List A)) → Type ℓ
IsLimited {A = A} fetch =
    (page : ℕ) (sent : Requests) (items : List A)
    → (fetch page sent).0 ≡ ok items
    → length items ≤ 100

module _ {ℓ} {A : Type ℓ} (fetch : ℕ → Effect Requests (List A))
    (end_of : List A → Effect Requests (List A)) where
  collect-IsBounded :
      (left page : ℕ) (result : List A)
      → ((n : ℕ) → IsBounded 1 (fetch n))
      → ((l : List A) → IsBounded 0 (end_of l))
      → IsBounded left (collect fetch end_of left page result)
  unfolding collect
  collect-IsBounded zero page result bf be sent = be result sent
  collect-IsBounded (suc left) page result bf be sent =
      raised-IsBounded (1 + left) (suc left) (collect fetch end_of (suc left) page result)
        (omega arith)
        (bind-IsBounded 1 left (fetch page) _ (bf page) (λ _ items e.
          either-IsBounded left (ltb (length items) 100) (done (result ++ items))
            (collect fetch end_of left (page + 1) (result ++ items)) (λ s. omega arith)
            (collect-IsBounded left (page + 1) (result ++ items) bf be)))
        sent

  -- On pages that are not longer than they may be there are not more items than the pages have room
  -- for.
  collect-length :
      (left page : ℕ) (result l : List A) (sent : Requests)
      → IsLimited fetch
      → ((l : List A) (s : Requests) → (end_of l s).0 ≡ ok l)
      → (collect fetch end_of left page result sent).0 ≡ ok l
      → length l ≤ length result + 100 * left
  unfolding collect
  collect-length zero page result l sent lim be h = ground (arith, be result sent, h)
  collect-length (suc left) page result l sent lim be h = elim (Result-cases (fetch page sent).0) [
    | inr (x, e) ↦ let f = collect_failed fetch end_of left page result sent x e in cc
    | inl (items, e) ↦ elim (Bool-cases (ltb (length items) 100)) [
      | inl last ↦
          let f = collect_last fetch end_of left page result sent items e last in
          let same : l ≡ result ++ items = cc in
          rw same (omega (arith, lim page sent items e, length-append result items))
      | inr full ↦
          let f = collect_next fetch end_of left page result sent items e full in
          let ih =
            collect-length left (page + 1) (result ++ items) l (fetch page sent).1 lim be
              (sym f ∙ h) in
          omega (arith, ih, lim page sent items e, length-append result items)
    ]
  ]

module _ (web : Web) (json : Json) (conn : RuntimeConnection) where
  assistants-IsBounded : IsBounded 100 (list_assistants web json conn)
  unfolding list_assistants assistants_page
  assistants-IsBounded =
      collect-IsBounded (assistants_page web json conn) (λ _. throw too_many_assistants) 100 0 []
        (λ n. search do_json-IsBounded) (λ l sent. omega arith)

  threads-IsBounded : IsBounded 2 (list_threads web json conn)
  unfolding list_threads threads_page
  threads-IsBounded =
      collect-IsBounded (threads_page web json conn) done 2 0 [] (λ n. search do_json-IsBounded)
        (λ l sent. omega arith)

  runs-IsBounded : (thread_id : String) → IsBounded 10 (list_runs web json conn thread_id)
  unfolding list_runs runs_page
  runs-IsBounded thread_id =
      collect-IsBounded (runs_page web json conn thread_id) done 10 0 []
        (λ n. search do_json-IsBounded) (λ l sent. omega arith)

  threads-length :
      (threads : List Thread) (sent : Requests)
      → IsLimited (threads_page web json conn)
      → (list_threads web json conn sent).0 ≡ ok threads
      → length threads ≤ 200
  unfolding list_threads length
  threads-length threads sent lim h =
      let few =
        collect-length (threads_page web json conn) done 2 0 [] threads sent lim (λ l s. refl) h in
      omega (arith, few)

  -- Each thread that was listed costs at most ten requests.
  executions-IsBounded :
      (t : Time) (threads : List Thread) (l : List RuntimeExecutionSnapshot)
      → IsBounded (10 * length threads) (collect_executions web json conn t threads l)
  unfolding collect_executions length
  executions-IsBounded t [] l sent = omega arith
  executions-IsBounded t (item ∷ threads) l sent =
      let runs : IsBounded 10 (list_runs web json conn item.thread_id) =
        runs-IsBounded item.thread_id in
      raised-IsBounded (10 + 10 * length threads) (10 * suc (length threads))
        (collect_executions web json conn t (item ∷ threads) l) (omega arith)
        (bind-IsBounded 10 (10 * length threads)
          (wrapping ("list runs for thread " <> quote item.thread_id)
            (list_runs web json conn item.thread_id))
          _ runs (λ _ _ _. executions-IsBounded t threads _))
        sent

  check-IsBounded : IsBounded 2 (check web json conn)
  unfolding check
  check-IsBounded =
      bind-IsBounded 1 1 (do_json web conn "GET" "/ok" none json.map) _ (search do_json-IsBounded)
        (λ _ health _.
          bind-IsBounded 1 0 (attempt (do_json web conn "GET" "/info" none json.server_info))
            (λ answer.
              read (λ _. tolerated answer) >>= λ info. done (check_result conn health info))
            (search do_json-IsBounded)
            (λ _ answer _.
              map-IsBounded 0 (read (λ _. tolerated answer)) (check_result conn health)
                (read-IsBounded (λ _. tolerated answer))))

  agents-IsBounded : IsBounded 100 (list_agents web json conn)
  unfolding list_agents
  agents-IsBounded =
      bind-IsBounded 100 0 (list_assistants web json conn)
        (λ items. clock web >>= λ t. done (map (agent_snapshot t) items)) assistants-IsBounded
        (λ _ items _ s. omega arith)

in_context-ok {ℓ} :
    {A : Type ℓ} (t : String) (r : Result A) (a : A) → in_context t r ≡ ok a → r ≡ ok a
in_context-ok t (ok b) a h = h
in_context-ok t (err e) a h = cc

-- However the runtime answers, CollectSnapshot comes to an end after at most 2104 requests, provided
-- that no page of threads is longer than the limit that was asked for: two for the check, a hundred
-- for the assistants, two for the threads and ten for the runs of each of the threads.
pub collect_snapshot-IsBounded :
    (web : Web) (json : Json) (conn : RuntimeConnection)
    → IsLimited (threads_page web json conn)
    → IsBounded 2104 (collect_snapshot web json conn)
unfolding collect_snapshot
collect_snapshot-IsBounded web json conn lim =
    bind-IsBounded 2 2102 (wrapping "check langgraph before snapshot" (check web json conn)) _
      (check-IsBounded web json conn)
      (λ _ checked _.
        bind-IsBounded 100 2002 (wrapping "list langgraph assistants" (list_agents web json conn)) _
          (agents-IsBounded web json conn)
          (λ _ agents _.
            bind-IsBounded 2 2000 (wrapping "list langgraph threads" (list_threads web json conn)) _
              (threads-IsBounded web json conn)
              (λ s threads e.
                let few =
                  threads-length web json conn threads s lim (in_context-ok _ _ threads e) in
                λ sent.
                  map-IsBounded 2000 (collect_executions web json conn (web.now sent) threads [])
                    (snapshot_of conn (web.now sent) checked agents)
                    (raised-IsBounded (10 * length threads) 2000
                      (collect_executions web json conn (web.now sent) threads [])
                      (omega (arith, few))
                      (executions-IsBounded web json conn (web.now sent) threads []))
                    sent)))
