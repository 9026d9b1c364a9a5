-- ===== src/Adapters/LangGraph/Listed.antt =====
-- What the loops over pages of internal/adapters/langgraph/client.go return when the runtime serves
-- a list that stays the same.
use capcom.Prelude.{
  ℕ, zero, suc, ◌+◌, ◌*◌, ◌≤◌, ◌<◌, String, ◌<>◌, some, none, false, Bool-cases, ◌≡◌, refl, sym,
  ◌∙◌, ap, inl, inr, List, [], ◌++◌, ltb, if◌then◌else◌, arith,
}
use capcom.Prelude.Bytes.{
  length, take, drop, take-all, length-take, length-take_le, length-drop, drop-drop, take_add,
  take-drop,
}
use mathlib.Core.List.{append_assoc, append-nil}
use capcom.Errors.{Error, Result, ok, err}
use capcom.Effects.{Effect, done, throw}
use capcom.Domain.Runtime.{RuntimeConnection}
use capcom.Adapters.Http.{Web, Requests}
use capcom.Domain.Values.{end, field, num, text}
use capcom.Adapters.LangGraph.Dto.{
  Json, Assistant, Thread, Run, unmarshal_assistant, unmarshal_thread, unmarshal_run,
}
use capcom.Adapters.LangGraph.Pages.{
  do_json, collect, assistants_page, threads_page, runs_page, list_assistants, list_threads,
  list_runs, too_many_assistants,
}
use capcom.Adapters.LangGraph.Turns.{collect_last, collect_next}

-- Page n is the n-th hundred of the items, at any time.
abbrev IsServed {ℓ} : {A : Type ℓ} → (ℕ → Effect Requests (List A)) → List A → Type ℓ
IsServed fetch all =
    (page : ℕ) (sent : Requests) → (fetch page sent).0 ≡ ok (take 100 (drop (page * 100) all))

hundreds : (n : ℕ) → 100 + n * 100 ≡ suc n * 100
hundreds n = omega arith

module _ {ℓ} {A : Type ℓ} (fetch : ℕ → Effect Requests (List A))
    (end_of : List A → Effect Requests (List A)) (all : List A) where
  next_page : (page : ℕ) → drop 100 (drop (page * 100) all) ≡ drop ((page + 1) * 100) all
  next_page page =
      let e : page * 100 + 100 ≡ (page + 1) * 100 = omega arith in
      drop-drop (page * 100) 100 all ∙ ap (λ k. drop k all) e

  -- The pages have room for what is left: it is returned whole.
  collect_whole :
      (left page : ℕ) (result : List A) (sent : Requests)
      → IsServed fetch all
      → length (drop (page * 100) all) < left * 100
      → (collect fetch end_of left page result sent).0 ≡ ok (result ++ drop (page * 100) all)
  collect_whole zero page result sent served few = absurd (omega (arith, few))
  collect_whole (suc left) page result sent served few =
      let d = drop (page * 100) all in
      let e = served page sent in
      elim (Bool-cases (ltb (length (take 100 d)) 100)) [
        | inl last ↦
            let short : length d ≤ 100 = ground (arith, last, length-take 100 d) in
            collect_last fetch end_of left page result sent (take 100 d) e last
            ∙ ap (λ l. ok (result ++ l)) (take-all 100 d short)
        | inr full ↦
            let fits : length (drop ((page + 1) * 100) all) < left * 100 =
              rw (sym (next_page page))
                (ground (arith, few, full, length-drop 100 d, length-take_le 100 d)) in
            let joined : (result ++ take 100 d) ++ drop ((page + 1) * 100) all ≡ result ++ d =
              append_assoc result (take 100 d) (drop ((page + 1) * 100) all)
              ∙ ap (λ l. result ++ l)
                  (ap (λ l. take 100 d ++ l) (sym (next_page page)) ∙ take-drop 100 d) in
            collect_next fetch end_of left page result sent (take 100 d) e full
            ∙ collect_whole left (page + 1) (result ++ take 100 d) (fetch page sent).1 served fits
            ∙ ap (λ l. ok l) joined
      ]

  -- They do not: what the code does after the loop is done with as much as there was room for.
  collect_cut :
      (left page : ℕ) (result : List A) (sent : Requests) (last : List A → Result (List A))
      → IsServed fetch all
      → ((l : List A) (s : Requests) → (end_of l s).0 ≡ last l)
      → left * 100 ≤ length (drop (page * 100) all)
      → (collect fetch end_of left page result sent).0
        ≡ last (result ++ take (left * 100) (drop (page * 100) all))
  unfolding collect take
  collect_cut zero page result sent last served ended many =
      ended result sent ∙ ap last (sym (append-nil result))
  collect_cut (suc left) page result sent last served ended many =
      let d = drop (page * 100) all in
      let e = served page sent in
      let room : 100 ≤ length d = omega (arith, many) in
      let full : ltb (length (take 100 d)) 100 ≡ false =
        ground (arith, room, length-take 100 d room) in
      let more : left * 100 ≤ length (drop ((page + 1) * 100) all) =
        rw (sym (next_page page)) (omega (arith, many, length-drop 100 d)) in
      let rest = take (left * 100) (drop ((page + 1) * 100) all) in
      let joined : (result ++ take 100 d) ++ rest ≡ result ++ take (suc left * 100) d =
        append_assoc result (take 100 d) rest
        ∙ ap (λ l. result ++ l)
            (ap (λ l. take 100 d ++ take (left * 100) l) (sym (next_page page))
              ∙ take_add 100 (left * 100) d
              ∙ ap (λ k. take k d) (hundreds left)) in
      collect_next fetch end_of left page result sent (take 100 d) e full
      ∙ collect_cut left (page + 1) (result ++ take 100 d) (fetch page sent).1 last served ended
          more
      ∙ ap last joined

-- The two ways in which a loop can end that has seen n full pages.
whole_or_none {ℓ} :
    {A : Type ℓ} (fetch : ℕ → Effect Requests (List A)) (all : List A) (e : Error) (sent : Requests)
    → IsServed fetch all
    → (collect fetch (λ _. throw e) 100 0 [] sent).0
      ≡ (if ltb (length all) 10000 then ok all else err e)
unfolding drop
whole_or_none fetch all e sent served = elim (Bool-cases (ltb (length all) 10000)) [
  | inl few ↦
      rw few (collect_whole fetch (λ _. throw e) all 100 0 [] sent served (ground (arith, few)))
  | inr many ↦ rw many (
      collect_cut fetch (λ _. throw e) all 100 0 [] sent (λ _. err e) served (λ _ _. refl)
        (ground (arith, many)))
]

first_pages {ℓ} :
    {A : Type ℓ} (fetch : ℕ → Effect Requests (List A)) (all : List A) (n : ℕ) (sent : Requests)
    → IsServed fetch all
    → (collect fetch done n 0 [] sent).0 ≡ ok (take (n * 100) all)
unfolding drop
first_pages fetch all n sent served = elim (Bool-cases (ltb (length all) (n * 100))) [
  | inl few ↦
      let short : length all ≤ n * 100 = ground (arith, few) in
      collect_whole fetch done all n 0 [] sent served (ground (arith, few))
      ∙ ap (λ l. ok l) (sym (take-all (n * 100) all short))
  | inr many ↦
      collect_cut fetch done all n 0 [] sent (λ l. ok l) served (λ _ _. refl) (ground (arith, many))
]

module _ (web : Web) (json : Json) (conn : RuntimeConnection) where
  -- A search with any limit and offset is answered from one list, at any time.
  abbrev pub IsSearched :
      {A : Type 0} → String → String → String → (String → Result A) → List A → Type 0
  IsSearched path by order item all =
      (limit offset : ℕ) (sent : Requests)
      → (do_json web conn "POST" path
          (some (
            field "limit" (num limit) (
              field "offset" (num offset)
                (field "sort_by" (text by) (field "sort_order" (text order) end)))))
          (json.list item) sent).0
        ≡ ok (take limit (drop offset all))

  -- So are the runs of a thread.
  abbrev pub IsListed : String → List Run → Type 0
  IsListed thread_id all =
      (limit offset : ℕ) (sent : Requests)
      → (do_json web conn "GET"
          ("/threads/"
            <> (web.path_escape thread_id
                <> ("/runs?limit=" <> (web.decimal limit <> ("&offset=" <> web.decimal offset)))))
          none (json.list (unmarshal_run json)) sent).0
        ≡ ok (take limit (drop offset all))

  -- The requests of a runtime that answers a limit and an offset from lists that stay the same, the
  -- assistants sorted by id and the threads with the newest first: ListAgents sees all assistants
  -- where there are less than ten thousand and fails otherwise, and a snapshot has the first two
  -- hundred threads and, of a thread, the first thousand runs.
  pub list_pages-IsServed :
      (thread_id : String) (assistants : List Assistant) (threads : List Thread) (runs : List Run)
      (sent : Requests)
      → IsSearched "/assistants/search" "assistant_id" "asc" (unmarshal_assistant json) assistants
      → IsSearched "/threads/search" "updated_at" "desc" (unmarshal_thread json) threads
      → IsListed thread_id runs
      → ((list_assistants web json conn sent).0
          ≡ (if ltb (length assistants) 10000 then ok assistants else err too_many_assistants))
        × ((list_threads web json conn sent).0 ≡ ok (take 200 threads))
        × ((list_runs web json conn thread_id sent).0 ≡ ok (take 1000 runs))
  unfolding list_assistants list_threads list_runs assistants_page threads_page runs_page
  list_pages-IsServed thread_id assistants threads runs sent a t r = (
    whole_or_none (assistants_page web json conn) assistants too_many_assistants sent
        (λ page s. a 100 (page * 100) s),
    first_pages (threads_page web json conn) threads 2 sent (λ page s. t 100 (page * 100) s),
    first_pages (runs_page web json conn thread_id) runs 10 sent (λ page s. r 100 (page * 100) s),
  )
