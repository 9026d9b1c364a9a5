-- ===== src/Adapters/LangGraph/Turns.antt =====
-- One turn of the loops over pages of internal/adapters/langgraph/client.go.
use capcom.Prelude.{ℕ, suc, ◌+◌, true, false, ◌≡◌, refl, List, ◌++◌, ltb, arith}
use capcom.Prelude.Bytes.{length}
use capcom.Errors.{Error, ok, err}
use capcom.Effects.{Effect}
use capcom.Adapters.Http.{Requests}
use capcom.Adapters.LangGraph.Pages.{collect}

module _ {ℓ} {A : Type ℓ} (fetch : ℕ → Effect Requests (List A))
    (end_of : List A → Effect Requests (List A)) (left page : ℕ) (result : List A)
    (sent : Requests) where
  -- a page that is not full is the last one
  pub collect_last :
      (items : List A)
      → (fetch page sent).0 ≡ ok items
      → ltb (length items) 100 ≡ true
      → (collect fetch end_of (suc left) page result sent).0 ≡ ok (result ++ items)
  unfolding collect
  collect_last items e full = ground (arith, e, full)

  pub collect_next :
      (items : List A)
      → (fetch page sent).0 ≡ ok items
      → ltb (length items) 100 ≡ false
      → (collect fetch end_of (suc left) page result sent).0
        ≡ (collect fetch end_of left (page + 1) (result ++ items) (fetch page sent).1).0
  unfolding collect
  collect_next items e full = ground (arith, e, full)

  pub collect_failed :
      (x : Error)
      → (fetch page sent).0 ≡ err x
      → (collect fetch end_of (suc left) page result sent).0 ≡ err x
  unfolding collect
  collect_failed x e = rw e refl
