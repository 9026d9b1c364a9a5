-- ===== src/Auth/Capacity.antt =====
-- The size of the limiter's map.
use capcom.Prelude.{
  ℕ, suc, ◌≤◌, ◌<◌, String, Bool, true, false, false≢true, Bool-cases, ◌||◌, ◌≡◌, refl, ◌⊎◌, inl,
  inr, [], ◌∷◌, ◌==◌, arith, eq_refl,
}
use capcom.Domain.Runtime.{Time}
use capcom.Auth.Limiter.{
  LoginAttempt, Attempts, capacity, size, find, delete, put, oldest_from, evict, failed_again, fail,
}

unfoldable has_key : String → Attempts → Bool
has_key k [] = false
has_key k ((j, _) ∷ l) = j == k || has_key k l

size-put : (k : String) (a : LoginAttempt) (l : Attempts) → size (put k a l) ≤ suc (size l)
unfolding size put
size-put k a [] = ground arith
size-put k a ((j, b) ∷ l) = ground (arith, size-put k a l)

size-put_known :
    (k : String) (a : LoginAttempt) (l : Attempts) → has_key k l ≡ true → size (put k a l) ≡ size l
unfolding size put has_key
size-put_known k a [] h = absurd (false≢true h)
size-put_known k a ((j, b) ∷ l) h = elim (Bool-cases (j == k)) [
  | inl same ↦ ground arith
  | inr other ↦ ground (arith, size-put_known k a l (ground arith))
]

has_key-put : (k : String) (a : LoginAttempt) (l : Attempts) → has_key k (put k a l) ≡ true
unfolding put has_key
has_key-put k a [] = ground (arith, eq_refl k)
has_key-put k a ((j, b) ∷ l) = ground (arith, has_key-put k a l, eq_refl k)

size-delete : (k : String) (l : Attempts) → size (delete k l) ≤ size l
unfolding size delete
size-delete k [] = ground arith
size-delete k ((j, b) ∷ l) = ground (arith, size-delete k l)

size-delete_known :
    (k : String) (l : Attempts) → has_key k l ≡ true → suc (size (delete k l)) ≤ size l
unfolding size delete has_key
size-delete_known k [] h = absurd (false≢true h)
size-delete_known k ((j, b) ∷ l) h = elim (Bool-cases (j == k)) [
  | inl same ↦ ground (arith, size-delete k l)
  | inr other ↦ ground (arith, size-delete_known k l (ground arith))
]

oldest_from-has_key :
    (key : String) (oldest : Time) (l : Attempts)
    → (oldest_from key oldest l ≡ key) ⊎ (has_key (oldest_from key oldest l) l ≡ true)
unfolding oldest_from has_key
oldest_from-has_key key oldest [] = inl refl
oldest_from-has_key key oldest ((j, a) ∷ l) =
    ground
      (arith, oldest_from-has_key j a.updated_at l, oldest_from-has_key key oldest l, eq_refl j)

oldest_known :
    (j : String) (a : LoginAttempt) (l : Attempts)
    → has_key (oldest_from "" 0 ((j, a) ∷ l)) ((j, a) ∷ l) ≡ true
unfolding oldest_from has_key
oldest_known j a l = ground (arith, oldest_from-has_key j a.updated_at l, eq_refl j)

-- Room is made where there is none.
size-evict : (l : Attempts) → size l ≤ capacity → size (evict l) < capacity
unfolding evict
size-evict [] h = ground arith
size-evict ((j, a) ∷ l) h =
    ground
      (arith, size-delete_known (oldest_from "" 0 ((j, a) ∷ l)) ((j, a) ∷ l) (oldest_known j a l))

-- A failure leaves at most ten thousand entries in a map that has no more than that.
pub size-fail :
    (key : String) (threshold : ℕ) (now : Time) (l : Attempts)
    → size l ≤ capacity
    → size (fail key threshold now l) ≤ capacity
unfolding fail
size-fail key threshold now l h = ground (
  arith,
  size-evict l h,
  size-put key (failed_again threshold now (find key (evict l))) (evict l),
)
