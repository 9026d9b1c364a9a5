-- ===== src/Auth/Blocked.antt =====
-- How long the limiter shuts a key out, and what it leaves alone.
use capcom.Prelude.{
  ℕ, suc, ◌+◌, ◌≤◌, ◌<◌, String, true, false, ◌≡◌, ◌≢◌, [], ◌∷◌, ◌==◌, arith, eq_iff, eq_refl,
  if◌then◌else◌,
}
use capcom.Domain.Runtime.{Time}
use capcom.Auth.Limiter.{
  LoginAttempt, no_attempt, Attempts, penalty, capacity, size, find, delete, put, evict,
  failed_again, fail, success, allow,
}

pub find-put :
    (k j : String) (a : LoginAttempt) (l : Attempts)
    → find j (put k a l) ≡ (if k == j then a else find j l)
unfolding find put
find-put k j a [] = ground arith
find-put k j a ((i, b) ∷ l) = ground (arith, eq_iff k j, eq_iff i k, eq_iff i j, find-put k j a l)

pub find-delete :
    (k j : String) (l : Attempts) → find j (delete k l) ≡ (if k == j then no_attempt else find j l)
unfolding find delete
find-delete k j [] = ground arith
find-delete k j ((i, b) ∷ l) = ground (arith, eq_iff k j, eq_iff i k, eq_iff i j, find-delete k j l)

-- A key whose counted failures reach the threshold with this one is refused at every time before
-- five minutes have passed since it, if the map has room.
pub fail-blocks :
    (key : String) (threshold : ℕ) (now t : Time) (l : Attempts)
    → size l < capacity
    → threshold ≤ suc (find key l).failures
    → t < now + penalty
    → (allow key t (fail key threshold now l)).0 ≡ false
unfolding fail allow evict failed_again
fail-blocks key threshold now t l room reached soon =
    ground (arith, find-put key key (failed_again threshold now (find key l)) l, eq_refl key)

-- A key that has logged in is let through at once.
pub success-allows :
    (key : String) (t : Time) (l : Attempts) → (allow key t (success key l)).0 ≡ true
unfolding allow success
success-allows key t l = ground (arith, find-delete key key l, eq_refl key)

-- While the map has room, a failure of one key changes nothing for another.
pub fail-other :
    (key other : String) (threshold : ℕ) (now t : Time) (l : Attempts)
    → size l < capacity
    → key ≢ other
    → (allow other t (fail key threshold now l)).0 ≡ (allow other t l).0
unfolding fail allow evict
fail-other key other threshold now t l room apart =
    ground (arith, find-put key other (failed_again threshold now (find key l)) l, eq_iff key other)
