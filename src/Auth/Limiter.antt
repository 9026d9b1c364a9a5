-- ===== src/Auth/Limiter.antt =====
-- `loginLimiter` of internal/services/auth.go. The map `attempts` is a list of entries, in the
-- order in which a `range` over it happens to go; a missing key has the zero value.
use capcom.Prelude.{
  ℕ, suc, ◌+◌, ◌-◌, String, Bool, true, not, ◌&&◌, ◌||◌, List, [], ◌∷◌, ◌==◌, ltb, leb, nat_eq,
  if◌then◌else◌,
}
use capcom.Domain.Runtime.{Time}

pub record LoginAttempt : Type 0 where
  pub failures : ℕ
  pub blocked_until : Time
  pub updated_at : Time

abbrev pub no_attempt : LoginAttempt
no_attempt = record { failures = 0; blocked_until = 0; updated_at = 0 }

abbrev pub Attempts : Type 0
Attempts = List (String × LoginAttempt)

-- `15*time.Minute` and `5*time.Minute`
abbrev pub window : Time
window = 900000000000

abbrev pub penalty : Time
penalty = 300000000000

abbrev pub capacity : ℕ
capacity = 10000

unfoldable pub size : Attempts → ℕ
size [] = 0
size (_ ∷ l) = suc (size l)

unfoldable pub find : String → Attempts → LoginAttempt
find k [] = no_attempt
find k ((j, a) ∷ l) = let rest = find k l in if j == k then a else rest

unfoldable pub delete : String → Attempts → Attempts
delete k [] = []
delete k ((j, a) ∷ l) = let rest = delete k l in if j == k then rest else (j, a) ∷ rest

-- `l.attempts[key] = a`
unfoldable pub put : String → LoginAttempt → Attempts → Attempts
put k a [] = (k, a) ∷ []
put k a ((j, b) ∷ l) = let rest = put k a l in if j == k then (k, a) ∷ l else (j, b) ∷ rest

-- The loop that looks for the oldest entry, from `oldestKey` and `oldest` on.
unfoldable pub oldest_from : String → Time → Attempts → String
oldest_from key oldest [] = key
oldest_from key oldest ((j, a) ∷ l) =
    let taken = oldest_from j a.updated_at l in
    let kept = oldest_from key oldest l in
    if key == "" || ltb a.updated_at oldest then taken else kept

unfoldable pub evict : Attempts → Attempts
unfolding oldest_from delete size
evict l = if leb capacity (size l) then delete (oldest_from "" 0 l) l else l

unfoldable pub failed_again : ℕ → Time → LoginAttempt → LoginAttempt
failed_again threshold now a = record {
  failures = suc a.failures;
  blocked_until = if leb threshold (suc a.failures) then now + penalty else a.blocked_until;
  updated_at = now;
}

unfoldable pub fail : String → ℕ → Time → Attempts → Attempts
unfolding evict failed_again find put
fail key threshold now l =
    let l' : Attempts = evict l in put key (failed_again threshold now (find key l')) l'

unfoldable pub success : String → Attempts → Attempts
unfolding delete
success key l = delete key l

-- `Allow` also forgets an entry that was last updated a quarter of an hour ago.
unfoldable pub allow : String → Time → Attempts → Bool × Attempts
unfolding find delete
allow key now l =
    let a = find key l in
    if not (nat_eq a.updated_at 0) && leb window (now - a.updated_at)
    then (true, delete key l)
    else (not (ltb now a.blocked_until), l)
