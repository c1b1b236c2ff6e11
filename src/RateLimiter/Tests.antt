-- ===== src/RateLimiter/Tests.antt =====
-- Two requests in ten seconds.
use reus.Prelude.{◌≡◌, refl, true, false, String, [], ◌∷◌, arith, ◌⊎◌}
use reus.Prelude.Dict.{get, remove, has}
use reus.RateLimiter.{
  RateLimiter, pop_expired, keep_used, expire, evict, cleanup, times_of, put_last, retry_after,
  decide, bounded_key, allow,
}
use reus.RateLimiter.Bounds.{IsKept}
use reus.RateLimiter.Keys.{Unique}
use reus.RateLimiter.Admission.{Answers, Overfull, reach, allow-IsKept}

program : Unit {0}
unfolding get remove has pop_expired keep_used expire evict cleanup times_of put_last retry_after
    decide bounded_key allow
program = tt

abbrev limiter : RateLimiter
limiter = record {
  max_requests = 2;
  window_seconds = 10;
  max_keys = 100;
  cleanup_interval_seconds = 60;
  hits = ("k", 1 ∷ 7 ∷ []) ∷ [];
  last_cleanup = 0;
}

abbrev digest : String → String
digest key = "digest"

denied : (allow digest "k" 9 limiter).1 ≡ (false, 2)
unfolding program
denied = refl

admitted : (allow digest "k" 12 limiter).1 ≡ (true, 0)
unfolding program
admitted = refl

limiter-IsKept : IsKept 7 limiter
limiter-IsKept = ((omega arith, (omega arith, (omega arith, omega arith))), tt)

allow-IsKept_example :
    IsKept 12 (allow digest "k" 12 limiter).0
    × Unique (allow digest "k" 12 limiter).0.hits
    × (Answers "k" 12 limiter (reach "k" 12 limiter) (allow digest "k" 12 limiter)
        ⊎ (Overfull "k" 12 limiter × Answers "k" 12 limiter [] (allow digest "k" 12 limiter)))
unfolding program
allow-IsKept_example = allow-IsKept digest "k" 7 12 limiter limiter-IsKept (refl, tt) (omega arith)

-- A limiter of one key at most, whose cleanup is due: the first key is forgotten.
abbrev crowded : RateLimiter
crowded = record limiter { max_keys = 1; hits = ("k", 100 ∷ 100 ∷ []) ∷ ("other", 100 ∷ []) ∷ [] }

forgotten : (allow digest "k" 101 crowded).1 ≡ (true, 0)
unfolding program
forgotten = refl
