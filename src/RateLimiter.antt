-- ===== src/RateLimiter.antt =====
-- infrastructure/rate_limiter.py: the sliding window. Times are readings of the monotonic clock, and a
-- comparison with `now - window` is written with the window on the other side.
pub mod Bounds
pub mod Keys
pub mod Admission
mod Tests
use Prim.Native.String.{count}
use reus.Prelude.{
  ℕ, ◌+◌, ◌-◌, Bool, true, false, String, Option, none, some, List, [], ◌∷◌, ◌++◌, ltb, leb,
  if◌then◌else◌, length, drop,
}
use reus.Prelude.Dict.{Dict, get, put, remove}

-- `InMemoryRateLimiter`; a deque of times is a list, oldest first.
pub record RateLimiter : Type 0 where
  pub max_requests : ℕ
  pub window_seconds : ℕ
  pub max_keys : ℕ
  pub cleanup_interval_seconds : ℕ
  pub hits : Dict (List ℕ)
  pub last_cleanup : ℕ

-- `while timestamps and timestamps[0] < cutoff: timestamps.popleft()`
unfoldable pub pop_expired : ℕ → ℕ → List ℕ → List ℕ
pop_expired window now [] = []
pop_expired window now (t ∷ ts) =
    let rest = pop_expired window now ts in if ltb (t + window) now then rest else t ∷ ts

unfoldable pub keep_used : String → List ℕ → Dict (List ℕ) → Dict (List ℕ)
keep_used key [] hits = hits
keep_used key (t ∷ ts) hits = (key, t ∷ ts) ∷ hits

unfoldable pub expire : ℕ → ℕ → Dict (List ℕ) → Dict (List ℕ)
expire window now [] = []
expire window now ((key, ts) ∷ hits) =
    keep_used key (pop_expired window now ts) (expire window now hits)

-- `while len(self._hits) > self._max_keys: self._hits.popitem(last=False)`
unfoldable pub evict : ℕ → Dict (List ℕ) → Dict (List ℕ)
evict max_keys hits = drop (length hits - max_keys) hits

-- `_cleanup_locked`
unfoldable pub cleanup : ℕ → RateLimiter → RateLimiter
cleanup now l = if ltb now (l.last_cleanup + l.cleanup_interval_seconds) then l else record l {
  hits = evict l.max_keys (expire l.window_seconds now l.hits);
  last_cleanup = now;
}

unfoldable pub times_of : Option (List ℕ) → List ℕ
times_of none = []
times_of (some ts) = ts

-- `setdefault`, `move_to_end` and the later changes of the deque
unfoldable pub put_last : String → List ℕ → RateLimiter → RateLimiter
put_last key ts l = record l { hits = remove key l.hits ++ (key, ts) ∷ [] }

unfoldable pub retry_after : ℕ → List ℕ → ℕ → ℕ
retry_after window [] now = 0
retry_after window (t ∷ ts) now = t + window - now

unfoldable pub decide : String → List ℕ → ℕ → RateLimiter → RateLimiter × (Bool × ℕ)
decide key ts now l =
    if leb l.max_requests (length ts)
    then (put_last key ts l, (false, retry_after l.window_seconds ts now))
    else (put_last key (ts ++ now ∷ []) l, (true, 0))

-- `digest` is the SHA-256 of a long key, in hexadecimal.
unfoldable pub bounded_key : (digest : String → String) → String → String
bounded_key digest key = if ltb 256 (count key) then digest key else key

unfoldable pub allow :
    (digest : String → String) → String → (now : ℕ) → RateLimiter → RateLimiter × (Bool × ℕ)
allow digest key now l =
    let k = bounded_key digest key in
    let m = cleanup now l in
    decide k (pop_expired m.window_seconds now (times_of (get k m.hits))) now m
