-- ===== src/RateLimiter/Admission.antt =====
-- `allow` of infrastructure/rate_limiter.py: whom it admits, and what it remembers.
use reus.Prelude.{
  ℕ, ◌+◌, ◌-◌, ◌≤◌, ◌<◌, ◌≡◌, refl, sym, ap, subst, ◌∙◌, Bool, true, false, String, List, [], ◌∷◌,
  ◌++◌, arith, ltb, leb, length, drop, length-append, Bool-cases, if◌then◌else◌, ◌⊎◌, inl, inr,
}
use reus.Prelude.Dict.{remove}
use reus.RateLimiter.{
  RateLimiter, pop_expired, expire, evict, cleanup, times_of, put_last, decide, bounded_key, allow,
}
use reus.RateLimiter.Bounds.{
  Kept, IsKept, recent, Between-snoc, pop_expired-eq-recent, pop_expired-Kept, expire-AllKept,
  drop-AllKept, remove-AllKept, snoc-AllKept, AllKept-later, times_of-Kept,
}
use reus.RateLimiter.Keys.{
  Unique, times, live_keys, Unique-expire, Unique-drop, times-expire, times-drop, expire-length,
  recent-recent, put-Unique, get-put_last,
}

cleanup-same :
    (now : ℕ) (l : RateLimiter)
    → ((cleanup now l).max_requests ≡ l.max_requests)
      × ((cleanup now l).window_seconds ≡ l.window_seconds)
unfolding cleanup
cleanup-same now l = (ground arith, ground arith)

cleanup-IsKept :
    (before now : ℕ) (l : RateLimiter) → IsKept before l → IsKept before (cleanup now l)
unfolding cleanup evict
cleanup-IsKept before now l k =
    elim (Bool-cases (ltb now (l.last_cleanup + l.cleanup_interval_seconds))) [
      | inl fresh ↦ rw fresh k
      | inr due ↦ rw due (
          drop-AllKept l.max_requests before _ (expire l.window_seconds now l.hits)
            (expire-AllKept l.max_requests l.window_seconds now before l.hits k))
    ]

put_last-IsKept :
    (key : String) (ts : List ℕ) (now : ℕ) (l : RateLimiter)
    → IsKept now l
    → Kept l.max_requests now ts
    → IsKept now (put_last key ts l)
unfolding put_last
put_last-IsKept key ts now l k t =
    snoc-AllKept l.max_requests now key ts (remove key l.hits)
      (remove-AllKept l.max_requests now key l.hits k) t

module _ (k : String) (now : ℕ) (l : RateLimiter) where
  -- What a call with the key `k` answers and leaves when `seen` are the times it counts.
  abbrev pub Answers : List ℕ → RateLimiter × (Bool × ℕ) → Type 0
  Answers seen d =
      (d.1.0 ≡ ltb (length seen) l.max_requests)
      × (times k d.0.hits ≡ (if d.1.0 then seen ++ now ∷ [] else seen))

  -- The cleanup is due, and more keys than the limiter may hold have been used within the window.
  abbrev pub Overfull : Type 0
  Overfull =
      (l.last_cleanup + l.cleanup_interval_seconds ≤ now)
      × (l.max_keys < live_keys l.window_seconds now l.hits)

  -- The times of the key that the window still reaches.
  abbrev pub reach : List ℕ
  reach = recent l.window_seconds now (times k l.hits)

  cleanup-reach :
      (before : ℕ)
      → IsKept before l
      → Unique l.hits
      → Unique (cleanup now l).hits
        × ((recent l.window_seconds now (times k (cleanup now l).hits) ≡ reach)
            ⊎ (Overfull × (recent l.window_seconds now (times k (cleanup now l).hits) ≡ [])))
  unfolding cleanup evict
  cleanup-reach before kept u =
      elim (Bool-cases (ltb now (l.last_cleanup + l.cleanup_interval_seconds))) [
        | inl fresh ↦ rw fresh (u, inl refl)
        | inr due ↦
            (let live = expire l.window_seconds now l.hits in
              let n = length live - l.max_keys in
              let unique = Unique-expire l.window_seconds now l.hits u in
              let held = times_of-Kept l.max_requests before k l.hits kept in
              let same : recent l.window_seconds now (times k live) ≡ reach =
                ap (recent l.window_seconds now) (
                  times-expire k l.window_seconds now l.hits u
                  ∙ pop_expired-eq-recent l.window_seconds now 0 before (times k l.hits) held.1)
                ∙ recent-recent l.window_seconds now (times k l.hits) in
              rw due (
                Unique-drop n live unique,
                elim (times-drop k n live unique) [
                  | inl left ↦ inl (ap (recent l.window_seconds now) left ∙ same)
                  | inr gone ↦
                      elim (Bool-cases (ltb l.max_keys (live_keys l.window_seconds now l.hits))) [
                        | inl over ↦
                            inr
                              ((ground arith, ground arith), ap (recent l.window_seconds now) gone)
                        | inr room ↦
                            (let all =
                                expire-length l.max_requests before l.window_seconds now l.hits
                                  kept in
                              let none_dropped : n ≡ 0 = ground arith in
                              inl (
                                ap (λ i. recent l.window_seconds now (times k (drop i live)))
                                  none_dropped
                                ∙ same))
                      ]
                ],
              ))
      ]

module _ (k : String) (ts : List ℕ) (now : ℕ) (l : RateLimiter) where
  decide-Answers :
      IsKept now l
      → Unique l.hits
      → Kept l.max_requests now ts
      → IsKept now (decide k ts now l).0
        × Unique (decide k ts now l).0.hits
        × Answers k now l ts (decide k ts now l)
  unfolding decide put_last times_of
  decide-Answers kept u t = elim (Bool-cases (leb l.max_requests (length ts))) [
    | inl full ↦
        (let less : ltb (length ts) l.max_requests ≡ false = ground arith in
          rw full (
            put_last-IsKept k ts now l kept t,
            put-Unique k ts l.hits u,
            (sym less, ap times_of (get-put_last k ts l.hits)),
          ))
    | inr room ↦
        (let less : ltb (length ts) l.max_requests ≡ true = ground arith in
          rw room (
            put_last-IsKept k (ts ++ now ∷ []) now l kept
                (ground (arith, length-append ts (now ∷ [])), Between-snoc 0 now ts t.1),
            put-Unique k (ts ++ now ∷ []) l.hits u,
            (sym less, ap times_of (get-put_last k (ts ++ now ∷ []) l.hits)),
          ))
  ]

-- For a limiter that holds each key once, with at most `max_requests` times, ascending and none later
-- than `before`, a call at a time not before that leaves such a limiter, up to the new time. The request
-- is admitted exactly when fewer than `max_requests` of the times held for its key before the call lie
-- in the window, and then exactly these are held for the key, with the new time behind them if it is
-- admitted. There is one exception: when the periodic cleanup is due and more than `max_keys` keys were
-- used within the window, the key may have been evicted, and the call is answered as for a new key.
pub allow-IsKept :
    (digest : String → String) (key : String) (before now : ℕ) (l : RateLimiter)
    → IsKept before l
    → Unique l.hits
    → before ≤ now
    → IsKept now (allow digest key now l).0
      × Unique (allow digest key now l).0.hits
      × (Answers
            (bounded_key digest key)
            now
            l
            (reach (bounded_key digest key) now l)
            (allow digest key now l)
          ⊎ (Overfull (bounded_key digest key) now l
              × Answers (bounded_key digest key) now l [] (allow digest key now l)))
unfolding allow
allow-IsKept digest key before now l kept u le =
    let k = bounded_key digest key in
    let m = cleanup now l in
    let (same_max, same_window) = cleanup-same now l in
    let kept_m : IsKept now m =
      AllKept-later m.max_requests before now m.hits le (cleanup-IsKept before now l kept) in
    let (unique, seen) = cleanup-reach k now l before kept u in
    let held = times_of-Kept m.max_requests now k m.hits kept_m in
    let ts = pop_expired m.window_seconds now (times k m.hits) in
    let counted : ts ≡ recent l.window_seconds now (times k m.hits) =
      pop_expired-eq-recent m.window_seconds now 0 now (times k m.hits) held.1
      ∙ ap (λ w. recent w now (times k m.hits)) same_window in
    let (after, unique_after, given) =
      decide-Answers k ts now m kept_m unique
        (pop_expired-Kept m.max_requests m.window_seconds now 0 now (times k m.hits) held) in
    let answers : Answers k now l ts (decide k ts now m) =
      (given.0 ∙ ap (ltb (length ts)) same_max, given.1) in
    (
      after,
      unique_after,
      elim seen [
        | inl same ↦
            inl (subst (λ s. Answers k now l s (decide k ts now m)) (counted ∙ same) answers)
        | inr (over, gone) ↦
            inr (over, subst (λ s. Answers k now l s (decide k ts now m)) (counted ∙ gone) answers)
      ],
    )
