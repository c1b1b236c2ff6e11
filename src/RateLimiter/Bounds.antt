-- ===== src/RateLimiter/Bounds.antt =====
-- The sliding window of infrastructure/rate_limiter.py admits no more than it should.
use reus.Prelude.{
  ℕ, zero, suc, ◌+◌, ◌≤◌, ◌≡◌, refl, sym, ap, true, false, String, List, [], ◌∷◌, ◌++◌, arith, ltb,
  leb, length, drop, filter_by, Bool-cases, inl, inr, str_eq,
}
use reus.Prelude.Dict.{Dict, get, remove}
use reus.RateLimiter.{RateLimiter, pop_expired, keep_used, expire, times_of}

-- Times that ascend from `lo` to `hi`.
abbrev pub Between : ℕ → ℕ → List ℕ → Type 0
Between lo hi [] = lo ≤ hi
Between lo hi (t ∷ ts) = (lo ≤ t) × Between t hi ts

-- The times of one key: at most so many, ascending, none later than `now`.
abbrev pub Kept : (max_requests now : ℕ) → List ℕ → Type 0
Kept max_requests now ts = (length ts ≤ max_requests) × Between 0 now ts

abbrev pub AllKept : (max_requests now : ℕ) → Dict (List ℕ) → Type 0
AllKept max_requests now [] = Unit
AllKept max_requests now ((key, ts) ∷ hits) =
    Kept max_requests now ts × AllKept max_requests now hits

abbrev pub IsKept : (now : ℕ) → RateLimiter → Type 0
IsKept now l = AllKept l.max_requests now l.hits

-- The times that the window still reaches.
abbrev pub recent : ℕ → ℕ → List ℕ → List ℕ
recent window now ts = filter_by (λ t. leb now (t + window)) ts

Between-weaken : (lo lo' hi : ℕ) (ts : List ℕ) → lo ≤ lo' → Between lo' hi ts → Between lo hi ts
Between-weaken lo lo' hi [] h b = omega arith
Between-weaken lo lo' hi (t ∷ ts) h b = (omega (arith, b.0), b.1)

pub Between-later : (lo hi hi' : ℕ) (ts : List ℕ) → hi ≤ hi' → Between lo hi ts → Between lo hi' ts
Between-later lo hi hi' [] h b = omega arith
Between-later lo hi hi' (t ∷ ts) h b = (b.0, Between-later t hi hi' ts h b.1)

pub Between-snoc : (lo hi : ℕ) (ts : List ℕ) → Between lo hi ts → Between lo hi (ts ++ hi ∷ [])
Between-snoc lo hi [] b = (b, omega arith)
Between-snoc lo hi (t ∷ ts) b = (b.0, Between-snoc t hi ts b.1)

recent-all :
    (window now lo hi : ℕ) (ts : List ℕ)
    → now ≤ lo + window
    → Between lo hi ts
    → recent window now ts ≡ ts
recent-all window now lo hi [] h b = refl
recent-all window now lo hi (t ∷ ts) h b =
    let reached : leb now (t + window) ≡ true = ground (arith, b.0) in
    rw reached (ap (λ l. t ∷ l) (recent-all window now t hi ts (omega (arith, b.0)) b.1))

pub pop_expired-eq-recent :
    (window now lo hi : ℕ) (ts : List ℕ)
    → Between lo hi ts
    → pop_expired window now ts ≡ recent window now ts
unfolding pop_expired
pop_expired-eq-recent window now lo hi [] b = refl
pop_expired-eq-recent window now lo hi (t ∷ ts) b = elim (Bool-cases (ltb (t + window) now)) [
  | inl gone ↦
      let unreached : leb now (t + window) ≡ false = ground arith in
      rw (gone, unreached) (pop_expired-eq-recent window now t hi ts b.1)
  | inr stays ↦
      let reached : leb now (t + window) ≡ true = ground arith in
      rw (stays, reached) (ap (λ l. t ∷ l) (sym (recent-all window now t hi ts (ground arith) b.1)))
]

pub pop_expired-Kept :
    (m window now lo hi : ℕ) (ts : List ℕ)
    → (length ts ≤ m) × Between lo hi ts
    → (length (pop_expired window now ts) ≤ m) × Between lo hi (pop_expired window now ts)
unfolding pop_expired
pop_expired-Kept m window now lo hi [] k = k
pop_expired-Kept m window now lo hi (t ∷ ts) k = elim (Bool-cases (ltb (t + window) now)) [
  | inl gone ↦ rw gone (
      pop_expired-Kept m window now lo hi ts
        (omega (arith, k.0), Between-weaken lo t hi ts k.1.0 k.1.1))
  | inr stays ↦ rw stays k
]

keep_used-AllKept :
    (m now : ℕ) (key : String) (ts : List ℕ) (hits : Dict (List ℕ))
    → Kept m now ts
    → AllKept m now hits
    → AllKept m now (keep_used key ts hits)
unfolding keep_used
keep_used-AllKept m now key [] hits k h = h
keep_used-AllKept m now key (t ∷ ts) hits k h = (k, h)

pub expire-AllKept :
    (m window now hi : ℕ) (hits : Dict (List ℕ))
    → AllKept m hi hits
    → AllKept m hi (expire window now hits)
unfolding expire
expire-AllKept m window now hi [] h = tt
expire-AllKept m window now hi ((key, ts) ∷ hits) h =
    keep_used-AllKept m hi key (pop_expired window now ts) (expire window now hits)
      (pop_expired-Kept m window now 0 hi ts h.0) (expire-AllKept m window now hi hits h.1)

pub drop-AllKept :
    (m now k : ℕ) (hits : Dict (List ℕ)) → AllKept m now hits → AllKept m now (drop k hits)
drop-AllKept m now zero hits h = h
drop-AllKept m now (suc k) [] h = tt
drop-AllKept m now (suc k) ((key, ts) ∷ hits) h = drop-AllKept m now k hits h.1

pub remove-AllKept :
    (m now : ℕ) (k : String) (hits : Dict (List ℕ))
    → AllKept m now hits
    → AllKept m now (remove k hits)
unfolding remove
remove-AllKept m now k [] h = tt
remove-AllKept m now k ((key, ts) ∷ hits) h = elim (Bool-cases (str_eq key k)) [
  | inl here ↦ rw here (remove-AllKept m now k hits h.1)
  | inr other ↦ rw other (h.0, remove-AllKept m now k hits h.1)
]

pub snoc-AllKept :
    (m now : ℕ) (key : String) (ts : List ℕ) (hits : Dict (List ℕ))
    → AllKept m now hits
    → Kept m now ts
    → AllKept m now (hits ++ (key, ts) ∷ [])
snoc-AllKept m now key ts [] h k = (k, tt)
snoc-AllKept m now key ts ((j, us) ∷ hits) h k = (h.0, snoc-AllKept m now key ts hits h.1 k)

pub AllKept-later :
    (m now now' : ℕ) (hits : Dict (List ℕ)) → now ≤ now' → AllKept m now hits → AllKept m now' hits
AllKept-later m now now' [] le h = tt
AllKept-later m now now' ((key, ts) ∷ hits) le h =
    ((h.0.0, Between-later 0 now now' ts le h.0.1), AllKept-later m now now' hits le h.1)

pub times_of-Kept :
    (m now : ℕ) (k : String) (hits : Dict (List ℕ))
    → AllKept m now hits
    → Kept m now (times_of (get k hits))
unfolding times_of get
times_of-Kept m now k [] h = (omega arith, omega arith)
times_of-Kept m now k ((key, ts) ∷ hits) h = elim (Bool-cases (str_eq key k)) [
  | inl here ↦ rw here h.0
  | inr other ↦ rw other (times_of-Kept m now k hits h.1)
]
