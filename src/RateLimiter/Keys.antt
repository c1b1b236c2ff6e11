-- ===== src/RateLimiter/Keys.antt =====
-- The keys of infrastructure/rate_limiter.py: which times the periodic cleanup leaves.
use reus.Prelude.{
  ℕ, zero, suc, ◌+◌, ◌≡◌, refl, ap, subst, ◌∙◌, Bool, true, false, String, none, some, List, [],
  ◌∷◌, ◌++◌, arith, leb, length, drop, str_eq, eq_iff, eq_refl, if◌then◌else◌, Bool-cases, ◌⊎◌, inl,
  inr,
}
use reus.Prelude.Dict.{Dict, get, remove, has}
use reus.RateLimiter.{pop_expired, keep_used, expire, times_of}
use reus.RateLimiter.Bounds.{AllKept, recent, pop_expired-eq-recent}

-- Each key stands once.
abbrev pub Unique : Dict (List ℕ) → Type 0
Unique [] = Unit
Unique ((k, ts) ∷ d) = (has k d ≡ false) × Unique d

has-get : (k : String) (d : Dict (List ℕ)) → has k d ≡ false → get k d ≡ none
unfolding has get
has-get k [] h = refl
has-get k ((j, ts) ∷ d) h = ground (arith, has-get k d)

has-keep_used :
    (k j : String) (ts : List ℕ) (d : Dict (List ℕ))
    → str_eq j k ≡ false
    → has k d ≡ false
    → has k (keep_used j ts d) ≡ false
unfolding has keep_used
has-keep_used k j [] d ne h = h
has-keep_used k j (t ∷ ts) d ne h = rw ne h

has-expire :
    (k : String) (window now : ℕ) (d : Dict (List ℕ))
    → has k d ≡ false
    → has k (expire window now d) ≡ false
unfolding has expire
has-expire k window now [] h = refl
has-expire k window now ((j, ts) ∷ d) h =
    has-keep_used k j (pop_expired window now ts) (expire window now d) (ground arith)
      (has-expire k window now d (ground arith))

pub Unique-expire : (window now : ℕ) (d : Dict (List ℕ)) → Unique d → Unique (expire window now d)
unfolding expire
Unique-expire window now [] u = tt
Unique-expire window now ((j, ts) ∷ d) u =
    used (pop_expired window now ts) (has-expire j window now d u.0)
      (Unique-expire window now d u.1)
  where
    used :
        (us : List ℕ)
        → has j (expire window now d) ≡ false
        → Unique (expire window now d)
        → Unique (keep_used j us (expire window now d))
    used [] h v = (unfold keep_used in v)
    used (t ∷ us) h v = (unfold keep_used in (h, v))

has-drop : (k : String) (n : ℕ) (d : Dict (List ℕ)) → has k d ≡ false → has k (drop n d) ≡ false
unfolding has
has-drop k zero d h = h
has-drop k (suc n) [] h = h
has-drop k (suc n) ((j, ts) ∷ d) h = has-drop k n d (ground arith)

pub Unique-drop : (n : ℕ) (d : Dict (List ℕ)) → Unique d → Unique (drop n d)
Unique-drop zero d u = u
Unique-drop (suc n) [] u = u
Unique-drop (suc n) ((j, ts) ∷ d) u = Unique-drop n d u.1

has-remove : (k j : String) (d : Dict (List ℕ)) → has k d ≡ false → has k (remove j d) ≡ false
unfolding has remove
has-remove k j [] h = refl
has-remove k j ((i, ts) ∷ d) h = ground (arith, has-remove k j d)

has-removed : (k : String) (d : Dict (List ℕ)) → has k (remove k d) ≡ false
unfolding has remove
has-removed k [] = refl
has-removed k ((i, ts) ∷ d) = ground (arith, has-removed k d)

Unique-remove : (k : String) (d : Dict (List ℕ)) → Unique d → Unique (remove k d)
unfolding remove
Unique-remove k [] u = tt
Unique-remove k ((i, ts) ∷ d) u = elim (Bool-cases (str_eq i k)) [
  | inl here ↦ rw here (Unique-remove k d u.1)
  | inr other ↦ rw other (has-remove i k d u.0, Unique-remove k d u.1)
]

has-snoc :
    (k j : String) (ts : List ℕ) (d : Dict (List ℕ))
    → has k d ≡ false
    → str_eq j k ≡ false
    → has k (d ++ (j, ts) ∷ []) ≡ false
unfolding has
has-snoc k j ts [] h ne = ground arith
has-snoc k j ts ((i, us) ∷ d) h ne = ground (arith, has-snoc k j ts d)

pub Unique-snoc :
    (k : String) (ts : List ℕ) (d : Dict (List ℕ))
    → has k d ≡ false
    → Unique d
    → Unique (d ++ (k, ts) ∷ [])
unfolding has
Unique-snoc k ts [] h u = (refl, tt)
Unique-snoc k ts ((i, us) ∷ d) h u = (
  has-snoc i k ts d u.0 (ground (arith, eq_iff i k, eq_iff k i)),
  Unique-snoc k ts d (ground arith) u.1,
)

get-snoc :
    (k : String) (ts : List ℕ) (d : Dict (List ℕ))
    → has k d ≡ false
    → get k (d ++ (k, ts) ∷ []) ≡ some ts
unfolding has get
get-snoc k ts [] h = rw (eq_refl k) refl
get-snoc k ts ((i, us) ∷ d) h = ground (arith, get-snoc k ts d)

-- A key that is put last.
pub put-Unique :
    (k : String) (ts : List ℕ) (d : Dict (List ℕ)) → Unique d → Unique (remove k d ++ (k, ts) ∷ [])
put-Unique k ts d u = Unique-snoc k ts (remove k d) (has-removed k d) (Unique-remove k d u)

pub get-put_last :
    (k : String) (ts : List ℕ) (d : Dict (List ℕ)) → get k (remove k d ++ (k, ts) ∷ []) ≡ some ts
get-put_last k ts d = get-snoc k ts (remove k d) (has-removed k d)

-- The times of one key.
abbrev pub times : String → Dict (List ℕ) → List ℕ
times k d = times_of (get k d)

pub times-expire :
    (k : String) (window now : ℕ) (d : Dict (List ℕ))
    → Unique d
    → times k (expire window now d) ≡ pop_expired window now (times k d)
unfolding get expire times_of
times-expire k window now [] u = (unfold pop_expired in refl)
times-expire k window now ((j, ts) ∷ d) u = elim (Bool-cases (str_eq j k)) [
  | inl here ↦
      (let absent : has k d ≡ false =
          subst (λ i. has i d ≡ false) (ground (arith, eq_iff j k)) u.0 in
        rw here (
          used here (pop_expired window now ts)
            (has-get k (expire window now d) (has-expire k window now d absent))))
  | inr other ↦
      rw other (passed other (pop_expired window now ts) ∙ times-expire k window now d u.1)
]
  where
    used :
        str_eq j k ≡ true
        → (us : List ℕ) → get k (expire window now d) ≡ none
        → times k (keep_used j us (expire window now d)) ≡ us
    used here [] h = (unfold keep_used in ap times_of h)
    used here (t ∷ us) h = (unfold keep_used in rw here refl)

    passed :
        str_eq j k ≡ false
        → (us : List ℕ)
        → times k (keep_used j us (expire window now d)) ≡ times k (expire window now d)
    passed other [] = (unfold keep_used in refl)
    passed other (t ∷ us) = (unfold keep_used in rw other refl)

pub times-drop :
    (k : String) (n : ℕ) (d : Dict (List ℕ))
    → Unique d
    → (times k (drop n d) ≡ times k d) ⊎ (times k (drop n d) ≡ [])
unfolding times_of get
times-drop k zero d u = inl refl
times-drop k (suc n) [] u = inl refl
times-drop k (suc n) ((j, ts) ∷ d) u = elim (Bool-cases (str_eq j k)) [
  | inl here ↦
      (let absent : has k d ≡ false =
          subst (λ i. has i d ≡ false) (ground (arith, eq_iff j k)) u.0 in
        inr (ap times_of (has-get k (drop n d) (has-drop k n d absent))))
  | inr other ↦ rw other (times-drop k n d u.1)
]

-- How many keys have a time that the window still reaches.
abbrev is_nil : List ℕ → Bool
is_nil [] = true
is_nil (t ∷ ts) = false

abbrev pub live_keys : (window now : ℕ) → Dict (List ℕ) → ℕ
live_keys window now [] = 0
live_keys window now ((k, ts) ∷ d) =
    let rest = live_keys window now d in if is_nil (recent window now ts) then rest else suc rest

keep_used-length :
    (k : String) (us : List ℕ) (d : Dict (List ℕ))
    → length (keep_used k us d) ≡ (if is_nil us then length d else suc (length d))
unfolding keep_used
keep_used-length k [] d = refl
keep_used-length k (t ∷ us) d = refl

pub expire-length :
    (m hi window now : ℕ) (d : Dict (List ℕ))
    → AllKept m hi d
    → length (expire window now d) ≡ live_keys window now d
unfolding expire
expire-length m hi window now [] a = refl
expire-length m hi window now ((k, ts) ∷ d) a =
    keep_used-length k (pop_expired window now ts) (expire window now d)
    ∙ ap
        (λ us.
          if is_nil us then length (expire window now d) else suc (length (expire window now d)))
        (pop_expired-eq-recent window now 0 hi ts a.0.1)
    ∙ ap (λ n. if is_nil (recent window now ts) then n else suc n)
        (expire-length m hi window now d a.1)

pub recent-recent :
    (window now : ℕ) (ts : List ℕ) → recent window now (recent window now ts) ≡ recent window now ts
recent-recent window now [] = refl
recent-recent window now (t ∷ ts) = elim (Bool-cases (leb now (t + window))) [
  | inl reached ↦ rw reached (rw reached (ap (λ l. t ∷ l) (recent-recent window now ts)))
  | inr past ↦ rw past (recent-recent window now ts)
]
