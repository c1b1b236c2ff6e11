-- ===== src/Raft/Log.antt =====
-- Logs whose positions count up from the snapshot base, and the helpers of `RaftNode` on them.
use native.Mathlib.Nat.{add-zero}
use reus.Prelude.{
  ℕ, zero, suc, ◌+◌, ◌-◌, ◌≤◌, ◌<◌, ◌≡◌, refl, sym, ap, ◌∙◌, some, List, [], ◌∷◌, ◌++◌, arith, ltb,
  length, get_elem?, take, drop, filter_by, inl, inr, Bool-cases, subst,
}
use reus.RaftStorage.{LogEntry}
use reus.Raft.Node.{last_index, entry_at}

-- Each entry's position is one more than that of the entry before it, or than the base.
abbrev pub IsContiguous : ℕ → List LogEntry → Type 0
IsContiguous base [] = Unit
IsContiguous base (e ∷ es) = (e.index ≡ suc base) × IsContiguous (suc base) es

pub IsContiguous-append :
    (base : ℕ) (xs ys : List LogEntry)
    → IsContiguous base xs
    → IsContiguous (base + length xs) ys
    → IsContiguous base (xs ++ ys)
IsContiguous-append base [] ys hx hy = subst (λ b. IsContiguous b ys) (add-zero base) hy
IsContiguous-append base (x ∷ xs) ys hx hy = (
  hx.0,
  IsContiguous-append (suc base) xs ys hx.1 (subst (λ b. IsContiguous b ys) (omega arith) hy),
)

pub IsContiguous-take :
    (base k : ℕ) (xs : List LogEntry) → IsContiguous base xs → IsContiguous base (take k xs)
IsContiguous-take base zero xs h = tt
IsContiguous-take base (suc k) [] h = tt
IsContiguous-take base (suc k) (x ∷ xs) h = (h.0, IsContiguous-take (suc base) k xs h.1)

pub IsContiguous-drop :
    (base k : ℕ) (xs : List LogEntry)
    → k ≤ length xs
    → IsContiguous base xs
    → IsContiguous (base + k) (drop k xs)
IsContiguous-drop base zero xs le h = subst (λ b. IsContiguous b xs) (sym (add-zero base)) h
IsContiguous-drop base (suc k) [] le h = absurd (omega arith)
IsContiguous-drop base (suc k) (x ∷ xs) le h =
    subst (λ b. IsContiguous b (drop k xs)) (omega arith)
      (IsContiguous-drop (suc base) k xs (omega arith) h.1)

last_index-cons :
    (a b : ℕ) (e : LogEntry) (log : List LogEntry) → last_index a (e ∷ log) ≡ last_index b (e ∷ log)
unfolding last_index
last_index-cons a b e [] = refl
last_index-cons a b e (f ∷ log) = last_index-cons a b f log

last_index-cons_cons :
    (base : ℕ) (e f : LogEntry) (log : List LogEntry)
    → last_index base (e ∷ f ∷ log) ≡ last_index base (f ∷ log)
unfolding last_index
last_index-cons_cons base e f log = refl

pub last_index-eq :
    (base : ℕ) (log : List LogEntry)
    → IsContiguous base log
    → last_index base log ≡ base + length log
unfolding last_index
last_index-eq base [] h = omega arith
last_index-eq base (e ∷ []) h = omega arith
last_index-eq base (e ∷ f ∷ log) h =
    last_index-cons_cons base e f log
    ∙ last_index-cons base (suc base) f log
    ∙ last_index-eq (suc base) (f ∷ log) h.1
    ∙ omega arith

drop-nil : (k : ℕ) → drop {A = LogEntry} k [] ≡ []
drop-nil zero = refl
drop-nil (suc k) = refl

-- Dropping the entries up to a position is dropping that many.
pub filter_by-eq-drop :
    (base i : ℕ) (log : List LogEntry)
    → IsContiguous base log
    → filter_by (λ e. ltb i e.index) log ≡ drop (i - base) log
filter_by-eq-drop base i [] h = sym (drop-nil (i - base))
filter_by-eq-drop base i (e ∷ log) h = elim (Bool-cases (ltb i e.index)) [
  | inl above ↦
      let none_dropped : i - base ≡ 0 = ground arith in
      let tail_kept : i - suc base ≡ 0 = ground arith in
      rw (above, none_dropped)
        (ap (λ l. e ∷ l) (filter_by-eq-drop (suc base) i log h.1 ∙ rw tail_kept))
  | inr under ↦
      let one_dropped : i - base ≡ suc (i - suc base) = ground arith in
      rw (under, one_dropped) (filter_by-eq-drop (suc base) i log h.1)
]

get_elem?-index :
    (base k : ℕ) (log : List LogEntry) (e : LogEntry)
    → IsContiguous base log
    → get_elem? log k ≡ some e
    → e.index ≡ base + k + 1
get_elem?-index base k [] e h eq = cc
get_elem?-index base zero (x ∷ log) e h eq = ground arith
get_elem?-index base (suc k) (x ∷ log) e h eq =
    omega (arith, get_elem?-index (suc base) k log e h.1 eq)

-- The entry found at a position is the entry of that position.
pub entry_at-index :
    (base i : ℕ) (log : List LogEntry) (e : LogEntry)
    → IsContiguous base log
    → entry_at base log i ≡ some e
    → e.index ≡ i
unfolding entry_at
entry_at-index base i log e h eq = ground (arith, get_elem?-index base (i - base - 1) log e h)

pub get_elem?-exists :
    (k : ℕ) (log : List LogEntry) → k < length log → (e : LogEntry) × (get_elem? log k ≡ some e)
get_elem?-exists k [] h = absurd (omega arith)
get_elem?-exists zero (x ∷ log) h = (x, refl)
get_elem?-exists (suc k) (x ∷ log) h = get_elem?-exists k log (omega arith)
