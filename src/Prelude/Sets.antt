-- ===== src/Prelude/Sets.antt =====
-- `frozenset[str]` and `set[str]`: lists of identifiers, compared by mutual inclusion.
use Prim.Native.String.{String, compare}
use Prim.Native.Nat.{suc, ◌≤◌, Ordering}
use mathlib.Core.Path.{◌≡◌, refl, ◌∙◌}
use mathlib.Core.Logic.{inl, inr}
use mathlib.Core.Bool.{Bool, true, false, not, ◌&&◌, ◌||◌}
use mathlib.Core.List.{List, [], ◌∷◌, ◌++◌}
use native.Mathlib.Omega.{arith}
use text.Mathlib.Text.{◌==◌ as str_eq}
use text.Mathlib.TextEquality.{eq_iff}
use reus.Prelude.Tests.{if◌then◌else◌, Bool-cases}
use reus.Prelude.Lists.{filter_by, count_by, length}

-- `x in s`
unfoldable pub contains : List String → String → Bool
contains [] x = false
contains (y ∷ s) x = str_eq y x || contains s x

-- `frozenset(values)`: each value once.
unfoldable pub set_of : List String → List String
unfolding contains
set_of [] = []
set_of (x ∷ xs) = let rest = set_of xs in if contains xs x then rest else x ∷ rest

-- `s | t`
unfoldable pub union : List String → List String → List String
unfolding set_of
union s t = set_of (s ++ t)

-- `s - t`
unfoldable pub difference : List String → List String → List String
unfolding contains
difference s t = filter_by (λ x. not (contains t x)) s

unfoldable pub is_subset : List String → List String → Bool
unfolding contains
is_subset [] t = true
is_subset (x ∷ s) t = contains t x && is_subset s t

-- `s == t`
unfoldable pub same_set : List String → List String → Bool
unfolding is_subset
same_set s t = is_subset s t && is_subset t s

-- `sorted(s)`, an insertion sort by code points.
str_leb : String → String → Bool
str_leb a b = elim (compare a b) [ Ordering.gt ↦ false | _ ↦ true ]

insert_sorted : String → List String → List String
insert_sorted x [] = x ∷ []
insert_sorted x (y ∷ ys) =
    let rest = insert_sorted x ys in if str_leb x y then x ∷ y ∷ ys else y ∷ rest

unfoldable pub sorted : List String → List String
unfolding insert_sorted str_leb
sorted [] = []
sorted (x ∷ xs) = insert_sorted x (sorted xs)

pub contains-append :
    (s t : List String) (x : String) → contains (s ++ t) x ≡ contains s x || contains t x
unfolding contains
contains-append [] t x = refl
contains-append (y ∷ s) t x = ground (arith, contains-append s t x)

pub contains-set_of : (s : List String) (x : String) → contains (set_of s) x ≡ contains s x
unfolding set_of contains
contains-set_of [] x = refl
contains-set_of (y ∷ s) x = ground (arith, contains-set_of s x, eq_iff y x)

contains-insert_sorted :
    (y : String) (s : List String) (x : String)
    → contains (insert_sorted y s) x ≡ str_eq y x || contains s x
unfolding insert_sorted contains
contains-insert_sorted y [] x = refl
contains-insert_sorted y (z ∷ s) x = ground (arith, contains-insert_sorted y s x)

pub contains-sorted : (s : List String) (x : String) → contains (sorted s) x ≡ contains s x
unfolding sorted contains
contains-sorted [] x = refl
contains-sorted (y ∷ s) x =
    ground (arith, contains-insert_sorted y (sorted s) x, contains-sorted s x)

pub contains-difference :
    (s t : List String) (x : String)
    → contains (difference s t) x ≡ contains s x && not (contains t x)
unfolding difference contains
contains-difference [] t x = refl
contains-difference (y ∷ s) t x = ground (arith, contains-difference s t x, eq_iff y x)

pub contains-union :
    (s t : List String) (x : String) → contains (union s t) x ≡ contains s x || contains t x
unfolding union
contains-union s t x = ground (arith, contains-set_of (s ++ t) x, contains-append s t x)

-- A selection that is not empty has a member.
pub count_by-member :
    (p : String → Bool) (s : List String)
    → 1 ≤ count_by p s
    → (x : String) × (contains s x ≡ true) × (p x ≡ true)
unfolding contains
count_by-member p [] h = absurd (omega arith)
count_by-member p (y ∷ s) h = elim (Bool-cases (p y)) [
  | inl e ↦ (y, ground (arith, eq_iff y y), e)
  | inr e ↦ let (x, m, q) = count_by-member p s (ground arith) in (x, ground arith, q)
]

-- No identifier stands twice.
abbrev pub IsDistinct : List String → Type 0
IsDistinct [] = Unit
IsDistinct (x ∷ s) = (contains s x ≡ false) × IsDistinct s

pub set_of-IsDistinct : (s : List String) → IsDistinct (set_of s)
unfolding set_of
set_of-IsDistinct [] = tt
set_of-IsDistinct (x ∷ s) = elim (Bool-cases (contains s x)) [
  | inl e ↦ rw e (set_of-IsDistinct s)
  | inr e ↦ rw e (contains-set_of s x ∙ e, set_of-IsDistinct s)
]

pub set_of-eq_of_IsDistinct : (s : List String) → IsDistinct s → set_of s ≡ s
unfolding set_of
set_of-eq_of_IsDistinct [] h = refl
set_of-eq_of_IsDistinct (x ∷ s) h = rw (h.0, set_of-eq_of_IsDistinct s h.1)

str_eq_sym : (x y : String) → str_eq x y ≡ str_eq y x
str_eq_sym x y = ground (arith, eq_iff x y, eq_iff y x)

insert_sorted-IsDistinct :
    (x : String) (s : List String)
    → contains s x ≡ false
    → IsDistinct s
    → IsDistinct (insert_sorted x s)
unfolding insert_sorted contains
insert_sorted-IsDistinct x [] h d = (refl, tt)
insert_sorted-IsDistinct x (y ∷ s) h d = elim (Bool-cases (str_leb x y)) [
  | inl e ↦ rw e (h, d)
  | inr e ↦ rw e (
    ground (arith, contains-insert_sorted x s y, str_eq_sym x y),
    insert_sorted-IsDistinct x s (ground arith) d.1,
  )
]

pub sorted-IsDistinct : (s : List String) → IsDistinct s → IsDistinct (sorted s)
unfolding sorted
sorted-IsDistinct [] d = tt
sorted-IsDistinct (x ∷ s) d =
    insert_sorted-IsDistinct x (sorted s) (contains-sorted s x ∙ d.0) (sorted-IsDistinct s d.1)

count_by-insert_sorted :
    (p : String → Bool) (x : String) (s : List String)
    → count_by p (insert_sorted x s) ≡ count_by p (x ∷ s)
unfolding insert_sorted
count_by-insert_sorted p x [] = refl
count_by-insert_sorted p x (y ∷ s) = ground (arith, count_by-insert_sorted p x s)

-- Sorting keeps how many identifiers a test selects.
pub count_by-sorted : (p : String → Bool) (s : List String) → count_by p (sorted s) ≡ count_by p s
unfolding sorted
count_by-sorted p [] = refl
count_by-sorted p (x ∷ s) =
    ground (arith, count_by-insert_sorted p x (sorted s), count_by-sorted p s)

length-insert_sorted : (x : String) (s : List String) → length (insert_sorted x s) ≡ suc (length s)
unfolding insert_sorted
length-insert_sorted x [] = refl
length-insert_sorted x (y ∷ s) = ground (arith, length-insert_sorted x s)

pub length-sorted : (s : List String) → length (sorted s) ≡ length s
unfolding sorted
length-sorted [] = refl
length-sorted (x ∷ s) = omega (arith, length-insert_sorted x (sorted s), length-sorted s)
