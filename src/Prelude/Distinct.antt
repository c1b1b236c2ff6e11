-- ===== src/Prelude/Distinct.antt =====
-- Lists of texts without repetition.
use Prim.Native.Nat.{suc, ◌≤◌}
use Prim.Native.String.{String}
use mathlib.Core.Path.{◌≡◌, refl, ◌∙◌}
use mathlib.Core.Logic.{inl, inr}
use mathlib.Core.Bool.{true, false, ◌||◌}
use mathlib.Core.List.{List, [], ◌∷◌, ◌++◌}
use native.Mathlib.Omega.{arith}
use text.Mathlib.Text.{◌==◌ as str_eq}
use text.Mathlib.TextEquality.{eq_iff}
use reus.Prelude.Tests.{if◌then◌else◌, Bool-cases}
use reus.Prelude.Lists.{All, length}
use reus.Prelude.Sets.{contains}

abbrev pub Distinct : List String → Type 0
Distinct [] = Unit
Distinct (x ∷ xs) = (contains xs x ≡ false) × Distinct xs

pub contains-move :
    (x c : String) (q v : List String)
    → contains (q ++ c ∷ v) x ≡ (str_eq c x || contains (q ++ v) x)
unfolding contains
contains-move x c [] v = refl
contains-move x c (y ∷ q) v = ground (arith, contains-move x c q v)

-- An element moves from the front to behind `q`.
pub Distinct-move :
    (c : String) (q v : List String)
    → contains (q ++ v) c ≡ false
    → Distinct (q ++ v)
    → Distinct (q ++ c ∷ v)
unfolding contains
Distinct-move c [] v h d = (h, d)
Distinct-move c (x ∷ q) v h d = (
  contains-move x c q v ∙ ground (arith, d.0, eq_iff x c, eq_iff c x),
  Distinct-move c q v (ground arith) d.1,
)

pub All-move {κ} :
    (P : String → Type κ) (c : String) (q v : List String)
    → P c
    → All P (q ++ v)
    → All P (q ++ c ∷ v)
All-move P c [] v h a = (h, a)
All-move P c (x ∷ q) v h a = (a.0, All-move P c q v h a.1)

pub All-map {κ μ} :
    (P : String → Type κ) (Q : String → Type μ) (xs : List String)
    → ((x : String) → P x → Q x)
    → All P xs
    → All Q xs
All-map P Q [] f a = tt
All-map P Q (x ∷ xs) f a = (f x a.0, All-map P Q xs f a.1)

-- The list without an element.
abbrev without : String → List String → List String
without x [] = []
without x (y ∷ ys) = let rest = without x ys in if str_eq y x then rest else y ∷ rest

without-length : (x : String) (ys : List String) → length (without x ys) ≤ length ys
without-length x [] = omega arith
without-length x (y ∷ ys) = ground (arith, without-length x ys)

without-shorter :
    (x : String) (ys : List String) → contains ys x ≡ true → suc (length (without x ys)) ≤ length ys
unfolding contains
without-shorter x [] h = absurd (ground arith)
without-shorter x (y ∷ ys) h = elim (Bool-cases (str_eq y x)) [
  | inl here ↦ (let rest = without-length x ys in rw here (omega (arith, rest)))
  | inr there ↦ (let rest = without-shorter x ys (ground arith) in rw there (omega (arith, rest)))
]

contains-without :
    (x z : String) (ys : List String)
    → str_eq x z ≡ false
    → contains ys z ≡ true
    → contains (without x ys) z ≡ true
unfolding contains
contains-without x z [] ne h = absurd (ground arith)
contains-without x z (y ∷ ys) ne h = elim (Bool-cases (str_eq y x)) [
  | inl here ↦
      rw here (contains-without x z ys ne (ground (arith, eq_iff y x, eq_iff y z, eq_iff x z)))
  | inr there ↦ elim (Bool-cases (str_eq y z)) [
    | inl found ↦ rw (there, contains, found) refl
    | inr other ↦ rw (there, contains, other) (contains-without x z ys ne (ground arith))
  ]
]

-- Distinct elements of a list are no more than its elements.
pub Distinct-length :
    (xs ks : List String) → Distinct xs → All (λ x. contains ks x ≡ true) xs → length xs ≤ length ks
Distinct-length [] ks d a = omega arith
Distinct-length (x ∷ xs) ks d a =
    let shorter = without-shorter x ks a.0 in
    let rest = Distinct-length xs (without x ks) d.1 (inside xs d.0 a.1) in
    omega (arith, shorter, rest)
  where
    inside :
        (ys : List String)
        → contains ys x ≡ false
        → All (λ y. contains ks y ≡ true) ys
        → All (λ y. contains (without x ks) y ≡ true) ys
    inside [] h b = tt
    inside (y ∷ ys) h b = (
      contains-without x y ks (unfold contains in ground (arith, eq_iff y x, eq_iff x y)) b.0,
      inside ys (unfold contains in ground arith) b.1,
    )

-- As many as there are: all of them.
pub Distinct-all :
    (xs ks : List String)
    → Distinct xs
    → All (λ x. contains ks x ≡ true) xs
    → length xs ≡ length ks
    → (k : String) → contains ks k ≡ true
    → contains xs k ≡ true
Distinct-all xs ks d a len k h = elim (Bool-cases (contains xs k)) [
  | inl there ↦ there
  | inr not_there ↦
      (let more = Distinct-length (k ∷ xs) ks (not_there, d) (h, a) in
        absurd (omega (arith, more, len)))
]
