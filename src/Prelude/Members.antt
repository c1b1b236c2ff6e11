-- ===== src/Prelude/Members.antt =====
-- Membership in a list, as a sum over its places.
use mathlib.Core.Path.{◌≡◌, refl, ap, subst, ◌∙◌}
use mathlib.Core.Logic.{◌⊎◌, inl, inr}
use mathlib.Core.Bool.{Bool, true}
use mathlib.Core.List.{List, [], ◌∷◌, ◌++◌}
use reus.Prelude.Tests.{Bool-cases}
use reus.Prelude.Lists.{All, filter_by}

module _ {A : Type 0} where
  abbrev pub In : A → List A → Type 0
  In x [] = ⊥
  In x (y ∷ ys) = (y ≡ x) ⊎ In x ys

  pub In-append_left : (x : A) (xs ys : List A) → In x xs → In x (xs ++ ys)
  In-append_left x [] ys h = elim h [ ]
  In-append_left x (y ∷ xs) ys (inl e) = inl e
  In-append_left x (y ∷ xs) ys (inr h) = inr (In-append_left x xs ys h)

  pub In-append_right : (x : A) (xs ys : List A) → In x ys → In x (xs ++ ys)
  In-append_right x [] ys h = h
  In-append_right x (y ∷ xs) ys h = inr (In-append_right x xs ys h)

  pub In-filter_by :
      (p : A → Bool) (x : A) (xs : List A) → In x xs → p x ≡ true → In x (filter_by p xs)
  In-filter_by p x [] h e = elim h [ ]
  In-filter_by p x (y ∷ ys) (inl same) e = rw (ap p same ∙ e) (inl same)
  In-filter_by p x (y ∷ ys) (inr h) e = elim (Bool-cases (p y)) [
    | inl kept ↦ rw kept (inr (In-filter_by p x ys h e))
    | inr left_out ↦ rw left_out (In-filter_by p x ys h e)
  ]

  pub All-In {κ} : (P : A → Type κ) (x : A) (xs : List A) → All P xs → In x xs → P x
  All-In P x [] a h = elim h [ ]
  All-In P x (y ∷ ys) a (inl e) = subst P e a.0
  All-In P x (y ∷ ys) a (inr h) = All-In P x ys a.1 h

  pub All-of {κ} : (P : A → Type κ) (xs : List A) → ((x : A) → In x xs → P x) → All P xs
  All-of P [] h = tt
  All-of P (x ∷ xs) h = (h x (inl refl), All-of P xs (λ y k. h y (inr k)))

  pub All-filter_by {κ} :
      (P : A → Type κ) (p : A → Bool) (xs : List A) → All P xs → All P (filter_by p xs)
  All-filter_by P p [] a = tt
  All-filter_by P p (x ∷ xs) a = elim (Bool-cases (p x)) [
    | inl kept ↦ rw kept (a.0, All-filter_by P p xs a.1)
    | inr left_out ↦ rw left_out (All-filter_by P p xs a.1)
  ]

  pub All-append {κ} : (P : A → Type κ) (xs ys : List A) → All P xs → All P ys → All P (xs ++ ys)
  All-append P [] ys a b = b
  All-append P (x ∷ xs) ys a b = (a.0, All-append P xs ys a.1 b)
