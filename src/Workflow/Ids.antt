-- ===== src/Workflow/Ids.antt =====
-- The ids of the tasks of a workflow, and the queue that `_validate_no_cycles` begins with.
use reus.Prelude.{
  suc, ◌≡◌, refl, sym, ap, subst, ◌∙◌, Bool, true, false, String, List, [], ◌∷◌, ◌++◌, All, arith,
  length, filter_by, str_eq, eq_refl, Bool-cases, inl, inr,
}
use mathlib.Core.List.{append-nil}
use reus.Prelude.Sets.{contains}
use reus.Prelude.Dict.{Dict, has, keys}
use reus.Prelude.Keyed.{Own}
use reus.Prelude.Distinct.{Distinct, Distinct-move, All-move}
use reus.Workflow.{TaskNode}
use reus.Workflow.Graph.{reversed}
use reus.Workflow.Kahn.{Known}

abbrev pub own_id : TaskNode → String
own_id t = t.task_id

pub has-keys : (k : String) (d : Dict TaskNode) → contains (keys d) k ≡ has k d
unfolding contains keys has
has-keys k [] = refl
has-keys k ((j, t) ∷ d) = ground (arith, has-keys k d)

pub keys-Distinct : (d : Dict TaskNode) → Own own_id d → Distinct (keys d)
unfolding keys
keys-Distinct [] o = tt
keys-Distinct ((k, t) ∷ d) o = (has-keys k d ∙ o.1, keys-Distinct d o.2)

pub keys-length : (d : Dict TaskNode) → length (keys d) ≡ length d
unfolding keys
keys-length [] = refl
keys-length ((k, t) ∷ d) = ap suc (keys-length d)

module _ (p : String → Bool) where
  contains-filter_by :
      (x : String) (xs : List String) → contains xs x ≡ false → contains (filter_by p xs) x ≡ false
  unfolding contains
  contains-filter_by x [] h = refl
  contains-filter_by x (y ∷ xs) h = ground (arith, contains-filter_by x xs)

  pub filter_by-Distinct : (xs : List String) → Distinct xs → Distinct (filter_by p xs)
  filter_by-Distinct [] d = tt
  filter_by-Distinct (x ∷ xs) d = elim (Bool-cases (p x)) [
    | inl kept ↦ rw kept (contains-filter_by x xs d.0, filter_by-Distinct xs d.1)
    | inr left_out ↦ rw left_out (filter_by-Distinct xs d.1)
  ]

  pub filter_by-chosen : (xs : List String) → All (λ x. p x ≡ true) (filter_by p xs)
  filter_by-chosen [] = tt
  filter_by-chosen (x ∷ xs) = elim (Bool-cases (p x)) [
    | inl kept ↦ rw kept (kept, filter_by-chosen xs)
    | inr left_out ↦ rw left_out (filter_by-chosen xs)
  ]

  pub filter_by-All {κ} :
      (P : String → Type κ) (xs : List String) → All P xs → All P (filter_by p xs)
  filter_by-All P [] a = tt
  filter_by-All P (x ∷ xs) a = elim (Bool-cases (p x)) [
    | inl kept ↦ rw kept (a.0, filter_by-All P xs a.1)
    | inr left_out ↦ rw left_out (filter_by-All P xs a.1)
  ]

All-snoc {κ} :
    (P : String → Type κ) (x : String) (xs : List String) → P x → All P xs → All P (xs ++ x ∷ [])
All-snoc P x xs h a = All-move P x xs [] h (subst (All P) (sym (append-nil xs)) a)

pub All-reversed {κ} : (P : String → Type κ) (xs : List String) → All P xs → All P (reversed xs)
unfolding reversed
All-reversed P [] a = tt
All-reversed P (x ∷ xs) a = All-snoc P x (reversed xs) a.0 (All-reversed P xs a.1)

contains-snoc :
    (z x : String) (xs : List String)
    → contains xs z ≡ false
    → str_eq x z ≡ false
    → contains (xs ++ x ∷ []) z ≡ false
unfolding contains
contains-snoc z x [] h ne = rw ne refl
contains-snoc z x (y ∷ xs) h ne = ground (arith, contains-snoc z x xs)

contains-reversed :
    (z : String) (xs : List String) → contains xs z ≡ false → contains (reversed xs) z ≡ false
unfolding reversed contains
contains-reversed z [] h = refl
contains-reversed z (x ∷ xs) h =
    contains-snoc z x (reversed xs) (contains-reversed z xs (ground arith)) (ground arith)

pub reversed-Distinct : (xs : List String) → Distinct xs → Distinct (reversed xs)
unfolding reversed
reversed-Distinct [] d = tt
reversed-Distinct (x ∷ xs) d =
    let nil = sym (append-nil (reversed xs)) in
    Distinct-move x (reversed xs) []
      (subst (λ l. contains l x ≡ false) nil (contains-reversed x xs d.0))
      (subst Distinct nil (reversed-Distinct xs d.1))

pub Known-keys : (ks : List String) → All (Known [] ks) ks
unfolding contains
Known-keys ks = from ks (λ x h. h)
  where
    from :
        (xs : List String)
        → ((x : String) → contains xs x ≡ true → contains ks x ≡ true)
        → All (Known [] ks) xs
    from [] h = tt
    from (x ∷ xs) h = (h x (rw (eq_refl x) refl), from xs (λ y e. h y (ground arith)))
