-- ===== src/Prelude/Keyed.antt =====
-- Dicts whose values carry their own key.
use mathlib.Core.Path.{◌≡◌, refl, sym, ap, ◌∙◌}
use mathlib.Core.Logic.{◌≢◌, inl, inr}
use mathlib.Core.Bool.{false}
use mathlib.Core.Option.{some}
use mathlib.Core.List.{[], ◌∷◌, ◌++◌}
use native.Mathlib.Omega.{arith}
use text.Mathlib.Text.{◌==◌ as str_eq}
use text.Mathlib.TextEquality.{eq_iff}
use Prim.Native.String.{String}
use reus.Prelude.Tests.{Bool-cases}
use reus.Prelude.Dict.{Dict, get, put, has}

module _ {V : Type 0} where
  has-put :
      (j k : String) (r : V) (d : Dict V) → has j d ≡ false → k ≢ j → has j (put k r d) ≡ false
  unfolding has put
  has-put j k r [] h ne = ground (arith, eq_iff k j)
  has-put j k r ((i, q) ∷ d) h ne = elim (Bool-cases (str_eq i k)) [
    | inl here ↦ ground (arith, eq_iff i k, eq_iff i j)
    | inr there ↦ ground (arith, has-put j k r d)
  ]

  pub put_last : (k : String) (r : V) (d : Dict V) → has k d ≡ false → put k r d ≡ d ++ (k, r) ∷ []
  unfolding put has
  put_last k r [] h = refl
  put_last k r ((i, q) ∷ d) h = elim (Bool-cases (str_eq i k)) [
    | inl here ↦ absurd (ground arith)
    | inr there ↦ rw there (ap (λ l. (i, q) ∷ l) (put_last k r d (ground arith)))
  ]

  -- No key of the first is one of the second.
  abbrev pub Apart : Dict V → Dict V → Type 0
  Apart [] d = Unit
  Apart ((k, r) ∷ new) d = (has k d ≡ false) × Apart new d

  has-snoc :
      (i k : String) (r : V) (d : Dict V)
      → has i d ≡ false
      → str_eq k i ≡ false
      → has i (d ++ (k, r) ∷ []) ≡ false
  unfolding has
  has-snoc i k r [] h ne = ground arith
  has-snoc i k r ((j, q) ∷ d) h ne = ground (arith, has-snoc i k r d)

  pub Apart-snoc :
      (new : Dict V) (k : String) (r : V) (d : Dict V)
      → has k new ≡ false
      → Apart new d
      → Apart new (d ++ (k, r) ∷ [])
  unfolding has
  Apart-snoc [] k r d h a = tt
  Apart-snoc ((i, q) ∷ new) k r d h a = (
    has-snoc i k r d a.0 (ground (arith, eq_iff i k, eq_iff k i)),
    Apart-snoc new k r d (ground arith) a.1,
  )

  pub Apart-nil : (d : Dict V) → Apart d []
  unfolding has
  Apart-nil [] = tt
  Apart-nil ((k, r) ∷ d) = (refl, Apart-nil d)

module _ {V : Type 0} (key : V → String) where
  -- Each value stands under its own identifier, once.
  abbrev pub Own : Dict V → Type 0
  Own [] = Unit
  Own ((k, r) ∷ d) = (key r ≡ k) × (has k d ≡ false) × Own d

  pub Own-put : (k : String) (r : V) (d : Dict V) → key r ≡ k → Own d → Own (put k r d)
  unfolding put has
  Own-put k r [] e o = (e, refl, tt)
  Own-put k r ((i, q) ∷ d) e o = elim (Bool-cases (str_eq i k)) [
    | inl here ↦ rw here (ground (arith, eq_iff i k), o.1, o.2)
    | inr there ↦
        rw there (o.0, has-put i k r d o.1 (ground (arith, eq_iff i k)), Own-put k r d e o.2)
  ]

  -- What a lookup finds has the key that was looked up.
  pub get-key : (k : String) (r : V) (d : Dict V) → Own d → get k d ≡ some r → key r ≡ k
  unfolding get
  get-key k r [] o h = absurd (ground arith)
  get-key k r ((i, q) ∷ d) o h = elim (Bool-cases (str_eq i k)) [
    | inl here ↦
        (let found : q ≡ r = ground arith in ap key (sym found) ∙ o.0 ∙ ground (arith, eq_iff i k))
    | inr there ↦ get-key k r d o.2 (ground arith)
  ]
