-- ===== src/Approvals/Keys.antt =====
-- The records of approval_store.py by their identifiers.
use reus.Prelude.{
  ◌≡◌, refl, sym, ap, ◌∙◌, Bool, String, [], ◌∷◌, ◌++◌, str_eq, Bool-cases, inl, inr,
}
use mathlib.Core.List.{append_assoc, append-nil}
use reus.Prelude.Dict.{Dict, put, has, values}
use reus.Prelude.Keyed.{Own, Apart, put_last, Apart-snoc, Apart-nil}
use reus.Approvals.{ApprovalRecord, by_id, settled, sweep}

abbrev pub own_id : ApprovalRecord → String
own_id r = r.approval_id

by_id-values :
    (d acc : Dict ApprovalRecord) → Own own_id d → Apart d acc → by_id (values d) acc ≡ acc ++ d
unfolding by_id values
by_id-values [] acc o a = sym (append-nil acc)
by_id-values ((k, r) ∷ d) acc o a =
    ap (λ i. by_id (values d) (put i r acc)) o.0
    ∙ ap (by_id (values d)) (put_last k r acc a.0)
    ∙ by_id-values d (acc ++ (k, r) ∷ []) o.2 (Apart-snoc d k r acc o.1 a.1)
    ∙ append_assoc acc ((k, r) ∷ []) d

-- The records are read back from their array as they were.
pub by_id_again : (d : Dict ApprovalRecord) → Own own_id d → by_id (values d) [] ≡ d
by_id_again d o = by_id-values d [] o (Apart-nil d)

module _ (chosen : ApprovalRecord → Bool) (status reason : String) where
  has-sweep :
      (k : String) (d : Dict ApprovalRecord) → has k (sweep chosen status reason d) ≡ has k d
  unfolding has sweep
  has-sweep k [] = refl
  has-sweep k ((i, r) ∷ d) = elim (Bool-cases (str_eq i k)) [
    | inl here ↦ rw here refl
    | inr there ↦ rw there (has-sweep k d)
  ]

  pub Own-sweep :
      (d : Dict ApprovalRecord) → Own own_id d → Own own_id (sweep chosen status reason d)
  unfolding sweep settled
  Own-sweep [] o = tt
  Own-sweep ((k, r) ∷ d) o = (
    elim (Bool-cases (chosen r)) [ inl c ↦ rw c o.0 | inr c ↦ rw c o.0 ],
    has-sweep k d ∙ o.1,
    Own-sweep d o.2,
  )
