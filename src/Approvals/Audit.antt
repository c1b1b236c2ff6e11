-- ===== src/Approvals/Audit.antt =====
-- What the audit of approval_store.py tells of an approval.
use reus.Prelude.{
  ℕ, ◌≡◌, refl, sym, ap, subst, ◌∙◌, Bool, true, false, String, Option, none, some, List, [], ◌∷◌,
  ◌++◌, arith, str_eq, eq_iff, if◌then◌else◌, Bool-cases, inl, inr,
}
use reus.Prelude.Dict.{Dict, get, put, has, get-put}
use reus.Prelude.Keyed.{Own}
use reus.Approvals.{ApprovalRecord, AuditEvent, audit_line, audit_lines, settled, sweep, swept}
use reus.Approvals.Keys.{own_id}

abbrev pub Standing : Type 0
Standing = Option (String × String)

abbrev pub later : Standing → Standing → Standing
later (some x) before = some x
later none before = before

-- The status and the reason of the last line about an approval.
abbrev pub told : String → List AuditEvent → Standing
told id [] = none
told id (l ∷ ls) =
    later (told id ls) (if str_eq l.approval_id id then some (l.status, l.reason) else none)

abbrev pub standing : Option ApprovalRecord → Standing
standing none = none
standing (some r) = some (r.status, r.final_reason)

later_assoc : (x y z : Standing) → later (later x y) z ≡ later x (later y z)
later_assoc (some x) y z = refl
later_assoc none y z = refl

later-none : (x : Standing) → later x none ≡ x
later-none (some x) = refl
later-none none = refl

pub told-append :
    (id : String) (xs ys : List AuditEvent) → told id (xs ++ ys) ≡ later (told id ys) (told id xs)
told-append id [] ys = sym (later-none (told id ys))
told-append id (x ∷ xs) ys =
    let last : Standing = (if str_eq x.approval_id id then some (x.status, x.reason) else none) in
    ap (λ t. later t last) (told-append id xs ys) ∙ later_assoc (told id ys) (told id xs) last

-- One line about a record that was just put under its identifier.
pub told-put :
    (id event : String) (at : ℕ) (r : ApprovalRecord) (d : Dict ApprovalRecord)
    → later (told id (audit_lines event at (r ∷ []))) (standing (get id d))
      ≡ standing (get id (put r.approval_id r d))
unfolding audit_lines audit_line
told-put id event at r d = sym (
    ap standing (get-put r.approval_id id r d) ∙ elim (Bool-cases (str_eq r.approval_id id)) [
      | inl here ↦ rw here refl
      | inr there ↦ rw there refl
    ])

module _ (chosen : ApprovalRecord → Bool) (status reason event : String) (at : ℕ) where
  told-swept_other :
      (id : String) (d : Dict ApprovalRecord)
      → Own own_id d
      → has id d ≡ false
      → told id (audit_lines event at (swept chosen status reason d)) ≡ none
  unfolding has audit_lines audit_line swept settled
  told-swept_other id [] o h = refl
  told-swept_other id ((k, r) ∷ d) o h = elim (Bool-cases (str_eq k id)) [
    | inl here ↦ absurd (ground arith)
    | inr there ↦
        (let rest = told-swept_other id d o.2 (ground arith) in
          let other : str_eq r.approval_id id ≡ false = ap (λ i. str_eq i id) o.0 ∙ there in
          elim (Bool-cases (chosen r)) [
            | inl c ↦ rw (c, other, rest) refl
            | inr c ↦ rw (c, rest) refl
          ])
  ]

  -- The lines about the records that a loop changed tell what it made of them.
  pub told-sweep :
      (id : String) (d : Dict ApprovalRecord)
      → Own own_id d
      → later (told id (audit_lines event at (swept chosen status reason d))) (standing (get id d))
        ≡ standing (get id (sweep chosen status reason d))
  unfolding get audit_lines audit_line sweep swept settled
  told-sweep id [] o = refl
  told-sweep id ((k, r) ∷ d) o = elim (Bool-cases (str_eq k id)) [
    | inl here ↦
        (let rest =
            told-swept_other id d o.2
              (subst (λ i. has i d ≡ false) (ground (arith, eq_iff k id)) o.1) in
          let mine : str_eq r.approval_id id ≡ true = ap (λ i. str_eq i id) o.0 ∙ here in
          elim (Bool-cases (chosen r)) [
            | inl c ↦ rw (c, here, mine, rest) refl
            | inr c ↦ rw (c, here, rest) refl
          ])
    | inr there ↦
        (let other : str_eq r.approval_id id ≡ false = ap (λ i. str_eq i id) o.0 ∙ there in
          elim (Bool-cases (chosen r)) [
            | inl c ↦
                rw (c, there, other)
                  (ap (λ t. later t (standing (get id d)))
                      (later-none (told id (audit_lines event at (swept chosen status reason d))))
                    ∙ told-sweep id d o.2)
            | inr c ↦ rw (c, there) (told-sweep id d o.2)
          ])
  ]
