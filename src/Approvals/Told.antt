-- ===== src/Approvals/Told.antt =====
-- Runs of the operations of approval_store.py: the audit and the files tell where each approval stands.
use reus.Prelude.{
  ℕ, ◌≡◌, refl, sym, ap, subst, ◌∙◌, Bool, String, Option, none, some, List, [], ◌∷◌, arith,
  Bool-cases, inl, inr,
}
use reus.Prelude.Sets.{contains}
use reus.Prelude.Dict.{Dict, get, put, has, values}
use reus.Prelude.Keyed.{Own, Own-put, get-key}
use reus.Approvals.{
  ApprovalRecord, RecordsFile, missing, invalid, records_of, FileApprovalStore, by_id, load, save,
  audit_lines, audit_each, create, settled, move, transition, sweep, swept, close_all, close,
  is_pending, is_due, expire_due, cancel_unrecoverable_after_restart,
}
use reus.Approvals.Keys.{own_id, by_id_again, Own-sweep}
use reus.Approvals.Audit.{told, standing, later, told-append, told-put, told-sweep}

-- What the file holds.
abbrev Holds : RecordsFile → Dict ApprovalRecord → Type 0
Holds missing d = d ≡ []
Holds invalid d = ⊥
Holds (records_of rs) d = rs ≡ values d

record IsSound (s : FileApprovalStore) : Type 0 where
  keyed : Own own_id s.records
  holds : Holds s.file s.records
  tells : (id : String) → told id s.audit ≡ standing (get id s.records)

-- A restart finds the store as it was.
load-same :
    (f : RecordsFile) (s : FileApprovalStore)
    → s.file ≡ f
    → IsSound s
    → load s.file s.audit ≡ some s
unfolding load
load-same missing s e h = rw e (λ i. some (record {
  records = sym (subst (λ g. Holds g s.records) e h.holds) i;
  file = missing;
  audit = s.audit;
}))
load-same invalid s e h = absurd (subst (λ g. Holds g s.records) e h.holds)
load-same (records_of rs) s e h = rw e (λ i. some (record {
  records =
      (ap (λ l. by_id l []) (subst (λ g. Holds g s.records) e h.holds)
          ∙ by_id_again s.records h.keyed)
        i;
  file = records_of rs;
  audit = s.audit;
}))

saved-IsSound :
    (event : String) (at : ℕ) (rs : List ApprovalRecord) (d : Dict ApprovalRecord)
    (s : FileApprovalStore)
    → Own own_id d
    → ((id : String)
        → later (told id (audit_lines event at rs)) (standing (get id s.records))
          ≡ standing (get id d))
    → IsSound s
    → IsSound (audit_each event at rs (save (record s { records = d })))
unfolding audit_each save
saved-IsSound event at rs d s own tells h = record {
  keyed = own;
  holds = refl;
  tells = λ id.
      told-append id s.audit (audit_lines event at rs)
      ∙ ap (later (told id (audit_lines event at rs))) (h.tells id)
      ∙ tells id;
}

put-IsSound :
    (event : String) (at : ℕ) (r : ApprovalRecord) (s : FileApprovalStore)
    → IsSound s
    → IsSound
        (audit_each event at (r ∷ []) (save (record s { records = put r.approval_id r s.records })))
put-IsSound event at r s h =
    saved-IsSound event at (r ∷ []) (put r.approval_id r s.records) s
      (Own-put own_id r.approval_id r s.records refl h.keyed)
      (λ id. told-put id event at r s.records) h

sweep_none :
    (chosen : ApprovalRecord → Bool) (status reason : String) (d : Dict ApprovalRecord)
    → swept chosen status reason d ≡ []
    → sweep chosen status reason d ≡ d
unfolding sweep swept
sweep_none chosen status reason [] e = refl
sweep_none chosen status reason ((k, r) ∷ d) e = elim (Bool-cases (chosen r)) [
  | inl c ↦ absurd (ground arith)
  | inr c ↦ rw c (ap (λ l. (k, r) ∷ l) (sweep_none chosen status reason d (ground arith)))
]

close-IsSound :
    (chosen : ApprovalRecord → Bool) (status reason : String) (at : ℕ) (s : FileApprovalStore)
    → IsSound s
    → IsSound (close chosen status reason at s).0
unfolding close close_all
close-IsSound chosen status reason at s h = closed (swept chosen status reason s.records) refl
  where
    d : Dict ApprovalRecord
    d = sweep chosen status reason s.records

    closed :
        (rs : List ApprovalRecord)
        → swept chosen status reason s.records ≡ rs
        → IsSound (close_all status at rs (record s { records = d })).0
    closed [] e =
        subst (λ x. IsSound (record s { records = x }))
          (sym (sweep_none chosen status reason s.records e)) h
    closed (r ∷ rs) e =
        saved-IsSound status at (r ∷ rs) d s (Own-sweep chosen status reason s.records h.keyed)
          (λ id.
            ap (λ l. later (told id (audit_lines status at l)) (standing (get id s.records)))
              (sym e)
            ∙ told-sweep chosen status reason status at id s.records h.keyed)
          h

-- What may happen to a store: its operations, and a restart of the process over the files.
pub data Operation : Type 0 where
  created : ApprovalRecord → (at : ℕ) → Operation
  transitioned : (id status reason : String) → (allowed_from : List String) → (at : ℕ) → Operation
  expired : (now at : ℕ) → Operation
  cancelled : (at : ℕ) → Operation
  restarted : Operation

abbrev pub kept : FileApprovalStore → Option FileApprovalStore → FileApprovalStore
kept s none = s
kept s (some t) = t

abbrev pub perform : Operation → FileApprovalStore → FileApprovalStore
perform (created r at) s = kept s (create r at s)
perform (transitioned id status reason allowed_from at) s =
    (transition id status reason allowed_from at s).0
perform (expired now at) s = (expire_due now at s).0
perform (cancelled at) s = (cancel_unrecoverable_after_restart at s).0
perform restarted s = kept s (load s.file s.audit)

abbrev pub perform_all : List Operation → FileApprovalStore → FileApprovalStore
perform_all [] s = s
perform_all (op ∷ ops) s = perform_all ops (perform op s)

abbrev pub new_store : FileApprovalStore
new_store = record { records = []; file = missing; audit = [] }

move-IsSound :
    (id status reason : String) (allowed : List String) (at : ℕ) (o : Option ApprovalRecord)
    (s : FileApprovalStore)
    → get id s.records ≡ o
    → IsSound s
    → IsSound (move id status reason allowed at o s).0
unfolding move settled
move-IsSound id status reason allowed at none s e h = h
move-IsSound id status reason allowed at (some r) s e h =
    elim (Bool-cases (contains allowed r.status)) [
      | inr refused ↦ rw refused h
      | inl free ↦ rw free (
          let m = settled status reason r in
          subst
            (λ k.
              IsSound
                (audit_each status at (m ∷ []) (save (record s { records = put k m s.records }))))
            (get-key own_id id r s.records h.keyed e) (put-IsSound status at m s h))
    ]

perform-IsSound : (op : Operation) (s : FileApprovalStore) → IsSound s → IsSound (perform op s)
unfolding create transition expire_due cancel_unrecoverable_after_restart
perform-IsSound (created r at) s h = elim (Bool-cases (has r.approval_id s.records)) [
  | inl there ↦ rw there h
  | inr new ↦ rw new (put-IsSound "created" at r s h)
]
perform-IsSound (transitioned id status reason allowed at) s h =
    move-IsSound id status reason allowed at _ s refl h
perform-IsSound (expired now at) s h = close-IsSound (is_due now) _ _ at s h
perform-IsSound (cancelled at) s h = close-IsSound is_pending _ _ at s h
perform-IsSound restarted s h = subst IsSound (sym (ap (kept s) (load-same s.file s refl h))) h

run-IsSound :
    (ops : List Operation) (s : FileApprovalStore) → IsSound s → IsSound (perform_all ops s)
run-IsSound [] s h = h
run-IsSound (op ∷ ops) s h = run-IsSound ops (perform op s) (perform-IsSound op s h)

-- After any operations and restarts of a store that began without files, refused operations included,
-- the last line of the audit about each approval gives its status and reason, and there is a line about
-- no other approval; and a restart finds the store as it was left.
pub perform_all-told :
    (ops : List Operation)
    → ((id : String)
        → told id (perform_all ops new_store).audit
          ≡ standing (get id (perform_all ops new_store).records))
      × (load (perform_all ops new_store).file (perform_all ops new_store).audit
          ≡ some (perform_all ops new_store))
unfolding get
perform_all-told ops =
    let h = run-IsSound ops new_store (record { keyed = tt; holds = refl; tells = λ id. refl }) in
    (h.tells, load-same (perform_all ops new_store).file (perform_all ops new_store) refl h)
