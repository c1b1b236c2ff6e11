-- ===== src/JoinRequests/Expiry.antt =====
-- `_expire_due` and `_load` of join_requests.py: what they leave under an identifier.
use reus.Prelude.{
  ℕ, ◌≡◌, refl, sym, ap, ◌∙◌, Bool, true, false, String, Option, none, some, List, [], ◌∷◌, arith,
  str_eq, if◌then◌else◌, Bool-cases, inl, inr, some-inj,
}
use reus.Prelude.Dict.{Dict, get, has}
use reus.JoinRequests.{
  expired, PendingJoinRequest, JoinFile, missing, invalid, records_of, AuditRecord,
  PendingJoinStore, is_pending, written, persist, audit_event, is_due, expire_each, expire_due,
  load_records, persist_loaded, load_from,
}
use reus.JoinRequests.Entries.{
  own_id, Entries, OtherRecords, FileLacks, Entries-put, pending_records-Others,
}
use reus.Prelude.Keyed.{Own}

abbrev Lines : Type 0
Lines = Option (List AuditRecord)

abbrev pub expire : PendingJoinRequest → PendingJoinRequest
expire r = record r { status = expired }

-- A request as `_expire_due` leaves it.
abbrev pub aged : (now max_age : ℕ) → PendingJoinRequest → PendingJoinRequest
aged now max_age r = if is_due now max_age r then expire r else r

pub has-expire_each :
    (k : String) (now age : ℕ) (d : Dict PendingJoinRequest) (a : Lines)
    → has k (expire_each now age d a).0 ≡ has k d
unfolding has expire_each
has-expire_each k now age [] a = refl
has-expire_each k now age ((i, r) ∷ d) a = elim (Bool-cases (str_eq i k)) [
  | inl here ↦ rw here refl
  | inr there ↦ rw there (has-expire_each k now age d _)
]

aged-id : (now age : ℕ) (r : PendingJoinRequest) → (aged now age r).request_id ≡ r.request_id
aged-id now age r = elim (Bool-cases (is_due now age r)) [
  | inl due ↦ rw due refl
  | inr not_due ↦ rw not_due refl
]

pub Own-expire_each :
    (now age : ℕ) (d : Dict PendingJoinRequest) (a : Lines)
    → Own own_id d
    → Own own_id (expire_each now age d a).0
unfolding expire_each
Own-expire_each now age [] a o = tt
Own-expire_each now age ((k, r) ∷ d) a o =
    (aged-id now age r ∙ o.0, has-expire_each k now age d _ ∙ o.1, Own-expire_each now age d _ o.2)

pub get-expire_each :
    (k : String) (now age : ℕ) (d : Dict PendingJoinRequest) (a : Lines) (r : PendingJoinRequest)
    → get k d ≡ some r
    → get k (expire_each now age d a).0 ≡ some (aged now age r)
unfolding get expire_each
get-expire_each k now age [] a r h = absurd (ground arith)
get-expire_each k now age ((i, q) ∷ d) a r h = elim (Bool-cases (str_eq i k)) [
  | inl here ↦ rw here (ap (λ x. some (aged now age x)) (some-inj (sym (rw (here, get) refl) ∙ h)))
  | inr there ↦ rw there (get-expire_each k now age d _ r (ground arith))
]

-- A decided request never becomes due.
not_due :
    (now age : ℕ) (v : PendingJoinRequest) → is_pending v.status ≡ false → is_due now age v ≡ false
unfolding is_due
not_due now age v p = rw p refl

pub Entries-expire_each :
    (id : String) (v : PendingJoinRequest) (now age : ℕ) (d : Dict PendingJoinRequest) (a : Lines)
    → is_pending v.status ≡ false
    → Entries id v d
    → Entries id v (expire_each now age d a).0
unfolding expire_each
Entries-expire_each id v now age [] a p o = tt
Entries-expire_each id v now age ((k, r) ∷ d) a p o = (
  aged-id now age r ∙ o.0,
  (λ e. ap (aged now age) (o.1 e) ∙ rw (not_due now age v p) refl),
  Entries-expire_each id v now age d _ p o.2,
)

-- A due request is reported as a change.
pub expire_each_changed :
    (k : String) (now age : ℕ) (d : Dict PendingJoinRequest) (a : Lines) (r : PendingJoinRequest)
    → get k d ≡ some r
    → is_due now age r ≡ true
    → (expire_each now age d a).2 ≡ true
unfolding get expire_each
expire_each_changed k now age [] a r h due = absurd (ground arith)
expire_each_changed k now age ((i, q) ∷ d) a r h due = elim (Bool-cases (str_eq i k)) [
  | inl here ↦
      (let same : q ≡ r = some-inj (sym (rw (here, get) refl) ∙ h) in
        rw (ap (is_due now age) same ∙ due) refl)
  | inr there ↦ elim (Bool-cases (is_due now age q)) [
    | inl late ↦ rw late refl
    | inr early ↦ rw early (expire_each_changed k now age d _ r (ground arith) due)
  ]
]

pub FileLacks-written :
    (id : String) (v : PendingJoinRequest) (d : Dict PendingJoinRequest) (f : Option JoinFile)
    → is_pending v.status ≡ false
    → Entries id v d
    → FileLacks id (written d f)
unfolding written
FileLacks-written id v d none p o = tt
FileLacks-written id v d (some f) p o = pending_records-Others id v d p o

-- In memory and in the file, nothing but `v` stands under `id`, and the file has no record of it.
abbrev pub Stays : String → PendingJoinRequest → PendingJoinStore → Type 0
Stays id v s = Entries id v s.requests × FileLacks id s.file

pub persist-Stays :
    (id : String) (v : PendingJoinRequest) (s : PendingJoinStore)
    → is_pending v.status ≡ false
    → Entries id v s.requests
    → Stays id v (persist s)
unfolding persist
persist-Stays id v s p o = (o, FileLacks-written id v s.requests s.file p o)

pub expire_due-Stays :
    (id : String) (v : PendingJoinRequest) (now : ℕ) (s : PendingJoinStore)
    → is_pending v.status ≡ false
    → Stays id v s
    → Stays id v (expire_due now s)
unfolding expire_due
expire_due-Stays id v now s p h =
    let o = Entries-expire_each id v now s.max_age_seconds s.requests s.audit p h.0 in
    elim (Bool-cases ((expire_each now s.max_age_seconds s.requests s.audit).2)) [
      | inl changed ↦ rw changed (persist-Stays id v _ p o)
      | inr same ↦ rw same (o, h.1)
    ]

load_records-Stays :
    (id : String) (v : PendingJoinRequest) (now : ℕ) (rs : List (Option PendingJoinRequest))
    (s : PendingJoinStore)
    → OtherRecords id rs
    → Stays id v s
    → Stays id v (load_records now rs s).0
unfolding load_records audit_event
load_records-Stays id v now [] s o h = h
load_records-Stays id v now (none ∷ rs) s o h = (tt, h.1)
load_records-Stays id v now (some r ∷ rs) s o h =
    elim (Bool-cases (is_due now s.max_age_seconds r)) [
      | inl due ↦ rw due (
          load_records-Stays id v now rs _ o.1 (
            Entries-put id v r.request_id (expire r) s.requests refl (λ e. absurd (o.0 e)) h.0,
            h.1,
          ))
      | inr in_time ↦ elim (Bool-cases (is_pending r.status)) [
        | inl waits ↦
            rw (in_time, waits)
              (load_records-Stays id v now rs _ o.1
                (Entries-put id v r.request_id r s.requests refl (λ e. absurd (o.0 e)) h.0, h.1))
        | inr done ↦ rw (in_time, done) (load_records-Stays id v now rs s o.1 h)
      ]
    ]

pub load_from-Stays :
    (id : String) (v : PendingJoinRequest) (now : ℕ) (f : Option JoinFile) (s : PendingJoinStore)
    → is_pending v.status ≡ false
    → FileLacks id f
    → Stays id v s
    → Stays id v (load_from now f s)
unfolding load_from persist_loaded
load_from-Stays id v now none s p l h = h
load_from-Stays id v now (some missing) s p l h = h
load_from-Stays id v now (some invalid) s p l h = h
load_from-Stays id v now (some (records_of rs)) s p l h =
    loaded (load_records now rs s) (load_records-Stays id v now rs s l h)
  where
    loaded : (q : PendingJoinStore × Bool) → Stays id v q.0 → Stays id v (persist_loaded q)
    loaded (t, true) k = persist-Stays id v t p k.0
    loaded (t, false) k = k
