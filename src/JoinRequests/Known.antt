-- ===== src/JoinRequests/Known.antt =====
-- Which operations of join_requests.py keep a request known.
use reus.Prelude.{
  ℕ, ◌≡◌, refl, ◌∙◌, true, String, Option, none, some, List, [], ◌∷◌, All, arith, str_eq,
  Bool-cases, inl, inr,
}
use reus.Prelude.Dict.{Dict, put, has}
use reus.JoinRequests.{
  JoinStatus, approved, rejected, PendingJoinRequest, PendingJoinStore, is_pending, persist,
  audit_event, expire_each, expire_due, create, get_request, list_pending, mark, mark_approved,
  mark_rejected,
}
use reus.JoinRequests.Expiry.{has-expire_each}
use reus.JoinRequests.Runs.{
  Operation, created, looked_up, approving, rejecting, listed, restarted, perform, perform_all,
}

-- The process is not restarted.
abbrev pub NoRestart : Operation → Type 0
NoRestart (restarted now) = ⊥
NoRestart _ = Unit

abbrev pub Known : String → PendingJoinStore → Type 0
Known id s = has id s.requests ≡ true

has-put :
    (id k : String) (r : PendingJoinRequest) (d : Dict PendingJoinRequest)
    → has id d ≡ true
    → has id (put k r d) ≡ true
unfolding has put
has-put id k r [] h = absurd (ground arith)
has-put id k r ((i, q) ∷ d) h = elim (Bool-cases (str_eq i k)) [
  | inl here ↦ rw here h
  | inr there ↦ elim (Bool-cases (str_eq i id)) [
    | inl mine ↦ rw (there, mine) refl
    | inr other ↦ rw (there, other) (has-put id k r d (ground arith))
  ]
]

expire_due-Known :
    (id : String) (now : ℕ) (s : PendingJoinStore) → Known id s → Known id (expire_due now s)
unfolding expire_due persist
expire_due-Known id now s h =
    let same = has-expire_each id now s.max_age_seconds s.requests s.audit in
    elim (Bool-cases ((expire_each now s.max_age_seconds s.requests s.audit).2)) [
      | inl changed ↦ rw changed (same ∙ h)
      | inr left ↦ rw left (same ∙ h)
    ]

mark-Known :
    (id : String) (status : JoinStatus) (event k : String) (now : ℕ) (o : Option PendingJoinRequest)
    (s : PendingJoinStore)
    → Known id s
    → Known id (mark status event k now o s).0
unfolding mark audit_event persist
mark-Known id status event k now none s h = h
mark-Known id status event k now (some r) s h = elim (Bool-cases (is_pending r.status)) [
  | inl waits ↦ rw waits (has-put id k (record r { status = status }) s.requests h)
  | inr done ↦ rw done h
]

pub perform-Known :
    (id : String) (op : Operation) (s : PendingJoinStore)
    → NoRestart op
    → Known id s
    → Known id (perform op s)
unfolding create get_request list_pending mark_approved mark_rejected audit_event persist
perform-Known id (created r now) s f h = has-put id _ _ s.requests h
perform-Known id (looked_up k now) s f h = expire_due-Known id now s h
perform-Known id (approving k now) s f h =
    mark-Known id approved "approved" k now _ (expire_due now s) (expire_due-Known id now s h)
perform-Known id (rejecting k now) s f h =
    mark-Known id rejected "rejected" k now _ (expire_due now s) (expire_due-Known id now s h)
perform-Known id (listed now) s f h = expire_due-Known id now s h
perform-Known id (restarted now) s f h = absurd f

pub perform_all-Known :
    (id : String) (ops : List Operation) (s : PendingJoinStore)
    → All NoRestart ops
    → Known id s
    → Known id (perform_all ops s)
perform_all-Known id [] s f h = h
perform_all-Known id (op ∷ ops) s f h =
    perform_all-Known id ops (perform op s) f.1 (perform-Known id op s f.0 h)
