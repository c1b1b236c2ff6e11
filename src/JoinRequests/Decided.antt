-- ===== src/JoinRequests/Decided.antt =====
-- The decisions of join_requests.py: what they answer, and what is then found.
use reus.Prelude.{
  ℕ, ◌+◌, ◌≡◌, refl, sym, ap, subst, ◌∙◌, true, false, String, Option, none, some, List, All, arith,
  ltb, eq_refl, if◌then◌else◌, Bool-cases, ◌⊎◌, inl, inr,
}
use reus.Prelude.Dict.{get, put, get-put, has-eq-get}
use reus.JoinRequests.{
  JoinStatus, approved, rejected, expired, PendingJoinRequest, PendingJoinStore, is_pending,
  persist, audit_event, is_due, expire_each, expire_due, mark, mark_approved, mark_rejected,
}
use reus.JoinRequests.Entries.{own_id, Own-Entries, get-Entries, get-found}
use reus.Prelude.Keyed.{Own, Own-put}
use reus.JoinRequests.Expiry.{
  expire, aged, Own-expire_each, get-expire_each, expire_each_changed, Stays, persist-Stays,
}
use reus.JoinRequests.Runs.{Operation, approving, rejecting, perform_all, Fresh, perform_all-Stays}
use reus.JoinRequests.Known.{NoRestart, Known, perform-Known, perform_all-Known}

expire_due-requests :
    (now : ℕ) (s : PendingJoinStore)
    → (expire_due now s).requests ≡ (expire_each now s.max_age_seconds s.requests s.audit).0
unfolding expire_due persist
expire_due-requests now s =
    elim (Bool-cases ((expire_each now s.max_age_seconds s.requests s.audit).2)) [
      | inl changed ↦ rw changed refl
      | inr same ↦ rw same refl
    ]

-- What a decision on the pending request `r` makes of it.
abbrev pub decided : JoinStatus → (now max_age : ℕ) → PendingJoinRequest → PendingJoinRequest
decided status now max_age r = record r {
  status = if ltb (r.created_at + max_age) now then expired else status;
}

abbrev Decision : Type 0
Decision = PendingJoinStore × Option PendingJoinRequest

-- What a decision answers, and that it stays.
abbrev pub Decides : String → PendingJoinRequest → Decision → Type 0
Decides id v d = (d.1 ≡ some v) × Stays id v d.0

expire_due-get :
    (id : String) (now : ℕ) (s : PendingJoinStore) (r : PendingJoinRequest)
    → Own own_id s.requests
    → get id s.requests ≡ some r
    → Own own_id (expire_due now s).requests
      × (get id (expire_due now s).requests ≡ some (aged now s.max_age_seconds r))
expire_due-get id now s r own e =
    let same = sym (expire_due-requests now s) in
    (
      subst (Own own_id) same (Own-expire_each now s.max_age_seconds s.requests s.audit own),
      ap (get id) (sym same) ∙ get-expire_each id now s.max_age_seconds s.requests s.audit r e,
    )

module _ (status : JoinStatus) (event id : String) (now : ℕ) (s : PendingJoinStore)
    (r : PendingJoinRequest) where
  mark-early :
      is_pending status ≡ false
      → is_pending r.status ≡ true
      → r.request_id ≡ id
      → Own own_id s.requests
      → Decides id (record r { status = status }) (mark status event id now (some r) s)
  unfolding mark audit_event
  mark-early final waits mine own =
      let m : PendingJoinRequest = record r { status = status } in
      let put_own = Own-put own_id id m s.requests mine own in
      rw waits (
        refl,
        persist-Stays id m (record s { requests = put id m s.requests }) final
            (Own-Entries id m (put id m s.requests) put_own
              (get-put id id m s.requests ∙ rw (eq_refl id) refl)),
      )

module _ (status : JoinStatus) (event id : String) (now : ℕ) (s : PendingJoinStore)
    (r : PendingJoinRequest) where
  mark-late :
      is_due now s.max_age_seconds r ≡ true
      → Own own_id s.requests
      → get id s.requests ≡ some r
      → Decides id (expire r) (mark status event id now (some (expire r)) (expire_due now s))
  unfolding mark is_pending expire_due
  mark-late due own e =
      let changed = expire_each_changed id now s.max_age_seconds s.requests s.audit r e due in
      let (requests, audit, c) = expire_each now s.max_age_seconds s.requests s.audit in
      rw changed (
        refl,
        persist-Stays id (expire r) (record s { requests = requests; audit = audit }) refl
            (Own-Entries id (expire r) requests
              (Own-expire_each now s.max_age_seconds s.requests s.audit own)
              (get-expire_each id now s.max_age_seconds s.requests s.audit r e ∙ rw due refl)),
      )

  mark-Decides :
      is_pending status ≡ false
      → is_pending r.status ≡ true
      → Own own_id s.requests
      → get id s.requests ≡ some r
      → Decides id
          (decided status now s.max_age_seconds r)
          (mark status event id now (get id (expire_due now s).requests) (expire_due now s))
  unfolding is_due
  mark-Decides final waits own e =
      let (own', found) = expire_due-get id now s r own e in
      elim (Bool-cases (ltb (r.created_at + s.max_age_seconds) now)) [
        | inl late ↦
            (let due : is_due now s.max_age_seconds r ≡ true = ground arith in
              rw (late, found ∙ ap (λ b. some (if b then expire r else r)) due)
                (mark-late due own e))
        | inr early ↦
            (let in_time : is_due now s.max_age_seconds r ≡ false = ground arith in
              rw (early, found ∙ ap (λ b. some (if b then expire r else r)) in_time)
                (mark-early status event id now (expire_due now s) r final waits
                  (get-Entries id r id r s.requests (Own-Entries id r s.requests own e) e).0 own'))
      ]

-- A decision, and what is found under its identifier after more operations: the request as it was
-- answered, unless the process was restarted among them; then that or nothing.
abbrev pub Stands : String → PendingJoinRequest → List Operation → Decision → Type 0
Stands id v ops d =
    (d.1 ≡ some v)
    × (All NoRestart ops → get id (perform_all ops d.0).requests ≡ some v)
    × ((get id (perform_all ops d.0).requests ≡ none)
        ⊎ (get id (perform_all ops d.0).requests ≡ some v))

-- What is known is found.
get-Known :
    (id : String) (v : PendingJoinRequest) (m : PendingJoinStore)
    → (get id m.requests ≡ none) ⊎ (get id m.requests ≡ some v)
    → Known id m
    → get id m.requests ≡ some v
get-Known id v m (inl gone) k = absurd (ground (arith, has-eq-get id m.requests))
get-Known id v m (inr e) k = e

-- In a store that holds each request once, under its own identifier, `mark_approved` and
-- `mark_rejected` answer for a pending request what was decided, or that it has expired if it is older
-- than the limit. After any operations that draw no request of the same identifier, the store holds
-- the request as it was answered, as long as the process is not restarted. After restarts it holds it
-- so or not at all, since only pending requests are read back: it is never pending again, and a
-- rejected or expired request is never approved.
pub marks-Stands :
    (id : String) (now : ℕ) (s : PendingJoinStore) (r : PendingJoinRequest) (ops : List Operation)
    → Own own_id s.requests
    → get id s.requests ≡ some r
    → is_pending r.status ≡ true
    → All (Fresh id) ops
    → Stands id (decided approved now s.max_age_seconds r) ops (mark_approved id now s)
      × Stands id (decided rejected now s.max_age_seconds r) ops (mark_rejected id now s)
unfolding mark_approved mark_rejected is_pending
marks-Stands id now s r ops own e waits fresh = (
  stands approved _ (mark-Decides approved "approved" id now s r refl waits own e)
      (perform-Known id (approving id now) s tt known) refl,
  stands rejected _ (mark-Decides rejected "rejected" id now s r refl waits own e)
      (perform-Known id (rejecting id now) s tt known) refl,
)
  where
    known : Known id s
    known = has-eq-get id s.requests ∙ rw e refl

    closed :
        (status : JoinStatus)
        → is_pending status ≡ false
        → is_pending (decided status now s.max_age_seconds r).status ≡ false
    closed status final = elim (Bool-cases (ltb (r.created_at + s.max_age_seconds) now)) [
      | inl late ↦ rw late refl
      | inr early ↦ rw early final
    ]

    stands :
        (status : JoinStatus) (d : Decision)
        → Decides id (decided status now s.max_age_seconds r) d
        → Known id d.0
        → is_pending status ≡ false
        → Stands id (decided status now s.max_age_seconds r) ops d
    stands status d (answer, stays) there final =
        let v = decided status now s.max_age_seconds r in
        let found =
          get-found id v (perform_all ops d.0).requests
            (perform_all-Stays id v (closed status final) ops d.0 fresh stays).0 in
        (
          answer,
          (λ up.
              get-Known id v (perform_all ops d.0) found (perform_all-Known id ops d.0 up there)),
          found,
        )
