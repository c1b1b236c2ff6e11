-- ===== src/JoinRequests/Runs.antt =====
-- Runs of the operations of join_requests.py, with restarts.
use reus.Prelude.{
  ℕ, ◌≡◌, ◌≢◌, refl, ap, false, String, Option, none, some, List, [], ◌∷◌, All, arith, ltb,
  Bool-cases, inl, inr,
}
use reus.Prelude.Dict.{get, put}
use reus.JoinRequests.{
  JoinStatus, pending, approved, rejected, PendingJoinRequest, PendingJoinStore, is_pending,
  audit_event, expire_due, pending_join_store, create, get_request, list_pending, mark,
  mark_approved, mark_rejected,
}
use reus.JoinRequests.Entries.{Entries-put, get-Entries}
use reus.JoinRequests.Expiry.{Stays, persist-Stays, expire_due-Stays, load_from-Stays}

-- What may happen to a store: its operations, and a restart of the process over the files.
pub data Operation : Type 0 where
  created : PendingJoinRequest → (now : ℕ) → Operation
  looked_up approving rejecting : (id : String) (now : ℕ) → Operation
  listed restarted : (now : ℕ) → Operation

abbrev pub restart : ℕ → PendingJoinStore → PendingJoinStore
restart now s = elim (pending_join_store s.file s.audit s.max_age_seconds now) [
  | none ↦ s
  | some t ↦ t
]

abbrev pub perform : Operation → PendingJoinStore → PendingJoinStore
perform (created r now) s = (create r now s).0
perform (looked_up id now) s = (get_request id now s).0
perform (approving id now) s = (mark_approved id now s).0
perform (rejecting id now) s = (mark_rejected id now s).0
perform (listed now) s = (list_pending now s).0
perform (restarted now) s = restart now s

abbrev pub perform_all : List Operation → PendingJoinStore → PendingJoinStore
perform_all [] s = s
perform_all (op ∷ ops) s = perform_all ops (perform op s)

-- The identifiers of new requests, which `uuid4` draws, are not `id`.
abbrev pub Fresh : String → Operation → Type 0
Fresh id (created r now) = r.request_id ≢ id
Fresh id _ = Unit

module _ (id : String) (v : PendingJoinRequest) (p : is_pending v.status ≡ false) where
  mark-Stays :
      (status : JoinStatus) (event k : String) (now : ℕ) (s : PendingJoinStore)
      (o : Option PendingJoinRequest)
      → get k s.requests ≡ o
      → Stays id v s
      → Stays id v (mark status event k now o s).0
  unfolding mark audit_event
  mark-Stays status event k now s none e h = h
  mark-Stays status event k now s (some r) e h = elim (Bool-cases (is_pending r.status)) [
    | inr done ↦ rw done h
    | inl waits ↦ rw waits (
        let (own, same) = get-Entries id v k r s.requests h.0 e in
        persist-Stays id v (record s { requests = put k (record r { status = status }) s.requests })
          p
          (Entries-put id v k (record r { status = status }) s.requests own
            (λ f.
              absurd
                (ground (arith, ap (λ (x : PendingJoinRequest). is_pending x.status) (same f))))
            h.0))
  ]

  restart-Stays : (now : ℕ) (s : PendingJoinStore) → Stays id v s → Stays id v (restart now s)
  unfolding pending_join_store
  restart-Stays now s h = elim (Bool-cases (ltb 0 s.max_age_seconds)) [
    | inl good ↦ rw (good, restart) (load_from-Stays id v now s.file _ p h.1 (tt, h.1))
    | inr bad ↦ rw (bad, restart) h
  ]

  perform-Stays :
      (op : Operation) (s : PendingJoinStore)
      → Fresh id op
      → Stays id v s
      → Stays id v (perform op s)
  unfolding create get_request list_pending mark_approved mark_rejected audit_event
  perform-Stays (created r now) s f h = persist-Stays id v _ p (
      Entries-put id v r.request_id (record r { status = pending; created_at = now }) s.requests
        refl (λ e. absurd (f e)) h.0)
  perform-Stays (looked_up k now) s f h = expire_due-Stays id v now s p h
  perform-Stays (approving k now) s f h =
      mark-Stays approved "approved" k now (expire_due now s) _ refl
        (expire_due-Stays id v now s p h)
  perform-Stays (rejecting k now) s f h =
      mark-Stays rejected "rejected" k now (expire_due now s) _ refl
        (expire_due-Stays id v now s p h)
  perform-Stays (listed now) s f h = expire_due-Stays id v now s p h
  perform-Stays (restarted now) s f h = restart-Stays now s h

  pub perform_all-Stays :
      (ops : List Operation) (s : PendingJoinStore)
      → All (Fresh id) ops
      → Stays id v s
      → Stays id v (perform_all ops s)
  perform_all-Stays [] s f h = h
  perform_all-Stays (op ∷ ops) s f h =
      perform_all-Stays ops (perform op s) f.1 (perform-Stays op s f.0 h)
