-- ===== src/JoinRequests/Entries.antt =====
-- What the store of join_requests.py holds under an identifier, in memory and in its file.
use reus.Prelude.{
  ◌≡◌, ◌≢◌, refl, sym, ap, subst, ◌∙◌, false, String, Option, none, some, List, [], ◌∷◌, arith,
  str_eq, eq_iff, Bool-cases, ◌⊎◌, inl, inr, Option-cases,
}
use reus.Prelude.Dict.{Dict, get, put, has, values}
use reus.Prelude.Keyed.{Own}
use reus.JoinRequests.{PendingJoinRequest, JoinFile, records_of, is_pending, pending_records}

abbrev pub own_id : PendingJoinRequest → String
own_id r = r.request_id

-- Each request stands under its own identifier, and under `id` only `v` stands.
abbrev pub Entries : String → PendingJoinRequest → Dict PendingJoinRequest → Type 0
Entries id v [] = Unit
Entries id v ((k, r) ∷ d) = (r.request_id ≡ k) × (k ≡ id → r ≡ v) × Entries id v d

abbrev OtherRecord : String → Option PendingJoinRequest → Type 0
OtherRecord id none = Unit
OtherRecord id (some r) = r.request_id ≢ id

abbrev pub OtherRecords : String → List (Option PendingJoinRequest) → Type 0
OtherRecords id [] = Unit
OtherRecords id (o ∷ os) = OtherRecord id o × OtherRecords id os

-- No record of the file is that of `id`.
abbrev pub FileLacks : String → Option JoinFile → Type 0
FileLacks id (some (records_of rs)) = OtherRecords id rs
FileLacks id _ = Unit

has-Entries :
    (id : String) (v : PendingJoinRequest) (d : Dict PendingJoinRequest)
    → Own own_id d
    → has id d ≡ false
    → Entries id v d
unfolding has
has-Entries id v [] o h = tt
has-Entries id v ((k, r) ∷ d) o h = elim (Bool-cases (str_eq k id)) [
  | inl here ↦ absurd (ground arith)
  | inr there ↦
      (o.0, (λ e. absurd (ground (arith, eq_iff k id))), has-Entries id v d o.2 (ground arith))
]

pub Own-Entries :
    (id : String) (v : PendingJoinRequest) (d : Dict PendingJoinRequest)
    → Own own_id d
    → get id d ≡ some v
    → Entries id v d
unfolding get
Own-Entries id v [] o h = tt
Own-Entries id v ((k, r) ∷ d) o h = elim (Bool-cases (str_eq k id)) [
  | inl here ↦ (
    o.0,
    (λ e. ground arith),
    has-Entries id v d o.2 (subst (λ x. has x d ≡ false) (ground (arith, eq_iff k id)) o.1),
  )
  | inr there ↦
      (o.0, (λ e. absurd (ground (arith, eq_iff k id))), Own-Entries id v d o.2 (ground arith))
]

pub Entries-put :
    (id : String) (v : PendingJoinRequest) (k : String) (r : PendingJoinRequest)
    (d : Dict PendingJoinRequest)
    → r.request_id ≡ k
    → (k ≡ id → r ≡ v)
    → Entries id v d
    → Entries id v (put k r d)
unfolding put
Entries-put id v k r [] e h o = (e, h, tt)
Entries-put id v k r ((i, q) ∷ d) e h o = elim (Bool-cases (str_eq i k)) [
  | inl here ↦
      (let same : i ≡ k = ground (arith, eq_iff i k) in
        rw here (e ∙ sym same, (λ f. h (sym same ∙ f)), o.2))
  | inr there ↦ rw there (o.0, o.1, Entries-put id v k r d e h o.2)
]

-- What a lookup finds.
pub get-Entries :
    (id : String) (v : PendingJoinRequest) (k : String) (r : PendingJoinRequest)
    (d : Dict PendingJoinRequest)
    → Entries id v d
    → get k d ≡ some r
    → (r.request_id ≡ k) × (k ≡ id → r ≡ v)
unfolding get
get-Entries id v k r [] o h = absurd (ground arith)
get-Entries id v k r ((i, q) ∷ d) o h = elim (Bool-cases (str_eq i k)) [
  | inl here ↦
      (let same : i ≡ k = ground (arith, eq_iff i k) in
        let found : q ≡ r = ground arith in
        (
          ap (λ (x : PendingJoinRequest). x.request_id) (sym found) ∙ o.0 ∙ same,
          (λ e. sym found ∙ o.1 (same ∙ e)),
        ))
  | inr there ↦ get-Entries id v k r d o.2 (ground arith)
]

pub get-found :
    (id : String) (v : PendingJoinRequest) (d : Dict PendingJoinRequest)
    → Entries id v d
    → (get id d ≡ none) ⊎ (get id d ≡ some v)
get-found id v d o = elim (Option-cases (get id d)) [
  | inl e ↦ inl e
  | inr (r, e) ↦ inr (e ∙ ap some ((get-Entries id v id r d o e).1 refl))
]

pub pending_records-Others :
    (id : String) (v : PendingJoinRequest) (d : Dict PendingJoinRequest)
    → is_pending v.status ≡ false
    → Entries id v d
    → OtherRecords id (pending_records (values d))
unfolding pending_records values
pending_records-Others id v [] p o = tt
pending_records-Others id v ((k, r) ∷ d) p o = elim (Bool-cases (is_pending r.status)) [
  | inr done ↦ rw done (pending_records-Others id v d p o.2)
  | inl waits ↦ rw waits (
    (λ e.
        let same = o.1 (sym o.0 ∙ e) in
        absurd (ground (arith, ap (λ (x : PendingJoinRequest). is_pending x.status) same))),
    pending_records-Others id v d p o.2,
  )
]
