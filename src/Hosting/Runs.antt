-- ===== src/Hosting/Runs.antt =====
-- The purchase gate of hosting_governance.py: runs of its operations keep what is closed.
use reus.Prelude.{
  ℕ, ◌≡◌, refl, sym, ap, subst, ◌∙◌, true, false, String, Option, none, some, List, [], ◌∷◌, All,
  ◌==◌, str_eq, Bool-cases, Option-cases, inl, inr,
}
use reus.Prelude.Dict.{get}
use reus.Hosting.Offers.{HostingOffer, detail_hash}
use reus.Hosting.Purchase.{
  PurchaseAuthorization, StoreFile, HostingPurchaseGate, latest, request, approve, consume,
  is_closed, expire, cancel,
}
use reus.Hosting.Held.{held, IsKeyed, commit-held, commit-IsKeyed}
use reus.Hosting.Effects.{
  approve-Effect, consume-Effect, expire-Effect, cancel-Effect, Effect-closed,
}

-- What may happen to a gate: the operations, with any authorization that a caller presents, and a
-- restart of the process over the store.
pub data Operation : Type 0 where
  requested : (id : String) (o : HostingOffer) (ttl_seconds now : ℕ) → Operation
  approved consumed : (a : PurchaseAuthorization) (o : HostingOffer) (now : ℕ) → Operation
  expired cancelled : (a : PurchaseAuthorization) (now : ℕ) → Operation
  restarted : Operation

abbrev pub restart : HostingPurchaseGate → HostingPurchaseGate
restart g = elim g.store [ none ↦ g | some f ↦ record g { current = [] } ]

restart-same :
    (id : String) (g : HostingPurchaseGate) (f : Option StoreFile)
    → g.store ≡ f
    → IsKeyed g
    → (held id (restart g) ≡ held id g) × IsKeyed (restart g)
unfolding held get
restart-same id g none e k =
    let again : restart g ≡ g =
      (λ i. elim (e i) [ none ↦ g | some f ↦ record g { current = [] } ]) in
    (ap (held id) again, subst IsKeyed (sym again) k)
restart-same id g (some f) e k =
    let again : restart g ≡ record g { current = [] } = rw e refl in
    (
      ap (held id) again ∙ rw (e, held) refl,
      subst IsKeyed (sym again) (record { current = λ k x none_held. cc; file = k.file }),
    )

module _ (digest : HostingOffer → String) (upper : String → String) where
  abbrev pub perform : Operation → HostingPurchaseGate → HostingPurchaseGate
  perform (requested id o ttl now) g = (request digest upper id o ttl now g).0
  perform (approved a o now) g = (approve digest a o now g).0
  perform (consumed a o now) g = (consume digest a o now g).0
  perform (expired a now) g = (expire a now g).0
  perform (cancelled a now) g = (cancel a now g).0
  perform restarted g = restart g

  abbrev pub perform_all : List Operation → HostingPurchaseGate → HostingPurchaseGate
  perform_all [] g = g
  perform_all (op ∷ ops) g = perform_all ops (perform op g)

  -- The identifiers of new requests, which `uuid4` draws, are not `id`.
  abbrev pub Fresh : String → Operation → Type 0
  Fresh id (requested new o ttl now) = str_eq new id ≡ false
  Fresh id _ = Unit

  module _ (id : String) (x : PurchaseAuthorization) (closed : is_closed x ≡ true) where
    abbrev pub Stays : HostingPurchaseGate → Type 0
    Stays g = (held id g ≡ some x) × IsKeyed g

    request-Stays :
        (new : String) (o : HostingOffer) (ttl now : ℕ) (g : HostingPurchaseGate)
        → str_eq new id ≡ false
        → Stays g
        → Stays (request digest upper new o ttl now g).0
    unfolding request
    request-Stays new o ttl now g fresh s = elim (Option-cases (detail_hash digest o)) [
      | inl bad ↦ rw (bad, request) s
      | inr (h, ok) ↦ elim (Bool-cases (ttl == 0)) [
        | inl zero_ttl ↦ rw (ok, zero_ttl, request) s
        | inr positive ↦
            rw (ok, positive, request)
              (commit-held _ _ now id g fresh ∙ s.0, commit-IsKeyed _ _ now g s.1)
      ]
    ]

    perform-Stays :
        (op : Operation) (g : HostingPurchaseGate) → Fresh id op → Stays g → Stays (perform op g)
    unfolding approve consume expire cancel held
    perform-Stays (requested new o ttl now) g fresh s = request-Stays new o ttl now g fresh s
    perform-Stays (approved a o now) g fresh s =
        let (h, k, _) =
          Effect-closed id x closed a g (approve digest a o now g) s.1 s.0
            (approve-Effect digest upper (latest a g) o now g) in
        (h, k)
    perform-Stays (consumed a o now) g fresh s =
        let (h, k, _) =
          Effect-closed id x closed a g (consume digest a o now g) s.1 s.0
            (consume-Effect digest upper (latest a g) o now g) in
        (h, k)
    perform-Stays (expired a now) g fresh s =
        let (h, k, _) =
          Effect-closed id x closed a g (expire a now g) s.1 s.0
            (expire-Effect (latest a g) now g) in
        (h, k)
    perform-Stays (cancelled a now) g fresh s =
        let (h, k, _) =
          Effect-closed id x closed a g (cancel a now g) s.1 s.0
            (cancel-Effect (latest a g) now g) in
        (h, k)
    perform-Stays restarted g fresh s =
        let (h, k) = restart-same id g g.store refl s.1 in (h ∙ s.0, k)

    pub perform_all-Stays :
        (ops : List Operation) (g : HostingPurchaseGate)
        → All (Fresh id) ops
        → Stays g
        → Stays (perform_all ops g)
    perform_all-Stays [] g fresh s = s
    perform_all-Stays (op ∷ ops) g fresh s =
        perform_all-Stays ops (perform op g) fresh.1 (perform-Stays op g fresh.0 s)
