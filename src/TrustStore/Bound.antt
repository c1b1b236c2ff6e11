-- ===== src/TrustStore/Bound.antt =====
-- Transport identities and certificates of the peers of trust_store.py.
use reus.Prelude.{
  ℕ, ◌≡◌, refl, sym, ap, subst, ◌∙◌, Bool, true, false, not, ◌↔◌, String, Option, none, some, [],
  ◌∷◌, arith, str_eq, eq_iff, eq_refl, if◌then◌else◌, Bool-cases, Option-cases, inl, inr, some-inj,
}
use reus.Prelude.Dict.{Dict, get, put, has, get-put, has-eq-get}
use reus.TrustStore.{
  Peer, is_found, is_taken, has_other_certificate, add_peer, get_peer_by_transport_id,
}

-- Each peer has a transport identity, that of its certificate.
abbrev pub Bound : (cn : String → String) → Dict Peer → Type 0
Bound cn [] = Unit
Bound cn ((k, p) ∷ peers) = (p.transport_node_id ≡ some (cn p.cert_pem)) × Bound cn peers

abbrev pub certificate : Option Peer → Option String
certificate none = none
certificate (some p) = some p.cert_pem

-- What it means that `p` was added under `id`.
pub record Binds (cn : String → String) (id : String) (p : Peer) (peers peers' : Dict Peer)
    (is_new : Bool) : Type 0 where
  bound : Bound cn peers'
  pub stored : get id peers' ≡ some p
  found : get_peer_by_transport_id cn (cn p.cert_pem) peers' ≡ some p
  kept :
      (k : String) (q : Peer) → get k peers ≡ some q → certificate (get k peers') ≡ some q.cert_pem
  new : (is_new ≡ true) ↔ (get id peers ≡ none)

module _ (cn : String → String) (id : String) (p : Peer)
    (of_cert : p.transport_node_id ≡ some (cn p.cert_pem)) where
  Bound-put : (peers : Dict Peer) → Bound cn peers → Bound cn (put id p peers)
  unfolding put
  Bound-put [] b = (of_cert, tt)
  Bound-put ((k, q) ∷ peers) b = elim (Bool-cases (str_eq k id)) [
    | inl here ↦ rw here (of_cert, b.1)
    | inr there ↦ rw there (b.0, Bound-put peers b.1)
  ]

  found_first :
      (k : String) (peers : Dict Peer)
      → get_peer_by_transport_id cn (cn p.cert_pem) ((k, p) ∷ peers) ≡ some p
  unfolding get_peer_by_transport_id
  found_first k peers =
      let rest = get_peer_by_transport_id cn (cn p.cert_pem) peers in
      ap
        (λ (o : Option String). elim o [
          | none ↦ if str_eq (cn p.cert_pem) (cn p.cert_pem) then some p else rest
          | some u ↦ if str_eq u (cn p.cert_pem) then some p else rest
        ])
        of_cert
      ∙ ap (λ b. if b then some p else rest) (eq_refl (cn p.cert_pem))

  found-put :
      (peers : Dict Peer)
      → Bound cn peers
      → is_taken id (cn p.cert_pem) peers ≡ false
      → get_peer_by_transport_id cn (cn p.cert_pem) (put id p peers) ≡ some p
  unfolding put is_taken is_found get_peer_by_transport_id
  found-put [] b free = found_first id []
  found-put ((k, q) ∷ peers) b free = elim (Bool-cases (str_eq k id)) [
    | inl here ↦ rw here (found_first k peers)
    | inr there ↦
        (let other : str_eq (cn q.cert_pem) (cn p.cert_pem) ≡ false = ground (arith, b.0) in
          rw (there, b.0, other) (found-put peers b.1 (ground arith)))
  ]

  kept-put :
      (peers : Dict Peer)
      → has_other_certificate p.cert_pem (get id peers) ≡ false
      → (k : String) (q : Peer) → get k peers ≡ some q
      → certificate (get k (put id p peers)) ≡ some q.cert_pem
  unfolding has_other_certificate
  kept-put peers same k q e =
      ap certificate (get-put id k p peers) ∙ elim (Bool-cases (str_eq id k)) [
        | inl here ↦
            (let at : get id peers ≡ some q =
                ap (λ i. get i peers) (ground (arith, eq_iff id k)) ∙ e in
              rw here (
                let equal : not (str_eq q.cert_pem p.cert_pem) ≡ false =
                  ap (has_other_certificate p.cert_pem) (sym at) ∙ same in
                ap some (ground (arith, eq_iff q.cert_pem p.cert_pem))))
        | inr there ↦ rw there (ap certificate e)
      ]

module _ (cn : String → String) (id host : String) (port : ℕ) (cert key : String) where
  abbrev pub peer : Peer
  peer = record {
    host = host;
    port = port;
    cert_pem = cert;
    signing_pubkey_hex = key;
    transport_node_id = some (cn cert);
  }

  is_new : (peers : Dict Peer) → (not (has id peers) ≡ true) ↔ (get id peers ≡ none)
  is_new peers = elim (Option-cases (get id peers)) [
    | inl absent ↦ rw (has-eq-get id peers) (rw absent ((λ h. refl), (λ h. refl)))
    | inr (q, at) ↦
        rw (has-eq-get id peers)
          (rw at ((λ h. absurd (ground arith)), (λ h. absurd (ground arith))))
  ]

  -- In a store whose peers all have the transport identity of their certificate, a peer that is added
  -- is stored under its name and is the one found by the transport identity of its certificate; all
  -- peers still have the identity of their certificate, no peer's certificate has changed, and the
  -- answer tells whether the peer is new.
  pub add_peer-Binds :
      (peers peers' : Dict Peer) (new : Bool)
      → Bound cn peers
      → add_peer cn id host port cert key peers ≡ some (peers', new)
      → Binds cn id peer peers peers' new
  unfolding add_peer
  add_peer-Binds peers peers' new b h =
      elim (Bool-cases (has_other_certificate cert (get id peers))) [
        | inl other ↦ absurd (ground arith)
        | inr same ↦ elim (Bool-cases (is_taken id (cn cert) peers)) [
          | inl taken ↦ absurd (ground arith)
          | inr free ↦
              (let added : (put id peer peers, not (has id peers)) ≡ (peers', new) =
                  some-inj (sym (rw (same, free, add_peer) refl) ∙ h) in
                subst (λ (r : Dict Peer × Bool). Binds cn id peer peers r.0 r.1) added
                  (record {
                    bound = Bound-put cn id peer refl peers b;
                    stored = get-put id id peer peers ∙ rw (eq_refl id) refl;
                    found = found-put cn id peer refl peers b free;
                    kept = kept-put cn id peer refl peers same;
                    new = is_new peers;
                  }))
        ]
      ]
