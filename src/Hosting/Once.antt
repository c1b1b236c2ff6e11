-- ===== src/Hosting/Once.antt =====
-- The purchase gate of hosting_governance.py: an approval is used once, and only while it stands.
use reus.Prelude.{
  ℕ, ◌<◌, ◌≡◌, refl, sym, ap, subst, ◌∙◌, true, false, not, ◌&&◌, String, Option, none, some, List,
  [], All, arith, eq_iff, eq_refl, ◌⊎◌, Bool-cases, Option-cases, inl, inr, some-inj,
}
use reus.Prelude.Dict.{get, get-put}
use reus.Hosting.Offers.{HostingOffer, detail_hash}
use reus.Hosting.Purchase.{
  PurchaseAuthorization, StoreFile, missing, invalid, records_of, records, save, load_raw, is_at,
  HostingPurchaseGate, record_event, persist, commit, latest, same_details, assert_current,
  or_given, consume_latest, consume, is_closed,
}
use reus.Hosting.Runs.{Operation, perform_all, Fresh, perform_all-Stays}
use reus.Hosting.Held.{held, IsKeyed}
use reus.Hosting.Effects.{
  Outcome, consume-Effect, Effect-closed, Effect-IsKeyed, assert_current-open,
}

-- What a successful change returns is what the gate then holds.
persist-returns :
    (x c : PurchaseAuthorization) (g : HostingPurchaseGate) (f : Option StoreFile)
    → g.store ≡ f
    → (persist x g).1 ≡ some c
    → (x ≡ c) × (held x.authorization_id (persist x g).0 ≡ some x)
unfolding persist held save load_raw records
persist-returns x c g none e h = (
  some-inj (sym (rw (e, persist) refl) ∙ h),
  rw e (
      get-put x.authorization_id x.authorization_id x g.current
      ∙ rw (eq_refl x.authorization_id) refl),
)
persist-returns x c g (some missing) e h = (
  some-inj (sym (rw (e, persist) refl) ∙ h),
  rw e (get-put x.authorization_id x.authorization_id x [] ∙ rw (eq_refl x.authorization_id) refl),
)
persist-returns x c g (some invalid) e h =
    let raised : (persist x g).1 ≡ none = rw (e, persist) refl in cc
persist-returns x c g (some (records_of d)) e h = (
  some-inj (sym (rw (e, persist) refl) ∙ h),
  rw e (get-put x.authorization_id x.authorization_id x d ∙ rw (eq_refl x.authorization_id) refl),
)

-- The authorization that `_latest` finds: the one that the gate holds or, without a store, the caller's
-- own when the gate holds none.
latest-source :
    (a x : PurchaseAuthorization) (g : HostingPurchaseGate) (f : Option StoreFile)
    → g.store ≡ f
    → latest a g ≡ some x
    → (held a.authorization_id g ≡ some x)
      ⊎ ((g.store ≡ none) × (held a.authorization_id g ≡ none) × (x ≡ a))
unfolding held or_given latest
latest-source a x g (some f) e h = inl (rw (e, held) (sym (rw (e, latest) refl) ∙ h))
latest-source a x g none e h =
    let found : some (or_given a (get a.authorization_id g.current)) ≡ some x =
      sym (rw (e, latest) refl) ∙ h in
    elim (Option-cases (get a.authorization_id g.current)) [
      | inl nothing_held ↦
          inr (e, rw (e, held) nothing_held, sym (some-inj found) ∙ ap (or_given a) nothing_held)
      | inr (y, at) ↦ inl (rw (e, held) (at ∙ sym (ap (λ o. some (or_given a o)) at) ∙ found))
    ]

module _ (digest : HostingOffer → String) (upper : String → String) where
  -- What a purchase that goes through rests on.
  pub record Justified (a : PurchaseAuthorization) (o : HostingOffer) (now : ℕ)
      (g : HostingPurchaseGate) (c : PurchaseAuthorization) : Type 0 where
    pub held_before : PurchaseAuthorization
    pub source :
        (held a.authorization_id g ≡ some held_before)
        ⊎ ((g.store ≡ none) × (held a.authorization_id g ≡ none) × (held_before ≡ a))
    pub was_approved : is_at held_before.approved_at ≡ true
    pub was_open : is_closed held_before ≡ false
    pub in_time : now < held_before.expires_at
    pub same_offer : held_before.offer_id ≡ o.offer_id
    pub same_details : detail_hash digest o ≡ some held_before.detail_hash
    pub outcome : c ≡ record held_before { consumed_at = some now }
    pub held_after : held c.authorization_id (consume digest a o now g).0 ≡ some c

  same_details-lem :
      (a : PurchaseAuthorization) (id : String) (h : Option String)
      → same_details a id h ≡ true
      → (a.offer_id ≡ id) × (h ≡ some a.detail_hash)
  unfolding same_details
  same_details-lem a id none e = cc
  same_details-lem a id (some h) e =
      let (p, q) : (a.offer_id ≡ id) × (a.detail_hash ≡ h) =
        (ground (arith, eq_iff a.offer_id id), ground (arith, eq_iff a.detail_hash h)) in
      (p, ap some (sym q))

  -- A purchase goes through only for an authorization that was approved, not consumed, cancelled or
  -- expired, in time, and for an offer with its details: the one that the gate holds under the
  -- identifier presented, or, if the gate has no store and holds none there, the presented one as it
  -- is, which no record vouches for. The gate then holds it as consumed.
  pub consume-Justified :
      (a : PurchaseAuthorization) (o : HostingOffer) (now : ℕ) (g : HostingPurchaseGate)
      (c : PurchaseAuthorization)
      → (consume digest a o now g).1 ≡ some c
      → Justified a o now g c
  unfolding consume consume_latest commit
  consume-Justified a o now g c h = elim (Option-cases (latest a g)) [
    | inl unknown ↦ absurd (ground (arith))
    | inr (x, at) ↦
        elim (Bool-cases
          (assert_current digest x o now && is_at x.approved_at && not (is_at x.consumed_at))) [
            | inr refused ↦ absurd (ground arith)
            | inl ok ↦
                let b : PurchaseAuthorization = record x { consumed_at = some now } in
                let m = record_event "hosting_purchase_consumed" b now g in
                let taken : consume digest a o now g ≡ persist b m =
                  rw (at, ok, consume, consume_latest) refl in
                let (is_c, after) =
                  persist-returns b c m m.store refl (ap (λ (q : Outcome). q.1) (sym taken) ∙ h) in
                let current : assert_current digest x o now ≡ true = ground arith in
                let (offer, details) =
                  same_details-lem x o.offer_id (detail_hash digest o)
                    (unfold assert_current in ground arith) in
                record {
                  held_before = x;
                  source = latest-source a x g g.store refl at;
                  was_approved = ground arith;
                  was_open = assert_current-open digest x o now current;
                  in_time = unfold assert_current in ground arith;
                  same_offer = offer;
                  same_details = details;
                  outcome = sym is_c;
                  held_after =
                      subst
                        (λ (y : PurchaseAuthorization).
                          held y.authorization_id (consume digest a o now g).0 ≡ some y)
                        is_c (ap (λ (q : Outcome). held b.authorization_id q.0) taken ∙ after);
                }
          ]
  ]

  -- In a gate that holds each record under its own identifier: after a purchase went through, none goes
  -- through again under its identifier, whatever operations and, over a store, restarts follow, with
  -- any authorizations presented, if no new request draws that identifier.
  pub consume_once :
      (a b : PurchaseAuthorization) (o o' : HostingOffer) (now now' : ℕ) (g : HostingPurchaseGate)
      (c : PurchaseAuthorization) (ops : List Operation)
      → IsKeyed g
      → (consume digest a o now g).1 ≡ some c
      → All (Fresh digest upper c.authorization_id) ops
      → b.authorization_id ≡ c.authorization_id
      → (consume digest b o' now' (perform_all digest upper ops (consume digest a o now g).0)).1
        ≡ none
  unfolding is_closed is_at
  consume_once a b o o' now now' g c ops k h fresh same =
      let j = consume-Justified a o now g c h in
      let g' = (consume digest a o now g).0 in
      let k' =
        Effect-IsKeyed (latest a g) g (consume digest a o now g) k
          (unfold consume in consume-Effect digest upper (latest a g) o now g) in
      let closed : is_closed c ≡ true = ap is_closed j.outcome ∙ (ground arith) in
      let (stays, keyed) =
        perform_all-Stays digest upper c.authorization_id c closed ops g' fresh
          (j.held_after, k') in
      let last = perform_all digest upper ops g' in
      let (_, _, refused) =
        Effect-closed c.authorization_id c closed b last (consume digest b o' now' last) keyed stays
          (unfold consume in consume-Effect digest upper (latest b last) o' now' last) in
      refused same
