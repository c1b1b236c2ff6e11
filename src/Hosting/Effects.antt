-- ===== src/Hosting/Effects.antt =====
-- What one operation of the purchase gate of hosting_governance.py does to a closed authorization.
use reus.Prelude.{
  ℕ, ◌≡◌, refl, sym, ap, subst, ◌∙◌, Bool, true, false, not, ◌&&◌, ◌||◌, String, Option, none, some,
  arith, ltb, str_eq, eq_iff, if◌then◌else◌, Bool-cases, ◌⊎◌, inl, inr, some-inj,
}
use reus.Prelude.Dict.{Dict, get}
use reus.Hosting.Offers.{HostingOffer}
use reus.Hosting.Purchase.{
  PurchaseAuthorization, StoreFile, missing, invalid, records_of, load_raw, records, is_at,
  HostingPurchaseGate, commit, or_given, latest, assert_current, approve_latest, consume_latest,
  is_closed, expire_latest, cancel_latest,
}
use reus.Hosting.Held.{held, Keyed, KeyedFile, IsKeyed, commit-held, commit-IsKeyed}

abbrev pub Outcome : Type 0
Outcome = HostingPurchaseGate × Option PurchaseAuthorization

-- An operation on an authorization either raises with the gate as it was, or commits a change of the
-- latest record, which was open.
pub record Commits (o : Option PurchaseAuthorization) (g : HostingPurchaseGate) (r : Outcome)
    : Type 0 where
  pub event : String
  pub old : PurchaseAuthorization
  pub new : PurchaseAuthorization
  pub now : ℕ
  pub found : o ≡ some old
  pub was_open : is_closed old ≡ false
  pub same_id : new.authorization_id ≡ old.authorization_id
  pub outcome : r ≡ commit event new now g

abbrev pub Effect : Option PurchaseAuthorization → HostingPurchaseGate → Outcome → Type 0
Effect o g r = (r ≡ (g, none)) ⊎ Commits o g r

-- An operation commits where its test says so.
commit_if-Effect :
    (t : Bool) (event : String) (a b : PurchaseAuthorization) (now : ℕ) (g : HostingPurchaseGate)
    → (t ≡ true → is_closed a ≡ false)
    → b.authorization_id ≡ a.authorization_id
    → Effect (some a) g (if t then commit event b now g else (g, none))
commit_if-Effect true event a b now g was_open same = inr (record {
  event = event;
  old = a;
  new = b;
  now = now;
  found = refl;
  was_open = was_open refl;
  same_id = same;
  outcome = refl;
})
commit_if-Effect false event a b now g was_open same = inl refl

commit_unless-Effect :
    (t : Bool) (event : String) (a b : PurchaseAuthorization) (now : ℕ) (g : HostingPurchaseGate)
    → (t ≡ false → is_closed a ≡ false)
    → b.authorization_id ≡ a.authorization_id
    → Effect (some a) g (if t then (g, none) else commit event b now g)
commit_unless-Effect false event a b now g was_open same =
    commit_if-Effect true event a b now g (λ e. was_open refl) same
commit_unless-Effect true event a b now g was_open same = inl refl

pub assert_current-open :
    (digest : HostingOffer → String) (a : PurchaseAuthorization) (o : HostingOffer) (now : ℕ)
    → assert_current digest a o now ≡ true
    → is_closed a ≡ false
unfolding assert_current is_closed
assert_current-open digest a o now h = ground arith

module _ (digest : HostingOffer → String) (upper : String → String) where
  pub approve-Effect :
      (l : Option PurchaseAuthorization) (o : HostingOffer) (now : ℕ) (g : HostingPurchaseGate)
      → Effect l g (approve_latest digest l o now g)
  unfolding approve_latest
  approve-Effect none o now g = inl refl
  approve-Effect (some a) o now g =
      commit_if-Effect (assert_current digest a o now && not (is_at a.approved_at)) _ a _ now g
        (λ t. assert_current-open digest a o now (ground arith)) refl

  pub consume-Effect :
      (l : Option PurchaseAuthorization) (o : HostingOffer) (now : ℕ) (g : HostingPurchaseGate)
      → Effect l g (consume_latest digest l o now g)
  unfolding consume_latest
  consume-Effect none o now g = inl refl
  consume-Effect (some a) o now g =
      commit_if-Effect
        (assert_current digest a o now && is_at a.approved_at && not (is_at a.consumed_at)) _ a _
        now g (λ t. assert_current-open digest a o now (ground arith)) refl

pub expire-Effect :
    (l : Option PurchaseAuthorization) (now : ℕ) (g : HostingPurchaseGate)
    → Effect l g (expire_latest l now g)
unfolding expire_latest
expire-Effect none now g = inl refl
expire-Effect (some a) now g =
    commit_unless-Effect (is_closed a || ltb now a.expires_at) _ a _ now g (λ t. ground arith) refl

pub cancel-Effect :
    (l : Option PurchaseAuthorization) (now : ℕ) (g : HostingPurchaseGate)
    → Effect l g (cancel_latest l now g)
unfolding cancel_latest
cancel-Effect none now g = inl refl
cancel-Effect (some a) now g = commit_unless-Effect (is_closed a) _ a _ now g (λ t. t) refl

-- The latest record of an authorization has its identifier, and is the one that is held.
or_given-id :
    (a x : PurchaseAuthorization) (d : Dict PurchaseAuthorization)
    (o : Option PurchaseAuthorization)
    → Keyed d
    → get a.authorization_id d ≡ o
    → some (or_given a o) ≡ some x
    → x.authorization_id ≡ a.authorization_id
unfolding or_given
or_given-id a x d none k e h =
    sym (ap (λ (y : PurchaseAuthorization). y.authorization_id) (some-inj h))
or_given-id a x d (some b) k e h =
    sym (ap (λ (y : PurchaseAuthorization). y.authorization_id) (some-inj h))
    ∙ k a.authorization_id b e

latest-id :
    (a x : PurchaseAuthorization) (g : HostingPurchaseGate) (f : Option StoreFile)
    → g.store ≡ f
    → IsKeyed g
    → latest a g ≡ some x
    → x.authorization_id ≡ a.authorization_id
unfolding latest load_raw records get
latest-id a x g none e k h =
    or_given-id a x g.current (get a.authorization_id g.current) k.current refl (
      subst
        (λ s.
          (elim s [
            | some f ↦ load_raw a.authorization_id f
            | none ↦ some (or_given a (get a.authorization_id g.current))
          ])
          ≡ some x)
        e h)
latest-id a x g (some missing) e k h = ground arith
latest-id a x g (some invalid) e k h = ground arith
latest-id a x g (some (records_of d)) e k h = subst KeyedFile e k.file a.authorization_id x (
    subst
      (λ s.
        (elim s [
          | some f ↦ load_raw a.authorization_id f
          | none ↦ some (or_given a (get a.authorization_id g.current))
        ])
        ≡ some x)
      e h)

pub latest-held :
    (a x : PurchaseAuthorization) (g : HostingPurchaseGate) (f : Option StoreFile)
    → g.store ≡ f
    → held a.authorization_id g ≡ some x
    → latest a g ≡ some x
unfolding latest held or_given
latest-held a x g none e h = ground arith
latest-held a x g (some f) e h = ground arith

module _ (id : String) (x : PurchaseAuthorization) (closed : is_closed x ≡ true) where
  -- A closed record that is held stays, and refuses every operation.
  pub Effect-closed :
      (a : PurchaseAuthorization) (g : HostingPurchaseGate) (r : Outcome)
      → IsKeyed g
      → held id g ≡ some x
      → Effect (latest a g) g r
      → (held id r.0 ≡ some x) × IsKeyed r.0 × (a.authorization_id ≡ id → r.1 ≡ none)
  Effect-closed a g r k h (inl same) = (
    subst (λ (q : Outcome). held id q.0 ≡ some x) (sym same) h,
    subst (λ (q : Outcome). IsKeyed q.0) (sym same) k,
    λ e. ap (λ (q : Outcome). q.1) same,
  )
  Effect-closed a g r k h (inr c) = elim (Bool-cases (str_eq a.authorization_id id)) [
    | inl mine ↦
        let is_id : a.authorization_id ≡ id = ground (arith, eq_iff a.authorization_id id) in
        let at : latest a g ≡ some x =
          latest-held a x g g.store refl (subst (λ i. held i g ≡ some x) (sym is_id) h) in
        let is_x : c.old ≡ x = some-inj (sym c.found ∙ at) in
        absurd (ground (arith, ap is_closed is_x, closed, c.was_open))
    | inr other ↦
        let new_id : c.new.authorization_id ≡ a.authorization_id =
          c.same_id ∙ latest-id a c.old g g.store refl k c.found in
        let apart : str_eq c.new.authorization_id id ≡ false =
          ap (λ s. str_eq s id) new_id ∙ other in
        (
          ap (λ (q : Outcome). held id q.0) c.outcome
              ∙ commit-held c.event c.new c.now id g apart
              ∙ h,
          subst (λ (q : Outcome). IsKeyed q.0) (sym c.outcome)
              (commit-IsKeyed c.event c.new c.now g k),
          λ e. absurd (ground (arith, eq_iff a.authorization_id id)),
        )
  ]

pub Effect-IsKeyed :
    (l : Option PurchaseAuthorization) (g : HostingPurchaseGate) (r : Outcome)
    → IsKeyed g
    → Effect l g r
    → IsKeyed r.0
Effect-IsKeyed l g r k (inl same) = subst (λ (q : Outcome). IsKeyed q.0) (sym same) k
Effect-IsKeyed l g r k (inr c) =
    subst (λ (q : Outcome). IsKeyed q.0) (sym c.outcome) (commit-IsKeyed c.event c.new c.now g k)
