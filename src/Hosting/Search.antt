-- ===== src/Hosting/Search.antt =====
-- The search of hosting_governance.py: what it lists.
use reus.Prelude.{
  ℕ, ◌≤◌, ◌≡◌, ◌≢◌, refl, sym, ap, subst, ◌∙◌, true, String, Option, none, some, str_eq, List, [],
  ◌∷◌, All, arith, eq_iff, Bool-cases, Option-cases, ◌⊎◌, inl, inr, some-inj,
}
use reus.Prelude.Dict.{Dict, put, values, has}
use reus.Prelude.Members.{In, In-filter_by, All-In, All-of, All-filter_by}
use reus.Hosting.Listing.{
  Ascending, sort_offers-Ascending, In-sort_offers, sort_offers-All, values-put, KeyedOffers,
  KeyedOffers-put, has-put, Under, has-Under,
}
use reus.Hosting.Offers.{
  HostingOffer, validate, publish, is_region, is_free_if, is_currency, is_affordable,
  compare_offers, HostingSearchRequest, is_wanted, take_offer, collect, search,
}

-- What a request asks of an offer: its region, if one is given; to be free, if only free offers are
-- wanted; its currency up to case, if one is given; and a price within the maximum, if there is one.
pub record Meets (upper : String → String) (r : HostingSearchRequest) (o : HostingOffer)
    : Type 0 where
  pub region : (t : String) → r.region ≡ some t → t ≢ "" → o.region ≡ t
  pub free : r.free_only ≡ true → o.is_free ≡ true
  pub currency : (t : String) → r.currency ≡ some t → t ≢ "" → upper o.currency ≡ upper t
  pub price : (m : ℕ) → r.maximum_monthly_price_minor ≡ some m → o.monthly_price_minor ≤ m

is_region-text :
    (q : Option String) (o : HostingOffer)
    → is_region q o ≡ true
    → (t : String) → q ≡ some t
    → t ≢ ""
    → o.region ≡ t
unfolding is_region
is_region-text none o h t e ne = absurd (ground arith)
is_region-text (some u) o h t e ne =
    let same : u ≡ t = some-inj e in
    ground (arith, same, eq_iff u "", eq_iff t "", eq_iff o.region u)

is_region-met :
    (q : Option String) (o : HostingOffer)
    → ((t : String) → q ≡ some t → t ≢ "" → o.region ≡ t)
    → is_region q o ≡ true
unfolding is_region
is_region-met none o h = refl
is_region-met (some u) o h = elim (Bool-cases (str_eq u "")) [
  | inl blank ↦ rw blank refl
  | inr given ↦ rw given (
      let same = h u refl (λ e. absurd (ground (arith, eq_iff u ""))) in
      ground (arith, eq_iff o.region u))
]

is_currency-text :
    (upper : String → String) (q : Option String) (o : HostingOffer)
    → is_currency upper q o ≡ true
    → (t : String) → q ≡ some t
    → t ≢ ""
    → upper o.currency ≡ upper t
unfolding is_currency
is_currency-text upper none o h t e ne = absurd (ground arith)
is_currency-text upper (some u) o h t e ne =
    let same : u ≡ t = some-inj e in
    let named : u ≢ "" = λ k. ne (sym same ∙ k) in
    let equal : upper o.currency ≡ upper u =
      ground (arith, eq_iff u "", eq_iff (upper o.currency) (upper u)) in
    equal ∙ ap upper same

is_currency-met :
    (upper : String → String) (q : Option String) (o : HostingOffer)
    → ((t : String) → q ≡ some t → t ≢ "" → upper o.currency ≡ upper t)
    → is_currency upper q o ≡ true
unfolding is_currency
is_currency-met upper none o h = refl
is_currency-met upper (some u) o h = elim (Bool-cases (str_eq u "")) [
  | inl blank ↦ rw blank refl
  | inr given ↦ rw given (
      let same = h u refl (λ e. absurd (ground (arith, eq_iff u ""))) in
      ground (arith, eq_iff (upper o.currency) (upper u)))
]

is_affordable-price :
    (q : Option ℕ) (o : HostingOffer)
    → is_affordable q o ≡ true
    → (m : ℕ) → q ≡ some m
    → o.monthly_price_minor ≤ m
unfolding is_affordable
is_affordable-price none o h m e = absurd (ground arith)
is_affordable-price (some n) o h m e = (let same : n ≡ m = some-inj e in ground arith)

is_affordable-met :
    (q : Option ℕ) (o : HostingOffer)
    → ((m : ℕ) → q ≡ some m → o.monthly_price_minor ≤ m)
    → is_affordable q o ≡ true
unfolding is_affordable
is_affordable-met none o h = refl
is_affordable-met (some n) o h = (let within = h n refl in ground (arith, within))

-- The code's tests and what the request asks are the same.
is_wanted-Meets :
    (upper : String → String) (r : HostingSearchRequest) (o : HostingOffer)
    → is_wanted upper r o ≡ true
    → Meets upper r o
unfolding is_wanted is_free_if
is_wanted-Meets upper r o h = record {
  region = is_region-text r.region o (ground arith);
  free = λ e. ground arith;
  currency = is_currency-text upper r.currency o (ground arith);
  price = is_affordable-price r.maximum_monthly_price_minor o (ground arith);
}

Meets-is_wanted :
    (upper : String → String) (r : HostingSearchRequest) (o : HostingOffer)
    → Meets upper r o
    → is_wanted upper r o ≡ true
unfolding is_wanted is_free_if
Meets-is_wanted upper r o m =
    let region = is_region-met r.region o m.region in
    let currency = is_currency-met upper r.currency o m.currency in
    let price = is_affordable-met r.maximum_monthly_price_minor o m.price in
    elim (Bool-cases r.free_only) [
      | inl only ↦ (let free = m.free only in ground (arith, region, currency, price, free))
      | inr any ↦ ground (arith, region, currency, price)
    ]

-- What a listed offer satisfies.
pub record Wanted (upper : String → String) (r : HostingSearchRequest)
    (discovered : List HostingOffer) (o : HostingOffer) : Type 0 where
  pub valid : validate o ≡ true
  pub meets : Meets upper r o
  pub found : In o discovered

module _ (upper : String → String) (r : HostingSearchRequest) (P : HostingOffer → Type 0) where
  collect-All :
      (os : List HostingOffer) (d d' : Dict HostingOffer)
      → All (λ o. validate o ≡ true → is_wanted upper r o ≡ true → P o) os
      → All P (values d)
      → collect upper r os d ≡ some d'
      → All P (values d')
  unfolding collect take_offer publish
  collect-All [] d d' h a e = subst (λ x. All P (values x)) (some-inj e) a
  collect-All (o ∷ os) d d' h a e = elim (Bool-cases (validate o)) [
    | inr bad ↦ absurd (ground arith)
    | inl valid ↦ elim (Bool-cases (is_wanted upper r o)) [
      | inl wanted ↦
          collect-All os (put o.offer_id o d) d' h.1
            (values-put P o.offer_id o d (h.0 valid wanted) a) (ground arith)
      | inr passed_over ↦ collect-All os d d' h.1 a (ground arith)
    ]
  ]

  collect-KeyedOffers :
      (os : List HostingOffer) (d d' : Dict HostingOffer)
      → KeyedOffers d
      → collect upper r os d ≡ some d'
      → KeyedOffers d'
  unfolding collect take_offer publish
  collect-KeyedOffers [] d d' k e = subst KeyedOffers (some-inj e) k
  collect-KeyedOffers (o ∷ os) d d' k e = elim (Bool-cases (validate o)) [
    | inr bad ↦ absurd (ground arith)
    | inl valid ↦ elim (Bool-cases (is_wanted upper r o)) [
      | inl wanted ↦
          collect-KeyedOffers os (put o.offer_id o d) d' (KeyedOffers-put o d k) (ground arith)
      | inr passed_over ↦ collect-KeyedOffers os d d' k (ground arith)
    ]
  ]

  collect-has :
      (o : HostingOffer) (os : List HostingOffer) (d d' : Dict HostingOffer)
      → is_wanted upper r o ≡ true
      → In o os ⊎ (has o.offer_id d ≡ true)
      → collect upper r os d ≡ some d'
      → has o.offer_id d' ≡ true
  unfolding collect take_offer publish
  collect-has o [] d d' w (inl h) e = elim h [ ]
  collect-has o [] d d' w (inr h) e = subst (λ x. has o.offer_id x ≡ true) (some-inj e) h
  collect-has o (q ∷ os) d d' w h e = elim (Bool-cases (validate q)) [
    | inr bad ↦ absurd (ground arith)
    | inl valid ↦ elim (Bool-cases (is_wanted upper r q)) [
      | inl wanted ↦
          let grown = has-put o.offer_id q.offer_id q d in
          collect-has o os (put q.offer_id q d) d' w
            (elim h [
              | inl (inl same) ↦ inr (
                  grown
                  ∙ ground (
                    arith,
                    ap (λ (x : HostingOffer). x.offer_id) same,
                    eq_iff q.offer_id o.offer_id,
                  ))
              | inl (inr k) ↦ inl k
              | inr k ↦ inr (grown ∙ ground arith)
            ])
            (ground arith)
      | inr passed_over ↦
          collect-has o os d d' w
            (elim h [
              | inl (inl same) ↦ absurd (ground (arith, ap (is_wanted upper r) same))
              | inl (inr k) ↦ inl k
              | inr k ↦ inr k
            ])
            (ground arith)
    ]
  ]

is_wanted-parts :
    (upper : String → String) (r : HostingSearchRequest) (o : HostingOffer)
    → is_wanted upper r o ≡ true
    → (is_region r.region o ≡ true) × (is_free_if r.free_only o ≡ true)
unfolding is_wanted
is_wanted-parts upper r o h = (ground arith, ground arith)

-- A search that does not raise lists valid offers that a source returned and that have the region, the
-- price, the currency and, if asked for, the free price that the request names, free ones first and
-- then by price; and for each such offer that a source returned it lists one with the same identifier.
-- Whether the compute is persistent is not asked.
pub search-Lists :
    (upper : String → String) (discovered os : List HostingOffer) (r : HostingSearchRequest)
    → search upper discovered r ≡ some os
    → All (Wanted upper r discovered) os
      × Ascending os
      × ((o : HostingOffer) → In o discovered → Meets upper r o → Under o.offer_id os)
unfolding search compare_offers
search-Lists upper discovered os r h = elim (Option-cases (collect upper r discovered [])) [
  | inl raised ↦ absurd (ground arith)
  | inr (d, collected) ↦
      let P = Wanted upper r discovered in
      let shown : compare_offers r.region r.free_only d ≡ os =
        some-inj (sym (rw (collected, search) refl) ∙ h) in
      let all =
        collect-All upper r P discovered [] d
          (All-of _ discovered
            (λ o at v w. record { valid = v; meets = is_wanted-Meets upper r o w; found = at }))
          (unfold values in tt) collected in
      (
        subst (All P) shown (
            sort_offers-All P _ (
              All-filter_by P (is_free_if r.free_only) _
                (All-filter_by P (is_region r.region) (values d) all))),
        subst Ascending shown (sort_offers-Ascending _),
        λ o at meets.
            let (p, same, among) =
              has-Under o.offer_id d
                (collect-has upper r P o discovered [] d (Meets-is_wanted upper r o meets) (inl at)
                  collected)
                (collect-KeyedOffers upper r P discovered [] d tt collected) in
            let (region, free) =
              is_wanted-parts upper r p
                (Meets-is_wanted upper r p (All-In P p (values d) all among).meets) in
            (
              p,
              same,
              subst (In p) shown (
                  In-sort_offers p _ (
                    In-filter_by (is_free_if r.free_only) p _
                      (In-filter_by (is_region r.region) p (values d) among region) free)),
            ),
      )
]
