-- ===== src/Hosting/Listing.antt =====
-- The order of the listed offers of hosting_governance.py, and what the sort and the dict keep.
use reus.Prelude.{
  ◌≤◌, ◌≡◌, refl, subst, ◌∙◌, true, false, ◌||◌, String, List, [], ◌∷◌, All, arith, str_eq, eq_iff,
  Bool-cases, ◌⊎◌, inl, inr,
}
use reus.Prelude.Dict.{Dict, put, values, has}
use reus.Prelude.Members.{In}
use reus.Hosting.Offers.{HostingOffer, key_leb, insert_offer, sort_offers}

-- The first two parts of the order: free offers first, then by price.
abbrev pub Before : HostingOffer → HostingOffer → Type 0
Before a b =
    ((a.is_free ≡ true) × (b.is_free ≡ false))
    ⊎ ((a.is_free ≡ b.is_free) × (a.monthly_price_minor ≤ b.monthly_price_minor))

abbrev pub Ascending : List HostingOffer → Type 0
Ascending [] = Unit
Ascending (a ∷ []) = Unit
Ascending (a ∷ b ∷ os) = Before a b × Ascending (b ∷ os)

key_leb-Before : (a b : HostingOffer) → key_leb a b ≡ true → Before a b
unfolding key_leb
key_leb-Before a b h = ground arith

key_gt-Before : (a b : HostingOffer) → key_leb a b ≡ false → Before b a
unfolding key_leb
key_gt-Before a b h = ground arith

insert_offer-Ascending :
    (o : HostingOffer) (os : List HostingOffer) → Ascending os → Ascending (insert_offer o os)
unfolding insert_offer
insert_offer-Ascending o [] h = tt
insert_offer-Ascending o (p ∷ []) h = elim (Bool-cases (key_leb o p)) [
  | inl first ↦ rw first (key_leb-Before o p first, tt)
  | inr later ↦ rw later (key_gt-Before o p later, tt)
]
insert_offer-Ascending o (p ∷ q ∷ os) h = elim (Bool-cases (key_leb o p)) [
  | inl first ↦ rw first (key_leb-Before o p first, h)
  | inr later ↦
      let ih = insert_offer-Ascending o (q ∷ os) h.1 in
      let shape : key_leb o q ≡ false → insert_offer o (q ∷ os) ≡ q ∷ insert_offer o os =
        (λ there. rw (there, insert_offer) refl) in
      elim (Bool-cases (key_leb o q)) [
        | inl here ↦ rw (later, here) (key_gt-Before o p later, (key_leb-Before o q here, h.1))
        | inr there ↦ rw (later, there) (h.0, subst Ascending (shape there) ih)
      ]
]

pub sort_offers-Ascending : (os : List HostingOffer) → Ascending (sort_offers os)
unfolding sort_offers
sort_offers-Ascending [] = tt
sort_offers-Ascending (o ∷ os) =
    insert_offer-Ascending o (sort_offers os) (sort_offers-Ascending os)

In-insert_offer :
    (o x : HostingOffer) (os : List HostingOffer) → (o ≡ x) ⊎ In x os → In x (insert_offer o os)
unfolding insert_offer
In-insert_offer o x [] h = h
In-insert_offer o x (p ∷ os) h = elim (Bool-cases (key_leb o p)) [
  | inl first ↦ rw first h
  | inr later ↦ rw later (elim h [
    | inl e ↦ inr (In-insert_offer o x os (inl e))
    | inr (inl e) ↦ inl e
    | inr (inr k) ↦ inr (In-insert_offer o x os (inr k))
  ])
]

pub In-sort_offers : (x : HostingOffer) (os : List HostingOffer) → In x os → In x (sort_offers os)
unfolding sort_offers
In-sort_offers x [] h = h
In-sort_offers x (o ∷ os) (inl e) = In-insert_offer o x (sort_offers os) (inl e)
In-sort_offers x (o ∷ os) (inr h) =
    In-insert_offer o x (sort_offers os) (inr (In-sort_offers x os h))

module _ (P : HostingOffer → Type 0) where
  insert_offer-All :
      (o : HostingOffer) (os : List HostingOffer) → P o → All P os → All P (insert_offer o os)
  unfolding insert_offer
  insert_offer-All o [] p a = (p, tt)
  insert_offer-All o (q ∷ os) p a = elim (Bool-cases (key_leb o q)) [
    | inl first ↦ rw first (p, a)
    | inr later ↦ rw later (a.0, insert_offer-All o os p a.1)
  ]

  pub sort_offers-All : (os : List HostingOffer) → All P os → All P (sort_offers os)
  unfolding sort_offers
  sort_offers-All [] a = tt
  sort_offers-All (o ∷ os) a = insert_offer-All o (sort_offers os) a.0 (sort_offers-All os a.1)

  pub values-put :
      (id : String) (o : HostingOffer) (d : Dict HostingOffer)
      → P o
      → All P (values d)
      → All P (values (put id o d))
  unfolding values put
  values-put id o [] p a = (p, tt)
  values-put id o ((j, q) ∷ d) p a = elim (Bool-cases (str_eq j id)) [
    | inl here ↦ rw here (p, a.1)
    | inr there ↦ rw there (a.0, values-put id o d p a.1)
  ]

-- Offers stand under their own identifiers.
abbrev pub KeyedOffers : Dict HostingOffer → Type 0
KeyedOffers [] = Unit
KeyedOffers ((k, o) ∷ d) = (o.offer_id ≡ k) × KeyedOffers d

pub KeyedOffers-put :
    (o : HostingOffer) (d : Dict HostingOffer) → KeyedOffers d → KeyedOffers (put o.offer_id o d)
unfolding put
KeyedOffers-put o [] h = (refl, tt)
KeyedOffers-put o ((k, q) ∷ d) h = elim (Bool-cases (str_eq k o.offer_id)) [
  | inl same ↦ rw same (ground (arith, eq_iff k o.offer_id), h.1)
  | inr other ↦ rw other (h.0, KeyedOffers-put o d h.1)
]

pub has-put :
    (id k : String) (o : HostingOffer) (d : Dict HostingOffer)
    → has id (put k o d) ≡ str_eq k id || has id d
unfolding has put
has-put id k o [] = ground arith
has-put id k o ((j, q) ∷ d) = ground (arith, has-put id k o d, eq_iff j k, eq_iff j id, eq_iff k id)

-- An offer under an identifier.
abbrev pub Under : String → List HostingOffer → Type 0
Under id os = (p : HostingOffer) × (p.offer_id ≡ id) × In p os

pub has-Under :
    (id : String) (d : Dict HostingOffer) → has id d ≡ true → KeyedOffers d → Under id (values d)
unfolding has values
has-Under id [] h k = cc
has-Under id ((j, q) ∷ d) h k = elim (Bool-cases (str_eq j id)) [
  | inl here ↦ (q, k.0 ∙ ground (arith, eq_iff j id), inl refl)
  | inr there ↦ let (p, same, at) = has-Under id d (ground arith) k.1 in (p, same, inr at)
]
