-- ===== src/Hosting/Held.antt =====
-- What the purchase gate of hosting_governance.py holds under an identifier.
use reus.Prelude.{
  ℕ, ◌≡◌, refl, sym, ap, subst, ◌∙◌, false, String, Option, none, some, [], arith, str_eq, eq_iff,
  Bool-cases, inl, inr, some-inj,
}
use reus.Prelude.Dict.{Dict, get, put, get-put}
use reus.Hosting.Purchase.{
  PurchaseAuthorization, StoreFile, missing, invalid, records_of, records, save, load_raw,
  HostingPurchaseGate, record_event, persist, commit,
}

-- What the gate holds under an identifier: in the store, if it has one.
unfoldable pub held : String → HostingPurchaseGate → Option PurchaseAuthorization
held id g = elim g.store [ none ↦ get id g.current | some f ↦ load_raw id f ]

-- Records stand under their own identifiers.
abbrev pub Keyed : Dict PurchaseAuthorization → Type 0
Keyed d = (k : String) (x : PurchaseAuthorization) → get k d ≡ some x → x.authorization_id ≡ k

abbrev pub KeyedFile : Option StoreFile → Type 0
KeyedFile none = Unit
KeyedFile (some missing) = Unit
KeyedFile (some invalid) = Unit
KeyedFile (some (records_of d)) = Keyed d

pub record IsKeyed (g : HostingPurchaseGate) : Type 0 where
  pub current : Keyed g.current
  pub file : KeyedFile g.store

pub Keyed-nil : Keyed []
unfolding get
Keyed-nil k x e = cc

pub Keyed-put :
    (a : PurchaseAuthorization) (d : Dict PurchaseAuthorization)
    → Keyed d
    → Keyed (put a.authorization_id a d)
Keyed-put a d h k x e = elim (Bool-cases (str_eq a.authorization_id k)) [
  | inl same ↦
      let is_a : a ≡ x = some-inj (sym (get-put a.authorization_id k a d ∙ rw same refl) ∙ e) in
      sym (ap (λ (y : PurchaseAuthorization). y.authorization_id) is_a)
      ∙ ground (arith, eq_iff a.authorization_id k)
  | inr other ↦ h k x (sym (get-put a.authorization_id k a d ∙ rw other refl) ∙ e)
]

-- One change of the gate under the identifier of `x`.
persist-held :
    (x : PurchaseAuthorization) (id : String) (g : HostingPurchaseGate) (f : Option StoreFile)
    → g.store ≡ f
    → str_eq x.authorization_id id ≡ false
    → held id (persist x g).0 ≡ held id g
unfolding held persist load_raw save records
persist-held x id g none e h = rw e (get-put x.authorization_id id x g.current ∙ rw h refl)
persist-held x id g (some missing) e h = rw e (get-put x.authorization_id id x [] ∙ rw h refl)
persist-held x id g (some invalid) e h = rw e refl
persist-held x id g (some (records_of d)) e h = rw e (get-put x.authorization_id id x d ∙ rw h refl)

persist-IsKeyed :
    (x : PurchaseAuthorization) (g : HostingPurchaseGate) (f : Option StoreFile)
    → g.store ≡ f
    → IsKeyed g
    → IsKeyed (persist x g).0
unfolding persist save records
persist-IsKeyed x g none e k =
    rw e (record { current = Keyed-put x g.current k.current; file = tt })
persist-IsKeyed x g (some missing) e k =
    rw e (record { current = Keyed-put x g.current k.current; file = Keyed-put x [] Keyed-nil })
persist-IsKeyed x g (some invalid) e k =
    rw e (record { current = Keyed-put x g.current k.current; file = tt })
persist-IsKeyed x g (some (records_of d)) e k = rw e (record {
  current = Keyed-put x g.current k.current;
  file = Keyed-put x d (subst KeyedFile e k.file);
})

record_event-same :
    (event : String) (x : PurchaseAuthorization) (now : ℕ) (g : HostingPurchaseGate)
    → ((record_event event x now g).store ≡ g.store)
      × ((record_event event x now g).current ≡ g.current)
unfolding record_event
record_event-same event x now g = (ground arith, ground arith)

pub commit-held :
    (event : String) (x : PurchaseAuthorization) (now : ℕ) (id : String) (g : HostingPurchaseGate)
    → str_eq x.authorization_id id ≡ false
    → held id (commit event x now g).0 ≡ held id g
unfolding commit held
commit-held event x now id g h =
    let m = record_event event x now g in
    let (store, current) = record_event-same event x now g in
    persist-held x id m m.store refl h
    ∙ (λ i. elim (store i) [ none ↦ get id (current i) | some f ↦ load_raw id f ])

pub commit-IsKeyed :
    (event : String) (x : PurchaseAuthorization) (now : ℕ) (g : HostingPurchaseGate)
    → IsKeyed g
    → IsKeyed (commit event x now g).0
unfolding commit
commit-IsKeyed event x now g k =
    let m = record_event event x now g in
    let (store, current) = record_event-same event x now g in
    persist-IsKeyed x m m.store refl (record {
      current = subst Keyed (sym current) k.current;
      file = subst KeyedFile (sym store) k.file;
    })
