-- ===== src/Hosting/Purchase.antt =====
-- `PurchaseAuthorization`, `HostingAuthorizationStore` and `HostingPurchaseGate` of
-- infrastructure/hosting_governance.py.
use reus.Prelude.{
  ℕ, ◌+◌, Bool, true, false, not, ◌&&◌, ◌||◌, String, Option, none, some, List, [], ◌∷◌, ◌++◌, ltb,
  ◌==◌, str_eq, if◌then◌else◌,
}
use reus.Prelude.Dict.{Dict, get, put}
use reus.Hosting.Offers.{HostingOffer, detail_hash}

pub record PurchaseAuthorization : Type 0 where
  pub authorization_id : String
  pub offer_id : String
  pub detail_hash : String
  pub amount_minor : ℕ
  pub currency : String
  pub billing_period : String
  pub expires_at : ℕ
  pub approved_at : Option ℕ
  pub consumed_at : Option ℕ
  pub expired_at : Option ℕ
  pub cancelled_at : Option ℕ

-- The file of the store: not there, not a JSON object, or the records by their identifiers.
pub data StoreFile : Type 0 where
  missing invalid : StoreFile
  records_of : Dict PurchaseAuthorization → StoreFile

-- `_records`
unfoldable pub records : StoreFile → Option (Dict PurchaseAuthorization)
records missing = some []
records invalid = none
records (records_of d) = some d

unfoldable pub save : PurchaseAuthorization → StoreFile → Option StoreFile
save a f = elim (records f) [
  | none ↦ none
  | some d ↦ some (records_of (put a.authorization_id a d))
]

unfoldable pub load_raw : String → StoreFile → Option PurchaseAuthorization
load_raw id f = elim (records f) [ none ↦ none | some d ↦ get id d ]

unfoldable pub is_at : Option ℕ → Bool
is_at none = false
is_at (some t) = true

-- `load`; false where it raises.
unfoldable pub is_loadable : (now : ℕ) → PurchaseAuthorization → Bool
is_loadable now a =
    not (is_at a.cancelled_at)
    && not (is_at a.expired_at)
    && ltb now a.expires_at
    && not (is_at a.consumed_at)

unfoldable pub loadable : (now : ℕ) → Option PurchaseAuthorization → Option PurchaseAuthorization
loadable now none = none
loadable now (some a) = if is_loadable now a then some a else none

unfoldable pub load : String → (now : ℕ) → StoreFile → Option PurchaseAuthorization
load id now f = loadable now (load_raw id f)

-- One line of the audit file.
pub record AuditLine : Type 0 where
  pub event : String
  pub at : ℕ
  pub authorization_id : String
  pub offer_id : String
  pub detail_hash : String
  pub amount_minor : ℕ
  pub currency : String
  pub billing_period : String

-- `audit` and `store` are `none` for a gate that was given none.
pub record HostingPurchaseGate : Type 0 where
  pub audit : Option (List AuditLine)
  pub store : Option StoreFile
  pub current : Dict PurchaseAuthorization

-- `_record`; the field names that it passes are none of those that the audit refuses.
unfoldable pub record_event :
    String → PurchaseAuthorization → ℕ → HostingPurchaseGate → HostingPurchaseGate
record_event event a now g = elim g.audit [
  | none ↦ g
  | some lines ↦ record g {
    audit = some (
        lines
        ++ record {
          event = event;
          at = now;
          authorization_id = a.authorization_id;
          offer_id = a.offer_id;
          detail_hash = a.detail_hash;
          amount_minor = a.amount_minor;
          currency = a.currency;
          billing_period = a.billing_period;
        }
          ∷ []);
  }
]

-- `_persist`, and the return of the authorization: without the store's file nothing is returned.
unfoldable pub persist :
    PurchaseAuthorization → HostingPurchaseGate → HostingPurchaseGate × Option PurchaseAuthorization
persist a g =
    let m = record g { current = put a.authorization_id a g.current } in
    elim g.store [
      | none ↦ (m, some a)
      | some f ↦ elim (save a f) [
        | none ↦ (m, none)
        | some f' ↦ (record m { store = some f' }, some a)
      ]
    ]

unfoldable pub commit :
    String
    → PurchaseAuthorization
    → ℕ
    → HostingPurchaseGate
    → HostingPurchaseGate × Option PurchaseAuthorization
commit event a now g = persist a (record_event event a now g)

-- `_latest`
unfoldable pub or_given :
    PurchaseAuthorization → Option PurchaseAuthorization → PurchaseAuthorization
or_given a none = a
or_given a (some b) = b

unfoldable pub latest : PurchaseAuthorization → HostingPurchaseGate → Option PurchaseAuthorization
latest a g = elim g.store [
  | some f ↦ load_raw a.authorization_id f
  | none ↦ some (or_given a (get a.authorization_id g.current))
]

unfoldable pub same_details : PurchaseAuthorization → String → Option String → Bool
same_details a offer_id none = false
same_details a offer_id (some h) = str_eq a.offer_id offer_id && str_eq a.detail_hash h

-- `_assert_current`; false where it raises.
unfoldable pub assert_current :
    (digest : HostingOffer → String) → PurchaseAuthorization → HostingOffer → ℕ → Bool
assert_current digest a o now =
    not (is_at a.cancelled_at)
    && not (is_at a.expired_at)
    && not (is_at a.consumed_at)
    && ltb now a.expires_at
    && same_details a o.offer_id (detail_hash digest o)

unfoldable pub request :
    (digest : HostingOffer → String)
    → (upper : String → String) → (id : String) → HostingOffer
    → (ttl_seconds now : ℕ) → HostingPurchaseGate
    → HostingPurchaseGate × Option PurchaseAuthorization
request digest upper id o ttl_seconds now g = elim (detail_hash digest o) [
  | none ↦ (g, none)
  | some h ↦
      if ttl_seconds == 0
      then (g, none)
      else commit "hosting_purchase_requested"
          (record {
            authorization_id = id;
            offer_id = o.offer_id;
            detail_hash = h;
            amount_minor = o.monthly_price_minor;
            currency = upper o.currency;
            billing_period = o.billing_period;
            expires_at = now + ttl_seconds;
            approved_at = none;
            consumed_at = none;
            expired_at = none;
            cancelled_at = none;
          })
          now g
]

unfoldable pub approve_latest :
    (digest : HostingOffer → String)
    → Option PurchaseAuthorization
    → HostingOffer
    → ℕ
    → HostingPurchaseGate
    → HostingPurchaseGate × Option PurchaseAuthorization
approve_latest digest none o now g = (g, none)
approve_latest digest (some a) o now g =
    if assert_current digest a o now && not (is_at a.approved_at)
    then commit "hosting_purchase_approved" (record a { approved_at = some now }) now g
    else (g, none)

unfoldable pub approve :
    (digest : HostingOffer → String)
    → PurchaseAuthorization
    → HostingOffer
    → (now : ℕ) → HostingPurchaseGate
    → HostingPurchaseGate × Option PurchaseAuthorization
approve digest a o now g = approve_latest digest (latest a g) o now g

unfoldable pub consume_latest :
    (digest : HostingOffer → String)
    → Option PurchaseAuthorization
    → HostingOffer
    → ℕ
    → HostingPurchaseGate
    → HostingPurchaseGate × Option PurchaseAuthorization
consume_latest digest none o now g = (g, none)
consume_latest digest (some a) o now g =
    if assert_current digest a o now && is_at a.approved_at && not (is_at a.consumed_at)
    then commit "hosting_purchase_consumed" (record a { consumed_at = some now }) now g
    else (g, none)

unfoldable pub consume :
    (digest : HostingOffer → String)
    → PurchaseAuthorization
    → HostingOffer
    → (now : ℕ) → HostingPurchaseGate
    → HostingPurchaseGate × Option PurchaseAuthorization
consume digest a o now g = consume_latest digest (latest a g) o now g

unfoldable pub is_closed : PurchaseAuthorization → Bool
is_closed a = is_at a.consumed_at || is_at a.cancelled_at || is_at a.expired_at

unfoldable pub expire_latest :
    Option PurchaseAuthorization
    → ℕ
    → HostingPurchaseGate
    → HostingPurchaseGate × Option PurchaseAuthorization
expire_latest none now g = (g, none)
expire_latest (some a) now g =
    if is_closed a || ltb now a.expires_at
    then (g, none)
    else commit "hosting_purchase_expired" (record a { expired_at = some now }) now g

unfoldable pub expire :
    PurchaseAuthorization
    → (now : ℕ) → HostingPurchaseGate
    → HostingPurchaseGate × Option PurchaseAuthorization
expire a now g = expire_latest (latest a g) now g

unfoldable pub cancel_latest :
    Option PurchaseAuthorization
    → ℕ
    → HostingPurchaseGate
    → HostingPurchaseGate × Option PurchaseAuthorization
cancel_latest none now g = (g, none)
cancel_latest (some a) now g =
    if is_closed a
    then (g, none)
    else commit "hosting_purchase_cancelled" (record a { cancelled_at = some now }) now g

unfoldable pub cancel :
    PurchaseAuthorization
    → (now : ℕ) → HostingPurchaseGate
    → HostingPurchaseGate × Option PurchaseAuthorization
cancel a now g = cancel_latest (latest a g) now g
