-- ===== src/Hosting/Offers.antt =====
-- `HostingOffer`, `HostingOfferCatalog` and `HostingSearchService` of infrastructure/hosting_governance.py.
use Prim.Native.String.{count, compare}
use Prim.Native.Nat.{Ordering}
use reus.Prelude.{
  ℕ, Bool, true, false, not, ◌&&◌, ◌||◌, String, Option, none, some, List, [], ◌∷◌, ltb, ◌==◌,
  str_eq, if◌then◌else◌, filter_by,
}
use reus.Prelude.Dict.{Dict, put, values}

-- Prices are not negative: the type of `monthly_price_minor` leaves out what `validate` would refuse.
pub record HostingOffer : Type 0 where
  pub offer_id : String
  pub provider : String
  pub plan : String
  pub region : String
  pub monthly_price_minor : ℕ
  pub currency : String
  pub billing_period : String
  pub is_free : Bool
  pub data_boundary : String
  pub compute_summary : String

abbrev is_blank : String → Bool
is_blank s = str_eq s ""

-- `validate`; false is a HostingGovernanceError.
unfoldable pub validate : HostingOffer → Bool
validate o =
    if is_blank o.offer_id || is_blank o.provider || is_blank o.plan || is_blank o.region
    then false
    else if o.is_free && not (o.monthly_price_minor == 0)
    then false
    else not (is_blank o.currency || not (count o.currency == 3) || is_blank o.billing_period)

-- `detail_hash`, with `digest` for SHA-256 of the joined details; `none` is an invalid offer.
unfoldable pub detail_hash : (digest : HostingOffer → String) → HostingOffer → Option String
detail_hash digest o = if validate o then some (digest o) else none

unfoldable pub publish : HostingOffer → Dict HostingOffer → Option (Dict HostingOffer)
publish o offers = if validate o then some (put o.offer_id o offers) else none

abbrev str_order : String → String → Bool → Bool
str_order a b rest = elim (compare a b) [
  | Ordering.lt ↦ true
  | Ordering.eq ↦ rest
  | Ordering.gt ↦ false
]

-- The order of `(not is_free, monthly_price_minor, provider, plan)`, as `<=`.
unfoldable pub key_leb : HostingOffer → HostingOffer → Bool
key_leb a b =
    if a.is_free && not b.is_free
    then true
    else if b.is_free && not a.is_free
    then false
    else if ltb a.monthly_price_minor b.monthly_price_minor
    then true
    else if ltb b.monthly_price_minor a.monthly_price_minor
    then false
    else str_order a.provider b.provider (str_order a.plan b.plan true)

unfoldable pub insert_offer : HostingOffer → List HostingOffer → List HostingOffer
insert_offer o [] = o ∷ []
insert_offer o (p ∷ ps) =
    let rest = insert_offer o ps in if key_leb o p then o ∷ p ∷ ps else p ∷ rest

-- `sorted(offers, key=…)`, which keeps the order of equal keys
unfoldable pub sort_offers : List HostingOffer → List HostingOffer
sort_offers [] = []
sort_offers (o ∷ os) = insert_offer o (sort_offers os)

-- A missing or empty text sets no condition.
unfoldable pub is_region : Option String → HostingOffer → Bool
is_region none o = true
is_region (some r) o = if is_blank r then true else str_eq o.region r

unfoldable pub is_free_if : Bool → HostingOffer → Bool
is_free_if free_only o = not free_only || o.is_free

unfoldable pub compare_offers : Option String → Bool → Dict HostingOffer → List HostingOffer
compare_offers region free_only offers =
    sort_offers (filter_by (is_free_if free_only) (filter_by (is_region region) (values offers)))

-- The maximum price is not negative: `search` refuses one that is.
pub record HostingSearchRequest : Type 0 where
  pub region : Option String
  pub maximum_monthly_price_minor : Option ℕ
  pub currency : Option String
  pub free_only : Bool
  pub require_persistent_compute : Bool

unfoldable pub is_currency : (upper : String → String) → Option String → HostingOffer → Bool
is_currency upper none o = true
is_currency upper (some c) o = if is_blank c then true else str_eq (upper o.currency) (upper c)

unfoldable pub is_affordable : Option ℕ → HostingOffer → Bool
is_affordable none o = true
is_affordable (some limit) o = not (ltb limit o.monthly_price_minor)

-- The four `continue`s of the loop.
unfoldable pub is_wanted : (upper : String → String) → HostingSearchRequest → HostingOffer → Bool
is_wanted upper r o =
    is_region r.region o
    && is_free_if r.free_only o
    && is_currency upper r.currency o
    && is_affordable r.maximum_monthly_price_minor o

-- One offer of a source: an invalid one raises, an unwanted one is passed over.
unfoldable pub take_offer :
    (upper : String → String)
    → HostingSearchRequest
    → HostingOffer
    → Dict HostingOffer
    → Option (Dict HostingOffer)
take_offer upper r o offers =
    if validate o then (if is_wanted upper r o then publish o offers else some offers) else none

-- The inner loops, over the offers that the sources discover, in order.
unfoldable pub collect :
    (upper : String → String)
    → HostingSearchRequest
    → List HostingOffer
    → Dict HostingOffer
    → Option (Dict HostingOffer)
collect upper r [] offers = some offers
collect upper r (o ∷ os) offers = elim (take_offer upper r o offers) [
  | none ↦ none
  | some offers' ↦ collect upper r os offers'
]

-- `discovered` is what the sources return for the request, one after the other.
unfoldable pub search :
    (upper : String → String)
    → List HostingOffer
    → HostingSearchRequest
    → Option (List HostingOffer)
search upper discovered r = elim (collect upper r discovered []) [
  | none ↦ none
  | some offers ↦ some (compare_offers r.region r.free_only offers)
]
