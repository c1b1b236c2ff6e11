-- ===== src/Hosting/Tests/Buying.antt =====
-- One purchase: requested, approved and consumed, with a restart in between.
use reus.Prelude.{◌≡◌, refl, false, String, none, some, [], ◌∷◌}
use reus.Prelude.Dict.{get, put}
use reus.Hosting.Offers.{HostingOffer, validate, detail_hash}
use reus.Hosting.Purchase.{
  PurchaseAuthorization, missing, records, save, load_raw, is_at, HostingPurchaseGate, record_event,
  persist, commit, or_given, latest, same_details, assert_current, request, approve_latest, approve,
  consume_latest, consume,
}
use reus.Hosting.Held.{IsKeyed, Keyed-nil, Keyed-put}
use reus.Hosting.Runs.{approved, requested, restarted, perform_all}
use reus.Hosting.Once.{Justified, consume-Justified, consume_once}
use reus.Hosting.Tests.{offer}

program : Unit {0}
unfolding get put validate detail_hash records save load_raw is_at record_event persist commit
    or_given latest same_details assert_current request approve_latest approve consume_latest
    consume
program = tt

abbrev digest : HostingOffer → String
digest o = o.offer_id

abbrev upper : String → String
upper s = s

abbrev server : HostingOffer
server = offer "o1" 500 false

abbrev authorization : PurchaseAuthorization
authorization = record {
  authorization_id = "auth";
  offer_id = "o1";
  detail_hash = "o1";
  amount_minor = 500;
  currency = "EUR";
  billing_period = "month";
  expires_at = 400;
  approved_at = some 150;
  consumed_at = none;
  expired_at = none;
  cancelled_at = none;
}

abbrev gate : HostingPurchaseGate
gate =
    perform_all digest upper
      (requested "auth" server 300 100 ∷ approved authorization server 150 ∷ restarted ∷ [])
      (record { audit = none; store = some missing; current = [] })

abbrev bought : PurchaseAuthorization
bought = record authorization { consumed_at = some 200 }

gate-IsKeyed : IsKeyed gate
unfolding program
gate-IsKeyed = record { current = λ k x h. cc; file = Keyed-put authorization [] Keyed-nil }

consume-Justified_example : Justified digest upper authorization server 200 gate bought
unfolding program
consume-Justified_example = consume-Justified digest upper authorization server 200 gate bought refl

consume_once_example :
    (consume digest authorization server 210 (
      perform_all digest upper
        (approved authorization server 205 ∷ requested "new" server 300 206 ∷ restarted ∷ [])
        (consume digest authorization server 200 gate).0)).1
    ≡ none
unfolding program
consume_once_example =
    consume_once digest upper authorization authorization server server 200 210 gate bought
      (approved authorization server 205 ∷ requested "new" server 300 206 ∷ restarted ∷ [])
      gate-IsKeyed refl (tt, (refl, (tt, tt))) refl

-- A gate without a store that holds nothing takes the approval that it is presented.
unvouched :
    (consume digest authorization server 200
      (record { audit = none; store = none; current = [] })).1
    ≡ some bought
unfolding program
unvouched = refl
