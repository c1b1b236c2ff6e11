-- ===== src/Hosting/Tests.antt =====
-- Offers, a purchase and a session at concrete values.
mod Buying
use reus.Prelude.{
  ℕ, ◌+◌, ◌<◌, ◌≤◌, ◌≡◌, ◌≢◌, refl, Bool, true, false, String, Option, none, some, List, [], ◌∷◌,
  All, arith, eq_iff,
}
use reus.Prelude.Dict.{get, put, values, has}
use reus.Prelude.Members.{In}
use reus.Hosting.Offers.{
  HostingOffer, validate, publish, key_leb, insert_offer, sort_offers, is_region, is_free_if,
  is_currency, is_affordable, compare_offers, HostingSearchRequest, is_wanted, take_offer, collect,
  search,
}
use reus.Hosting.Listing.{Ascending, Under}
use reus.Hosting.Search.{Wanted, Meets, search-Lists}
use reus.Hosting.Purchase.{is_at}
use reus.Hosting.Remote.{
  RemoteControlSession, RemoteControlGrant, is_mode, request_session, is_open, confirm_locally,
  revoke,
}
use reus.Hosting.Sessions.{Attempt, confirming, revoking, attempt_all, attempt_all-request_session}

program : Unit {0}
unfolding get put values has validate publish key_leb insert_offer sort_offers is_region is_free_if
    is_currency is_affordable compare_offers is_wanted take_offer collect search is_at is_mode
    request_session is_open confirm_locally revoke
program = tt

abbrev pub offer : String → ℕ → Bool → HostingOffer
offer id price free = record {
  offer_id = id;
  provider = "p";
  plan = "small";
  region = "eu";
  monthly_price_minor = price;
  currency = "EUR";
  billing_period = "month";
  is_free = free;
  data_boundary = "eu";
  compute_summary = "1 cpu";
}

abbrev discovered : List HostingOffer
discovered =
    offer "a" 900 false ∷ offer "b" 500 false ∷ offer "c" 0 true ∷ offer "d" 2000 false ∷ []

abbrev wanted : HostingSearchRequest
wanted = record {
  region = some "eu";
  maximum_monthly_price_minor = some 1000;
  currency = some "EUR";
  free_only = false;
  require_persistent_compute = true;
}

abbrev upper : String → String
upper s = s

found :
    search upper discovered wanted
    ≡ some (offer "c" 0 true ∷ offer "b" 500 false ∷ offer "a" 900 false ∷ [])
unfolding program
found = refl

search-Lists_example :
    All
      (Wanted upper wanted discovered)
      (offer "c" 0 true ∷ offer "b" 500 false ∷ offer "a" 900 false ∷ [])
    × Ascending (offer "c" 0 true ∷ offer "b" 500 false ∷ offer "a" 900 false ∷ [])
    × ((o : HostingOffer)
        → In o discovered
        → Meets upper wanted o
        → Under o.offer_id (offer "c" 0 true ∷ offer "b" 500 false ∷ offer "a" 900 false ∷ []))
unfolding program
search-Lists_example = search-Lists upper discovered _ wanted refl

abbrev grant : RemoteControlGrant
grant = record {
  session = record {
    session_id = "s";
    mode = "view";
    device_label = "desk";
    expires_at = 400;
    session_key_hash = "key";
    locally_confirmed_at = none;
    revoked_at = none;
  };
  local_confirmation_key = "key";
}

abbrev attempts : List Attempt
attempts = confirming "no" 150 ∷ confirming "key" 200 ∷ confirming "key" 300 ∷ revoking 350 ∷ []

attempt_all-request_session_example :
    (grant.local_confirmation_key ≡ "key")
    × (attempt_all (λ s. s) attempts grant.session
        ≡ record (grant.session) { locally_confirmed_at = some 200; revoked_at = some 350 })
unfolding program
attempt_all-request_session_example =
    attempt_all-request_session (λ s. s) "s" "key" "view" "desk" 300 100 grant attempts refl
