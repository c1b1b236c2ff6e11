-- ===== src/TrustStore/Tests.antt =====
-- Two peers whose common name is their certificate, and a peer from an older file.
use reus.Prelude.{◌≡◌, refl, true, String, none, some, [], ◌∷◌}
use reus.Prelude.Dict.{Dict, get, put, has}
use reus.TrustStore.{
  Peer, is_found, is_taken, has_other_certificate, add_peer, get_peer_by_transport_id,
  transport_id_of, transport_peer_ids, pem_pieces, own_pieces, build_trust_bundle,
}
use reus.TrustStore.Bound.{Binds, peer, add_peer-Binds}

program : Unit {0}
unfolding get put has is_found is_taken has_other_certificate add_peer get_peer_by_transport_id
    transport_id_of transport_peer_ids pem_pieces own_pieces build_trust_bundle
program = tt

abbrev cn : String → String
cn pem = pem

abbrev first : Peer
first = record {
  host = "h";
  port = 1;
  cert_pem = "a";
  signing_pubkey_hex = "k";
  transport_node_id = some "a";
}

abbrev peers : Dict Peer
peers = ("one", first) ∷ []

abbrev second : Peer
second = peer cn "two" "g" 2 "b" "l"

no_rotation : add_peer cn "one" "h" 1 "c" "k" peers ≡ none
unfolding program
no_rotation = refl

no_sharing : add_peer cn "two" "g" 2 "a" "l" peers ≡ none
unfolding program
no_sharing = refl

-- A peer that has no stored identity is not seen by the check, and hides the peer that was added.
abbrev old : Peer
old = record first { transport_node_id = none }

hidden :
    get_peer_by_transport_id cn "a" (("one", old) ∷ ("two", peer cn "two" "g" 2 "a" "l") ∷ [])
    ≡ some old
unfolding program
hidden = refl

old_is_unseen :
    add_peer cn "two" "g" 2 "a" "l" (("one", old) ∷ [])
    ≡ some (("one", old) ∷ ("two", peer cn "two" "g" 2 "a" "l") ∷ [], true)
unfolding program
old_is_unseen = refl

bundle : build_trust_bundle peers (some "own") ≡ "a" ∷ "\n" ∷ "own" ∷ "\n" ∷ []
unfolding program
bundle = refl

identities : transport_peer_ids cn (("one", old) ∷ ("two", second) ∷ []) ≡ "a" ∷ "b" ∷ []
unfolding program
identities = refl

add_peer-Binds_example : Binds cn "two" second peers (("one", first) ∷ ("two", second) ∷ []) true
unfolding program
add_peer-Binds_example =
    add_peer-Binds cn "two" "g" 2 "b" "l" peers (("one", first) ∷ ("two", second) ∷ []) true
      (refl, tt) refl
