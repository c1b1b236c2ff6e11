-- ===== src/TrustStore.antt =====
-- infrastructure/cluster_network/trust_store.py: the trusted peers. `cn` is the common name of a
-- certificate. A peer of a file that was written before transport identities were stored has none.
pub mod Bound
mod Tests
use reus.Prelude.{
  ℕ, Bool, true, false, not, ◌||◌, String, Option, none, some, List, [], ◌∷◌, ◌++◌, str_eq,
  if◌then◌else◌,
}
use reus.Prelude.Dict.{Dict, get, put, has}

pub record Peer : Type 0 where
  pub host : String
  pub port : ℕ
  pub cert_pem : String
  pub signing_pubkey_hex : String
  pub transport_node_id : Option String

-- `peer.get("transport_node_id") == transport_node_id`
unfoldable pub is_found : String → Peer → Bool
is_found t p = elim p.transport_node_id [ none ↦ false | some u ↦ str_eq u t ]

unfoldable pub is_taken : String → String → Dict Peer → Bool
is_taken node_id t [] = false
is_taken node_id t ((k, p) ∷ peers) =
    let rest = is_taken node_id t peers in if str_eq k node_id then rest else (is_found t p || rest)

unfoldable pub has_other_certificate : String → Option Peer → Bool
has_other_certificate cert_pem none = false
has_other_certificate cert_pem (some p) = not (str_eq p.cert_pem cert_pem)

-- `none` is a ValueError.
unfoldable pub add_peer :
    (cn : String → String)
    → (node_id host : String) → (port : ℕ) → (cert_pem signing_pubkey_hex : String) → Dict Peer
    → Option (Dict Peer × Bool)
add_peer cn node_id host port cert_pem signing_pubkey_hex peers =
    if has_other_certificate cert_pem (get node_id peers)
    then none
    else if is_taken node_id (cn cert_pem) peers
    then none
    else some (
      put node_id
          (record {
            host = host;
            port = port;
            cert_pem = cert_pem;
            signing_pubkey_hex = signing_pubkey_hex;
            transport_node_id = some (cn cert_pem);
          })
          peers,
      not (has node_id peers),
    )

-- The first peer with the identity, from its certificate where none is stored.
unfoldable pub get_peer_by_transport_id : (cn : String → String) → String → Dict Peer → Option Peer
get_peer_by_transport_id cn t [] = none
get_peer_by_transport_id cn t ((k, p) ∷ peers) =
    let rest = get_peer_by_transport_id cn t peers in
    elim p.transport_node_id [
      | none ↦ if str_eq (cn p.cert_pem) t then some p else rest
      | some u ↦ if str_eq u t then some p else rest
    ]

unfoldable pub transport_id_of : (cn : String → String) → Peer → String
transport_id_of cn p = elim p.transport_node_id [
  | none ↦ cn p.cert_pem
  | some u ↦ if str_eq u "" then cn p.cert_pem else u
]

unfoldable pub transport_peer_ids : (cn : String → String) → Dict Peer → List String
transport_peer_ids cn [] = []
transport_peer_ids cn ((k, p) ∷ peers) = transport_id_of cn p ∷ transport_peer_ids cn peers

-- The pieces that are written to the file, one after the other.
unfoldable pub pem_pieces : Dict Peer → List String
pem_pieces [] = []
pem_pieces ((k, p) ∷ peers) = p.cert_pem ∷ "\n" ∷ pem_pieces peers

unfoldable pub own_pieces : Option String → List String
own_pieces none = []
own_pieces (some pem) = if str_eq pem "" then [] else pem ∷ "\n" ∷ []

unfoldable pub build_trust_bundle : Dict Peer → Option String → List String
build_trust_bundle peers own_cert_pem = pem_pieces peers ++ own_pieces own_cert_pem
