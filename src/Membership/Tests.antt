-- ===== src/Membership/Tests.antt =====
-- Voter configurations at concrete cells.
use reus.Prelude.{◌≡◌, refl, true, false, some, List, [], ◌∷◌, String}
use reus.Prelude.Sets.{contains, set_of, sorted}
use reus.Membership.{
  VoterConfiguration, has_quorum, is_majority, majority_size, voter_configuration, to_payload,
  from_payload, peer_ids,
}
use reus.Membership.Quorum.{has_quorum-overlap, has_quorum-overlap_joint}
use reus.Membership.Payload.{
  IsValid, SameJoint, from_payload-to_payload, voter_configuration-IsValid,
}

abbrev cell : VoterConfiguration
cell = record { voters = "a" ∷ "b" ∷ "c" ∷ []; joint_voters = some ("c" ∷ "d" ∷ "e" ∷ []) }

program : Unit {0}
unfolding has_quorum is_majority majority_size voter_configuration to_payload from_payload peer_ids
    contains set_of sorted
program = tt

cell_quorum : has_quorum cell ("a" ∷ "c" ∷ "d" ∷ []) ≡ true
unfolding program
cell_quorum = refl

cell_no_quorum : has_quorum cell ("a" ∷ "b" ∷ "c" ∷ []) ≡ false
unfolding program
cell_no_quorum = refl

cell_peers : peer_ids cell "c" ≡ "a" ∷ "b" ∷ "d" ∷ "e" ∷ []
unfolding program
cell_peers = refl

has_quorum-overlap_example :
    (x : String) × (contains cell.voters x ≡ true)
    × (contains ("a" ∷ "c" ∷ "d" ∷ []) x ≡ true)
    × (contains ("b" ∷ "c" ∷ "e" ∷ []) x ≡ true)
unfolding program
has_quorum-overlap_example =
    has_quorum-overlap cell ("a" ∷ "c" ∷ "d" ∷ []) ("b" ∷ "c" ∷ "e" ∷ []) refl refl

has_quorum-overlap_joint_example :
    (x : String) × (contains ("c" ∷ "d" ∷ "e" ∷ []) x ≡ true)
    × (contains ("a" ∷ "c" ∷ "d" ∷ []) x ≡ true)
    × (contains ("b" ∷ "c" ∷ "e" ∷ []) x ≡ true)
unfolding program
has_quorum-overlap_joint_example =
    has_quorum-overlap_joint cell ("a" ∷ "c" ∷ "d" ∷ []) ("b" ∷ "c" ∷ "e" ∷ [])
      ("c" ∷ "d" ∷ "e" ∷ []) refl refl refl

cell-IsValid : IsValid cell
unfolding program
cell-IsValid =
    voter_configuration-IsValid ("a" ∷ "b" ∷ "c" ∷ []) (some ("c" ∷ "d" ∷ "e" ∷ [])) cell refl

from_payload-to_payload_example :
    (d : VoterConfiguration) × (from_payload (to_payload cell) ≡ some d)
    × ((x : String) → contains d.voters x ≡ contains cell.voters x)
    × SameJoint d.joint_voters cell.joint_voters
    × ((a : List String) → has_quorum d a ≡ has_quorum cell a)
from_payload-to_payload_example = from_payload-to_payload cell cell-IsValid
