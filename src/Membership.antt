-- ===== src/Membership.antt =====
-- infrastructure/cluster_network/membership.py: the voters of one Raft cell, with the joint
-- configuration of a replacement. A `frozenset` is a list read as a set; `MembershipError` is `none`.
pub mod Quorum
pub mod Payload
mod Tests
use reus.Prelude.{
  ℕ, ◌+◌, ◌/◌, String, ◌≡◌, Bool, true, false, ◌&&◌, ◌||◌, Option, none, some, List, [], ◌∷◌, leb,
  if◌then◌else◌, length, count_by,
}
use reus.Prelude.Sets.{contains, set_of, union, difference, sorted}

abbrev is_empty : List String → Bool
is_empty [] = true
is_empty (x ∷ s) = false

-- `_normalise_voters`
normalise_voters : List String → Option (List String)
unfolding set_of contains
normalise_voters values =
    let voters = set_of values in
    if is_empty voters || contains voters "" then none else some voters

-- `_majority_size`
unfoldable pub majority_size : List String → ℕ
majority_size voters = length voters / 2 + 1

pub record VoterConfiguration : Type 0 where
  pub voters : List String
  pub joint_voters : Option (List String)

with_joint : List String → Option (List String) → Option VoterConfiguration
with_joint voters none = none
with_joint voters (some joint) = some (record { voters = voters; joint_voters = some joint })

with_voters : Option (List String) → Option (List String) → Option VoterConfiguration
unfolding with_joint normalise_voters
with_voters none joint = none
with_voters (some voters) none = some (record { voters = voters; joint_voters = none })
with_voters (some voters) (some joint) = with_joint voters (normalise_voters joint)

-- The constructor `VoterConfiguration(voters, joint_voters)` with its `__post_init__`.
unfoldable pub voter_configuration : List String → Option (List String) → Option VoterConfiguration
unfolding with_voters normalise_voters
voter_configuration voters joint = with_voters (normalise_voters voters) joint

abbrev pub or_empty : Option (List String) → List String
or_empty none = []
or_empty (some s) = s

unfoldable pub all_voters : VoterConfiguration → List String
unfolding union
all_voters c = union c.voters (or_empty c.joint_voters)

unfoldable pub peer_ids : VoterConfiguration → String → List String
unfolding all_voters difference sorted
peer_ids c local_node_id = sorted (difference (all_voters c) (local_node_id ∷ []))

-- `len(acknowledged & voters) >= _majority_size(voters)`
unfoldable pub is_majority : List String → List String → Bool
unfolding majority_size contains
is_majority acknowledged voters =
    leb (majority_size voters) (count_by (contains acknowledged) voters)

unfoldable pub has_quorum : VoterConfiguration → List String → Bool
unfolding is_majority
has_quorum c acknowledgements =
    let old_quorum = is_majority acknowledgements c.voters in
    elim c.joint_voters [
      | none ↦ old_quorum
      | some joint ↦ old_quorum && is_majority acknowledgements joint
    ]

-- A field of a JSON payload that should hold a list: absent (or null), of another type, or a list.
pub data Field : Type 0 where
  absent ill_typed : Field
  strings : List String → Field

pub record MembershipPayload : Type 0 where
  pub voters : Field
  pub joint_voters : Field

unfoldable pub to_payload : VoterConfiguration → MembershipPayload
unfolding sorted
to_payload c = record {
  voters = strings (sorted c.voters);
  joint_voters = elim c.joint_voters [ none ↦ absent | some joint ↦ strings (sorted joint) ];
}

decode : Field → Field → Option VoterConfiguration
unfolding voter_configuration
decode (strings voters) absent = voter_configuration voters none
decode (strings voters) (strings joint) = voter_configuration voters (some joint)
decode _ _ = none

unfoldable pub from_payload : MembershipPayload → Option VoterConfiguration
unfolding decode
from_payload payload = decode payload.voters payload.joint_voters
