-- ===== src/Membership/Quorum.antt =====
-- Quorums of `VoterConfiguration.has_quorum`: any two of one configuration share a voter.
use reus.Prelude.{◌≡◌, true, ◌&&◌, some, List, arith, leb→le, count_by-and, String}
use reus.Prelude.Sets.{contains, count_by-member}
use reus.Membership.{VoterConfiguration, is_majority, has_quorum}

-- Two majorities of one set share a member of it.
pub is_majority-overlap :
    (a b voters : List String)
    → is_majority a voters ≡ true
    → is_majority b voters ≡ true
    → (x : String) × (contains voters x ≡ true) × (contains a x ≡ true) × (contains b x ≡ true)
unfolding is_majority
is_majority-overlap a b voters ha hb =
    let (x, m, both) =
      count_by-member (λ x. contains a x && contains b x) voters
        (omega
          (arith, leb→le _ _ ha, leb→le _ _ hb, count_by-and (contains a) (contains b) voters)) in
    (x, m, ground arith, ground arith)

-- A quorum is a majority of the voters, in a joint configuration of both sets.
pub has_quorum-is_majority :
    (c : VoterConfiguration) (a : List String)
    → has_quorum c a ≡ true
    → is_majority a c.voters ≡ true
unfolding has_quorum
has_quorum-is_majority c a h = ground arith

pub has_quorum-is_majority_joint :
    (c : VoterConfiguration) (a joint : List String)
    → c.joint_voters ≡ some joint
    → has_quorum c a ≡ true
    → is_majority a joint ≡ true
unfolding has_quorum
has_quorum-is_majority_joint c a joint e h = ground arith

-- Any two sets of acknowledgements that are quorums of one configuration share one of its voters.
pub has_quorum-overlap :
    (c : VoterConfiguration) (a b : List String)
    → has_quorum c a ≡ true
    → has_quorum c b ≡ true
    → (x : String) × (contains c.voters x ≡ true) × (contains a x ≡ true) × (contains b x ≡ true)
has_quorum-overlap c a b ha hb =
    is_majority-overlap a b c.voters (has_quorum-is_majority c a ha) (has_quorum-is_majority c b hb)

-- In a joint configuration they also share one of the incoming voters.
pub has_quorum-overlap_joint :
    (c : VoterConfiguration) (a b joint : List String)
    → c.joint_voters ≡ some joint
    → has_quorum c a ≡ true
    → has_quorum c b ≡ true
    → (x : String) × (contains joint x ≡ true) × (contains a x ≡ true) × (contains b x ≡ true)
has_quorum-overlap_joint c a b joint e ha hb =
    is_majority-overlap a b joint (has_quorum-is_majority_joint c a joint e ha)
      (has_quorum-is_majority_joint c b joint e hb)
