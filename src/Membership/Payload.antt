-- ===== src/Membership/Payload.antt =====
-- `to_payload` and `from_payload`: the voters that a learner or a snapshot is seeded with.
use reus.Prelude.{
  ◌≡◌, refl, ◌∙◌, false, Option, none, some, List, [], ◌∷◌, arith, length, String, inl, inr,
  Option-cases, some-inj, ◌==◌, subst,
}
use reus.Prelude.Sets.{
  contains, set_of, sorted, IsDistinct, set_of-IsDistinct, set_of-eq_of_IsDistinct,
  sorted-IsDistinct, contains-sorted, count_by-sorted, length-sorted,
}
use reus.Membership.{
  VoterConfiguration, Field, absent, ill_typed, strings, decode, is_empty, normalise_voters,
  is_majority, has_quorum, to_payload, from_payload, voter_configuration, MembershipPayload,
  with_voters, with_joint,
}

-- What `VoterConfiguration(…)` guarantees of a set of voters.
pub record IsVoterSet (s : List String) : Type 0 where
  pub not_empty : is_empty s ≡ false
  pub named : contains s "" ≡ false
  pub distinct : IsDistinct s

abbrev pub JointValid : Option (List String) → Type 0
JointValid none = Unit
JointValid (some s) = IsVoterSet s

pub record IsValid (c : VoterConfiguration) : Type 0 where
  pub voters : IsVoterSet c.voters
  pub joint : JointValid c.joint_voters

normalise_voters-IsVoterSet : (s t : List String) → normalise_voters s ≡ some t → IsVoterSet t
unfolding normalise_voters
normalise_voters-IsVoterSet s t h = record {
  not_empty = ground arith;
  named = ground arith;
  distinct = rw (← accepted) (set_of-IsDistinct s);
}
  where
    accepted : set_of s ≡ t
    accepted = ground arith

with_joint-IsValid :
    (voters : List String) (joint : Option (List String)) (c : VoterConfiguration)
    → IsVoterSet voters
    → JointValid joint
    → with_joint voters joint ≡ some c
    → IsValid c
unfolding with_joint
with_joint-IsValid voters none c v j h = cc
with_joint-IsValid voters (some joint) c v j h =
    subst IsValid (some-inj h) (record { voters = v; joint = j })

normalise_voters-JointValid : (s : List String) → JointValid (normalise_voters s)
normalise_voters-JointValid s = elim (Option-cases (normalise_voters s)) [
  | inl e ↦ rw e tt
  | inr (t, e) ↦ rw e (normalise_voters-IsVoterSet s t e)
]

with_voters-IsValid :
    (voters joint : Option (List String)) (c : VoterConfiguration)
    → JointValid voters
    → with_voters voters joint ≡ some c
    → IsValid c
unfolding with_voters
with_voters-IsValid none joint c v h = cc
with_voters-IsValid (some voters) none c v h =
    subst IsValid (some-inj h) (record { voters = v; joint = tt })
with_voters-IsValid (some voters) (some joint) c v h =
    with_joint-IsValid voters (normalise_voters joint) c v (normalise_voters-JointValid joint) h

-- Every configuration that the constructor accepts is valid.
pub voter_configuration-IsValid :
    (s : List String) (joint : Option (List String)) (c : VoterConfiguration)
    → voter_configuration s joint ≡ some c
    → IsValid c
unfolding voter_configuration
voter_configuration-IsValid s joint c h =
    with_voters-IsValid (normalise_voters s) joint c (normalise_voters-JointValid s) h

-- Every configuration that a payload decodes to is valid.
pub from_payload-IsValid :
    (p : MembershipPayload) (c : VoterConfiguration) → from_payload p ≡ some c → IsValid c
unfolding from_payload
from_payload-IsValid p c h = go p.voters p.joint_voters h
  where
    go : (v j : Field) → decode v j ≡ some c → IsValid c
    go (strings v) absent h = voter_configuration-IsValid v none c h
    go (strings v) (strings j) h = voter_configuration-IsValid v (some j) c h
    go (strings v) ill_typed h = cc
    go absent j h = cc
    go ill_typed j h = cc

is_empty-eq-length : (s : List String) → is_empty s ≡ (length s == 0)
is_empty-eq-length [] = refl
is_empty-eq-length (x ∷ s) = ground arith

sorted-IsVoterSet : (s : List String) → IsVoterSet s → IsVoterSet (sorted s)
sorted-IsVoterSet s v = record {
  not_empty = rw (is_empty-eq-length, length-sorted s, ← is_empty-eq-length s) v.not_empty;
  named = contains-sorted s "" ∙ v.named;
  distinct = sorted-IsDistinct s v.distinct;
}

normalise_voters-eq : (s : List String) → IsVoterSet s → normalise_voters s ≡ some s
unfolding normalise_voters
normalise_voters-eq s v = rw (set_of-eq_of_IsDistinct s v.distinct, v.not_empty, v.named)

sort_joint : Option (List String) → Option (List String)
sort_joint none = none
sort_joint (some joint) = some (sorted joint)

-- The same voters in order.
abbrev canonical : VoterConfiguration → VoterConfiguration
canonical c = record { voters = sorted c.voters; joint_voters = sort_joint c.joint_voters }

from_payload-to_payload_eq :
    (c : VoterConfiguration) → IsValid c → from_payload (to_payload c) ≡ some (canonical c)
unfolding from_payload to_payload sort_joint
from_payload-to_payload_eq c v = go c.voters c.joint_voters v.voters v.joint
  where
    go :
        (s : List String) (j : Option (List String))
        → IsVoterSet s
        → JointValid j
        → from_payload (to_payload (record { voters = s; joint_voters = j }))
          ≡ some (canonical (record { voters = s; joint_voters = j }))
    go s none vs vj = rw (normalise_voters-eq (sorted s) (sorted-IsVoterSet s vs), with_voters)
    go s (some j) vs vj = rw (
      normalise_voters-eq (sorted s) (sorted-IsVoterSet s vs),
      normalise_voters-eq (sorted j) (sorted-IsVoterSet j vj),
      with_voters,
      with_joint,
    )

is_majority-sorted : (a s : List String) → is_majority a (sorted s) ≡ is_majority a s
unfolding is_majority
is_majority-sorted a s = rw (length-sorted s, count_by-sorted (contains a) s)

has_quorum-canonical :
    (c : VoterConfiguration) (a : List String) → has_quorum (canonical c) a ≡ has_quorum c a
unfolding has_quorum sort_joint
has_quorum-canonical c a = elim (Option-cases c.joint_voters) [
  | inl e ↦ rw (e, is_majority-sorted a c.voters)
  | inr (j, e) ↦ rw (e, is_majority-sorted a c.voters, is_majority-sorted a j)
]

-- The same joint voters, or none in both.
abbrev pub SameJoint : Option (List String) → Option (List String) → Type 0
SameJoint none none = Unit
SameJoint (some s) (some t) = (x : String) → contains s x ≡ contains t x
SameJoint _ _ = ⊥

sort_joint-SameJoint : (o : Option (List String)) → SameJoint (sort_joint o) o
unfolding sort_joint
sort_joint-SameJoint none = tt
sort_joint-SameJoint (some s) = contains-sorted s

-- A valid configuration survives the payload: what is decoded has the same voters, the same joint voters
-- or none where it had none, and accepts exactly the same sets of acknowledgements.
pub from_payload-to_payload :
    (c : VoterConfiguration)
    → IsValid c
    → (d : VoterConfiguration) × (from_payload (to_payload c) ≡ some d)
      × ((x : String) → contains d.voters x ≡ contains c.voters x)
      × SameJoint d.joint_voters c.joint_voters
      × ((a : List String) → has_quorum d a ≡ has_quorum c a)
from_payload-to_payload c v = (
  canonical c,
  from_payload-to_payload_eq c v,
  contains-sorted c.voters,
  sort_joint-SameJoint c.joint_voters,
  has_quorum-canonical c,
)
