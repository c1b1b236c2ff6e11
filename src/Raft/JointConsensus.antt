-- ===== src/Raft/JointConsensus.antt =====
-- `_apply_membership_command` of raft.py: a committed change moves between configurations whose
-- quorums overlap.
use reus.Prelude.{
  ◌≡◌, refl, ap, ◌∙◌, subst, Bool, true, false, ◌&&◌, String, Option, none, some, List, [], ◌∷◌,
  arith, Option-cases, Bool-cases, ℕ, sym, str_eq, eq_refl, if◌then◌else◌, eq_iff, ◌⊎◌, inl, inr,
  ◌≤◌, ◌+◌, count_by, length, suc,
}
use reus.Prelude.Sets.{
  contains, set_of, same_set, is_subset, IsDistinct, contains-set_of, contains-union,
}
use reus.Membership.{
  VoterConfiguration, voter_configuration, all_voters, or_empty, has_quorum, is_majority,
  majority_size, strings,
}
use reus.Membership.Quorum.{
  is_majority-overlap, has_quorum-overlap, has_quorum-is_majority, has_quorum-is_majority_joint,
}
use reus.Membership.Payload.{IsValid, JointValid, voter_configuration-IsValid}
use reus.RaftStorage.{Command, raft_membership_joint, raft_membership_finalize}
use reus.Raft.Node.{RaftNode}
use reus.Raft.Commands.{
  apply_membership_command, apply_joint, apply_finalize, enter_joint, leave_joint, is_joint_of,
}

is_subset-contains :
    (s t : List String) (x : String)
    → is_subset s t ≡ true
    → contains s x ≡ true
    → contains t x ≡ true
unfolding is_subset contains
is_subset-contains [] t x h m = cc
is_subset-contains (y ∷ s) t x h m = ground (arith, eq_iff y x, is_subset-contains s t x)

same_set-contains :
    (s t : List String) (x : String) → same_set s t ≡ true → contains s x ≡ contains t x
unfolding same_set
same_set-contains s t x h = ground (arith, is_subset-contains s t x, is_subset-contains t s x)

-- `t` without the first `x`.
erase : String → List String → List String
erase x [] = []
erase x (y ∷ t) = if str_eq y x then t else y ∷ erase x t

abbrev one_if : Bool → ℕ
one_if true = 1
one_if false = 0

count_by-erase :
    (p : String → Bool) (x : String) (t : List String)
    → contains t x ≡ true
    → count_by p t ≡ one_if (p x) + count_by p (erase x t)
unfolding contains erase
count_by-erase p x [] m = cc
count_by-erase p x (y ∷ t) m = elim (Bool-cases (str_eq y x)) [
  | inl e ↦ ground (arith, eq_iff y x)
  | inr e ↦ ground (arith, count_by-erase p x t)
]

contains-erase :
    (x y : String) (t : List String)
    → contains t y ≡ true
    → str_eq x y ≡ false
    → contains (erase x t) y ≡ true
unfolding contains erase
contains-erase x y [] m h = cc
contains-erase x y (z ∷ t) m h =
    ground (arith, contains-erase x y t, eq_iff z x, eq_iff z y, eq_iff x y)

-- Distinct identifiers that all stand in a list are at most as many as it holds.
count_by-le-of_subset :
    (p : String → Bool) (s t : List String)
    → IsDistinct s
    → ((x : String) → contains s x ≡ true → contains t x ≡ true)
    → count_by p s ≤ count_by p t
unfolding contains
count_by-le-of_subset p [] t d sub = omega arith
count_by-le-of_subset p (x ∷ s) t d sub =
    let rest =
      count_by-le-of_subset p s (erase x t) d.1
        (λ y m. contains-erase x y t (sub y (ground arith)) (ground (arith, eq_iff x y))) in
    ground (arith, rest, count_by-erase p x t (sub x (ground (arith, eq_refl x))))

length-eq-count_by : (s : List String) → length s ≡ count_by (λ x. true) s
length-eq-count_by [] = refl
length-eq-count_by (x ∷ s) = ap suc (length-eq-count_by s)

-- Majorities depend on the voters as a set.
is_majority-same_set :
    (a s t : List String)
    → IsDistinct s
    → IsDistinct t
    → ((x : String) → contains s x ≡ contains t x)
    → is_majority a s ≡ is_majority a t
unfolding is_majority majority_size
is_majority-same_set a s t ds dt same =
    let to = λ (p : String → Bool). count_by-le-of_subset p s t ds (λ x m. sym (same x) ∙ m) in
    let from = λ (p : String → Bool). count_by-le-of_subset p t s dt (λ x m. same x ∙ m) in
    let equal : (p : String → Bool) → count_by p s ≡ count_by p t =
      λ p. omega (arith, to p, from p) in
    rw (length-eq-count_by s, length-eq-count_by t, equal (contains a), equal (λ x. true))

voter_configuration-voters :
    (s : List String) (j : Option (List String)) (c : VoterConfiguration)
    → voter_configuration s j ≡ some c
    → c.voters ≡ set_of s
unfolding voter_configuration
voter_configuration-voters s j c h = ground arith

-- What a joint command makes of the configuration.
apply_joint-membership :
    (old_voters new_voters : List String) (n : RaftNode)
    → ((apply_joint old_voters new_voters n).membership ≡ n.membership)
      ⊎ ((c : VoterConfiguration) × (same_set old_voters n.membership.voters ≡ true)
          × (voter_configuration old_voters (some new_voters) ≡ some c)
          × ((apply_joint old_voters new_voters n).membership ≡ c))
unfolding apply_joint enter_joint
apply_joint-membership old_voters new_voters n =
    elim (Bool-cases (same_set old_voters n.membership.voters)) [
      | inr other ↦ inl (rw other)
      | inl same ↦ elim (Option-cases (voter_configuration old_voters (some new_voters))) [
        | inl refused ↦ inl (rw (same, refused))
        | inr (c, accepted) ↦ inr (c, same, accepted, rw (same, accepted))
      ]
    ]

-- What a finalize command makes of it.
apply_finalize-membership :
    (old_voters new_voters : List String) (n : RaftNode)
    → ((apply_finalize old_voters new_voters n).membership ≡ n.membership)
      ⊎ ((c : VoterConfiguration) × (joint : List String) × (n.membership.joint_voters ≡ some joint)
          × (same_set joint new_voters ≡ true)
          × (voter_configuration new_voters none ≡ some c)
          × ((apply_finalize old_voters new_voters n).membership ≡ c))
unfolding apply_finalize leave_joint is_joint_of
apply_finalize-membership old_voters new_voters n =
    elim (Bool-cases (
      same_set n.membership.voters old_voters
      && is_joint_of new_voters n.membership.joint_voters)) [
        | inr other ↦ inl (rw other)
        | inl both ↦ elim (Option-cases n.membership.joint_voters) [
          | inl missing ↦ absurd (ground arith)
          | inr (joint, e) ↦ elim (Option-cases (voter_configuration new_voters none)) [
            | inl refused ↦ inl (rw (both, refused))
            | inr (c, accepted) ↦ inr (c, joint, e, ground arith, accepted, rw (both, accepted))
          ]
        ]
      ]

-- Entering a joint configuration keeps the old majority in every quorum.
apply_joint-majority :
    (old_voters new_voters a : List String) (n : RaftNode)
    → IsValid n.membership
    → has_quorum (apply_joint (set_of old_voters) (set_of new_voters) n).membership a ≡ true
    → is_majority a n.membership.voters ≡ true
apply_joint-majority old_voters new_voters a n valid q =
    elim (apply_joint-membership (set_of old_voters) (set_of new_voters) n) [
      | inl same ↦ has_quorum-is_majority n.membership a (rw same at q)
      | inr (c, same, accepted, e) ↦
          let in_c : is_majority a c.voters ≡ true = has_quorum-is_majority c a (rw e at q) in
          let voters =
            voter_configuration-voters (set_of old_voters) (some (set_of new_voters)) c accepted in
          sym (
            is_majority-same_set a c.voters n.membership.voters
              (voter_configuration-IsValid (set_of old_voters) (some (set_of new_voters)) c
                accepted).voters.distinct
              valid.voters.distinct
              λ x.
                ap (λ l. contains l x) voters
                ∙ contains-set_of (set_of old_voters) x
                ∙ same_set-contains (set_of old_voters) n.membership.voters x same)
          ∙ in_c
    ]

in_all_voters :
    (c : VoterConfiguration) (x : String)
    → contains c.voters x ≡ true
    → contains (all_voters c) x ≡ true
unfolding all_voters
in_all_voters c x m = contains-union c.voters (or_empty c.joint_voters) x ∙ ground arith

in_all_voters_joint :
    (c : VoterConfiguration) (joint : List String) (x : String)
    → c.joint_voters ≡ some joint
    → contains joint x ≡ true
    → contains (all_voters c) x ≡ true
unfolding all_voters
in_all_voters_joint c joint x e m =
    contains-union c.voters (or_empty c.joint_voters) x ∙ ground arith

-- A voter of the configuration that has acknowledged both.
abbrev pub Shared : VoterConfiguration → List String → List String → Type 0
Shared c a b =
    (x : String) × (contains (all_voters c) x ≡ true)
    × (contains a x ≡ true)
    × (contains b x ≡ true)

apply_joint-overlap :
    (old_voters new_voters a b : List String) (n : RaftNode)
    → IsValid n.membership
    → has_quorum n.membership a ≡ true
    → has_quorum (apply_joint (set_of old_voters) (set_of new_voters) n).membership b ≡ true
    → Shared n.membership a b
apply_joint-overlap old_voters new_voters a b n valid qa qb =
    let (x, m, xa, xb) =
      is_majority-overlap a b n.membership.voters (has_quorum-is_majority n.membership a qa)
        (apply_joint-majority old_voters new_voters b n valid qb) in
    (x, in_all_voters n.membership x m, xa, xb)

apply_finalize-overlap :
    (old_voters new_voters a b : List String) (n : RaftNode)
    → IsValid n.membership
    → has_quorum n.membership a ≡ true
    → has_quorum (apply_finalize (set_of old_voters) (set_of new_voters) n).membership b ≡ true
    → Shared n.membership a b
apply_finalize-overlap old_voters new_voters a b n valid qa qb =
    elim (apply_finalize-membership (set_of old_voters) (set_of new_voters) n) [
      | inl same ↦
          let (x, m, xa, xb) = has_quorum-overlap n.membership a b qa (rw same at qb) in
          (x, in_all_voters n.membership x m, xa, xb)
      | inr (c, joint, e, same, accepted, now) ↦
          let in_c : is_majority b c.voters ≡ true = has_quorum-is_majority c b (rw now at qb) in
          let voters = voter_configuration-voters (set_of new_voters) none c accepted in
          let distinct : IsDistinct joint = (subst JointValid e valid.joint).distinct in
          let in_joint =
            is_majority-same_set b c.voters joint
              (voter_configuration-IsValid (set_of new_voters) none c accepted).voters.distinct
              distinct
              λ x.
                ap (λ l. contains l x) voters
                ∙ contains-set_of (set_of new_voters) x
                ∙ sym (same_set-contains joint (set_of new_voters) x same) in
          let (x, m, xa, xb) =
            is_majority-overlap a b joint (has_quorum-is_majority_joint n.membership a joint e qa)
              (sym in_joint ∙ in_c) in
          (x, in_all_voters_joint n.membership joint x e m, xa, xb)
    ]

-- From a valid configuration: whatever command is committed, a quorum of the configuration before it and a quorum of the
-- configuration after it share a voter of the former: no command switches between disjoint quorums.
pub apply_membership_command-overlap :
    (command : Command) (n : RaftNode) (a b : List String)
    → IsValid n.membership
    → has_quorum n.membership a ≡ true
    → has_quorum (apply_membership_command command n).membership b ≡ true
    → Shared n.membership a b
unfolding apply_membership_command
apply_membership_command-overlap (raft_membership_joint (strings s) (strings t)) n a b v qa qb =
    apply_joint-overlap s t a b n v qa qb
apply_membership_command-overlap (raft_membership_finalize (strings s) (strings t)) n a b v qa qb =
    apply_finalize-overlap s t a b n v qa qb
apply_membership_command-overlap _ n a b v qa qb =
    let (x, m, xa, xb) = has_quorum-overlap n.membership a b qa qb in
    (x, in_all_voters n.membership x m, xa, xb)

-- A committed command leads from a valid configuration to a valid one.
pub apply_membership_command-IsValid :
    (command : Command) (n : RaftNode)
    → IsValid n.membership
    → IsValid (apply_membership_command command n).membership
unfolding apply_membership_command
apply_membership_command-IsValid (raft_membership_joint (strings s) (strings t)) n v =
    elim (apply_joint-membership (set_of s) (set_of t) n) [
      | inl same ↦ subst IsValid (sym same) v
      | inr (c, _, accepted, now) ↦
          subst IsValid (sym now)
            (voter_configuration-IsValid (set_of s) (some (set_of t)) c accepted)
    ]
apply_membership_command-IsValid (raft_membership_finalize (strings s) (strings t)) n v =
    elim (apply_finalize-membership (set_of s) (set_of t) n) [
      | inl same ↦ subst IsValid (sym same) v
      | inr (c, _, _, _, accepted, now) ↦
          subst IsValid (sym now) (voter_configuration-IsValid (set_of t) none c accepted)
    ]
apply_membership_command-IsValid _ n v = v
