-- ===== src/Raft/LeaderKeeps.antt =====
-- The candidate's and the leader's sections of raft.py keep what was persisted, and a vote.
use reus.Prelude.{
  ℕ, ◌+◌, ◌-◌, refl, Bool, true, false, not, ◌&&◌, ltb, String, some, List, [], ◌∷◌, ◌++◌, arith,
  Option-cases, Bool-cases, inl, inr,
}
use reus.Prelude.Sets.{contains}
use reus.Prelude.Dict.{put}
use reus.Membership.{all_voters, has_quorum}
use reus.RaftStorage.{Command}
use reus.Raft.Node.{RaftNode, candidate, leader, persist, last_log_index}
use reus.Raft.Votes.{
  Election, begin_election, on_vote_reply, still_running, finish_election, become_leader,
  reset_peers,
}
use reus.Raft.Leader.{
  is_leader, append_command, Round, Request, install_snapshot, append_entries, Reply, failed,
  replied, tell, acknowledge, back_off, accepted, refused, on_reply, maybe_advance_commit_index,
  find_committable, finish_heartbeats,
}
use reus.Raft.Durable.{state_of, Keeps, Keeps-refl, Keeps-trans, Keeps-same, Keeps-persist}
use reus.Raft.Keeps.{VoteKept-same, ltb→lt, step_down-Keeps, apply_committed-Keeps}

pub begin_election-Keeps : (d : ℕ) (n : RaftNode) → Keeps n (begin_election d n).0
unfolding begin_election state_of
begin_election-Keeps d n =
    let m = record n {
      current_term = n.current_term + 1;
      role = candidate;
      voted_for = some n.node_id;
    } in
    elim (Bool-cases
      (n.membership_enforced && not (contains (all_voters n.membership) n.node_id))) [
        | inl e ↦ rw e (Keeps-refl n)
        | inr e ↦ rw e (
            Keeps-trans (Keeps-persist n m (inl (omega arith)))
              (Keeps-same (persist m) (record (persist m) { election_deadline = d }) refl refl))
      ]

pub on_vote_reply-Keeps :
    (p : String) (t : ℕ) (g : Bool) (d : ℕ) (n : RaftNode) (e : Election)
    → Keeps n (on_vote_reply p t g d n e).0
unfolding on_vote_reply
on_vote_reply-Keeps p t g d n e = elim (Bool-cases (ltb n.current_term t)) [
  | inl h ↦ rw h (step_down-Keeps t d n (ltb→lt _ _ h))
  | inr h ↦ elim (Bool-cases (still_running n e)) [
    | inl k ↦ rw (h, k) (Keeps-refl n)
    | inr k ↦ rw (h, k) (Keeps-refl n)
  ]
]

reset_peers-Keeps : (next : ℕ) (ps : List String) (n : RaftNode) → Keeps n (reset_peers next ps n)
unfolding reset_peers state_of
reset_peers-Keeps next [] n = Keeps-refl n
reset_peers-Keeps next (p ∷ ps) n =
    let m = record n {
      next_index = put p next n.next_index;
      match_index = put p 0 n.match_index;
    } in
    Keeps-trans (Keeps-same n m refl refl) (reset_peers-Keeps next ps m)

pub finish_election-Keeps : (n : RaftNode) (e : Election) → Keeps n (finish_election n e)
unfolding finish_election become_leader state_of
finish_election-Keeps n e =
    let m = record n { role = leader; leader_id = some n.node_id } in
    elim (Bool-cases (still_running n e && has_quorum n.membership e.votes)) [
      | inl h ↦ rw h (Keeps-trans (Keeps-same n m refl refl) (reset_peers-Keeps _ e.peers m))
      | inr h ↦ rw h (Keeps-refl n)
    ]

pub append_command-Keeps : (c : Command) (n : RaftNode) → Keeps n (append_command c n)
unfolding append_command
append_command-Keeps c n =
    let m = record n {
      log =
          n.log ++ record { term = n.current_term; index = last_log_index n + 1; command = c } ∷ [];
    } in
    Keeps-persist n m (VoteKept-same n m refl refl)

accepted-Keeps :
    (p : String) (q : Request) (r : Round) (n : RaftNode) → Keeps n (accepted p q r n).0
unfolding accepted acknowledge tell state_of
accepted-Keeps p install_snapshot r n = Keeps-same n _ refl refl
accepted-Keeps p (append_entries i j t ws) r n = Keeps-same n _ refl refl

refused-Keeps : (p : String) (q : Request) (r : Round) (n : RaftNode) → Keeps n (refused p q r n).0
unfolding refused back_off tell state_of
refused-Keeps p install_snapshot r n = Keeps-same n _ refl refl
refused-Keeps p (append_entries i j t ws) r n = Keeps-same n _ refl refl

pub on_reply-Keeps :
    (p : String) (q : Request) (reply : Reply) (d : ℕ) (r : Round) (n : RaftNode)
    → Keeps n (on_reply p q reply d r n).0
unfolding on_reply tell state_of
on_reply-Keeps p q failed d r n = Keeps-same n _ refl refl
on_reply-Keeps p q (replied t true) d r n = elim (Bool-cases (ltb n.current_term t)) [
  | inl h ↦ rw h (step_down-Keeps t d n (ltb→lt _ _ h))
  | inr h ↦ elim (Bool-cases (is_leader n.role)) [
    | inl k ↦ rw (h, k) (accepted-Keeps p q r n)
    | inr k ↦ rw (h, k) (Keeps-refl n)
  ]
]
on_reply-Keeps p q (replied t false) d r n = elim (Bool-cases (ltb n.current_term t)) [
  | inl h ↦ rw h (step_down-Keeps t d n (ltb→lt _ _ h))
  | inr h ↦ elim (Bool-cases (is_leader n.role)) [
    | inl k ↦ rw (h, k) (refused-Keeps p q r n)
    | inr k ↦ rw (h, k) (Keeps-refl n)
  ]
]

maybe_advance_commit_index-Keeps :
    (ps : List String) (n : RaftNode) → Keeps n (maybe_advance_commit_index ps n)
unfolding maybe_advance_commit_index
maybe_advance_commit_index-Keeps ps n =
    elim (Option-cases (find_committable n ps (last_log_index n - n.commit_index))) [
      | inl h ↦ rw (h, maybe_advance_commit_index) (Keeps-refl n)
      | inr (i, h) ↦ rw (h, maybe_advance_commit_index) (apply_committed-Keeps i n)
    ]

pub finish_heartbeats-Keeps : (r : Round) (n : RaftNode) → Keeps n (finish_heartbeats r n)
unfolding finish_heartbeats state_of
finish_heartbeats-Keeps r n = elim (Bool-cases (is_leader n.role)) [
  | inl h ↦
      rw h (Keeps-trans (maybe_advance_commit_index-Keeps r.peers n) (Keeps-same _ _ refl refl))
  | inr h ↦ rw h (Keeps-refl n)
]
