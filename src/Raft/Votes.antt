-- ===== src/Raft/Votes.antt =====
-- Elections: `handle_request_vote`, `_start_election` and `_become_leader` of
-- infrastructure/cluster_network/raft.py. The lock is released while a candidate waits for a reply,
-- so an election is three kinds of atomic sections: its begin, each reply, and the count.
use reus.Prelude.{
  ℕ, ◌+◌, Bool, true, false, not, ◌&&◌, ◌||◌, String, Option, none, some, List, [], ◌∷◌, ltb, leb,
  ◌==◌, if◌then◌else◌, str_eq,
}
use reus.Prelude.Sets.{contains}
use reus.Prelude.Dict.{put}
use reus.Membership.{all_voters, peer_ids, has_quorum}
use reus.Raft.Node.{
  RaftNode, Role, candidate, leader, persist, last_log_index, last_log_term, step_down,
}

-- The candidate's log is at least as up to date as this node's.
unfoldable pub log_ok : RaftNode → ℕ → ℕ → Bool
log_ok n last_log_idx last_term =
    ltb (last_log_term n) last_term
    || (last_term == last_log_term n && leb (last_log_index n) last_log_idx)

-- `self.voted_for in (None, candidate_id)`
unfoldable pub may_vote_for : RaftNode → String → Bool
may_vote_for n candidate_id = elim n.voted_for [ none ↦ true | some v ↦ str_eq v candidate_id ]

unfoldable pub decide_vote : String → ℕ → ℕ → ℕ → RaftNode → RaftNode × (ℕ × Bool)
decide_vote candidate_id last_log_idx last_term deadline n =
    if may_vote_for n candidate_id && log_ok n last_log_idx last_term
    then (let m =
          persist (record n { voted_for = some candidate_id; election_deadline = deadline }) in
        (m, (m.current_term, true)))
    else (n, (n.current_term, false))

-- Strict membership keeps out a node or a candidate that is no voter.
unfoldable pub outside_cell : RaftNode → String → Bool
outside_cell n candidate_id =
    n.membership_enforced
    && (not (contains (all_voters n.membership) n.node_id)
        || not (contains (all_voters n.membership) candidate_id))

-- The two deadlines are what `_new_election_deadline()` returns on stepping down and on granting.
unfoldable pub handle_request_vote :
    ℕ → String → ℕ → ℕ → (stepped granted : ℕ) → RaftNode → RaftNode × (ℕ × Bool)
handle_request_vote term candidate_id last_log_idx last_term stepped granted n =
    if outside_cell n candidate_id
    then (n, (n.current_term, false))
    else if ltb term n.current_term
    then (n, (n.current_term, false))
    else decide_vote candidate_id last_log_idx last_term granted
        (if ltb n.current_term term then step_down term stepped n else n)

-- What `_start_election` keeps in local variables while it asks its peers.
pub record Election : Type 0 where
  pub term : ℕ
  pub last_log_idx : ℕ
  pub last_term : ℕ
  pub peers : List String
  pub votes : List String

-- The first locked section; `none` is the early return of a node that is no voter.
unfoldable pub begin_election : ℕ → RaftNode → RaftNode × Option Election
begin_election deadline n =
    if n.membership_enforced && not (contains (all_voters n.membership) n.node_id)
    then (n, none)
    else (let m = persist (record n {
      current_term = n.current_term + 1;
      role = candidate;
      voted_for = some n.node_id;
    }) in
        (
          record m { election_deadline = deadline },
          some (record {
            term = m.current_term;
            last_log_idx = last_log_index m;
            last_term = last_log_term m;
            peers = peer_ids m.membership m.node_id;
            votes = m.node_id ∷ [];
          }),
        ))

unfoldable pub is_candidate : Role → Bool
is_candidate candidate = true
is_candidate _ = false

-- `self.role == Role.CANDIDATE and self.current_term == term`
unfoldable pub still_running : RaftNode → Election → Bool
still_running n e = is_candidate n.role && n.current_term == e.term

-- The locked section after a reply, and `votes.add`; `none` ends the election.
unfoldable pub on_vote_reply :
    String → ℕ → Bool → ℕ → RaftNode → Election → RaftNode × Option Election
on_vote_reply peer_id resp_term granted deadline n e =
    if ltb n.current_term resp_term
    then (step_down resp_term deadline n, none)
    else if not (still_running n e)
    then (n, none)
    else (n, some (if granted then record e { votes = peer_id ∷ e.votes } else e))

unfoldable pub reset_peers : ℕ → List String → RaftNode → RaftNode
reset_peers next [] n = n
reset_peers next (peer_id ∷ rest) n = reset_peers next rest (record n {
  next_index = put peer_id next n.next_index;
  match_index = put peer_id 0 n.match_index;
})

-- `_become_leader`
unfoldable pub become_leader : List String → RaftNode → RaftNode
become_leader peers n =
    reset_peers (last_log_index n + 1) peers
      (record n { role = leader; leader_id = some n.node_id })

-- The last locked section.
unfoldable pub finish_election : RaftNode → Election → RaftNode
finish_election n e =
    if still_running n e && has_quorum n.membership e.votes then become_leader e.peers n else n
