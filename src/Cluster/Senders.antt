-- ===== src/Cluster/Senders.antt =====
-- The request handlers of raft_cluster_node.py: whose requests they obey.
use reus.Prelude.{
  ℕ, ◌≤◌, ◌≡◌, true, String, Option, none, some, arith, str_eq, eq_iff, Bool-cases, inl, inr,
}
use reus.Raft.Node.{last_log_index, last_log_term}
use reus.Raft.Votes.{handle_request_vote}
use reus.Raft.Granted.{UpToDate, handle_request_vote-granted}
use reus.Cluster.Node.{
  RaftClusterNode, absorb, sender_matches, VoteRequest, refuse, vote, answer_vote, on_request_vote,
}

-- A vote was granted to the claimed sender, which is also the certified one.
abbrev pub GrantedTo :
    (sender_cn claimed : Option String) → VoteRequest → (n m : RaftClusterNode) → Type 0
GrantedTo sender_cn claimed q n m =
    (sender_cn ≡ claimed)
    × (n.raft.current_term ≤ q.term)
    × (m.raft.current_term ≡ q.term)
    × (m.raft.voted_for ≡ claimed)
    × UpToDate (last_log_term n.raft) (last_log_index n.raft) q.last_log_term q.last_log_index

-- A cluster node answers a vote request with yes only if the name in the sender's certificate is the
-- candidate; the node has then voted for that candidate in the term asked for, which is not older than
-- its own, and the candidate's log is at least as up to date as the node's.
pub on_request_vote_accepted :
    (sender_cn claimed : Option String) (q : VoteRequest) (stepped granted : ℕ)
    (n : RaftClusterNode)
    → (on_request_vote sender_cn claimed (some q) stepped granted n).1.accepted ≡ true
    → GrantedTo sender_cn claimed q n
        (on_request_vote sender_cn claimed (some q) stepped granted n).0
unfolding on_request_vote sender_matches answer_vote vote refuse absorb
on_request_vote_accepted none claimed q d d' n h = absurd (ground arith)
on_request_vote_accepted (some cn) none q d d' n h = absurd (ground arith)
on_request_vote_accepted (some cn) (some c) q d d' n h = elim (Bool-cases (str_eq cn c)) [
  | inl same ↦ rw same (
      let granted : (handle_request_vote q.term c q.last_log_index q.last_log_term d d' n.raft).1.1
          ≡ true =
        ground arith in
      let (fresh, term, voted, log) =
        handle_request_vote-granted q.term c q.last_log_index q.last_log_term d d' n.raft granted in
      (ground (arith, eq_iff cn c), fresh, term, voted, log))
  | inr other ↦ absurd (ground arith)
]
