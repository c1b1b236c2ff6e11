-- ===== src/Raft/Step.antt =====
-- Runs of one node: every locked section of raft.py as a step, in any order, and restarts from disk.
use reus.Prelude.{ℕ, ◌≤◌, ◌≡◌, refl, sym, subst, Bool, String, Option, some, List, arith, inl, inr}
use reus.Membership.{MembershipPayload}
use reus.RaftStorage.{Command, RaftStorage}
use reus.Raft.Node.{RaftNode}
use reus.Raft.Votes.{Election, handle_request_vote, begin_election, on_vote_reply, finish_election}
use reus.Raft.Append.{SentEntry, handle_append_entries}
use reus.Raft.Snapshot.{compact_log, handle_install_snapshot}
use reus.Raft.Leader.{append_command, Round, Request, Reply, on_reply, finish_heartbeats}
use reus.Raft.Change.{install_membership_snapshot, register_learner}
use reus.Raft.Commands.{replay_committed}
use reus.Raft.Load.{raft_node}
use reus.Raft.Restart.{restart_lem}
use reus.Raft.Durable.{
  VoteKept-refl, VoteKept-trans, state_of, IsSaved, VoteStays, VoteKept, Keeps, Keeps-same,
}
use reus.Raft.Keeps.{
  handle_request_vote-Keeps, handle_append_entries-Keeps, compact_log-Keeps,
  handle_install_snapshot-Keeps,
}
use reus.Raft.LeaderKeeps.{
  begin_election-Keeps, on_vote_reply-Keeps, finish_election-Keeps, append_command-Keeps,
  on_reply-Keeps, finish_heartbeats-Keeps,
}

-- One locked section of a node, with what it receives and the deadlines it draws, or a crash and a
-- start from the files.
pub data Step (n m : RaftNode) : Type 0 where
  vote_request :
      (term : ℕ) (candidate_id : String) (last_index last_term stepped granted : ℕ)
      → m ≡ (handle_request_vote term candidate_id last_index last_term stepped granted n).0
      → Step n m
  append_request :
      (term : ℕ) (leader_id : String) (prev prev_term : ℕ) (entries : List SentEntry)
      (leader_commit deadline : ℕ)
      → m ≡ (handle_append_entries term leader_id prev prev_term entries leader_commit deadline n).0
      → Step n m
  snapshot_request :
      (term : ℕ) (leader_id : String) (index index_term : ℕ) (content : String)
      (membership : Option MembershipPayload) (stepped deadline : ℕ)
      → m
        ≡ (handle_install_snapshot term leader_id index index_term content membership stepped
            deadline n).0
      → Step n m
  election_begun : (deadline : ℕ) → m ≡ (begin_election deadline n).0 → Step n m
  vote_answered :
      (peer_id : String) (term : ℕ) (granted : Bool) (deadline : ℕ) (e : Election)
      → m ≡ (on_vote_reply peer_id term granted deadline n e).0
      → Step n m
  votes_counted : (e : Election) → m ≡ finish_election n e → Step n m
  proposed : (command : Command) → m ≡ append_command command n → Step n m
  peer_answered :
      (peer_id : String) (request : Request) (reply : Reply) (deadline : ℕ) (r : Round)
      → m ≡ (on_reply peer_id request reply deadline r n).0
      → Step n m
  round_finished : (r : Round) → m ≡ finish_heartbeats r n → Step n m
  compacted : (upto : Option ℕ) (content : String) → m ≡ (compact_log upto content n).0 → Step n m
  change_begun :
      (pending : Option (List String)) → m ≡ record n { pending_joint_voters = pending } → Step n m
  seeded :
      (membership : MembershipPayload) → m ≡ (install_membership_snapshot membership n).0 → Step n m
  learner_added : (peer_id : String) → m ≡ (register_learner peer_id n).0 → Step n m
  replayed : m ≡ replay_committed n → Step n m
  restarted :
      (s : RaftStorage) (peers : List String) (strict : Bool) (deadline : ℕ)
      → n.storage ≡ some s
      → raft_node n.node_id peers strict (some s) deadline ≡ some m
      → Step n m

pub data Run (n : RaftNode) : RaftNode → Type 0 where
  here : Run n n
  next : {m k : RaftNode} → Run n m → Step m k → Run n k

install_membership_snapshot-Keeps :
    (p : MembershipPayload) (n : RaftNode) → Keeps n (install_membership_snapshot p n).0
unfolding install_membership_snapshot state_of
install_membership_snapshot-Keeps p n = Keeps-same n _ (ground arith) (ground arith)

register_learner-Keeps : (p : String) (n : RaftNode) → Keeps n (register_learner p n).0
unfolding register_learner state_of
register_learner-Keeps p n = Keeps-same n _ (ground arith) (ground arith)

module _ {n m x : RaftNode} (e : m ≡ x) (k : Keeps n x) (saved : IsSaved n) where
  kept_by : IsSaved m × VoteKept n m
  kept_by = let k' = subst (Keeps n) (sym e) k in (k'.saved saved, k'.vote)

-- A step keeps the state file in step with the node, and takes back no vote in its term.
Step-Keeps : {n m : RaftNode} → Step n m → IsSaved n → IsSaved m × VoteKept n m
unfolding state_of
Step-Keeps {n} (vote_request t c i lt d d' e) s =
    kept_by e (handle_request_vote-Keeps t c i lt d d' n) s
Step-Keeps {n} (append_request t l p pt ws c d e) s =
    kept_by e (handle_append_entries-Keeps t l p pt ws c d n) s
Step-Keeps {n} (snapshot_request t l i it content p d d' e) s =
    kept_by e (handle_install_snapshot-Keeps t l i it content p d d' n) s
Step-Keeps {n} (election_begun d e) s = kept_by e (begin_election-Keeps d n) s
Step-Keeps {n} (vote_answered p t g d el e) s = kept_by e (on_vote_reply-Keeps p t g d n el) s
Step-Keeps {n} (votes_counted el e) s = kept_by e (finish_election-Keeps n el) s
Step-Keeps {n} (proposed c e) s = kept_by e (append_command-Keeps c n) s
Step-Keeps {n} (peer_answered p q reply d r e) s = kept_by e (on_reply-Keeps p q reply d r n) s
Step-Keeps {n} (round_finished r e) s = kept_by e (finish_heartbeats-Keeps r n) s
Step-Keeps {n} (compacted u content e) s = kept_by e (compact_log-Keeps u content n) s
Step-Keeps {n} (change_begun p e) s =
    kept_by e (Keeps-same n (record n { pending_joint_voters = p }) refl refl) s
Step-Keeps {n} (seeded p e) s = kept_by e (install_membership_snapshot-Keeps p n) s
Step-Keeps {n} (learner_added p e) s = kept_by e (register_learner-Keeps p n) s
Step-Keeps {n} (replayed e) s =
    kept_by e
      (Keeps-same n (replay_committed n) (unfold replay_committed in refl)
        (unfold replay_committed in refl))
      s
Step-Keeps {n} {m} (restarted st peers strict d e h) s =
    let (fields, storage) = restart_lem st n m n.node_id peers strict d s e h in
    kept_by refl (Keeps-same n m fields storage) s

Run-Keeps : {n m : RaftNode} → Run n m → IsSaved n → IsSaved m × VoteKept n m
Run-Keeps {n} here s = (s, VoteKept-refl n)
Run-Keeps {n} (next {m} {k} r st) s =
    let (s', v) = Run-Keeps r s in
    let (s'', w) = Step-Keeps st s' in (s'', VoteKept-trans n m k v w)

-- From a node whose state file holds its state, through any handlers in any order and any number of
-- restarts: as long as the term is the same, a vote that was cast stands.
pub vote_stands :
    (n m : RaftNode) (v : String)
    → Run n m
    → IsSaved n
    → n.voted_for ≡ some v
    → m.current_term ≡ n.current_term
    → m.voted_for ≡ some v
vote_stands n m v r s cast same = elim (Run-Keeps r s).1 [
  | inl newer ↦ absurd (omega arith)
  | inr (_, stays) ↦ subst (λ o. VoteStays o m.voted_for) cast stays
]

-- From a node whose state file holds its state, through any handlers in any order and any number of
-- restarts, the term never falls, and the state file still holds the node's term, vote and log.
pub term_grows :
    (n m : RaftNode) → Run n m → IsSaved n → (n.current_term ≤ m.current_term) × IsSaved m
term_grows n m r s =
    let (s', v) = Run-Keeps r s in
    (elim v [ inl newer ↦ omega arith | inr (same, _) ↦ omega arith ], s')
