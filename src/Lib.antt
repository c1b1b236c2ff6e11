-- ===== src/Lib.antt =====
-- Reus: a verification library for its replicated core.
--
-- Reus is a cluster of agents. Its nodes agree on a replicated log by Raft, and everything that has to
-- survive a node (task leases, voter changes) is a command in that log. The parts modelled here, with
-- paths from the repository's root:
--
--   Membership     infrastructure/cluster_network/membership.py: voter configurations and quorums
--   RaftStorage    infrastructure/cluster_network/raft_storage.py: the two files of a node
--   Raft           infrastructure/cluster_network/raft.py: `RaftNode`
--   Cluster        infrastructure/cluster_network/raft_cluster_node.py and task_coordinator.py: the states
--                  that a node replays from committed commands, its handlers and its proposals
--   Workflow       domain/workflow.py: the states of the tasks of a workflow, and failures that cancel
--   Recovery       infrastructure/cluster_network/recovery.py: when a failed voter is replaced
--   RateLimiter    infrastructure/rate_limiter.py: the sliding window of requests
--   Agent          domain/entities.py: the life cycle, permissions and counters of an agent
--   AuditLog       infrastructure/cognitive_core/identity/audit_log.py: the hash-chained audit log
--   Hosting        infrastructure/hosting_governance.py: offers, purchase approvals, remote sessions
--   JoinRequests   infrastructure/cluster_network/join_requests.py: requests to join, decided by a human
--   TrustStore     infrastructure/cluster_network/trust_store.py: trusted peers by transport identity
--   Approvals      infrastructure/approval_store.py: approvals on disk, with an audit of every change
--   Prelude        lists, sets as lists, dicts as association lists, Boolean tests
--
-- Raft/Node holds the record of a node and the log helpers, Raft/Load the start from disk, Raft/Votes
-- the elections, Raft/Append and Raft/Snapshot the handlers of the leader's requests, Raft/Commands the
-- effect of committed commands, Raft/Leader and Raft/Change what a leader does. Each method of
-- `RaftNode` is a function from node to node, with the name of the method less its underscore. A method
-- that releases the lock while it waits for a peer (`_start_election`, `_send_heartbeats`) is one
-- function for each locked section, with the local variables in a record (`Election`, `Round`), and
-- Raft/Step lets the sections of a node run in any order, with crashes and restarts between them.
--
-- Conventions. A log position is the source's index plus one, so that its -1 is 0. A set is a list
-- read as a set. An exception that leaves a method is `none`, or `raised` where state was changed
-- before. Clock readings and random deadlines are parameters. The callbacks of the application are
-- recorded in the node (`applied`, `snapshots_restored`, `liveness`), oldest first; what they return
-- is a parameter. The text of a file is the value it encodes, or `torn`; text that was written and not
-- synced is `unsynced`, and a crash may lose it. A rename is taken to be on disk at once.
--
-- Bounds. The loops over positions (`range(a, b)`) count their `b - a` rounds down. `propose_and_wait`
-- takes the list of what happens in each of its rounds until its deadline; where a theorem asks that
-- these rounds keep an entry within its term (Raft.Waiting), that is Raft's rule that a term has one
-- leader, which only appends. The `while` loop of `_cascade_cancel` gets one round more than there are
-- tasks, since each round but the last cancels one.
--
-- The other components. `RaftClusterNode` holds a Raft node, and what its callback `on_commit` does is
-- applied behind each change of that node, to the entries that were added to `applied` (Cluster.absorb);
-- what happens to the Raft node while a proposal waits is a parameter, as in Raft/Change. A store with
-- files keeps them as fields (`file`, `audit`), and a restart is a step of its runs. What other code
-- computes is an argument: SHA-256 and signatures (`digest`, `sign`, `is_valid`), common names of
-- certificates (`cn`), `str.upper`, `str.lower` and `str.strip`, new identifiers and keys. Prices and
-- times are natural numbers. Kahn's sorting gets one round of its `while` loop for each task, and
-- Workflow.Create shows that it never needs more.
--
-- Workflow models each operation on a task as a function from the dict of tasks to the dict and an
-- outcome, since a method that raises may already have changed a task.
--
-- Not modelled: the threads and timers that decide when a section runs, transport and TLS, the agents
-- themselves, the HTTP interface, the language models and the databases.
pub mod Prelude
pub mod Agent
pub mod Approvals
pub mod AuditLog
pub mod Cluster
pub mod Hosting
pub mod JoinRequests
pub mod Membership
pub mod Raft
pub mod RaftStorage
pub mod RateLimiter
pub mod Recovery
pub mod TrustStore
pub mod Workflow
