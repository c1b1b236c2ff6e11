-- ===== src/Cluster.antt =====
-- infrastructure/cluster_network/raft_cluster_node.py and task_coordinator.py: what a cluster node keeps
-- of the committed commands, and what it proposes. Times are readings of the clock in seconds.
pub mod States
pub mod Node
pub mod Operations
pub mod Coordinator
pub mod Replay
pub mod LeaseEffect
pub mod Leases
pub mod Senders
pub mod Executes
mod Tests
