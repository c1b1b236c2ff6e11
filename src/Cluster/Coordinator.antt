-- ===== src/Cluster/Coordinator.antt =====
-- `ClusterTaskCoordinator` of infrastructure/cluster_network/task_coordinator.py. `none` is a ValueError.
-- The executor's answer is a parameter, and so is what happens to the node while it runs.
use reus.Prelude.{ℕ, Bool, true, false, String, Option, none, some, str_eq, if◌then◌else◌}
use reus.Cluster.Node.{RaftClusterNode}
use reus.Cluster.Operations.{Rounds, assign_task, complete_task}

pub record HandlerResult : Type 0 where
  pub success : Bool
  pub output : String
  pub error : String

abbrev pub failure : String → HandlerResult
failure text = record { success = false; output = "{}"; error = text }

-- `strip` is `str.strip`.
unfoldable pub acquire :
    (strip : String → String)
    → String
    → String
    → (lease_seconds now : ℕ) → Rounds
    → RaftClusterNode
    → Option (RaftClusterNode × Bool)
acquire strip assignee_id task_id lease_seconds now rounds n =
    if str_eq (strip task_id) ""
    then none
    else some (assign_task task_id assignee_id lease_seconds now rounds n)

unfoldable pub complete : String → Rounds → RaftClusterNode → RaftClusterNode × Bool
complete task_id rounds n = complete_task task_id rounds n

unfoldable pub withhold : HandlerResult → RaftClusterNode × Bool → RaftClusterNode × HandlerResult
withhold result (n, true) = (n, result)
withhold result (n, false) =
    (n, failure "Task ran locally but completion was not committed; result is withheld.")

unfoldable pub run :
    String
    → HandlerResult
    → (running : RaftClusterNode → RaftClusterNode) → Rounds
    → RaftClusterNode × Bool
    → RaftClusterNode × HandlerResult
run task_id result running rounds (n, false) =
    (n, failure "Task lease was not committed by the cluster leader.")
run task_id result running rounds (n, true) =
    let m = running n in
    if result.success then withhold result (complete task_id rounds m) else (m, result)

unfoldable pub execute :
    (strip : String → String)
    → String
    → String
    → HandlerResult
    → (running : RaftClusterNode → RaftClusterNode) → (lease_seconds now : ℕ)
    → (lease_rounds rounds : Rounds) → RaftClusterNode
    → Option (RaftClusterNode × HandlerResult)
execute strip assignee_id task_id result running lease_seconds now lease_rounds rounds n =
    elim (acquire strip assignee_id task_id lease_seconds now lease_rounds n) [
      | none ↦ none
      | some acquired ↦ some (run task_id result running rounds acquired)
    ]
