-- ===== src/Workflow/Tests.antt =====
-- A workflow of three tasks: "b" depends on "a", and "c" on "b".
use reus.Prelude.{◌≡◌, ◌≢◌, refl, String, none, some, List, [], ◌∷◌}
use reus.Prelude.Dict.{Dict, get, put, has, keys, values}
use reus.Workflow.{
  TaskNode, TaskState, pending, running, failed, cancelled, allowed, transition_to, get_task,
  mark_ready, moved, start_task, started, complete_task, finished, is_failed, is_dead, is_final,
  depends_on_failed, sweep, visit_node, visit_open, cancel, cascade, cascade_cancel, with_task,
  retry, give_up, fail_node, fail_task, has_permanent_failure, any_failed, deps_done, is_completed,
  is_pending, ready_tasks, ready_among, with_ready,
}
use reus.Prelude.Sets.{contains, union}
use reus.Workflow.Graph.{
  valid, invalid_dependency, cycle_detected, unfinished, all_known, deps_known, link, link_all,
  release, visit, judge, reversed, validate_no_cycles,
}
use reus.Workflow.Acyclic.{Order}
use reus.Workflow.Create.{
  TaskSpec, new_node, name_nodes, resolve, put_task, build_tasks, create, create-Order,
}
use reus.Workflow.Final.{KeepsFinal, moves-KeepsFinal}
use reus.Workflow.Failing.{Fails, fail_task-Fails}

program : Unit {0}
unfolding get put has keys values contains all_known deps_known link link_all release visit judge
    reversed validate_no_cycles new_node name_nodes resolve put_task build_tasks create union
    allowed transition_to get_task mark_ready moved start_task started complete_task finished
    is_failed is_dead is_final depends_on_failed sweep visit_node visit_open cancel cascade
    cascade_cancel with_task retry give_up fail_node fail_task has_permanent_failure any_failed
    deps_done is_completed is_pending ready_tasks ready_among with_ready
program = tt

abbrev task : String → List String → TaskState → TaskNode
task task_id depends_on state = record {
  name = task_id;
  agent_id = none;
  depends_on = depends_on;
  max_retries = 0;
  payload = "";
  task_id = task_id;
  state = state;
  retry_count = 0;
  result = none;
  error = none;
  created_at = 0;
  started_at = none;
  completed_at = none;
}

abbrev tasks : Dict TaskNode
tasks =
    ("c", task "c" ("b" ∷ []) pending)
    ∷ ("b", task "b" ("a" ∷ []) pending)
    ∷ ("a", task "a" [] running)
    ∷ []

abbrev names : Dict TaskNode → List TaskState
names [] = []
names ((i, t) ∷ d) = t.state ∷ names d

-- The second round cancels "c", which stands before "b".
failing : names (fail_task "a" "e" tasks).0 ≡ cancelled ∷ cancelled ∷ failed ∷ []
unfolding program
failing = refl

after_a : ready_tasks (complete_task "a" none 1 tasks).0 ≡ some (task "b" ("a" ∷ []) pending ∷ [])
unfolding program
after_a = refl

moves-KeepsFinal_example :
    KeepsFinal tasks (mark_ready "a" tasks).0
    × KeepsFinal tasks (start_task "a" 5 tasks).0
    × KeepsFinal tasks (complete_task "a" (some "r") 5 tasks).0
moves-KeepsFinal_example = moves-KeepsFinal "a" (some "r") 5 tasks

abbrev half_failed : Dict TaskNode
half_failed = put "a" (task "a" [] failed) tasks

fail_task-Fails_example : Fails tasks (fail_task "a" "e" tasks)
fail_task-Fails_example = fail_task-Fails "a" "e" tasks

accepted : validate_no_cycles tasks ≡ valid
unfolding program
accepted = refl

unknown_dependency :
    validate_no_cycles (("a", task "a" ("z" ∷ []) pending) ∷ []) ≡ invalid_dependency
unfolding program
unknown_dependency = refl

-- "a" comes after itself by "c" and "b".
closed_cycle : validate_no_cycles (put "a" (task "a" ("c" ∷ []) pending) tasks) ≡ cycle_detected
unfolding program
closed_cycle = refl

abbrev spec : String → String → List String → TaskSpec
spec task_id name depends_on = record {
  task_id = task_id;
  name = name;
  agent_id = none;
  depends_on = depends_on;
  max_retries = 0;
  payload = "";
}

abbrev specs : List TaskSpec
specs = spec "1" "write" ("read" ∷ []) ∷ spec "2" "read" [] ∷ []

-- Of two specifications of one name only the later one becomes a task.
one_is_lost : keys (create 0 (spec "1" "read" [] ∷ spec "2" "read" [] ∷ [])).1 ≡ "2" ∷ []
unfolding program
one_is_lost = refl

create-Order_example :
    ((create 0 specs).0 ≢ unfinished) × (valid ≡ valid → Order (create 0 specs).1)
unfolding program
create-Order_example = create-Order 0 specs
