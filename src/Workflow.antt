-- ===== src/Workflow.antt =====
-- domain/workflow.py: the tasks of a workflow and their states. The tasks are a dict by task id; the
-- clock is a parameter, and payloads and results are kept as their text.
pub mod Final
pub mod Cascade
pub mod Failing
pub mod Graph
pub mod Links
pub mod Kahn
pub mod Ids
pub mod Acyclic
pub mod Create
mod Tests
use reus.Prelude.{
  ℕ, zero, suc, ◌+◌, Bool, true, false, not, ◌&&◌, String, Option, none, some, List, [], ◌∷◌, ◌++◌,
  ltb, if◌then◌else◌, length,
}
use reus.Prelude.Dict.{Dict, get, put, keys, values}

pub data TaskState : Type 0 where
  pending ready running completed failed cancelled : TaskState

-- `_ALLOWED_TASK_TRANSITIONS`
unfoldable pub allowed : TaskState → TaskState → Bool
allowed pending ready = true
allowed pending cancelled = true
allowed ready running = true
allowed ready cancelled = true
allowed running completed = true
allowed running failed = true
allowed running pending = true
allowed _ _ = false

pub record TaskNode : Type 0 where
  pub name : String
  pub agent_id : Option String
  pub depends_on : List String
  pub max_retries : ℕ
  pub payload : String
  pub task_id : String
  pub state : TaskState
  pub retry_count : ℕ
  pub result : Option String
  pub error : Option String
  pub created_at : ℕ
  pub started_at : Option ℕ
  pub completed_at : Option ℕ

-- `none` is InvalidTaskTransition.
unfoldable pub transition_to : TaskState → TaskNode → Option TaskNode
transition_to target t = if allowed t.state target then some (record t { state = target }) else none

-- How an operation ends. `unfinished` is a loop whose bound was too small.
pub data Outcome {ℓ} (A : Type ℓ) : Type ℓ where
  returned : A → Outcome A
  task_not_found invalid_task_transition key_error unfinished : Outcome A

unfoldable pub moved : String → Option TaskNode → Dict TaskNode → Dict TaskNode × Outcome TaskNode
moved task_id none tasks = (tasks, invalid_task_transition)
moved task_id (some t) tasks = (put task_id t tasks, returned t)

unfoldable pub get_task : String → Dict TaskNode → Outcome TaskNode
get_task task_id tasks = elim (get task_id tasks) [ none ↦ task_not_found | some t ↦ returned t ]

unfoldable pub mark_ready : String → Dict TaskNode → Dict TaskNode × Outcome TaskNode
mark_ready task_id tasks = elim (get task_id tasks) [
  | none ↦ (tasks, task_not_found)
  | some t ↦ moved task_id (transition_to ready t) tasks
]

unfoldable pub started : ℕ → Option TaskNode → Option TaskNode
started now none = none
started now (some t) = some (record t { started_at = some now })

unfoldable pub start_task : String → (now : ℕ) → Dict TaskNode → Dict TaskNode × Outcome TaskNode
start_task task_id now tasks = elim (get task_id tasks) [
  | none ↦ (tasks, task_not_found)
  | some t ↦ moved task_id (started now (transition_to running t)) tasks
]

unfoldable pub finished : Option String → ℕ → Option TaskNode → Option TaskNode
finished result now none = none
finished result now (some t) = some (record t { result = result; completed_at = some now })

unfoldable pub complete_task :
    String → Option String → (now : ℕ) → Dict TaskNode → Dict TaskNode × Outcome TaskNode
complete_task task_id result now tasks = elim (get task_id tasks) [
  | none ↦ (tasks, task_not_found)
  | some t ↦ moved task_id (finished result now (transition_to completed t)) tasks
]

unfoldable pub is_completed : TaskState → Bool
is_completed completed = true
is_completed _ = false

unfoldable pub is_failed : TaskState → Bool
is_failed failed = true
is_failed _ = false

-- `in (TaskState.FAILED, TaskState.CANCELLED)`
unfoldable pub is_dead : TaskState → Bool
is_dead failed = true
is_dead cancelled = true
is_dead _ = false

-- `in (TaskState.COMPLETED, TaskState.FAILED, TaskState.CANCELLED)`
unfoldable pub is_final : TaskState → Bool
is_final completed = true
is_final failed = true
is_final cancelled = true
is_final _ = false

-- `any(self.tasks[d].state in (…) for d in …)`; `none` is a KeyError.
unfoldable pub depends_on_failed : List String → Dict TaskNode → Option Bool
depends_on_failed [] tasks = some false
depends_on_failed (d ∷ ds) tasks = elim (get d tasks) [
  | none ↦ none
  | some t ↦ elim (is_dead t.state) [ true ↦ some true | false ↦ depends_on_failed ds tasks ]
]

-- `all(self.tasks[d].state == TaskState.COMPLETED for d in …)`
unfoldable pub deps_done : List String → Dict TaskNode → Option Bool
deps_done [] tasks = some true
deps_done (d ∷ ds) tasks = elim (get d tasks) [
  | none ↦ none
  | some t ↦ elim (is_completed t.state) [ true ↦ deps_done ds tasks | false ↦ some false ]
]

unfoldable pub is_pending : TaskState → Bool
is_pending pending = true
is_pending _ = false

unfoldable pub with_ready : TaskNode → Option Bool → Option (List TaskNode) → Option (List TaskNode)
with_ready t (some true) (some ts) = some (t ∷ ts)
with_ready t (some false) rest = rest
with_ready t _ _ = none

unfoldable pub ready_among : List TaskNode → Dict TaskNode → Option (List TaskNode)
ready_among [] tasks = some []
ready_among (t ∷ ts) tasks =
    let rest = ready_among ts tasks in
    if is_pending t.state then with_ready t (deps_done t.depends_on tasks) rest else rest

unfoldable pub ready_tasks : Dict TaskNode → Option (List TaskNode)
ready_tasks tasks = ready_among (values tasks) tasks

-- The `for` loop of `_cascade_cancel`, and where an exception leaves it.
pub data Sweep : Type 0 where
  swept : Dict TaskNode → List TaskNode → Bool → Sweep
  stopped : Dict TaskNode → Outcome (List TaskNode) → Sweep

unfoldable pub cancel : String → Option TaskNode → Dict TaskNode → List TaskNode → Sweep
cancel task_id none tasks cs = stopped tasks invalid_task_transition
cancel task_id (some t) tasks cs = swept (put task_id t tasks) (cs ++ t ∷ []) true

unfoldable pub visit_open :
    String → TaskNode → Option Bool → Dict TaskNode → List TaskNode → Bool → Sweep
visit_open task_id t none tasks cs changed = stopped tasks key_error
visit_open task_id t (some false) tasks cs changed = swept tasks cs changed
visit_open task_id t (some true) tasks cs changed =
    cancel task_id (transition_to cancelled t) tasks cs

unfoldable pub visit_node : String → Option TaskNode → Dict TaskNode → List TaskNode → Bool → Sweep
visit_node task_id none tasks cs changed = swept tasks cs changed
visit_node task_id (some t) tasks cs changed =
    if is_final t.state
    then swept tasks cs changed
    else visit_open task_id t (depends_on_failed t.depends_on tasks) tasks cs changed

unfoldable pub sweep : List String → Dict TaskNode → List TaskNode → Bool → Sweep
sweep [] tasks cs changed = swept tasks cs changed
sweep (i ∷ is) tasks cs changed = elim (visit_node i (get i tasks) tasks cs changed) [
  | swept tasks' cs' changed' ↦ sweep is tasks' cs' changed'
  | stopped tasks' e ↦ stopped tasks' e
]

-- The `while` loop, with at most so many rounds.
unfoldable pub cascade : ℕ → Dict TaskNode → List TaskNode → Dict TaskNode × Outcome (List TaskNode)
cascade zero tasks cs = (tasks, unfinished)
cascade (suc rounds) tasks cs = elim (sweep (keys tasks) tasks cs false) [
  | stopped tasks' e ↦ (tasks', e)
  | swept tasks' cs' changed ↦ elim changed [
    | true ↦ cascade rounds tasks' cs'
    | false ↦ (tasks', returned cs')
  ]
]

-- `_cascade_cancel`: each round but the last cancels a task.
unfoldable pub cascade_cancel : Dict TaskNode → Dict TaskNode × Outcome (List TaskNode)
cascade_cancel tasks = cascade (length tasks + 1) tasks []

unfoldable pub with_task :
    TaskNode
    → Dict TaskNode × Outcome (List TaskNode)
    → Dict TaskNode × Outcome (TaskNode × List TaskNode)
with_task t (tasks, returned cs) = (tasks, returned (t, cs))
with_task t (tasks, task_not_found) = (tasks, task_not_found)
with_task t (tasks, invalid_task_transition) = (tasks, invalid_task_transition)
with_task t (tasks, key_error) = (tasks, key_error)
with_task t (tasks, unfinished) = (tasks, unfinished)

-- A refused transition leaves the error and the count of retries that were set before.
unfoldable pub retry :
    String
    → TaskNode
    → Option TaskNode
    → Dict TaskNode
    → Dict TaskNode × Outcome (TaskNode × List TaskNode)
retry task_id t none tasks = (put task_id t tasks, invalid_task_transition)
retry task_id t (some m) tasks = (put task_id m tasks, returned (m, []))

unfoldable pub give_up :
    String
    → TaskNode
    → Option TaskNode
    → Dict TaskNode
    → Dict TaskNode × Outcome (TaskNode × List TaskNode)
give_up task_id t none tasks = (put task_id t tasks, invalid_task_transition)
give_up task_id t (some m) tasks = with_task m (cascade_cancel (put task_id m tasks))

unfoldable pub fail_node :
    String → TaskNode → Dict TaskNode → Dict TaskNode × Outcome (TaskNode × List TaskNode)
fail_node task_id t tasks =
    if ltb t.retry_count t.max_retries
    then (let m = record t { retry_count = t.retry_count + 1 } in
        retry task_id m (transition_to pending m) tasks)
    else give_up task_id t (transition_to failed t) tasks

unfoldable pub fail_task :
    String → (error : String) → Dict TaskNode → Dict TaskNode × Outcome (TaskNode × List TaskNode)
fail_task task_id error tasks = elim (get task_id tasks) [
  | none ↦ (tasks, task_not_found)
  | some t ↦ fail_node task_id (record t { error = some error }) tasks
]

unfoldable pub all_completed : List TaskNode → Bool
all_completed [] = true
all_completed (t ∷ ts) = is_completed t.state && all_completed ts

unfoldable pub is_complete : Dict TaskNode → Bool
is_complete tasks = all_completed (values tasks)

unfoldable pub any_failed : List TaskNode → Bool
any_failed [] = false
any_failed (t ∷ ts) = if is_failed t.state then true else any_failed ts

unfoldable pub has_permanent_failure : Dict TaskNode → Bool
has_permanent_failure tasks = any_failed (values tasks)
