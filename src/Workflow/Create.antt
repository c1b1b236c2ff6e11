-- ===== src/Workflow/Create.antt =====
-- `Workflow.create` of domain/workflow.py. A new id of a task, which `uuid4` draws, comes with each
-- specification, and `now` is the clock.
use reus.Prelude.{
  ℕ, ◌≡◌, ◌≢◌, refl, sym, subst, ◌∙◌, String, Option, none, some, List, [], ◌∷◌, arith,
  Option-cases, inl, inr, some-inj,
}
use reus.Prelude.Sets.{union}
use reus.Prelude.Dict.{Dict, get, put}
use reus.Prelude.Keyed.{Own, Own-put}
use reus.Workflow.{TaskNode, pending}
use reus.Workflow.Graph.{Validation, valid, invalid_dependency, unfinished, validate_no_cycles}
use reus.Workflow.Ids.{own_id}
use reus.Workflow.Acyclic.{Order, validate_no_cycles-Order}

pub record TaskSpec : Type 0 where
  pub task_id : String
  pub name : String
  pub agent_id : Option String
  pub depends_on : List String
  pub max_retries : ℕ
  pub payload : String

unfoldable pub new_node : (now : ℕ) → TaskSpec → TaskNode
new_node now spec = record {
  name = spec.name;
  agent_id = spec.agent_id;
  depends_on = [];
  max_retries = spec.max_retries;
  payload = spec.payload;
  task_id = spec.task_id;
  state = pending;
  retry_count = 0;
  result = none;
  error = none;
  created_at = now;
  started_at = none;
  completed_at = none;
}

-- The first loop: a later specification of the same name takes the place of an earlier one.
unfoldable pub name_nodes : (now : ℕ) → List TaskSpec → Dict TaskNode → Dict TaskNode
name_nodes now [] name_to_node = name_to_node
name_nodes now (spec ∷ specs) name_to_node =
    name_nodes now specs (put spec.name (new_node now spec) name_to_node)

-- The ids of the tasks named; `none` is an InvalidDependency.
unfoldable pub resolve : Dict TaskNode → List String → List String → Option (List String)
resolve name_to_node [] resolved = some resolved
resolve name_to_node (dep_name ∷ names) resolved = elim (get dep_name name_to_node) [
  | none ↦ none
  | some node ↦ resolve name_to_node names (union resolved (node.task_id ∷ []))
]

unfoldable pub put_task :
    Option TaskNode → Option (List String) → Dict TaskNode → Option (Dict TaskNode)
put_task none deps tasks = none
put_task (some node) none tasks = none
put_task (some node) (some deps) tasks =
    some (put node.task_id (record node { depends_on = deps }) tasks)

-- The second loop.
unfoldable pub build_tasks : Dict TaskNode → List TaskSpec → Dict TaskNode → Option (Dict TaskNode)
build_tasks name_to_node [] tasks = some tasks
build_tasks name_to_node (spec ∷ specs) tasks =
    elim (put_task (get spec.name name_to_node) (resolve name_to_node spec.depends_on []) tasks) [
      | none ↦ none
      | some tasks' ↦ build_tasks name_to_node specs tasks'
    ]

-- How `create` ends, and the tasks that it built.
unfoldable pub create : (now : ℕ) → List TaskSpec → Validation × Dict TaskNode
create now specs = elim (build_tasks (name_nodes now specs []) specs []) [
  | none ↦ (invalid_dependency, [])
  | some tasks ↦ (validate_no_cycles tasks, tasks)
]

put_task-Own :
    (o : Option TaskNode) (deps : Option (List String)) (d d' : Dict TaskNode)
    → Own own_id d
    → put_task o deps d ≡ some d'
    → Own own_id d'
unfolding put_task
put_task-Own none deps d d' own e = absurd (ground arith)
put_task-Own (some n) none d d' own e = absurd (ground arith)
put_task-Own (some n) (some deps) d d' own e =
    subst (Own own_id) (some-inj e)
      (Own-put own_id n.task_id (record n { depends_on = deps }) d refl own)

build_tasks-Own :
    (names : Dict TaskNode) (specs : List TaskSpec) (d d' : Dict TaskNode)
    → Own own_id d
    → build_tasks names specs d ≡ some d'
    → Own own_id d'
unfolding build_tasks
build_tasks-Own names [] d d' own e = subst (Own own_id) (some-inj e) own
build_tasks-Own names (s ∷ specs) d d' own e =
    elim (Option-cases (put_task (get s.name names) (resolve names s.depends_on []) d)) [
      | inl failed ↦ absurd (ground arith)
      | inr (m, put) ↦
          build_tasks-Own names specs m d' (put_task-Own _ _ d m own put)
            (sym (rw (put, build_tasks) refl) ∙ e)
    ]

-- Whatever the specifications, `create` ends, with its loop over the queue bounded by the number of
-- tasks. If it makes a workflow, there is an order of all its tasks, each once, in which each comes
-- after all that it depends on: no dependencies form a cycle.
pub create-Order :
    (now : ℕ) (specs : List TaskSpec)
    → ((create now specs).0 ≢ unfinished)
      × ((create now specs).0 ≡ valid → Order (create now specs).1)
unfolding create
create-Order now specs = elim (Option-cases (build_tasks (name_nodes now specs []) specs [])) [
  | inl failed ↦ rw (failed, create) ((λ h. absurd (ground arith)), (λ h. absurd (ground arith)))
  | inr (tasks, built) ↦
      rw (built, create)
        (validate_no_cycles-Order tasks
          (build_tasks-Own (name_nodes now specs []) specs [] tasks tt built))
]
