-- ===== src/Workflow/Graph.antt =====
-- `_validate_no_cycles` of domain/workflow.py: Kahn's sorting. The two dicts over the task ids are
-- functions from ids; tasks stand under their own ids, as `create` puts them. The queue is the
-- list from its end, where it is popped and appended.
use reus.Prelude.{
  ℕ, zero, suc, ◌+◌, ◌-◌, Bool, true, false, String, Option, none, some, List, [], ◌∷◌, ◌++◌, ◌==◌,
  str_eq, if◌then◌else◌, filter_by, length,
}
use reus.Prelude.Dict.{Dict, has, keys, values}
use reus.Workflow.{TaskNode}

pub record Tables : Type 0 where
  pub in_degree : String → ℕ
  pub dependents : String → List String

abbrev pub set_at {ℓ} : {V : Type ℓ} → String → V → (String → V) → String → V
set_at k v f j = if str_eq j k then v else f j

-- The first loop: is each dependency a task? If not, it is an InvalidDependency.
unfoldable pub all_known : Dict TaskNode → List String → Bool
all_known tasks [] = true
all_known tasks (dep ∷ deps) = if has dep tasks then all_known tasks deps else false

unfoldable pub deps_known : Dict TaskNode → List TaskNode → Bool
deps_known tasks [] = true
deps_known tasks (t ∷ ts) = if all_known tasks t.depends_on then deps_known tasks ts else false

-- The second loop.
unfoldable pub link : String → List String → Tables → Tables
link id [] t = t
link id (dep ∷ deps) t = link id deps (record {
  in_degree = set_at id (t.in_degree id + 1) t.in_degree;
  dependents = set_at dep (t.dependents dep ++ id ∷ []) t.dependents;
})

unfoldable pub link_all : List TaskNode → Tables → Tables
link_all [] t = t
link_all (node ∷ nodes) t = link_all nodes (link node.task_id node.depends_on t)

abbrev pub empty_tables : Tables
empty_tables = record { in_degree = λ id. 0; dependents = λ id. [] }

abbrev pub Queue : Type 0
Queue = (String → ℕ) × List String

-- The loop over the dependents of a task that was visited.
unfoldable pub release : List String → Queue → Queue
release [] (degree, queue) = (degree, queue)
release (next ∷ rest) (degree, queue) =
    let degree' = set_at next (degree next - 1) degree in
    release rest (degree', if degree' next == 0 then next ∷ queue else queue)

-- The `while` loop, with its number of rounds bounded; `none` if the bound was too small.
unfoldable pub visit : ℕ → (String → List String) → Queue → ℕ → Option ℕ
visit rounds dependents (degree, []) visited = some visited
visit zero dependents (degree, current ∷ queue) visited = none
visit (suc rounds) dependents (degree, current ∷ queue) visited =
    visit rounds dependents (release (dependents current) (degree, queue)) (suc visited)

pub data Validation : Type 0 where
  valid invalid_dependency cycle_detected unfinished : Validation

unfoldable pub judge : ℕ → Option ℕ → Validation
judge tasks none = unfinished
judge tasks (some visited) = if visited == tasks then valid else cycle_detected

unfoldable pub reversed : List String → List String
reversed [] = []
reversed (x ∷ xs) = reversed xs ++ x ∷ []

unfoldable pub validate_no_cycles : Dict TaskNode → Validation
validate_no_cycles tasks =
    if deps_known tasks (values tasks)
    then (let tables = link_all (values tasks) empty_tables in
        let queue = reversed (filter_by (λ id. tables.in_degree id == 0) (keys tasks)) in
        judge (length tasks) (visit (length tasks) tables.dependents (tables.in_degree, queue) 0))
    else invalid_dependency
