-- ===== src/Workflow/Failing.antt =====
-- `fail_task` of domain/workflow.py.
use reus.Prelude.{
  ◌+◌, ◌≡◌, refl, ap, true, false, String, Option, none, some, List, [], arith, ltb, Bool-cases,
  Option-cases, inl, inr,
}
use reus.Prelude.Dict.{Dict, get, put}
use reus.Workflow.{
  TaskNode, pending, failed, is_final, transition_to, Outcome, returned, task_not_found,
  invalid_task_transition, key_error, unfinished, cascade_cancel, with_task, retry, give_up,
  fail_node, fail_task,
}
use reus.Workflow.Final.{
  KeepsFinal, KeepsFinal-refl, KeepsFinal-trans, KeepsFinal-put, transition_to-open,
}
use reus.Workflow.Cascade.{is_unfinished, cascade_cancel-Ends}

-- The failure ends, and leaves every task that was final as it was.
pub record Fails (tasks : Dict TaskNode) (r : Dict TaskNode × Outcome (TaskNode × List TaskNode))
    : Type 0 where
  pub kept : KeepsFinal tasks r.0
  pub finishes : is_unfinished r.1 ≡ false

with_task-Fails :
    (t : TaskNode) (tasks : Dict TaskNode) (r : Dict TaskNode × Outcome (List TaskNode))
    → KeepsFinal tasks r.0
    → is_unfinished r.1 ≡ false
    → Fails tasks (with_task t r)
unfolding with_task
with_task-Fails t tasks (ts, returned cs) k f = record { kept = k; finishes = refl }
with_task-Fails t tasks (ts, task_not_found) k f = record { kept = k; finishes = refl }
with_task-Fails t tasks (ts, invalid_task_transition) k f = record { kept = k; finishes = refl }
with_task-Fails t tasks (ts, key_error) k f = record { kept = k; finishes = refl }
with_task-Fails t tasks (ts, unfinished) k f = cc

module _ (k : String) (old : TaskNode) (tasks : Dict TaskNode)
    (found : get k tasks ≡ some old) where
  put-Fails :
      (t : TaskNode) (o : Outcome (TaskNode × List TaskNode))
      → (is_final old.state ≡ true → t.state ≡ old.state)
      → is_unfinished o ≡ false
      → Fails tasks (put k t tasks, o)
  put-Fails t o same known = record {
    kept = KeepsFinal-put k old t tasks found same;
    finishes = known;
  }

  retry-Fails :
      (t : TaskNode) (o : Option TaskNode)
      → t.state ≡ old.state
      → transition_to pending t ≡ o
      → Fails tasks (retry k t o tasks)
  unfolding retry
  retry-Fails t none same e = put-Fails t invalid_task_transition (λ final. same) refl
  retry-Fails t (some m) same e =
      put-Fails m (returned (m, []))
        (λ final. absurd (ground (arith, transition_to-open pending t m e, ap is_final same))) refl

  give_up-Fails :
      (t : TaskNode) (o : Option TaskNode)
      → t.state ≡ old.state
      → transition_to failed t ≡ o
      → Fails tasks (give_up k t o tasks)
  unfolding give_up
  give_up-Fails t none same e = put-Fails t invalid_task_transition (λ final. same) refl
  give_up-Fails t (some m) same e =
      let ends = cascade_cancel-Ends (put k m tasks) in
      with_task-Fails m tasks (cascade_cancel (put k m tasks))
        (KeepsFinal-trans tasks (put k m tasks) (cascade_cancel (put k m tasks)).0
          (KeepsFinal-put k old m tasks found
            (λ final. absurd (ground (arith, transition_to-open failed t m e, ap is_final same))))
          ends.kept)
        ends.finishes

  fail_node-Fails : (t : TaskNode) → t.state ≡ old.state → Fails tasks (fail_node k t tasks)
  unfolding fail_node
  fail_node-Fails t same = elim (Bool-cases (ltb t.retry_count t.max_retries)) [
    | inl left ↦
        let m = record t { retry_count = t.retry_count + 1 } in
        rw (left, fail_node) (retry-Fails m (transition_to pending m) same refl)
    | inr spent ↦ rw (spent, fail_node) (give_up-Fails t (transition_to failed t) same refl)
  ]

-- Failing a task ends, by returning or by an exception, and changes the state of no task that was
-- completed, failed or cancelled, the task itself included.
pub fail_task-Fails :
    (k error : String) (tasks : Dict TaskNode) → Fails tasks (fail_task k error tasks)
unfolding fail_task
fail_task-Fails k error tasks = elim (Option-cases (get k tasks)) [
  | inl missing ↦ rw (missing, fail_task) (record { kept = KeepsFinal-refl tasks; finishes = refl })
  | inr (t, found) ↦
      rw (found, fail_task) (fail_node-Fails k t tasks found (record t { error = some error }) refl)
]
