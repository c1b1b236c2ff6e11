-- ===== src/Workflow/Final.antt =====
-- The state machine of domain/workflow.py: what the operations on a task may do to its state.
use reus.Prelude.{
  ℕ, ◌≡◌, refl, sym, subst, ◌∙◌, true, false, String, Option, none, some, arith, str_eq, eq_iff,
  Bool-cases, inl, inr, Option-cases, some-inj,
}
use reus.Prelude.Dict.{Dict, get, put, get-put}
use reus.Workflow.{
  TaskNode, TaskState, ready, running, completed, is_final, transition_to, allowed, moved,
  mark_ready, start_task, started, complete_task, finished,
}

-- Each task is still there, and one whose state was final has that state.
abbrev pub KeepsFinal : Dict TaskNode → Dict TaskNode → Type 0
KeepsFinal before after =
    (i : String) (t : TaskNode)
    → get i before ≡ some t
    → (u : TaskNode) × (get i after ≡ some u) × (is_final t.state ≡ true → u.state ≡ t.state)

pub transition_to-open :
    (target : TaskState) (t m : TaskNode)
    → transition_to target t ≡ some m
    → is_final t.state ≡ false
unfolding transition_to allowed is_final
transition_to-open target t m h = ground arith

pub KeepsFinal-refl : (tasks : Dict TaskNode) → KeepsFinal tasks tasks
KeepsFinal-refl tasks i t e = (t, e, λ h. refl)

pub KeepsFinal-trans : (a b c : Dict TaskNode) → KeepsFinal a b → KeepsFinal b c → KeepsFinal a c
KeepsFinal-trans a b c h k i t e =
    let (u, found, same) = h i t e in
    let (v, found', same') = k i u found in
    (
      v,
      found',
      λ final. same' (subst (λ s. is_final s ≡ true) (sym (same final)) final) ∙ same final,
    )

pub same_name : (i j : String) → str_eq i j ≡ true → i ≡ j
same_name i j h = ground (arith, eq_iff i j)

-- A task is replaced by one with the same state, if that was final.
pub KeepsFinal-put :
    (k : String) (t m : TaskNode) (tasks : Dict TaskNode)
    → get k tasks ≡ some t
    → (is_final t.state ≡ true → m.state ≡ t.state)
    → KeepsFinal tasks (put k m tasks)
KeepsFinal-put k t m tasks e h i u found = elim (Bool-cases (str_eq k i)) [
  | inl same ↦
      let is_t : t ≡ u =
        some-inj (sym e ∙ subst (λ j. get j tasks ≡ some u) (sym (same_name k i same)) found) in
      (
        m,
        get-put k i m tasks ∙ rw same refl,
        subst (λ (x : TaskNode). is_final x.state ≡ true → m.state ≡ x.state) is_t h,
      )
  | inr other ↦ (u, get-put k i m tasks ∙ rw other found, λ final. refl)
]

moved-KeepsFinal :
    (k : String) (t : TaskNode) (o : Option TaskNode) (tasks : Dict TaskNode)
    → get k tasks ≡ some t
    → ((m : TaskNode) → o ≡ some m → is_final t.state ≡ false)
    → KeepsFinal tasks (moved k o tasks).0
unfolding moved
moved-KeepsFinal k t none tasks e h = KeepsFinal-refl tasks
moved-KeepsFinal k t (some m) tasks e h =
    KeepsFinal-put k t m tasks e (λ final. absurd (ground (arith, h m refl)))

mark_ready-KeepsFinal :
    (k : String) (tasks : Dict TaskNode) → KeepsFinal tasks (mark_ready k tasks).0
unfolding mark_ready
mark_ready-KeepsFinal k tasks = elim (Option-cases (get k tasks)) [
  | inl missing ↦ rw (missing, mark_ready) (KeepsFinal-refl tasks)
  | inr (t, found) ↦
      rw (found, mark_ready)
        (moved-KeepsFinal k t (transition_to ready t) tasks found (transition_to-open ready t))
]

started-open :
    (now : ℕ) (t m : TaskNode) (o : Option TaskNode)
    → transition_to running t ≡ o
    → started now o ≡ some m
    → is_final t.state ≡ false
unfolding started
started-open now t m none e h = cc
started-open now t m (some x) e h = transition_to-open running t x e

finished-open :
    (result : Option String) (now : ℕ) (t m : TaskNode) (o : Option TaskNode)
    → transition_to completed t ≡ o
    → finished result now o ≡ some m
    → is_final t.state ≡ false
unfolding finished
finished-open result now t m none e h = cc
finished-open result now t m (some x) e h = transition_to-open completed t x e

start_task-KeepsFinal :
    (k : String) (now : ℕ) (tasks : Dict TaskNode) → KeepsFinal tasks (start_task k now tasks).0
unfolding start_task started
start_task-KeepsFinal k now tasks = elim (Option-cases (get k tasks)) [
  | inl missing ↦ rw (missing, start_task) (KeepsFinal-refl tasks)
  | inr (t, found) ↦
      rw (found, start_task)
        (moved-KeepsFinal k t (started now (transition_to running t)) tasks found
          (λ m e. started-open now t m (transition_to running t) refl e))
]

complete_task-KeepsFinal :
    (k : String) (result : Option String) (now : ℕ) (tasks : Dict TaskNode)
    → KeepsFinal tasks (complete_task k result now tasks).0
unfolding complete_task finished
complete_task-KeepsFinal k result now tasks = elim (Option-cases (get k tasks)) [
  | inl missing ↦ rw (missing, complete_task) (KeepsFinal-refl tasks)
  | inr (t, found) ↦
      rw (found, complete_task)
        (moved-KeepsFinal k t (finished result now (transition_to completed t)) tasks found
          (λ m e. finished-open result now t m (transition_to completed t) refl e))
]

-- Whether it succeeds or raises, marking a task ready, starting it or completing it keeps every task,
-- and changes the state of none that is completed, failed or cancelled.
pub moves-KeepsFinal :
    (k : String) (result : Option String) (now : ℕ) (tasks : Dict TaskNode)
    → KeepsFinal tasks (mark_ready k tasks).0
      × KeepsFinal tasks (start_task k now tasks).0
      × KeepsFinal tasks (complete_task k result now tasks).0
moves-KeepsFinal k result now tasks = (
  mark_ready-KeepsFinal k tasks,
  start_task-KeepsFinal k now tasks,
  complete_task-KeepsFinal k result now tasks,
)
