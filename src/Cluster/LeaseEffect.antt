-- ===== src/Cluster/LeaseEffect.antt =====
-- What committed commands do to the lease of one task.
use reus.Prelude.{
  ◌≡◌, refl, sym, ap, subst, ◌∙◌, String, Option, none, some, List, [], ◌∷◌, arith, str_eq, eq_iff,
  if◌then◌else◌, Bool-cases, inl, inr,
}
use reus.Prelude.Dict.{Dict, get, get-put}
use reus.RaftStorage.{LogEntry, Command, task_assign, task_complete, task_requeue}
use reus.Cluster.States.{
  TaskLease, leased, completed, pending, apply_task, completed_lease, requeued_lease,
}

-- What a sequence of commands does to one lease: nothing; mark it completed; give it back, and perhaps
-- mark it completed then; or set it, whatever it was.
pub data Effect : Type 0 where
  keep done back back_done : Effect
  fixed : TaskLease → Effect

abbrev mark_done : TaskLease → TaskLease
mark_done t = record t { status = completed }

abbrev give_back : TaskLease → TaskLease
give_back t = record t { status = pending; assignee = none; lease_until = 0 }

abbrev pub run : Effect → Option TaskLease → Option TaskLease
run (fixed t) o = some t
run _ none = none
run keep (some t) = some t
run done (some t) = some (mark_done t)
run back (some t) = some (give_back t)
run back_done (some t) = some (mark_done (give_back t))

abbrev mark_after : Effect → Effect
mark_after keep = done
mark_after done = done
mark_after back = back_done
mark_after back_done = back_done
mark_after (fixed t) = fixed (mark_done t)

abbrev give_after : Effect → Effect
give_after (fixed t) = fixed (give_back t)
give_after _ = back

-- The effect with one more command, on the task `id`.
abbrev pub extend : String → Command → Effect → Effect
extend id (task_assign k assignee lease_until attempt) e =
    if str_eq k id
    then fixed (record {
      status = leased;
      assignee = some assignee;
      lease_until = lease_until;
      attempt = attempt;
    })
    else e
extend id (task_complete k) e = if str_eq k id then mark_after e else e
extend id (task_requeue k reason) e = if str_eq k id then give_after e else e
extend id _ e = e

abbrev pub effect_from : String → Effect → List LogEntry → Effect
effect_from id e [] = e
effect_from id e (x ∷ xs) = effect_from id (extend id x.command e) xs

run-mark_after : (e : Effect) (o : Option TaskLease) → run (mark_after e) o ≡ run done (run e o)
run-mark_after (fixed t) o = refl
run-mark_after keep none = refl
run-mark_after done none = refl
run-mark_after back none = refl
run-mark_after back_done none = refl
run-mark_after keep (some t) = refl
run-mark_after done (some t) = refl
run-mark_after back (some t) = refl
run-mark_after back_done (some t) = refl

run-give_after : (e : Effect) (o : Option TaskLease) → run (give_after e) o ≡ run back (run e o)
run-give_after (fixed t) o = refl
run-give_after keep none = refl
run-give_after done none = refl
run-give_after back none = refl
run-give_after back_done none = refl
run-give_after keep (some t) = refl
run-give_after done (some t) = refl
run-give_after back (some t) = refl
run-give_after back_done (some t) = refl

-- Every effect comes to the same when it is repeated.
pub run_again : (e : Effect) (o : Option TaskLease) → run e (run e o) ≡ run e o
run_again (fixed t) o = refl
run_again keep none = refl
run_again done none = refl
run_again back none = refl
run_again back_done none = refl
run_again keep (some t) = refl
run_again done (some t) = refl
run_again back (some t) = refl
run_again back_done (some t) = refl

completed_lease-get :
    (id k : String) (o : Option TaskLease) (d : Dict TaskLease)
    → get k d ≡ o
    → get id (completed_lease k o d) ≡ (if str_eq k id then run done (get id d) else get id d)
unfolding completed_lease
completed_lease-get id k none d e = elim (Bool-cases (str_eq k id)) [
  | inl same ↦
      let at : get id d ≡ none = subst (λ j. get j d ≡ none) (ground (arith, eq_iff k id)) e in
      at ∙ sym (rw same (ap (run done) at))
  | inr other ↦ rw other refl
]
completed_lease-get id k (some t) d e = elim (Bool-cases (str_eq k id)) [
  | inl same ↦
      let at : get id d ≡ some t = subst (λ j. get j d ≡ some t) (ground (arith, eq_iff k id)) e in
      get-put k id (mark_done t) d ∙ rw same (sym (ap (run done) at))
  | inr other ↦ get-put k id (mark_done t) d ∙ rw other refl
]

requeued_lease-get :
    (id k : String) (o : Option TaskLease) (d : Dict TaskLease)
    → get k d ≡ o
    → get id (requeued_lease k o d) ≡ (if str_eq k id then run back (get id d) else get id d)
unfolding requeued_lease
requeued_lease-get id k none d e = elim (Bool-cases (str_eq k id)) [
  | inl same ↦
      let at : get id d ≡ none = subst (λ j. get j d ≡ none) (ground (arith, eq_iff k id)) e in
      at ∙ sym (rw same (ap (run back) at))
  | inr other ↦ rw other refl
]
requeued_lease-get id k (some t) d e = elim (Bool-cases (str_eq k id)) [
  | inl same ↦
      let at : get id d ≡ some t = subst (λ j. get j d ≡ some t) (ground (arith, eq_iff k id)) e in
      get-put k id (give_back t) d ∙ rw same (sym (ap (run back) at))
  | inr other ↦ get-put k id (give_back t) d ∙ rw other refl
]

-- One command.
pub apply_task-extend :
    (id : String) (c : Command) (d : Dict TaskLease) (e : Effect) (o : Option TaskLease)
    → get id d ≡ run e o
    → get id (apply_task c d) ≡ run (extend id c e) o
unfolding apply_task
apply_task-extend id (task_assign k assignee lease_until attempt) d e o h =
    elim (Bool-cases (str_eq k id)) [
      | inl same ↦ get-put k id _ d ∙ rw same refl
      | inr other ↦ get-put k id _ d ∙ rw other h
    ]
apply_task-extend id (task_complete k) d e o h = elim (Bool-cases (str_eq k id)) [
  | inl same ↦
      completed_lease-get id k (get k d) d refl
      ∙ rw same (ap (run done) h ∙ sym (run-mark_after e o))
  | inr other ↦ completed_lease-get id k (get k d) d refl ∙ rw other h
]
apply_task-extend id (task_requeue k reason) d e o h = elim (Bool-cases (str_eq k id)) [
  | inl same ↦
      requeued_lease-get id k (get k d) d refl
      ∙ rw same (ap (run back) h ∙ sym (run-give_after e o))
  | inr other ↦ requeued_lease-get id k (get k d) d refl ∙ rw other h
]
apply_task-extend id _ d e o h = h
