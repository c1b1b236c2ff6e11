-- ===== src/Workflow/Cascade.antt =====
-- `_cascade_cancel` of domain/workflow.py: it ends, and leaves nothing to cancel.
use reus.Prelude.{
  ℕ, zero, suc, ◌+◌, ◌<◌, ◌≤◌, ◌≡◌, ◌≢◌, refl, sym, ap, subst, ◌∙◌, ◌⊎◌, inl, inr, Bool, true,
  false, String, Option, none, some, List, [], ◌∷◌, ◌++◌, arith, length, Bool-cases, str_eq,
  if◌then◌else◌, some-inj,
}
use reus.Prelude.Sets.{contains}
use reus.Prelude.Dict.{Dict, get, put, keys}
use reus.Workflow.Final.{KeepsFinal, KeepsFinal-refl, KeepsFinal-trans, KeepsFinal-put, same_name}
use reus.Workflow.{
  TaskNode, cancelled, is_final, depends_on_failed, transition_to, Outcome, returned,
  task_not_found, invalid_task_transition, key_error, unfinished, Sweep, swept, stopped, cancel,
  visit_open, visit_node, sweep, cascade, cascade_cancel,
}

-- Final, or with no dependency that failed or was cancelled.
abbrev pub Settled : Dict TaskNode → TaskNode → Type 0
Settled tasks t = (is_final t.state ≡ true) ⊎ (depends_on_failed t.depends_on tasks ≡ some false)

abbrev pub is_unfinished {ℓ} : {A : Type ℓ} → Outcome A → Bool
is_unfinished unfinished = true
is_unfinished _ = false

abbrev is_exception {ℓ} : {A : Type ℓ} → Outcome A → Bool
is_exception (returned a) = false
is_exception unfinished = false
is_exception _ = true

exception_lem :
    (o : Outcome (List TaskNode))
    → is_exception o ≡ true
    → (is_unfinished o ≡ false) × ((cs : List TaskNode) → o ≢ returned cs)
exception_lem (returned a) h = cc
exception_lem task_not_found h = (refl, λ cs e. cc)
exception_lem invalid_task_transition h = (refl, λ cs e. cc)
exception_lem key_error h = (refl, λ cs e. cc)
exception_lem unfinished h = cc

-- What one visit of the loop does.
record Cancels (i : String) (tasks : Dict TaskNode) (cs : List TaskNode) (r : Sweep) : Type 0 where
  old : TaskNode
  new : TaskNode
  found : get i tasks ≡ some old
  was_open : is_final old.state ≡ false
  now_final : is_final new.state ≡ true
  outcome : r ≡ swept (put i new tasks) (cs ++ new ∷ []) true

record Raises (tasks : Dict TaskNode) (r : Sweep) : Type 0 where
  error : Outcome (List TaskNode)
  outcome : r ≡ stopped tasks error
  known : is_exception error ≡ true

record Leaves (o : Option TaskNode) (tasks : Dict TaskNode) (cs : List TaskNode) (changed : Bool)
    (r : Sweep) : Type 0 where
  outcome : r ≡ swept tasks cs changed
  settled : (t : TaskNode) → o ≡ some t → Settled tasks t

abbrev Visit : String → Option TaskNode → Dict TaskNode → List TaskNode → Bool → Sweep → Type 0
Visit i o tasks cs changed r = Leaves o tasks cs changed r ⊎ (Cancels i tasks cs r ⊎ Raises tasks r)

cancel-Visit :
    (i : String) (t : TaskNode) (o : Option TaskNode) (tasks : Dict TaskNode) (cs : List TaskNode)
    (changed : Bool)
    → get i tasks ≡ some t
    → is_final t.state ≡ false
    → transition_to cancelled t ≡ o
    → Visit i (some t) tasks cs changed (cancel i o tasks cs)
unfolding cancel transition_to is_final
cancel-Visit i t none tasks cs changed found was_open e =
    inr (inr (record { error = invalid_task_transition; outcome = refl; known = refl }))
cancel-Visit i t (some m) tasks cs changed found was_open e = inr (
    inl (record {
      old = t;
      new = m;
      found = found;
      was_open = was_open;
      now_final = ground arith;
      outcome = refl;
    }))

visit_open-Visit :
    (i : String) (t : TaskNode) (o : Option Bool) (tasks : Dict TaskNode) (cs : List TaskNode)
    (changed : Bool)
    → get i tasks ≡ some t
    → is_final t.state ≡ false
    → depends_on_failed t.depends_on tasks ≡ o
    → Visit i (some t) tasks cs changed (visit_open i t o tasks cs changed)
unfolding visit_open
visit_open-Visit i t none tasks cs changed found was_open e =
    inr (inr (record { error = key_error; outcome = refl; known = refl }))
visit_open-Visit i t (some false) tasks cs changed found was_open e = inl (record {
  outcome = refl;
  settled = λ x same. inr (
      subst (λ (u : TaskNode). depends_on_failed u.depends_on tasks ≡ some false) (some-inj same)
        e);
})
visit_open-Visit i t (some true) tasks cs changed found was_open e =
    cancel-Visit i t (transition_to cancelled t) tasks cs changed found was_open refl

visit_node-Visit :
    (i : String) (o : Option TaskNode) (tasks : Dict TaskNode) (cs : List TaskNode) (changed : Bool)
    → get i tasks ≡ o
    → Visit i o tasks cs changed (visit_node i o tasks cs changed)
unfolding visit_node
visit_node-Visit i none tasks cs changed e =
    inl (record { outcome = refl; settled = λ t none_is. cc })
visit_node-Visit i (some t) tasks cs changed e = elim (Bool-cases (is_final t.state)) [
  | inl final ↦ rw final (
      inl (record {
        outcome = refl;
        settled =
            λ x same. inl (subst (λ (u : TaskNode). is_final u.state ≡ true) (some-inj same) final);
      }))
  | inr was_open ↦
      rw was_open (
        visit_open-Visit i t (depends_on_failed t.depends_on tasks) tasks cs changed e was_open
          refl)
]

-- The tasks that are not final.
unfoldable open_count : Dict TaskNode → ℕ
open_count [] = 0
open_count ((i, t) ∷ tasks) = if is_final t.state then open_count tasks else suc (open_count tasks)

open_count-le : (tasks : Dict TaskNode) → open_count tasks ≤ length tasks
unfolding open_count
open_count-le [] = omega arith
open_count-le ((i, t) ∷ tasks) = ground (arith, open_count-le tasks)

open_count-put :
    (i : String) (t m : TaskNode) (tasks : Dict TaskNode)
    → get i tasks ≡ some t
    → is_final t.state ≡ false
    → is_final m.state ≡ true
    → suc (open_count (put i m tasks)) ≡ open_count tasks
unfolding open_count get put
open_count-put i t m [] e h k = cc
open_count-put i t m ((j, x) ∷ tasks) e h k = elim (Bool-cases (str_eq j i)) [
  | inl here ↦ ground arith
  | inr there ↦ ground (arith, open_count-put i t m tasks)
]

-- What is left of the loop after a visit.
abbrev resume : List String → Sweep → Sweep
resume is (swept tasks cs changed) = sweep is tasks cs changed
resume is (stopped tasks e) = stopped tasks e

-- After a loop over the tasks: it stopped in a known way, or it changed nothing, with every task it
-- visited settled, or fewer tasks are open.
record Quiet (is : List String) (tasks : Dict TaskNode) (cs : List TaskNode) (changed : Bool)
    (r : Sweep) : Type 0 where
  outcome : r ≡ swept tasks cs changed
  settled :
      (i : String) (t : TaskNode) → contains is i ≡ true → get i tasks ≡ some t → Settled tasks t

record Busy (tasks : Dict TaskNode) (r : Sweep) : Type 0 where
  after : Dict TaskNode
  told : List TaskNode
  outcome : r ≡ swept after told true
  fewer : open_count after < open_count tasks
  kept : KeepsFinal tasks after

record Stops (tasks : Dict TaskNode) (r : Sweep) : Type 0 where
  after : Dict TaskNode
  error : Outcome (List TaskNode)
  outcome : r ≡ stopped after error
  known : is_exception error ≡ true
  kept : KeepsFinal tasks after

abbrev Swept : List String → Dict TaskNode → List TaskNode → Bool → Sweep → Type 0
Swept is tasks cs changed r = Quiet is tasks cs changed r ⊎ (Busy tasks r ⊎ Stops tasks r)

sweep-Swept :
    (is : List String) (tasks : Dict TaskNode) (cs : List TaskNode) (changed : Bool)
    → Swept is tasks cs changed (sweep is tasks cs changed)
unfolding sweep contains
sweep-Swept [] tasks cs changed = inl (record { outcome = refl; settled = λ i t h. cc })
sweep-Swept (i ∷ is) tasks cs changed =
    elim (visit_node-Visit i (get i tasks) tasks cs changed refl) [
      | inl v ↦
          let head = ap (resume is) v.outcome in
          elim (sweep-Swept is tasks cs changed) [
            | inl q ↦ inl (record {
              outcome = head ∙ q.outcome;
              settled = λ j t h found. elim (Bool-cases (str_eq i j)) [
                | inl same ↦
                    v.settled t (subst (λ k. get k tasks ≡ some t) (sym (same_name i j same)) found)
                | inr other ↦ q.settled j t (ground arith) found
              ];
            })
            | inr (inl b) ↦ inr (
                inl (record {
                  after = b.after;
                  told = b.told;
                  outcome = head ∙ b.outcome;
                  fewer = b.fewer;
                  kept = b.kept;
                }))
            | inr (inr s) ↦ inr (
                inr (record {
                  after = s.after;
                  error = s.error;
                  outcome = head ∙ s.outcome;
                  known = s.known;
                  kept = s.kept;
                }))
          ]
      | inr (inl c) ↦
          let head = ap (resume is) c.outcome in
          let less = open_count-put i c.old c.new tasks c.found c.was_open c.now_final in
          let step =
            KeepsFinal-put i c.old c.new tasks c.found
              (λ final. absurd (ground (arith, c.was_open))) in
          elim (sweep-Swept is (put i c.new tasks) (cs ++ c.new ∷ []) true) [
            | inl q ↦ inr (
                inl (record {
                  after = put i c.new tasks;
                  told = cs ++ c.new ∷ [];
                  outcome = head ∙ q.outcome;
                  fewer = omega arith;
                  kept = step;
                }))
            | inr (inl b) ↦ inr (
                inl (record {
                  after = b.after;
                  told = b.told;
                  outcome = head ∙ b.outcome;
                  fewer = omega (arith, b.fewer);
                  kept = KeepsFinal-trans tasks (put i c.new tasks) b.after step b.kept;
                }))
            | inr (inr s) ↦ inr (
                inr (record {
                  after = s.after;
                  error = s.error;
                  outcome = head ∙ s.outcome;
                  known = s.known;
                  kept = KeepsFinal-trans tasks (put i c.new tasks) s.after step s.kept;
                }))
          ]
      | inr (inr r) ↦ inr (
          inr (record {
            after = tasks;
            error = r.error;
            outcome = ap (resume is) r.outcome;
            known = r.known;
            kept = KeepsFinal-refl tasks;
          }))
    ]

contains-keys :
    (i : String) (t : TaskNode) (tasks : Dict TaskNode)
    → get i tasks ≡ some t
    → contains (keys tasks) i ≡ true
unfolding contains get keys
contains-keys i t [] e = cc
contains-keys i t ((j, x) ∷ tasks) e = ground (arith, contains-keys i t tasks)

-- How the outer loop ends: never out of rounds, and when it returns every task is settled.
pub record Ends (tasks : Dict TaskNode) (r : Dict TaskNode × Outcome (List TaskNode)) : Type 0 where
  pub kept : KeepsFinal tasks r.0
  pub finishes : is_unfinished r.1 ≡ false
  pub settled :
      (cs : List TaskNode) (i : String) (t : TaskNode)
      → r.1 ≡ returned cs
      → get i r.0 ≡ some t
      → Settled r.0 t

abbrev continue_with : ℕ → Sweep → Dict TaskNode × Outcome (List TaskNode)
continue_with rounds (stopped tasks e) = (tasks, e)
continue_with rounds (swept tasks cs changed) = elim changed [
  | true ↦ cascade rounds tasks cs
  | false ↦ (tasks, returned cs)
]

cascade-Ends :
    (rounds : ℕ) (tasks : Dict TaskNode) (cs : List TaskNode)
    → open_count tasks < rounds
    → Ends tasks (cascade rounds tasks cs)
unfolding cascade
cascade-Ends zero tasks cs h = absurd (omega arith)
cascade-Ends (suc rounds) tasks cs h = elim (sweep-Swept (keys tasks) tasks cs false) [
  | inl q ↦ subst (Ends tasks) (sym (ap (continue_with rounds) q.outcome)) (record {
    kept = KeepsFinal-refl tasks;
    finishes = refl;
    settled = λ cs' i t e found. q.settled i t (contains-keys i t tasks found) found;
  })
  | inr (inl b) ↦ subst (Ends tasks) (sym (ap (continue_with rounds) b.outcome)) (
      let e = cascade-Ends rounds b.after b.told (omega (arith, b.fewer)) in
      record {
        kept = KeepsFinal-trans tasks b.after (cascade rounds b.after b.told).0 b.kept e.kept;
        finishes = e.finishes;
        settled = e.settled;
      })
  | inr (inr s) ↦ subst (Ends tasks) (sym (ap (continue_with rounds) s.outcome)) (record {
    kept = s.kept;
    finishes = (exception_lem s.error s.known).0;
    settled = λ cs' i t e found. absurd ((exception_lem s.error s.known).1 cs' e);
  })
]

pub cascade_cancel-Ends : (tasks : Dict TaskNode) → Ends tasks (cascade_cancel tasks)
unfolding cascade_cancel
cascade_cancel-Ends tasks =
    cascade-Ends (length tasks + 1) tasks [] (omega (arith, open_count-le tasks))
