-- ===== src/Workflow/Acyclic.antt =====
-- What `_validate_no_cycles` of workflow.py accepts.
use reus.Prelude.{
  ℕ, ◌≡◌, ◌≢◌, sym, ap, subst, ◌∙◌, Bool, true, ◌==◌, String, Option, none, some, List, [], ◌∷◌,
  ◌++◌, All, arith, length, filter_by, str_eq, eq_iff, eq_refl, Bool-cases, inl, inr,
}
use mathlib.Core.List.{append-nil}
use reus.Prelude.Sets.{contains}
use reus.Prelude.Dict.{Dict, get, keys, values}
use reus.Prelude.Keyed.{Own}
use reus.Prelude.Distinct.{Distinct, All-map, Distinct-all}
use reus.Workflow.{TaskNode}
use reus.Workflow.Graph.{
  Tables, link_all, empty_tables, visit, valid, unfinished, judge, reversed, deps_known,
  validate_no_cycles,
}
use reus.Workflow.Links.{
  Link, links_of, links, waiting, waiting-append, link_all-dependents, link_all-in_degree,
}
use reus.Workflow.Kahn.{Known, Ordered, Visiting, Visited, visit-Visited}
use reus.Workflow.Ids.{
  own_id, keys-Distinct, keys-length, filter_by-Distinct, filter_by-chosen, filter_by-All,
  All-reversed, reversed-Distinct, Known-keys,
}

module _ (tasks : Dict TaskNode) where
  -- Newest first: each task comes after all that it depends on.
  abbrev pub Sorted : List String → Type 0
  Sorted [] = Unit
  Sorted (c ∷ order) =
      ((t : TaskNode) → get c tasks ≡ some t → All (λ dep. contains order dep ≡ true) t.depends_on)
      × Sorted order

  -- An order of all the tasks, each once.
  abbrev pub Order : Type 0
  Order =
      (order : List String) × Sorted order
      × Distinct order
      × ((id : String) → contains (keys tasks) id ≡ true → contains order id ≡ true)

links_of-Known :
    (ks : List String) (id : String) (deps : List String)
    → contains ks id ≡ true
    → All (λ (l : Link). contains ks l.1 ≡ true) (links_of id deps)
links_of-Known ks id [] h = tt
links_of-Known ks id (dep ∷ deps) h = (h, links_of-Known ks id deps h)

All-append : (P : Link → Type 0) (xs ys : List Link) → All P xs → All P ys → All P (xs ++ ys)
All-append P [] ys a b = b
All-append P (x ∷ xs) ys a b = (a.0, All-append P xs ys a.1 b)

links-Known :
    (ks : List String) (d : Dict TaskNode)
    → Own own_id d
    → All (λ id. contains ks id ≡ true) (keys d)
    → All (λ (l : Link). contains ks l.1 ≡ true) (links (values d))
unfolding keys values
links-Known ks [] o h = tt
links-Known ks ((k, t) ∷ d) o h =
    All-append (λ (l : Link). contains ks l.1 ≡ true) (links_of t.task_id t.depends_on)
      (links (values d)) (links_of-Known ks t.task_id t.depends_on (ap (contains ks) o.0 ∙ h.0))
      (links-Known ks d o.2 h.1)

seen-all :
    (seen : List String) (id : String) (deps : List String)
    → waiting seen id (links_of id deps) ≡ 0
    → All (λ dep. contains seen dep ≡ true) deps
seen-all seen id [] h = tt
seen-all seen id (dep ∷ deps) h = elim (Bool-cases (contains seen dep)) [
  | inl there ↦ (there, seen-all seen id deps (ground (arith, eq_refl id)))
  | inr not_there ↦ absurd (ground (arith, eq_refl id))
]

waiting-seen_all :
    (seen : List String) (id : String) (t : TaskNode) (d : Dict TaskNode)
    → Own own_id d
    → waiting seen id (links (values d)) ≡ 0
    → get id d ≡ some t
    → All (λ dep. contains seen dep ≡ true) t.depends_on
unfolding get values
waiting-seen_all seen id t [] o w g = absurd (ground arith)
waiting-seen_all seen id t ((k, q) ∷ d) o w g =
    let both = waiting-append seen id (links_of q.task_id q.depends_on) (links (values d)) in
    elim (Bool-cases (str_eq k id)) [
      | inl here ↦
          (let found : q ≡ t = ground arith in
            let mine : q.task_id ≡ id = o.0 ∙ ground (arith, eq_iff k id) in
            subst (λ (x : TaskNode). All (λ dep. contains seen dep ≡ true) x.depends_on) found
              (seen-all seen id q.depends_on (
                subst (λ i. waiting seen id (links_of i q.depends_on) ≡ 0) mine
                  (omega (arith, both, w)))))
      | inr there ↦ waiting-seen_all seen id t d o.2 (omega (arith, both, w)) (ground arith)
    ]

Ordered-Sorted :
    (tasks : Dict TaskNode) (ks order : List String)
    → Own own_id tasks
    → Ordered (links (values tasks)) ks order
    → Sorted tasks order
Ordered-Sorted tasks ks [] o h = tt
Ordered-Sorted tasks ks (c ∷ order) o h =
    ((λ t at. waiting-seen_all order c t tasks o h.0 at), Ordered-Sorted tasks ks order o h.1)

module _ (tasks : Dict TaskNode) (own : Own own_id tasks) where
  abbrev ls : List Link
  ls = links (values tasks)

  abbrev tables : Tables
  tables = link_all (values tasks) empty_tables

  abbrev start : List String
  start = filter_by (λ id. tables.in_degree id == 0) (keys tasks)

  start-Visiting : Visiting ls (keys tasks) (tables.in_degree, reversed start) []
  start-Visiting =
      let free : String → Bool = λ id. tables.in_degree id == 0 in
      let nil = sym (append-nil (reversed start)) in
      let none_waits : All (λ x. waiting [] x ls ≡ 0) start =
        All-map (λ x. free x ≡ true) (λ x. waiting [] x ls ≡ 0) start
          (λ x h.
            (let d = link_all-in_degree x (values tasks) empty_tables in ground (arith, d, h)))
          (filter_by-chosen free (keys tasks)) in
      record {
        degree = λ id. link_all-in_degree id (values tasks) empty_tables ∙ omega arith;
        settled =
            subst (All (λ x. waiting [] x ls ≡ 0)) nil
              (All-reversed (λ x. waiting [] x ls ≡ 0) start none_waits);
        distinct = subst Distinct nil (
            reversed-Distinct start
              (filter_by-Distinct free (keys tasks) (keys-Distinct tasks own)));
        known = subst (All (Known ls (keys tasks))) nil (
            All-reversed (Known ls (keys tasks)) start
              (filter_by-All free (Known ls (keys tasks)) (keys tasks) (Known-keys (keys tasks))));
        ordered = tt;
      }

  visited :
      Visited ls
        (keys tasks)
        (visit (length tasks) tables.dependents (tables.in_degree, reversed start) 0)
  visited =
      visit-Visited ls (keys tasks) tables.dependents
        (λ c. link_all-dependents c (values tasks) empty_tables)
        (links-Known (keys tasks) tasks own (Known-keys (keys tasks))) (length tasks)
        (tables.in_degree, reversed start) [] (omega (arith, keys-length tasks)) start-Visiting

  judged :
      (o : Option ℕ)
      → Visited ls (keys tasks) o
      → (judge (length tasks) o ≢ unfinished) × (judge (length tasks) o ≡ valid → Order tasks)
  unfolding judge
  judged none v = absurd (ground (arith, v.1))
  judged (some n) v =
      let (seen, e, ordered, distinct, known) = v in
      elim (Bool-cases (n == length tasks)) [
        | inl all ↦ rw all (
          (λ h. absurd (ground arith)),
          (λ h. (
            seen,
            Ordered-Sorted tasks (keys tasks) seen own ordered,
            distinct,
            Distinct-all seen (keys tasks) distinct known
                (ground (arith, e, all, keys-length tasks)),
          )),
        )
        | inr few ↦ rw few ((λ h. absurd (ground arith)), (λ h. absurd (ground arith)))
      ]

-- For tasks that stand under their own ids, the check of a new workflow ends within as many visits as
-- there are tasks; and if it accepts them, there is an order of all the tasks, each once, in which each
-- comes after all that it depends on, so that no dependencies form a cycle.
pub validate_no_cycles-Order :
    (tasks : Dict TaskNode)
    → Own own_id tasks
    → (validate_no_cycles tasks ≢ unfinished) × (validate_no_cycles tasks ≡ valid → Order tasks)
unfolding validate_no_cycles
validate_no_cycles-Order tasks own = elim (Bool-cases (deps_known tasks (values tasks))) [
  | inl there ↦ rw there (judged tasks own _ (visited tasks own))
  | inr missing ↦ rw missing ((λ h. absurd (ground arith)), (λ h. absurd (ground arith)))
]
