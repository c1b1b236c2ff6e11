-- ===== src/Workflow/Links.antt =====
-- The dependencies of a task graph as a list of links, and the two tables of workflow.py from it.
use reus.Prelude.{
  ℕ, suc, ◌+◌, ◌≡◌, refl, sym, ap, ◌∙◌, false, String, List, [], ◌∷◌, ◌++◌, All, arith, str_eq,
  eq_iff, if◌then◌else◌, Bool-cases, inl, inr,
}
use mathlib.Core.List.{append_assoc, append-nil}
use reus.Prelude.Sets.{contains}
use reus.Workflow.{TaskNode}
use reus.Workflow.Graph.{Tables, link, link_all}

-- A dependency, and the task that has it.
abbrev pub Link : Type 0
Link = String × String

abbrev pub links_of : String → List String → List Link
links_of id [] = []
links_of id (dep ∷ deps) = (dep, id) ∷ links_of id deps

abbrev pub links : List TaskNode → List Link
links [] = []
links (t ∷ ts) = links_of t.task_id t.depends_on ++ links ts

-- The tasks that depend on `c`.
abbrev pub targets : String → List Link → List String
targets c [] = []
targets c ((d, i) ∷ ls) = let rest = targets c ls in if str_eq c d then i ∷ rest else rest

abbrev pub count : String → List String → ℕ
count id [] = 0
count id (x ∷ xs) = let rest = count id xs in if str_eq id x then suc rest else rest

-- How many dependencies of `id` are not in `seen`.
abbrev pub waiting : List String → String → List Link → ℕ
waiting seen id [] = 0
waiting seen id ((d, i) ∷ ls) =
    let rest = waiting seen id ls in
    if str_eq id i then (if contains seen d then rest else suc rest) else rest

pub waiting-append :
    (seen : List String) (id : String) (xs ys : List Link)
    → waiting seen id (xs ++ ys) ≡ waiting seen id xs + waiting seen id ys
waiting-append seen id [] ys = omega arith
waiting-append seen id ((d, i) ∷ xs) ys = ground (arith, waiting-append seen id xs ys)

targets-append :
    (c : String) (xs ys : List Link) → targets c (xs ++ ys) ≡ targets c xs ++ targets c ys
targets-append c [] ys = refl
targets-append c ((d, i) ∷ xs) ys = elim (Bool-cases (str_eq c d)) [
  | inl here ↦ rw here (ap (λ l. i ∷ l) (targets-append c xs ys))
  | inr there ↦ rw there (targets-append c xs ys)
]

-- Once `c` is seen, the tasks that depend on it wait for as many dependencies less.
pub waiting-seen :
    (seen : List String) (c id : String) (ls : List Link)
    → contains seen c ≡ false
    → waiting seen id ls ≡ waiting (c ∷ seen) id ls + count id (targets c ls)
unfolding contains
waiting-seen seen c id [] h = refl
waiting-seen seen c id ((d, i) ∷ ls) h = elim (Bool-cases (str_eq c d)) [
  | inl here ↦
      (let unseen : contains seen d ≡ false =
          ap (contains seen) (sym (ground (arith, eq_iff c d))) ∙ h in
        ground (arith, unseen, eq_iff c d, eq_iff d c, waiting-seen seen c id ls h))
  | inr there ↦ ground (arith, eq_iff c d, eq_iff d c, waiting-seen seen c id ls h)
]

link-dependents :
    (id c : String) (deps : List String) (t : Tables)
    → (link id deps t).dependents c ≡ t.dependents c ++ targets c (links_of id deps)
unfolding link
link-dependents id c [] t = sym (append-nil (t.dependents c))
link-dependents id c (dep ∷ deps) t = elim (Bool-cases (str_eq c dep)) [
  | inl here ↦
      link-dependents id c deps _
      ∙ rw here (
          ap (λ d. (t.dependents d ++ id ∷ []) ++ targets c (links_of id deps))
            (sym (ground (arith, eq_iff c dep)))
          ∙ append_assoc (t.dependents c) (id ∷ []) (targets c (links_of id deps)))
  | inr there ↦ link-dependents id c deps _ ∙ rw there refl
]

link-in_degree :
    (id k : String) (deps : List String) (t : Tables)
    → (link id deps t).in_degree k ≡ t.in_degree k + waiting [] k (links_of id deps)
unfolding link contains
link-in_degree id k [] t = omega arith
link-in_degree id k (dep ∷ deps) t = elim (Bool-cases (str_eq k id)) [
  | inl here ↦
      (let same : k ≡ id = ground (arith, eq_iff k id) in
        link-in_degree id k deps _
        ∙ rw here (
            ap (λ j. t.in_degree j + 1 + waiting [] k (links_of id deps)) (sym same) ∙ omega arith))
  | inr there ↦ link-in_degree id k deps _ ∙ rw there refl
]

pub link_all-dependents :
    (c : String) (ts : List TaskNode) (t : Tables)
    → (link_all ts t).dependents c ≡ t.dependents c ++ targets c (links ts)
unfolding link_all
link_all-dependents c [] t = sym (append-nil (t.dependents c))
link_all-dependents c (n ∷ ts) t =
    let here = links_of n.task_id n.depends_on in
    link_all-dependents c ts (link n.task_id n.depends_on t)
    ∙ ap (λ l. l ++ targets c (links ts)) (link-dependents n.task_id c n.depends_on t)
    ∙ append_assoc (t.dependents c) (targets c here) (targets c (links ts))
    ∙ ap (λ l. t.dependents c ++ l) (sym (targets-append c here (links ts)))

pub link_all-in_degree :
    (k : String) (ts : List TaskNode) (t : Tables)
    → (link_all ts t).in_degree k ≡ t.in_degree k + waiting [] k (links ts)
unfolding link_all
link_all-in_degree k [] t = omega arith
link_all-in_degree k (n ∷ ts) t =
    let before = link-in_degree n.task_id k n.depends_on t in
    let after = link_all-in_degree k ts (link n.task_id n.depends_on t) in
    let both = waiting-append [] k (links_of n.task_id n.depends_on) (links ts) in
    omega (arith, before, after, both)

pub All-targets {κ} :
    (P : String → Type κ) (c : String) (ls : List Link)
    → All (λ (l : Link). P l.1) ls
    → All P (targets c ls)
All-targets P c [] h = tt
All-targets P c ((d, i) ∷ ls) h = elim (Bool-cases (str_eq c d)) [
  | inl here ↦ rw here (h.0, All-targets P c ls h.1)
  | inr there ↦ rw there (All-targets P c ls h.1)
]
