-- ===== src/Workflow/Kahn.antt =====
-- The loops of `_validate_no_cycles` of workflow.py: what is visited, and in which order.
use reus.Prelude.{
  ℕ, zero, suc, ◌+◌, ◌-◌, ◌≤◌, ◌≡◌, refl, sym, ap, subst, ◌∙◌, true, false, ◌==◌, String, Option,
  some, List, [], ◌∷◌, ◌++◌, All, arith, length, str_eq, eq_iff, eq_refl, if◌then◌else◌, Bool-cases,
  inl, inr,
}
use reus.Prelude.Sets.{contains}
use reus.Prelude.Distinct.{Distinct, Distinct-move, All-move, All-map, Distinct-length}
use reus.Workflow.Graph.{Queue, set_at, release, visit}
use reus.Workflow.Links.{Link, targets, count, waiting, waiting-seen, All-targets}

-- A task that waits for nothing and that is not among those left to be released.
abbrev Settled : (String → ℕ) → List String → String → Type 0
Settled wait rest x = (wait x ≡ 0) × (count x rest ≡ 0)

-- Within the loop over the dependents: `wait` tells for how many dependencies each task will wait.
record Releasing (K : String → Type 0) (wait : String → ℕ) (rest : List String) (q : Queue)
    (seen : List String) : Type 0 where
  degree : (id : String) → q.0 id ≡ wait id + count id rest
  settled : All (Settled wait rest) (q.1 ++ seen)
  distinct : Distinct (q.1 ++ seen)
  known : All K (q.1 ++ seen)

unsettled :
    (wait : String → ℕ) (next : String) (rest xs : List String)
    → All (Settled wait (next ∷ rest)) xs
    → contains xs next ≡ false
unfolding contains
unsettled wait next rest [] a = refl
unsettled wait next rest (x ∷ xs) a =
    ground (arith, eq_iff x next, a.0.1, unsettled wait next rest xs a.1)

loosen :
    (wait : String → ℕ) (next : String) (rest : List String) (x : String)
    → Settled wait (next ∷ rest) x
    → Settled wait rest x
loosen wait next rest x h = (h.0, ground (arith, h.1))

release-Releasing :
    (K : String → Type 0) (wait : String → ℕ) (rest : List String) (q : Queue) (seen : List String)
    → All K rest
    → Releasing K wait rest q seen
    → Releasing K wait [] (release rest q) seen
unfolding release
release-Releasing K wait [] q seen k r = r
release-Releasing K wait (next ∷ rest) (degree, queue) seen k r =
    let degree' = set_at next (degree next - 1) degree in
    let at : degree next ≡ wait next + count next rest + 1 =
      r.degree next
      ∙ ap (λ b. wait next + (if b then suc (count next rest) else count next rest)) (eq_refl next)
      ∙ omega arith in
    let now : degree' next ≡ wait next + count next rest =
      ap (λ b. if b then degree next - 1 else degree next) (eq_refl next) ∙ omega (arith, at) in
    let after : (id : String) → degree' id ≡ wait id + count id rest = λ id.
      elim (Bool-cases (str_eq id next)) [
        | inl here ↦
            ap degree' (ground (arith, eq_iff id next))
            ∙ now
            ∙ ap (λ j. wait j + count j rest) (sym (ground (arith, eq_iff id next)))
        | inr there ↦ rw there (r.degree id ∙ rw there refl)
      ] in
    let looser =
      All-map (Settled wait (next ∷ rest)) (Settled wait rest) (queue ++ seen)
        (loosen wait next rest) r.settled in
    elim (Bool-cases (degree' next == 0)) [
      | inl free ↦ rw free (
          release-Releasing K wait rest (degree', next ∷ queue) seen k.1
            (record {
              degree = after;
              settled = ((ground (arith, now), ground (arith, now)), looser);
              distinct = (unsettled wait next rest (queue ++ seen) r.settled, r.distinct);
              known = (k.0, r.known);
            }))
      | inr waits ↦ rw waits (
          release-Releasing K wait rest (degree', queue) seen k.1
            (record { degree = after; settled = looser; distinct = r.distinct; known = r.known }))
    ]

module _ (ls : List Link) (ks : List String) where
  abbrev pub Known : String → Type 0
  Known x = contains ks x ≡ true

  -- Newest first: when each was visited, all that it depends on had been.
  abbrev pub Ordered : List String → Type 0
  Ordered [] = Unit
  Ordered (c ∷ seen) = (waiting seen c ls ≡ 0) × Ordered seen

  -- Before each round of the `while` loop.
  pub record Visiting (q : Queue) (seen : List String) : Type 0 where
    pub degree : (id : String) → q.0 id ≡ waiting seen id ls
    pub settled : All (λ x. waiting seen x ls ≡ 0) (q.1 ++ seen)
    pub distinct : Distinct (q.1 ++ seen)
    pub known : All Known (q.1 ++ seen)
    pub ordered : Ordered seen

  abbrev pub Visited : Option ℕ → Type 0
  Visited o =
      (seen : List String) × (o ≡ some (length seen))
      × Ordered seen
      × Distinct seen
      × All Known seen

  round :
      (c : String) (degree : String → ℕ) (queue seen : List String)
      → All (λ (l : Link). Known l.1) ls
      → Visiting (degree, c ∷ queue) seen
      → Visiting (release (targets c ls) (degree, queue)) (c ∷ seen)
  round c degree queue seen k v =
      let unseen : contains seen c ≡ false = outside queue v.distinct.0 in
      let step : (x : String)
          → waiting seen x ls ≡ waiting (c ∷ seen) x ls + count x (targets c ls) =
        λ x. waiting-seen seen c x ls unseen in
      let wait : String → ℕ = λ x. waiting (c ∷ seen) x ls in
      let still : (x : String) → waiting seen x ls ≡ 0 → Settled wait (targets c ls) x =
        λ x z. (omega (arith, step x, z), omega (arith, step x, z)) in
      let r =
        release-Releasing Known wait (targets c ls) (degree, queue) (c ∷ seen)
          (All-targets Known c ls k)
          (record {
            degree = λ id. v.degree id ∙ step id;
            settled = All-move (Settled wait (targets c ls)) c queue seen (still c v.settled.0) (
                All-map (λ x. waiting seen x ls ≡ 0) (Settled wait (targets c ls)) (queue ++ seen)
                  still v.settled.1);
            distinct = Distinct-move c queue seen v.distinct.0 v.distinct.1;
            known = All-move Known c queue seen v.known.0 v.known.1;
          }) in
      let q = release (targets c ls) (degree, queue) in
      record {
        degree = λ id. r.degree id ∙ omega arith;
        settled =
            All-map (Settled wait []) (λ x. waiting (c ∷ seen) x ls ≡ 0) (q.1 ++ c ∷ seen)
              (λ x s. s.0) r.settled;
        distinct = r.distinct;
        known = r.known;
        ordered = (v.settled.0, v.ordered);
      }
    where
      outside : (xs : List String) → contains (xs ++ seen) c ≡ false → contains seen c ≡ false
      outside [] h = h
      outside (x ∷ xs) h = outside xs (unfold contains in ground arith)

  -- With as many rounds as there are tasks that may still be visited, the loop ends.
  pub visit-Visited :
      (dependents : String → List String)
      → ((c : String) → dependents c ≡ targets c ls)
      → All (λ (l : Link). Known l.1) ls
      → (rounds : ℕ) (q : Queue) (seen : List String) → length seen + rounds ≡ length ks
      → Visiting q seen
      → Visited (visit rounds dependents q (length seen))
  unfolding visit
  visit-Visited dependents same k rounds (degree, []) seen e v =
      (seen, refl, v.ordered, v.distinct, v.known)
  visit-Visited dependents same k zero (degree, c ∷ queue) seen e v =
      let most = Distinct-length (c ∷ queue ++ seen) ks v.distinct v.known in
      let more = longer queue in absurd (omega (arith, most, more, e))
    where
      longer : (xs : List String) → length seen ≤ length (xs ++ seen)
      longer [] = omega arith
      longer (x ∷ xs) = (let rest = longer xs in omega (arith, rest))
  visit-Visited dependents same k (suc rounds) (degree, c ∷ queue) seen e v =
      visit-Visited dependents same k rounds (release (dependents c) (degree, queue)) (c ∷ seen)
        (omega (arith, e))
        (subst (λ l. Visiting (release l (degree, queue)) (c ∷ seen)) (sym (same c))
          (round c degree queue seen k v))
