-- ===== src/Recovery/Plans.antt =====
-- What a replacement plan of recovery.py says.
use reus.Prelude.{
  ℕ, ◌+◌, ◌≤◌, ◌≡◌, refl, sym, subst, ◌∙◌, Bool, true, false, not, ◌||◌, String, Option, some, List,
  [], ◌∷◌, arith, eq_refl, Bool-cases, inl, inr, some-inj,
}
use reus.Prelude.Sets.{
  contains, union, difference, contains-difference, contains-sorted, contains-union,
}
use reus.Prelude.Dict.{get, put}
use reus.Recovery.{
  ReplacementPlan, FailureWindow, CellRecoveryPlanner, observe, count_failure, plan_with,
  candidates, too_early, next_window,
}

-- A plan for `peer_id` that the thresholds, the voters and the standbys allow.
pub record Allowed (peer_id : String) (voters ready_standbys : List String) (now : ℕ)
    (w : FailureWindow) (p q : CellRecoveryPlanner) (r : ReplacementPlan) : Type 0 where
  pub counted : r.observed_failures ≡ w.count
  pub since : r.first_failure_at ≡ w.first_failure_at
  pub failed_voter : r.failed_voter_id ≡ peer_id
  pub voter : contains voters peer_id ≡ true
  pub unplanned : contains p.planned_failures peer_id ≡ false
  pub seen_enough : p.failure_threshold ≤ r.observed_failures
  pub long_enough : r.first_failure_at + p.minimum_suspect_seconds ≤ now
  pub ready : contains ready_standbys r.standby_voter_id ≡ true
  pub no_voter : contains voters r.standby_voter_id ≡ false
  pub planned : contains q.planned_failures peer_id ≡ true

candidates-first :
    (peer_id c : String) (voters ready_standbys rest : List String)
    → candidates peer_id voters ready_standbys ≡ c ∷ rest
    → (contains ready_standbys c ≡ true) × (contains voters c ≡ false)
unfolding candidates contains
candidates-first peer_id c voters ready_standbys rest e =
    let kept = difference ready_standbys voters in
    let here : contains (c ∷ rest) c ≡ true = ground (arith, eq_refl c) in
    let found : contains (difference kept (peer_id ∷ [])) c ≡ true =
      sym (contains-sorted (difference kept (peer_id ∷ [])) c)
      ∙ subst (λ s. contains s c ≡ true) (sym e) here in
    ground (
      arith,
      contains-difference kept (peer_id ∷ []) c,
      contains-difference ready_standbys voters c,
    )

plan_with-Allowed :
    (peer_id : String) (voters ready_standbys cs : List String) (now : ℕ) (w : FailureWindow)
    (p m : CellRecoveryPlanner) (r : ReplacementPlan)
    → candidates peer_id voters ready_standbys ≡ cs
    → contains voters peer_id ≡ true
    → contains p.planned_failures peer_id ≡ false
    → too_early w now p ≡ false
    → (plan_with peer_id cs w m).1 ≡ some r
    → Allowed peer_id voters ready_standbys now w p (plan_with peer_id cs w m).0 r
unfolding plan_with too_early contains
plan_with-Allowed peer_id voters ready_standbys [] now w p m r e v u early h = cc
plan_with-Allowed peer_id voters ready_standbys (c ∷ rest) now w p m r e v u early h =
    let (ready, outside) = candidates-first peer_id c voters ready_standbys rest e in
    let is_planned : contains (union m.planned_failures (peer_id ∷ [])) peer_id ≡ true =
      ground (arith, contains-union m.planned_failures (peer_id ∷ []) peer_id, eq_refl peer_id) in
    subst
      (Allowed peer_id voters ready_standbys now w p
        (record m { planned_failures = union m.planned_failures (peer_id ∷ []) }))
      (some-inj h)
      (record {
        counted = refl;
        since = refl;
        failed_voter = refl;
        voter = v;
        unplanned = u;
        seen_enough = ground arith;
        long_enough = ground arith;
        ready = ready;
        no_voter = outside;
        planned = is_planned;
      })

count_failure-Allowed :
    (peer_id : String) (voters ready_standbys : List String) (now : ℕ) (w : FailureWindow)
    (p : CellRecoveryPlanner) (r : ReplacementPlan)
    → contains voters peer_id ≡ true
    → contains p.planned_failures peer_id ≡ false
    → (count_failure peer_id voters ready_standbys now w p).1 ≡ some r
    → Allowed peer_id voters ready_standbys now w p
        (count_failure peer_id voters ready_standbys now w p).0
        r
unfolding count_failure
count_failure-Allowed peer_id voters ready_standbys now w p r v u h =
    elim (Bool-cases (too_early w now p)) [
      | inl early ↦ absurd (ground arith)
      | inr late ↦
          let m = record p { failures = put peer_id w p.failures } in
          let taken : count_failure peer_id voters ready_standbys now w p
              ≡ plan_with peer_id (candidates peer_id voters ready_standbys) w m =
            rw (late, count_failure) refl in
          subst
            (λ (x : CellRecoveryPlanner × Option ReplacementPlan).
              Allowed peer_id voters ready_standbys now w p x.0 r)
            (sym taken)
            (plan_with-Allowed peer_id voters ready_standbys _ now w p m r refl v u late
              (subst (λ (x : CellRecoveryPlanner × Option ReplacementPlan). x.1 ≡ some r) taken h))
    ]

pub observe-Allowed :
    (peer_id : String) (alive : Bool) (voters ready_standbys : List String) (now : ℕ)
    (p : CellRecoveryPlanner) (r : ReplacementPlan)
    → (observe peer_id alive voters ready_standbys now p).1 ≡ some r
    → Allowed peer_id voters ready_standbys now
        (next_window (get peer_id p.failures) now)
        p
        (observe peer_id alive voters ready_standbys now p).0
        r
unfolding observe
observe-Allowed peer_id true voters ready_standbys now p r h = cc
observe-Allowed peer_id false voters ready_standbys now p r h =
    elim (Bool-cases (not (contains voters peer_id) || contains p.planned_failures peer_id)) [
      | inl kept_out ↦ absurd (ground arith)
      | inr counts ↦
          let w = next_window (get peer_id p.failures) now in
          let taken : observe peer_id false voters ready_standbys now p
              ≡ count_failure peer_id voters ready_standbys now w p =
            rw (counts, observe) refl in
          subst
            (λ (x : CellRecoveryPlanner × Option ReplacementPlan).
              Allowed peer_id voters ready_standbys now w p x.0 r)
            (sym taken)
            (count_failure-Allowed peer_id voters ready_standbys now w p r (ground arith)
              (ground arith)
              (subst (λ (x : CellRecoveryPlanner × Option ReplacementPlan). x.1 ≡ some r) taken h))
    ]
