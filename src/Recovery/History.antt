-- ===== src/Recovery/History.antt =====
-- The failures that a planner of recovery.py counts are failures that were reported to it.
use reus.Prelude.{
  ℕ, ◌+◌, ◌≤◌, ◌≡◌, refl, sym, ap, subst, ◌∙◌, Bool, true, false, not, ◌||◌, String, Option, none,
  some, List, [], ◌∷◌, arith, length, str_eq, eq_iff, eq_refl, if◌then◌else◌, Bool-cases, ◌⊎◌, inl,
  inr,
}
use reus.Prelude.Sets.{contains}
use reus.Prelude.Dict.{Dict, get, put, remove, get-put, get-remove}
use reus.Prelude.Members.{In}
use reus.Recovery.{
  ReplacementPlan, FailureWindow, CellRecoveryPlanner, cell_recovery_planner, observe, retry,
  resolve, count_failure, plan_with, candidates, too_early, next_window,
}
use reus.Recovery.Plans.{observe-Allowed}

-- A call of a planner.
pub data Call : Type 0 where
  observed :
      (peer_id : String) (alive : Bool) (voters ready_standbys : List String) (now : ℕ) → Call
  retried resolved : (peer_id : String) → Call

abbrev pub perform : Call → CellRecoveryPlanner → CellRecoveryPlanner
perform (observed peer_id alive voters ready_standbys now) p =
    (observe peer_id alive voters ready_standbys now p).0
perform (retried peer_id) p = retry peer_id p
perform (resolved peer_id) p = resolve peer_id p

-- The last call comes first.
abbrev pub after : List Call → CellRecoveryPlanner → CellRecoveryPlanner
after [] p = p
after (c ∷ calls) p = perform c (after calls p)

-- The times at which a peer was reported as failed since it was last reported alive or resolved.
abbrev pub failed_times : String → List Call → List ℕ
failed_times id [] = []
failed_times id (observed peer_id true voters ready_standbys now ∷ calls) =
    let before = failed_times id calls in if str_eq peer_id id then [] else before
failed_times id (observed peer_id false voters ready_standbys now ∷ calls) =
    let before = failed_times id calls in if str_eq peer_id id then now ∷ before else before
failed_times id (retried peer_id ∷ calls) = failed_times id calls
failed_times id (resolved peer_id ∷ calls) =
    let before = failed_times id calls in if str_eq peer_id id then [] else before

-- The window of a peer counts no more than these failures, and began with one of them.
abbrev Backed : Option FailureWindow → List ℕ → Type 0
Backed none times = Unit
Backed (some w) times = (w.count ≤ length times) × In w.first_failure_at times

Backed-next :
    (o : Option FailureWindow) (now : ℕ) (times : List ℕ)
    → Backed o times
    → Backed (some (next_window o now)) (now ∷ times)
unfolding next_window
Backed-next none now times b = (omega arith, inl refl)
Backed-next (some w) now times b = (omega (arith, b.0), inr b.1)

Backed-more :
    (o : Option FailureWindow) (now : ℕ) (times : List ℕ) → Backed o times → Backed o (now ∷ times)
Backed-more none now times b = tt
Backed-more (some w) now times b = (omega (arith, b.0), inr b.1)

Thresholds : CellRecoveryPlanner → CellRecoveryPlanner → Type 0
Thresholds p q =
    (q.failure_threshold ≡ p.failure_threshold)
    × (q.minimum_suspect_seconds ≡ p.minimum_suspect_seconds)

count_failure-failures :
    (id : String) (voters standbys : List String) (now : ℕ) (w : FailureWindow)
    (p : CellRecoveryPlanner)
    → ((count_failure id voters standbys now w p).0.failures ≡ put id w p.failures)
      × Thresholds p (count_failure id voters standbys now w p).0
unfolding count_failure Thresholds
count_failure-failures id voters standbys now w p = elim (Bool-cases (too_early w now p)) [
  | inl early ↦ rw early (refl, (refl, refl))
  | inr late ↦ rw late (planned (candidates id voters standbys))
]
  where
    planned :
        (cs : List String)
        → ((plan_with id cs w (record p { failures = put id w p.failures })).0.failures
            ≡ put id w p.failures)
          × Thresholds p (plan_with id cs w (record p { failures = put id w p.failures })).0
    planned [] = (unfold plan_with in (refl, (refl, refl)))
    planned (c ∷ cs) = (unfold plan_with in (refl, (refl, refl)))

observe-failures :
    (id : String) (voters standbys : List String) (now : ℕ) (p : CellRecoveryPlanner)
    → (((observe id false voters standbys now p).0.failures ≡ p.failures)
        ⊎ ((observe id false voters standbys now p).0.failures
            ≡ put id (next_window (get id p.failures) now) p.failures))
      × Thresholds p (observe id false voters standbys now p).0
unfolding observe Thresholds
observe-failures id voters standbys now p =
    elim (Bool-cases (not (contains voters id) || contains p.planned_failures id)) [
      | inl kept_out ↦ rw kept_out (inl refl, (refl, refl))
      | inr counts ↦
          (let (failures, same) =
              count_failure-failures id voters standbys now (next_window (get id p.failures) now)
                p in
            rw counts (inr failures, same))
    ]

remove-Backed :
    (id k : String) (times : List ℕ) (d : Dict FailureWindow)
    → Backed (get id d) times
    → Backed (get id (remove k d)) (if str_eq k id then [] else times)
remove-Backed id k times d b =
    subst (λ o. Backed o (if str_eq k id then [] else times)) (sym (get-remove k id d))
      (elim (Bool-cases (str_eq k id)) [ inl here ↦ rw here tt | inr other ↦ rw other b ])

after-Backed :
    (id : String) (calls : List Call) (p : CellRecoveryPlanner)
    → p.failures ≡ []
    → Backed (get id (after calls p).failures) (failed_times id calls)
      × Thresholds p (after calls p)
unfolding observe retry resolve Thresholds
after-Backed id [] p e =
    (subst (λ d. Backed (get id d) []) (sym e) (unfold get in tt), (refl, refl))
after-Backed id (retried k ∷ calls) p e = after-Backed id calls p e
after-Backed id (resolved k ∷ calls) p e =
    let (b, t) = after-Backed id calls p e in
    (remove-Backed id k (failed_times id calls) (after calls p).failures b, t)
after-Backed id (observed k true voters standbys now ∷ calls) p e =
    let (b, t) = after-Backed id calls p e in
    (remove-Backed id k (failed_times id calls) (after calls p).failures b, t)
after-Backed id (observed k false voters standbys now ∷ calls) p e =
    let (b, t) = after-Backed id calls p e in
    let q = after calls p in
    let (changed, same) = observe-failures k voters standbys now q in
    (
      elim changed [
        | inl kept ↦
            subst
              (λ d.
                Backed (get id d) (failed_times id (observed k false voters standbys now ∷ calls)))
              (sym kept)
              (elim (Bool-cases (str_eq k id)) [
                | inl here ↦ rw here (Backed-more (get id q.failures) now (failed_times id calls) b)
                | inr other ↦ rw other b
              ])
        | inr counted ↦
            subst
              (λ d.
                Backed (get id d) (failed_times id (observed k false voters standbys now ∷ calls)))
              (sym counted)
              (subst
                (λ o. Backed o (failed_times id (observed k false voters standbys now ∷ calls)))
                (sym (get-put k id (next_window (get k q.failures) now) q.failures))
                (elim (Bool-cases (str_eq k id)) [
                  | inl here ↦
                      (let k_id : k ≡ id = ground (arith, eq_iff k id) in
                        rw here (
                          Backed-next (get k q.failures) now (failed_times id calls) (
                            subst (λ i. Backed (get i q.failures) (failed_times id calls))
                              (sym k_id) b)))
                  | inr other ↦ rw other b
                ]))
      ],
      (same.0 ∙ t.0, same.1 ∙ t.1),
    )

-- What a plan for `peer_id` rests on, where `calls` are all the calls that the planner had, the one that
-- made the plan first.
pub record Justified (threshold seconds : ℕ) (peer_id : String)
    (voters ready_standbys : List String) (now : ℕ) (calls : List Call)
    (before next : CellRecoveryPlanner) (r : ReplacementPlan) : Type 0 where
  pub failed_voter : r.failed_voter_id ≡ peer_id
  pub voter : contains voters peer_id ≡ true
  pub unplanned : contains before.planned_failures peer_id ≡ false
  pub enough : threshold ≤ r.observed_failures
  pub seen : r.observed_failures ≤ length (failed_times peer_id calls)
  pub began : In r.first_failure_at (failed_times peer_id calls)
  pub long_enough : r.first_failure_at + seconds ≤ now
  pub ready : contains ready_standbys r.standby_voter_id ≡ true
  pub no_voter : contains voters r.standby_voter_id ≡ false
  pub planned : contains next.planned_failures peer_id ≡ true

-- A new planner that had any calls before makes a plan only for a voter that has no plan yet and that
-- was reported as failed at least as often as the threshold asks since it was last reported alive or
-- resolved, one of these reports being at least the minimum time ago; and only with a ready standby that
-- is no voter. The plan counts no more than these reports, names the time of one of them, and the failed
-- voter then counts as planned.
pub observe-Justified :
    (threshold seconds : ℕ) (start : CellRecoveryPlanner) (calls : List Call) (peer_id : String)
    (alive : Bool) (voters ready_standbys : List String) (now : ℕ) (r : ReplacementPlan)
    → cell_recovery_planner threshold seconds ≡ some start
    → (observe peer_id alive voters ready_standbys now (after calls start)).1 ≡ some r
    → Justified threshold seconds peer_id voters ready_standbys now
        (observed peer_id alive voters ready_standbys now ∷ calls)
        (after calls start)
        (observe peer_id alive voters ready_standbys now (after calls start)).0
        r
unfolding cell_recovery_planner Thresholds
observe-Justified threshold seconds start calls peer_id true voters standbys now r made h =
    absurd (unfold observe in ground arith)
observe-Justified threshold seconds start calls peer_id false voters standbys now r made h =
    let a = observe-Allowed peer_id false voters standbys now (after calls start) r h in
    let empty : start.failures ≡ [] = ground arith in
    let (b, t) = after-Backed peer_id calls start empty in
    let given : (start.failure_threshold ≡ threshold) × (start.minimum_suspect_seconds ≡ seconds) =
      (ground arith, ground arith) in
    let (few, began) =
      Backed-next (get peer_id (after calls start).failures) now (failed_times peer_id calls) b in
    let times : failed_times peer_id (observed peer_id false voters standbys now ∷ calls)
        ≡ now ∷ failed_times peer_id calls =
      ap (λ c. if c then now ∷ failed_times peer_id calls else failed_times peer_id calls)
        (eq_refl peer_id) in
    record {
      failed_voter = a.failed_voter;
      voter = a.voter;
      unplanned = a.unplanned;
      enough = omega (arith, a.seen_enough, t.0, given.0);
      seen = rw times (omega (arith, a.counted, few));
      began =
          subst (λ ts. In r.first_failure_at ts) (sym times)
            (subst (λ t. In t (now ∷ failed_times peer_id calls)) (sym a.since) began);
      long_enough = omega (arith, a.long_enough, t.1, given.1);
      ready = a.ready;
      no_voter = a.no_voter;
      planned = a.planned;
    }
