-- ===== src/Recovery/Tests.antt =====
-- A cell of three with one standby, and two failures.
use reus.Prelude.{◌≡◌, refl, true, false, String, none, List, [], ◌∷◌}
use reus.Prelude.Sets.{contains, set_of, union, difference, sorted}
use reus.Prelude.Dict.{get, put, remove}
use reus.Recovery.{
  ReplacementPlan, CellRecoveryPlanner, cell_recovery_planner, observe, resolve, retry,
  count_failure, plan_with, candidates, too_early, next_window,
}
use reus.Recovery.History.{Call, observed, after, Justified, observe-Justified}

program : Unit {0}
unfolding contains set_of union difference sorted get put remove cell_recovery_planner observe
    resolve retry count_failure plan_with candidates too_early next_window
program = tt

abbrev start : CellRecoveryPlanner
start = record {
  failure_threshold = 2;
  minimum_suspect_seconds = 5;
  failures = [];
  planned_failures = [];
}

abbrev cell : List String
cell = "a" ∷ "b" ∷ "c" ∷ []

abbrev plan : ReplacementPlan
plan = record {
  failed_voter_id = "b";
  standby_voter_id = "d";
  observed_failures = 2;
  first_failure_at = 10;
}

-- "b" was alive, then failed, while "c" failed too; the last call comes first.
abbrev calls : List Call
calls =
    observed "c" false cell ("d" ∷ []) 11
    ∷ observed "b" false cell ("d" ∷ []) 10
    ∷ observed "b" true cell ("d" ∷ []) 9
    ∷ observed "b" false cell ("d" ∷ []) 2
    ∷ []

too_soon : (observe "b" false cell ("d" ∷ []) 14 (after calls start)).1 ≡ none
unfolding program
too_soon = refl

observe-Justified_example :
    Justified 2 5 "b" cell
      ("d" ∷ [])
      15
      (observed "b" false cell ("d" ∷ []) 15 ∷ calls)
      (after calls start)
      (observe "b" false cell ("d" ∷ []) 15 (after calls start)).0
      plan
unfolding program
observe-Justified_example =
    observe-Justified 2 5 start calls "b" false cell ("d" ∷ []) 15 plan refl refl
