-- ===== src/Recovery.antt =====
-- infrastructure/cluster_network/recovery.py: when a failed voter of a cell is replaced, and by whom.
-- Sets are lists read as sets; times are readings of the clock. Thresholds that `__init__` refuses are
-- no planner.
pub mod Plans
pub mod History
mod Tests
use reus.Prelude.{
  ℕ, ◌+◌, Bool, true, false, not, ◌||◌, String, Option, none, some, List, [], ◌∷◌, ltb,
  if◌then◌else◌, str_eq, filter_by,
}
use reus.Prelude.Sets.{contains, union, difference, sorted}
use reus.Prelude.Dict.{Dict, get, put, remove}

pub record ReplacementPlan : Type 0 where
  pub failed_voter_id : String
  pub standby_voter_id : String
  pub observed_failures : ℕ
  pub first_failure_at : ℕ

-- `_FailureWindow`
pub record FailureWindow : Type 0 where
  pub count : ℕ
  pub first_failure_at : ℕ

pub record CellRecoveryPlanner : Type 0 where
  pub failure_threshold : ℕ
  pub minimum_suspect_seconds : ℕ
  pub failures : Dict FailureWindow
  pub planned_failures : List String

unfoldable pub cell_recovery_planner : ℕ → ℕ → Option CellRecoveryPlanner
cell_recovery_planner failure_threshold minimum_suspect_seconds =
    if ltb failure_threshold 1
    then none
    else some (record {
      failure_threshold = failure_threshold;
      minimum_suspect_seconds = minimum_suspect_seconds;
      failures = [];
      planned_failures = [];
    })

unfoldable pub resolve : String → CellRecoveryPlanner → CellRecoveryPlanner
resolve peer_id p = record p {
  failures = remove peer_id p.failures;
  planned_failures = difference p.planned_failures (peer_id ∷ []);
}

unfoldable pub retry : String → CellRecoveryPlanner → CellRecoveryPlanner
retry peer_id p = record p { planned_failures = difference p.planned_failures (peer_id ∷ []) }

unfoldable pub next_window : Option FailureWindow → ℕ → FailureWindow
next_window none now = record { count = 1; first_failure_at = now }
next_window (some w) now = record w { count = w.count + 1 }

-- `window.count < …` or `now - window.first_failure_at < …`
unfoldable pub too_early : FailureWindow → ℕ → CellRecoveryPlanner → Bool
too_early w now p =
    ltb w.count p.failure_threshold || ltb now (w.first_failure_at + p.minimum_suspect_seconds)

unfoldable pub candidates : String → List String → List String → List String
candidates peer_id voters ready_standbys =
    sorted (difference (difference ready_standbys voters) (peer_id ∷ []))

unfoldable pub plan_with :
    String
    → List String
    → FailureWindow
    → CellRecoveryPlanner
    → CellRecoveryPlanner × Option ReplacementPlan
plan_with peer_id [] w p = (p, none)
plan_with peer_id (standby ∷ rest) w p = (
  record p { planned_failures = union p.planned_failures (peer_id ∷ []) },
  some (record {
    failed_voter_id = peer_id;
    standby_voter_id = standby;
    observed_failures = w.count;
    first_failure_at = w.first_failure_at;
  }),
)

unfoldable pub count_failure :
    String
    → (voters ready_standbys : List String) → ℕ
    → FailureWindow
    → CellRecoveryPlanner
    → CellRecoveryPlanner × Option ReplacementPlan
count_failure peer_id voters ready_standbys now w p =
    let m = record p { failures = put peer_id w p.failures } in
    if too_early w now p
    then (m, none)
    else plan_with peer_id (candidates peer_id voters ready_standbys) w m

unfoldable pub observe :
    String
    → (alive : Bool) → (voters ready_standbys : List String) → (now : ℕ) → CellRecoveryPlanner
    → CellRecoveryPlanner × Option ReplacementPlan
observe peer_id true voters ready_standbys now p = (resolve peer_id p, none)
observe peer_id false voters ready_standbys now p =
    if not (contains voters peer_id) || contains p.planned_failures peer_id
    then (p, none)
    else count_failure peer_id voters ready_standbys now (next_window (get peer_id p.failures) now)
        p
