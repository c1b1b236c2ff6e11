-- ===== src/Cluster/Leases.antt =====
-- The leases of raft_cluster_node.py under a sequence of committed commands.
use reus.Prelude.{◌≡◌, refl, sym, ap, ◌∙◌, String, Option, none, some, List, [], ◌∷◌, ◌++◌}
use reus.Prelude.Dict.{get}
use reus.RaftStorage.{LogEntry}
use reus.Cluster.States.{TaskLease, States, apply_commit, apply_commits}
use reus.Cluster.Replay.{apply_commits-append}
use reus.Cluster.LeaseEffect.{Effect, keep, run, extend, effect_from, run_again, apply_task-extend}

apply_commits-effect_from :
    (id : String) (es : List LogEntry) (s : States) (e : Effect) (o : Option TaskLease)
    → get id s.tasks ≡ run e o
    → get id (apply_commits es s).tasks ≡ run (effect_from id e es) o
unfolding apply_commits apply_commit
apply_commits-effect_from id [] s e o h = h
apply_commits-effect_from id (x ∷ es) s e o h =
    apply_commits-effect_from id es (apply_commit x s) (extend id x.command e) o
      (apply_task-extend id x.command s.tasks e o h)

run-keep : (o : Option TaskLease) → o ≡ run keep o
run-keep none = refl
run-keep (some t) = refl

-- The lease of each task after some committed commands is what the effect of the commands on that task
-- alone, worked out before any state is known, makes of the lease before.
pub apply_commits-run :
    (id : String) (es : List LogEntry) (s : States)
    → get id (apply_commits es s).tasks ≡ run (effect_from id keep es) (get id s.tasks)
apply_commits-run id es s =
    apply_commits-effect_from id es s keep (get id s.tasks) (run-keep (get id s.tasks))

-- A snapshot may already hold the effect of the commands behind its position: applying them again
-- changes no lease.
pub apply_commits_again :
    (id : String) (xs ys : List LogEntry) (s : States)
    → get id (apply_commits ys (apply_commits (xs ++ ys) s)).tasks
      ≡ get id (apply_commits (xs ++ ys) s).tasks
apply_commits_again id xs ys s =
    let m = apply_commits xs s in
    let effect = effect_from id keep ys in
    let once = apply_commits-run id ys m in
    ap (λ (t : States). get id (apply_commits ys t).tasks) (apply_commits-append xs ys s)
    ∙ apply_commits-run id ys (apply_commits ys m)
    ∙ ap (run effect) once
    ∙ run_again effect (get id m.tasks)
    ∙ sym once
    ∙ sym (ap (λ (t : States). get id t.tasks) (apply_commits-append xs ys s))
