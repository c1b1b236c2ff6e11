-- ===== src/Raft/TornCompaction.antt =====
-- A crash inside `compact_log` of raft.py, after `save_snapshot` and before `_persist`.
use reus.Prelude.{
  ℕ, max, min, ◌<◌, ◌≤◌, ◌≡◌, refl, sym, ap, subst, ◌∙◌, Bool, String, Option, none, some, List, [],
  ◌∷◌, arith, length, some-inj,
}
use reus.Prelude.Sets.{set_of}
use reus.Membership.{voter_configuration, to_payload, MembershipPayload}
use reus.RaftStorage.{
  LogEntry, RaftStorage, StateFile, SnapshotFile, Loaded, nothing, corrupt, loaded, load,
  load_commit_index, load_snapshot, load_snapshot_membership, save_snapshot, write_snapshot,
}
use reus.Raft.Node.{RaftNode, last_log_index}
use reus.Raft.Snapshot.{drop_prefix, write_snapshot_file}
use reus.Raft.Load.{
  raft_node, load_persisted_state, load_files, restore_base, load_base, with_base, restore_state,
  fresh,
}
use reus.Raft.Durable.{Saved, IsSaved, state_of}
use reus.Raft.Restart.{restart_lem, option_bind, replay_membership-SameCore}
use reus.Raft.Log.{IsContiguous}
use reus.Raft.WellFormed.{IsWellFormed}

restore_base-base :
    (f : SnapshotFile) (p : Option MembershipPayload) (n m : RaftNode)
    → restore_base (loaded f) p n ≡ some m
    → m.snapshot_last_included_index ≡ f.last_included_index
unfolding restore_base load_base with_base
restore_base-base f p n m h = ground arith

restore_state-base :
    (l : Loaded StateFile) (c : ℕ) (n m : RaftNode)
    → restore_state l c n ≡ some m
    → m.snapshot_last_included_index ≡ n.snapshot_last_included_index
unfolding restore_state
restore_state-base nothing c n m h = ground arith
restore_state-base corrupt c n m h = cc
restore_state-base (loaded f) c n m h =
    sym (ap (λ (r : RaftNode). r.snapshot_last_included_index) (some-inj h))
    ∙ (replay_membership-SameCore f.log (
        let r = record n { current_term = f.current_term; voted_for = f.voted_for; log = f.log } in
        record r {
          commit_index = max r.snapshot_last_included_index (min c (last_log_index r));
        })).base

-- A start takes its base from the snapshot file.
pub raft_node-base :
    (s : RaftStorage) (m : RaftNode) (id : String) (peers : List String) (strict : Bool) (d : ℕ)
    (f : SnapshotFile)
    → load_snapshot s ≡ loaded f
    → raft_node id peers strict (some s) d ≡ some m
    → m.snapshot_last_included_index ≡ f.last_included_index
unfolding raft_node load_persisted_state load_files fresh
raft_node-base s m id peers strict d f file h =
    let (c, _, started) =
      option_bind (voter_configuration (set_of (id ∷ peers)) none)
        (λ c. load_persisted_state (fresh id strict (some s) d c)) h in
    let start = fresh id strict (some s) d c in
    let (b, based, read_state) =
      option_bind (restore_base (load_snapshot s) (load_snapshot_membership s) start)
        (λ b. restore_state (load s) (load_commit_index s) b) started in
    restore_state-base (load s) (load_commit_index s) b m read_state
    ∙ restore_base-base f (load_snapshot_membership s) start b
        (subst (λ l. restore_base l (load_snapshot_membership s) start ≡ some b) file based)

-- A log over a base is no log over another one, unless it is empty.
IsContiguous-base :
    (a b : ℕ) (log : List LogEntry)
    → IsContiguous a log
    → IsContiguous b log
    → 1 ≤ length log
    → a ≡ b
IsContiguous-base a b [] h k le = absurd (omega arith)
IsContiguous-base a b (e ∷ log) h k le = omega (arith, h.0, k.0)

-- The storage of a node whose compaction to `target` stopped after the snapshot file.
abbrev pub half_compacted : ℕ → ℕ → String → RaftNode → Option RaftStorage
half_compacted target snapshot_term snapshot_data n =
    (write_snapshot_file snapshot_data (to_payload n.membership)
      (drop_prefix target snapshot_term n)).storage

-- A saved, well-formed node above position `target` of its log crashes in `compact_log` between the
-- snapshot file and the state file. Every later start that succeeds has the new base over the old,
-- uncut log, so that it is not well formed.
pub half_compacted-restart :
    (target snapshot_term : ℕ) (snapshot_data : String) (n m : RaftNode) (s : RaftStorage)
    (id : String) (peers : List String) (strict : Bool) (d : ℕ)
    → IsWellFormed n
    → IsSaved n
    → n.storage ≡ some s
    → n.snapshot_last_included_index < target
    → target ≤ n.commit_index
    → raft_node id peers strict (half_compacted target snapshot_term snapshot_data n) d ≡ some m
    → (m.snapshot_last_included_index ≡ target) × (m.log ≡ n.log) × (¬ IsWellFormed m)
unfolding write_snapshot_file drop_prefix save_snapshot write_snapshot load_snapshot state_of
half_compacted-restart target t data' n m s id peers strict d wf saved e lo hi h =
    let s' = save_snapshot target t data' (some (to_payload n.membership)) s in
    let n' : RaftNode = record n { storage = some s' } in
    let on_disk : half_compacted target t data' n ≡ some s' =
      ap
        (λ (o : Option RaftStorage). elim o [
          | none ↦ none
          | some r ↦ some (save_snapshot target t data' (some (to_payload n.membership)) r)
        ])
        e in
    let started : raft_node id peers strict (some s') d ≡ some m =
      subst (λ o. raft_node id peers strict o d ≡ some m) on_disk h in
    let base = raft_node-base s' m id peers strict d _ refl started in
    let log : m.log ≡ n.log =
      ap (λ (f : StateFile). f.log)
        (restart_lem s' n' m id peers strict d (subst (Saved (state_of n)) e saved) refl
          started).0 in
    (
      base,
      log,
      λ bad. omega (
        arith,
        base,
        IsContiguous-base n.snapshot_last_included_index m.snapshot_last_included_index n.log
            wf.contiguous (subst (IsContiguous m.snapshot_last_included_index) log bad.contiguous)
            (omega (arith, wf.committed_stored)),
      ),
    )
