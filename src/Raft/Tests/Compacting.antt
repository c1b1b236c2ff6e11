-- ===== src/Raft/Tests/Compacting.antt =====
-- Compaction and a crash during it, at a concrete node.
use reus.Prelude.{◌≡◌, refl, max, ltb, false, some, none, [], ◌∷◌, arith, inl}
use reus.Prelude.Sets.{contains, set_of, sorted}
use reus.Membership.{voter_configuration, to_payload, from_payload}
use reus.RaftStorage.{
  RaftStorage, new_storage, save, save_snapshot, load, load_commit_index, load_snapshot,
  load_snapshot_membership, write_state, write_snapshot,
}
use reus.Raft.Node.{RaftNode, last_index, last_log_index}
use reus.Raft.Commands.{apply_membership_command}
use reus.Raft.Snapshot.{compact_log, compaction_target, write_snapshot_file, drop_prefix}
use reus.Raft.Load.{
  fresh, with_base, load_base, restore_base, replay_membership, restore_state, load_files,
  load_persisted_state, raft_node,
}
use reus.Raft.Durable.{IsSaved, state_of}
use reus.Raft.WellFormed.{IsWellFormed, IsWellFormed-same}
use reus.Raft.Compaction.{SameFrom, compact_log-SameFrom}
use reus.Raft.TornCompaction.{half_compacted, half_compacted-restart}
use reus.Raft.Tests.{node, node-IsWellFormed}

program : Unit {0}
unfolding contains set_of sorted voter_configuration to_payload from_payload save save_snapshot load
    load_commit_index load_snapshot load_snapshot_membership write_state write_snapshot last_index
    last_log_index apply_membership_command compact_log write_snapshot_file drop_prefix fresh
    with_base load_base restore_base replay_membership restore_state load_files load_persisted_state
    raft_node state_of
program = tt

compact_log-SameFrom_example :
    SameFrom
      (compact_log none "s" node).0.snapshot_last_included_index
      node
      (compact_log none "s" node).0
    × ((compact_log none "s" node).0.snapshot_last_included_index
        ≡ max 0 (compaction_target none node))
    × ((compact_log none "s" node).1 ≡ ltb 0 (compaction_target none node))
compact_log-SameFrom_example = compact_log-SameFrom none "s" node node-IsWellFormed

abbrev disk : RaftStorage
disk = save 2 none node.log 1 new_storage

abbrev on_disk : RaftNode
on_disk = record node { storage = some disk }

on_disk-IsWellFormed : IsWellFormed on_disk
on_disk-IsWellFormed = IsWellFormed-same node on_disk refl refl refl node-IsWellFormed

on_disk-IsSaved : IsSaved on_disk
unfolding program
on_disk-IsSaved = inl (some 1, refl)

-- What starts after the crash: the base is 1, and the log still begins with entry 1.
abbrev crashed : RaftNode
crashed = record on_disk {
  storage = half_compacted 1 1 "s" on_disk;
  snapshot_last_included_index = 1;
  snapshot_last_included_term = 1;
  restored_snapshot_data = some "s";
}

crashed_starts :
    raft_node "a" ("b" ∷ "c" ∷ []) false (half_compacted 1 1 "s" on_disk) 0 ≡ some crashed
unfolding program
crashed_starts = refl

half_compacted-restart_example :
    (crashed.snapshot_last_included_index ≡ 1) × (crashed.log ≡ node.log) × (¬ IsWellFormed crashed)
unfolding program
half_compacted-restart_example =
    half_compacted-restart 1 1 "s" on_disk crashed disk "a" ("b" ∷ "c" ∷ []) false 0
      on_disk-IsWellFormed on_disk-IsSaved refl (omega arith) (omega arith) crashed_starts
