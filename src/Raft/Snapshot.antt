-- ===== src/Raft/Snapshot.antt =====
-- Log compaction and snapshots: `compact_log` and `handle_install_snapshot` of
-- infrastructure/cluster_network/raft.py.
use reus.Prelude.{
  ℕ, ◌-◌, min, Bool, true, false, String, Option, none, some, [], ◌∷◌, ◌++◌, ltb, leb,
  if◌then◌else◌, drop, filter_by,
}
use reus.Membership.{Field, absent, MembershipPayload, to_payload, from_payload, VoterConfiguration}
use reus.RaftStorage.{LogEntry, save_snapshot}
use reus.Raft.Node.{RaftNode, follower, persist, log_entry_at, step_down}

-- The snapshot file is written before the state file that goes with it.
unfoldable pub write_snapshot_file : String → MembershipPayload → RaftNode → RaftNode
write_snapshot_file snapshot_data membership n = record n {
  storage = (elim n.storage [
    | none ↦ none
    | some s ↦ some (
        save_snapshot n.snapshot_last_included_index n.snapshot_last_included_term snapshot_data
          (some membership) s)
  ]);
}

-- The log and the base after the entries up to `target` are dropped.
unfoldable pub drop_prefix : ℕ → ℕ → RaftNode → RaftNode
drop_prefix target snapshot_term n = record n {
  log = drop (target - n.snapshot_last_included_index) n.log;
  snapshot_last_included_index = target;
  snapshot_last_included_term = snapshot_term;
}

unfoldable pub compact_at : ℕ → String → Option LogEntry → RaftNode → RaftNode × Bool
compact_at target snapshot_data none n = (n, false)
compact_at target snapshot_data (some entry) n =
    let m = drop_prefix target entry.term n in
    (persist (write_snapshot_file snapshot_data (to_payload m.membership) m), true)

abbrev pub compaction_target : Option ℕ → RaftNode → ℕ
compaction_target none n = n.commit_index
compaction_target (some upto_index) n = min upto_index n.commit_index

-- `snapshot_data` is what `get_snapshot_data()` returns. `persist` does nothing without storage.
unfoldable pub compact_log : Option ℕ → String → RaftNode → RaftNode × Bool
compact_log upto_index snapshot_data n =
    let target = compaction_target upto_index n in
    if leb target n.snapshot_last_included_index
    then (n, false)
    else compact_at target snapshot_data (log_entry_at n target) n

-- The answer of a handler that may raise.
pub data Answer : Type 0 where
  answered : ℕ → Bool → Answer
  raised : Answer

-- An empty dict is false in `membership or self._membership.to_payload()`.
unfoldable pub is_empty_payload : Field → Field → Bool
is_empty_payload absent absent = true
is_empty_payload _ _ = false

unfoldable pub payload_to_save : Option MembershipPayload → VoterConfiguration → MembershipPayload
payload_to_save none c = to_payload c
payload_to_save (some p) c = if is_empty_payload p.voters p.joint_voters then to_payload c else p

-- The log, base and commit position of a node that takes over a snapshot.
unfoldable pub take_base : ℕ → ℕ → RaftNode → RaftNode
take_base last_included_index last_included_term n = record n {
  log = filter_by (λ e. ltb last_included_index e.index) n.log;
  snapshot_last_included_index = last_included_index;
  snapshot_last_included_term = last_included_term;
  commit_index =
      (if ltb n.commit_index last_included_index then last_included_index else n.commit_index);
}

unfoldable pub restore : String → RaftNode → RaftNode × Answer
restore snapshot_data n = (
  record n { snapshots_restored = n.snapshots_restored ++ snapshot_data ∷ [] },
  answered n.current_term true,
)

-- A payload that is no configuration raises MembershipError out of the handler.
unfoldable pub adopt : Option VoterConfiguration → String → RaftNode → RaftNode × Answer
adopt none snapshot_data n = (n, raised)
adopt (some c) snapshot_data n = restore snapshot_data (record n { membership = c })

unfoldable pub adopt_membership : Option MembershipPayload → String → RaftNode → RaftNode × Answer
adopt_membership none snapshot_data n = restore snapshot_data n
adopt_membership (some p) snapshot_data n = adopt (from_payload p) snapshot_data n

unfoldable pub take_snapshot :
    ℕ → ℕ → String → Option MembershipPayload → RaftNode → RaftNode × Answer
take_snapshot last_included_index last_included_term snapshot_data membership n =
    let m = take_base last_included_index last_included_term n in
    adopt_membership membership snapshot_data
      (persist (write_snapshot_file snapshot_data (payload_to_save membership m.membership) m))

unfoldable pub follow_snapshot : ℕ → String → (stepped deadline : ℕ) → RaftNode → RaftNode
follow_snapshot term leader_id stepped deadline n =
    let m = (if ltb n.current_term term then step_down term stepped n else n) in
    record m { role = follower; leader_id = some leader_id; election_deadline = deadline }

unfoldable pub handle_install_snapshot :
    ℕ
    → String
    → ℕ
    → ℕ
    → String
    → Option MembershipPayload
    → (stepped deadline : ℕ) → RaftNode
    → RaftNode × Answer
handle_install_snapshot term leader_id last_included_index last_included_term snapshot_data
      membership stepped deadline n =
    if ltb term n.current_term
    then (n, answered n.current_term false)
    else (let m = follow_snapshot term leader_id stepped deadline n in
        if leb last_included_index m.snapshot_last_included_index
        then (m, answered m.current_term true)
        else take_snapshot last_included_index last_included_term snapshot_data membership m)
