-- ===== src/RaftStorage.antt =====
-- infrastructure/cluster_network/raft_storage.py: the two files of a Raft node. JSON text is
-- represented by the values it encodes. Log positions are the source's indices plus one, so that
-- its "nothing yet", -1, is 0.
pub mod Atomic
mod Tests
use reus.Prelude.{ℕ, String, Option, none, some, List, [], ◌∷◌}
use reus.Membership.{Field, MembershipPayload}

-- A log command: a JSON object, by its "kind", with the fields that the proposals of raft.py and
-- raft_cluster_node.py give it. Membership commands are decoded from fields that may be absent or
-- ill-typed. The defaults that the cluster node has for fields that no proposal leaves out are not
-- represented; every other object is `application`.
pub data Command : Type 0 where
  raft_membership_joint raft_membership_finalize : (old_voters new_voters : Field) → Command
  task_assign : (task_id assignee : String) (lease_until attempt : ℕ) → Command
  task_complete : (task_id : String) → Command
  task_requeue : (task_id reason : String) → Command
  evidence_publish : (evidence_id summary source_hash : String) (confidence : ℕ) → Command
  governance_decision : (decision_id action status actor_hash subject_hash : String) → Command
  application : String → Command

-- `LogEntry`, and the dict that `asdict` makes of it
pub record LogEntry : Type 0 where
  pub term : ℕ
  pub index : ℕ
  pub command : Command

-- `<path>`; `commit_index` is missing from files of older releases.
pub record StateFile : Type 0 where
  pub current_term : ℕ
  pub voted_for : Option String
  pub log : List LogEntry
  pub commit_index : Option ℕ

-- `<path>.snapshot`; the snapshot of the application is kept as its text.
pub record SnapshotFile : Type 0 where
  pub last_included_index : ℕ
  pub last_included_term : ℕ
  pub snapshot_data : String
  pub membership : Option MembershipPayload

-- A file: it does not exist, is cut short while it is written, is written but perhaps not on disk yet,
-- or is whole on disk.
pub data File {ℓ} (A : Type ℓ) : Type ℓ where
  no_file torn : File A
  unsynced whole : A → File A

-- The files of one node, with the temporary file of each.
pub record RaftStorage : Type 0 where
  pub state : File StateFile
  pub state_tmp : File StateFile
  pub snapshot : File SnapshotFile
  pub snapshot_tmp : File SnapshotFile

abbrev pub new_storage : RaftStorage
new_storage = record {
  state = no_file;
  state_tmp = no_file;
  snapshot = no_file;
  snapshot_tmp = no_file;
}

-- What reading a file gives: nothing is there, the text does not parse, or the value.
pub data Loaded {ℓ} (A : Type ℓ) : Type ℓ where
  nothing corrupt : Loaded A
  loaded : A → Loaded A

abbrev pub read {ℓ} : {A : Type ℓ} → File A → Loaded A
read no_file = nothing
read torn = corrupt
read (unsynced a) = loaded a
read (whole a) = loaded a

unfoldable pub load : RaftStorage → Loaded StateFile
load s = read s.state

abbrev commit_of : Loaded StateFile → ℕ
commit_of (loaded f) = elim f.commit_index [ none ↦ 0 | some i ↦ i ]
commit_of _ = 0

-- After `load`, on the same file; a text that does not parse has already stopped the start there.
unfoldable pub load_commit_index : RaftStorage → ℕ
load_commit_index s = commit_of (read s.state)

unfoldable pub load_snapshot : RaftStorage → Loaded SnapshotFile
load_snapshot s = read s.snapshot

abbrev membership_of : Loaded SnapshotFile → Option MembershipPayload
membership_of (loaded f) = f.membership
membership_of _ = none

unfoldable pub load_snapshot_membership : RaftStorage → Option MembershipPayload
load_snapshot_membership s = membership_of (read s.snapshot)

-- `os.fsync`
abbrev pub synced {ℓ} : {A : Type ℓ} → File A → File A
synced (unsynced a) = whole a
synced f = f

-- A save opens the temporary file (which truncates it), writes it, syncs it, and renames it.
pub data Write : Type 0 where
  open_tmp write_tmp sync_tmp replace : Write

unfoldable pub write_state : StateFile → Write → RaftStorage → RaftStorage
write_state f open_tmp s = record s { state_tmp = torn }
write_state f write_tmp s = record s { state_tmp = unsynced f }
write_state f sync_tmp s = record s { state_tmp = synced s.state_tmp }
write_state f replace s = record s { state = s.state_tmp; state_tmp = no_file }

unfoldable pub write_snapshot : SnapshotFile → Write → RaftStorage → RaftStorage
write_snapshot f open_tmp s = record s { snapshot_tmp = torn }
write_snapshot f write_tmp s = record s { snapshot_tmp = unsynced f }
write_snapshot f sync_tmp s = record s { snapshot_tmp = synced s.snapshot_tmp }
write_snapshot f replace s = record s { snapshot = s.snapshot_tmp; snapshot_tmp = no_file }

-- The steps of a save, in order.
abbrev pub Steps : Type 0
Steps = List (RaftStorage → RaftStorage)

abbrev pub do_steps : Steps → RaftStorage → RaftStorage
do_steps [] s = s
do_steps (step ∷ steps) s = do_steps steps (step s)

abbrev pub save_steps : StateFile → Steps
save_steps f =
    write_state f open_tmp
    ∷ write_state f write_tmp
    ∷ write_state f sync_tmp
    ∷ write_state f replace
    ∷ []

abbrev pub save_snapshot_steps : SnapshotFile → Steps
save_snapshot_steps f =
    write_snapshot f open_tmp
    ∷ write_snapshot f write_tmp
    ∷ write_snapshot f sync_tmp
    ∷ write_snapshot f replace
    ∷ []

unfoldable pub save : ℕ → Option String → List LogEntry → ℕ → RaftStorage → RaftStorage
save current_term voted_for log_entries commit_index s =
    let f : StateFile = record {
      current_term = current_term;
      voted_for = voted_for;
      log = log_entries;
      commit_index = some commit_index;
    } in
    do_steps (save_steps f) s

unfoldable pub save_snapshot : ℕ → ℕ → String → Option MembershipPayload → RaftStorage → RaftStorage
save_snapshot last_included_index last_included_term snapshot_data membership s =
    let f : SnapshotFile = record {
      last_included_index = last_included_index;
      last_included_term = last_included_term;
      snapshot_data = snapshot_data;
      membership = membership;
    } in
    do_steps (save_snapshot_steps f) s
