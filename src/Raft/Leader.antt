-- ===== src/Raft/Leader.antt =====
-- The leader's operations of infrastructure/cluster_network/raft.py: proposals, heartbeats and the
-- advance of the commit position. The lock is released during each RPC, so a heartbeat round is
-- its begin, one request and reply for each peer, and its end; other handlers may run in between.
use reus.Prelude.{
  ℕ, zero, suc, ◌+◌, ◌-◌, max, Bool, true, false, not, ◌&&◌, String, Option, none, some, List, [],
  ◌∷◌, ◌++◌, map, ltb, leb, ◌==◌, if◌then◌else◌, length, filter_by,
}
use reus.Prelude.Sets.{contains, union, difference, sorted}
use reus.Prelude.Dict.{get, put}
use reus.Membership.{MembershipPayload, peer_ids, to_payload, has_quorum}
use reus.RaftStorage.{LogEntry, Command}
use reus.Raft.Node.{
  RaftNode, Role, leader, persist, last_index, last_log_index, log_entry_at, step_down,
}
use reus.Raft.Append.{SentEntry}
use reus.Raft.Commands.{apply_committed}

unfoldable pub is_leader : Role → Bool
is_leader leader = true
is_leader _ = false

-- `self.log.append(LogEntry(…))` and `_persist`
unfoldable pub append_command : Command → RaftNode → RaftNode
append_command command n =
    let entry : LogEntry = record {
      term = n.current_term;
      index = last_log_index n + 1;
      command = command;
    } in
    persist (record n { log = n.log ++ entry ∷ [] })

unfoldable pub propose : Command → RaftNode → RaftNode × Bool
propose command n = if is_leader n.role then (append_command command n, true) else (n, false)

-- What a heartbeat round keeps in local variables.
pub record Round : Type 0 where
  pub term : ℕ
  pub log_snapshot : List LogEntry
  pub snapshot_base : ℕ
  pub snapshot_term : ℕ
  pub snapshot_data : String
  pub commit_index : ℕ
  pub peers : List String
  pub membership_payload : MembershipPayload
  pub retired_before_round : List String
  pub retired_acknowledged : List String

unfoldable pub with_pending : Option (List String) → String → List String → List String
with_pending none node_id peers = peers
with_pending (some pending) node_id peers = sorted (union peers (difference pending (node_id ∷ [])))

unfoldable pub replication_peers : RaftNode → List String
replication_peers n = sorted (
    union (with_pending n.pending_joint_voters n.node_id (peer_ids n.membership n.node_id))
      (n.retired_peers ++ n.learners))

-- The first locked section of `_send_heartbeats`; `none` on a node that does not lead.
unfoldable pub begin_heartbeats : String → RaftNode → Option Round
begin_heartbeats snapshot_data n =
    if is_leader n.role
    then some (record {
      term = n.current_term;
      log_snapshot = n.log;
      snapshot_base = n.snapshot_last_included_index;
      snapshot_term = n.snapshot_last_included_term;
      snapshot_data = snapshot_data;
      commit_index = n.commit_index;
      peers = replication_peers n;
      membership_payload = to_payload n.membership;
      retired_before_round = n.retired_peers;
      retired_acknowledged = [];
    })
    else none

pub data Request : Type 0 where
  install_snapshot : Request
  append_entries : (next_idx prev_log_index prev_log_term : ℕ) → List SentEntry → Request

unfoldable pub find_index : ℕ → List LogEntry → Option LogEntry
find_index idx [] = none
find_index idx (e ∷ es) = if e.index == idx then some e else find_index idx es

unfoldable pub sent_term : Round → ℕ → ℕ
sent_term r prev_log_index =
    if prev_log_index == r.snapshot_base
    then r.snapshot_term
    else elim (find_index prev_log_index r.log_snapshot) [ none ↦ 0 | some e ↦ e.term ]

unfoldable pub entries_from : ℕ → List LogEntry → List SentEntry
entries_from next_idx log =
    map (λ e. record { term = e.term; command = e.command })
      (filter_by (λ e. leb next_idx e.index) log)

-- The request for a peer whose next position is `next_idx`.
unfoldable pub request_at : Round → ℕ → Request
request_at r next_idx =
    if leb next_idx r.snapshot_base
    then install_snapshot
    else append_entries next_idx (next_idx - 1) (sent_term r (next_idx - 1))
        (entries_from next_idx r.log_snapshot)

unfoldable pub request_for : Round → String → RaftNode → Request
request_for r peer_id n = request_at r (elim (get peer_id n.next_index) [
  | none ↦ last_index r.snapshot_base r.log_snapshot + 1
  | some next_idx ↦ next_idx
])

-- An RPC fails with an exception, or returns a term and whether the peer accepted.
pub data Reply : Type 0 where
  failed : Reply
  replied : ℕ → Bool → Reply

unfoldable pub tell : String → Bool → RaftNode → RaftNode
tell peer_id alive n = record n { liveness = n.liveness ++ (peer_id, alive) ∷ [] }

unfoldable pub acknowledge : String → ℕ → RaftNode → RaftNode
acknowledge peer_id matched n =
    let m = tell peer_id true n in
    record m {
      match_index = put peer_id matched m.match_index;
      next_index = put peer_id (matched + 1) m.next_index;
    }

-- `self._next_index[peer_id] = max(0, self._next_index.get(peer_id, 0) - 1)`: index 0 is position 1.
unfoldable pub back_off : String → RaftNode → RaftNode
back_off peer_id n = record n {
  next_index =
      put peer_id (max 1 ((elim (get peer_id n.next_index) [ none ↦ 1 | some i ↦ i ]) - 1))
        n.next_index;
}

unfoldable pub note_acknowledged : String → Round → Round
note_acknowledged peer_id r =
    if contains r.retired_before_round peer_id
    then record r { retired_acknowledged = peer_id ∷ r.retired_acknowledged }
    else r

unfoldable pub accepted : String → Request → Round → RaftNode → RaftNode × Option Round
accepted peer_id install_snapshot r n =
    (acknowledge peer_id r.snapshot_base n, some (note_acknowledged peer_id r))
accepted peer_id (append_entries next_idx prev_log_index prev_log_term entries) r n =
    (acknowledge peer_id (next_idx + length entries - 1) n, some (note_acknowledged peer_id r))

unfoldable pub refused : String → Request → Round → RaftNode → RaftNode × Option Round
refused peer_id install_snapshot r n = (tell peer_id false n, some r)
refused peer_id (append_entries next_idx prev_log_index prev_log_term entries) r n =
    (back_off peer_id (tell peer_id false n), some r)

-- The locked section after a reply; `none` ends the round.
unfoldable pub on_reply :
    String → Request → Reply → (deadline : ℕ) → Round → RaftNode → RaftNode × Option Round
on_reply peer_id request failed deadline r n = (tell peer_id false n, some r)
on_reply peer_id request (replied resp_term success) deadline r n =
    if ltb n.current_term resp_term
    then (step_down resp_term deadline n, none)
    else if not (is_leader n.role)
    then (n, none)
    else if success
    then accepted peer_id request r n
    else refused peer_id request r n

-- The peers that hold the log up to a position, and this node.
unfoldable pub acknowledged : RaftNode → List String → ℕ → List String
acknowledged n peers idx =
    n.node_id
    ∷ filter_by (λ p. leb idx (elim (get p n.match_index) [ none ↦ 0 | some m ↦ m ])) peers

-- An entry of the current term that a quorum holds.
unfoldable pub is_committable : RaftNode → List String → ℕ → Bool
is_committable n peers idx = elim (log_entry_at n idx) [
  | none ↦ false
  | some e ↦ e.term == n.current_term && has_quorum n.membership (acknowledged n peers idx)
]

-- `for idx in range(last_idx, self.commit_index, -1)`, with `rounds` positions left
unfoldable pub find_committable : RaftNode → List String → ℕ → Option ℕ
find_committable n peers zero = none
find_committable n peers (suc rounds) =
    let rest = find_committable n peers rounds in
    if is_committable n peers (n.commit_index + suc rounds)
    then some (n.commit_index + suc rounds)
    else rest

-- `_maybe_advance_commit_index`
unfoldable pub maybe_advance_commit_index : List String → RaftNode → RaftNode
maybe_advance_commit_index peers n =
    elim (find_committable n peers (last_log_index n - n.commit_index)) [
      | none ↦ n
      | some idx ↦ apply_committed idx n
    ]

-- The last locked section of `_send_heartbeats`.
unfoldable pub finish_heartbeats : Round → RaftNode → RaftNode
finish_heartbeats r n =
    if is_leader n.role
    then (let m = maybe_advance_commit_index r.peers n in
        record m { retired_peers = difference m.retired_peers r.retired_acknowledged })
    else n
