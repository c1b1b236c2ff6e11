-- ===== src/Raft/Keeps.antt =====
-- Every handler of raft.py keeps what was persisted up to date, and a vote in its term.
use reus.Prelude.{
  ℕ, ◌+◌, ◌-◌, ◌<◌, ◌≡◌, refl, ap, Bool, true, false, ◌&&◌, leb, ltb, if◌then◌else◌, String, Option,
  none, some, List, arith, Option-cases, Bool-cases, eq_iff, inl, inr,
}
use reus.Membership.{VoterConfiguration, MembershipPayload, to_payload, from_payload}
use reus.RaftStorage.{LogEntry}
use reus.Raft.Node.{RaftNode, follower, persist, step_down}
use reus.Raft.Commands.{apply_range, apply_committed}
use reus.Raft.Votes.{may_vote_for, decide_vote, outside_cell, log_ok, handle_request_vote}
use reus.Raft.Append.{
  SentEntry, accept_leader, prev_matches, merge_entries, store_log, advance_commit, append_entries,
  handle_append_entries,
}
use reus.Raft.Snapshot.{
  drop_prefix, write_snapshot_file, compact_at, compact_log, compaction_target, take_base, restore,
  adopt, adopt_membership, take_snapshot, follow_snapshot, handle_install_snapshot, payload_to_save,
}
use reus.Raft.Frame.{apply_range-SameCore}
use reus.Raft.Merge.{merge_entries-unchanged}
use reus.Raft.Durable.{
  state_of, VoteStays, VoteKept, Keeps, Keeps-refl, Keeps-trans, Keeps-same, Keeps-persist,
}

pub VoteKept-same :
    (n m : RaftNode) → m.current_term ≡ n.current_term → m.voted_for ≡ n.voted_for → VoteKept n m
VoteKept-same n m t v = inr (t, rw v (stays n.voted_for))
  where
    stays : (o : Option String) → VoteStays o o
    stays none = tt
    stays (some x) = refl

pub ltb→lt : (a b : ℕ) → ltb a b ≡ true → a < b
ltb→lt a b h = ground arith

pub step_down-Keeps : (t d : ℕ) (n : RaftNode) → n.current_term < t → Keeps n (step_down t d n)
unfolding step_down
step_down-Keeps t d n h = Keeps-persist n _ (inl h)

may_vote_for-VoteStays :
    (n : RaftNode) (c : String) → may_vote_for n c ≡ true → VoteStays n.voted_for (some c)
unfolding may_vote_for
may_vote_for-VoteStays n c h = elim (Option-cases n.voted_for) [
  | inl e ↦ rw e tt
  | inr (v, e) ↦ rw e (ground (arith, eq_iff v c))
]

decide_vote-Keeps : (c : String) (i t d : ℕ) (n : RaftNode) → Keeps n (decide_vote c i t d n).0
unfolding decide_vote
decide_vote-Keeps c i t d n = elim (Bool-cases (may_vote_for n c && log_ok n i t)) [
  | inl e ↦ rw e (
      Keeps-persist n (record n { voted_for = some c; election_deadline = d })
        (inr (refl, may_vote_for-VoteStays n c (ground arith))))
  | inr e ↦ rw e (Keeps-refl n)
]

-- A newer term steps the node down first.
follow_term-Keeps :
    (t d : ℕ) (n : RaftNode) → Keeps n (if ltb n.current_term t then step_down t d n else n)
follow_term-Keeps t d n = elim (Bool-cases (ltb n.current_term t)) [
  | inl e ↦ rw e (step_down-Keeps t d n (ltb→lt _ _ e))
  | inr e ↦ rw e (Keeps-refl n)
]

pub handle_request_vote-Keeps :
    (t : ℕ) (c : String) (i lt stepped granted : ℕ) (n : RaftNode)
    → Keeps n (handle_request_vote t c i lt stepped granted n).0
unfolding handle_request_vote
handle_request_vote-Keeps t c i lt stepped granted n = elim (Bool-cases (outside_cell n c)) [
  | inl e ↦ rw e (Keeps-refl n)
  | inr e ↦ elim (Bool-cases (ltb t n.current_term)) [
    | inl f ↦ rw (e, f) (Keeps-refl n)
    | inr f ↦
        rw (e, f) (Keeps-trans (follow_term-Keeps t stepped n) (decide_vote-Keeps c i lt granted _))
  ]
]

accept_leader-Keeps : (t : ℕ) (l : String) (d : ℕ) (n : RaftNode) → Keeps n (accept_leader t l d n)
unfolding accept_leader state_of
accept_leader-Keeps t l d n = elim (Bool-cases (ltb n.current_term t)) [
  | inl e ↦
      let m = record n {
        current_term = t;
        role = follower;
        leader_id = some l;
        voted_for = none;
      } in
      rw e (
        Keeps-trans (Keeps-persist n m (inl (ltb→lt _ _ e)))
          (Keeps-same (persist m) (record (persist m) { election_deadline = d }) refl refl))
  | inr e ↦ rw e (Keeps-same n _ refl refl)
]

store_log-Keeps :
    (log : List LogEntry) (changed : Bool) (n : RaftNode)
    → (changed ≡ false → log ≡ n.log)
    → Keeps n (store_log (log, changed) n)
unfolding store_log state_of
store_log-Keeps log true n h =
    Keeps-persist n (record n { log = log }) (VoteKept-same n (record n { log = log }) refl refl)
store_log-Keeps log false n h =
    Keeps-same n (record n { log = log }) (ap (λ l. state_of (record n { log = l })) (h refl)) refl

pub apply_committed-Keeps : (i : ℕ) (n : RaftNode) → Keeps n (apply_committed i n)
unfolding apply_committed
apply_committed-Keeps i n =
    let m = apply_range (i - n.commit_index) (n.commit_index + 1) n in
    let same = apply_range-SameCore (i - n.commit_index) (n.commit_index + 1) n in
    Keeps-persist n (record m { commit_index = i })
      (VoteKept-same n (record m { commit_index = i }) same.current_term same.voted_for)

advance_commit-Keeps : (c : ℕ) (n : RaftNode) → Keeps n (advance_commit c n)
unfolding advance_commit
advance_commit-Keeps c n = elim (Bool-cases (ltb n.commit_index c)) [
  | inl e ↦ rw e (apply_committed-Keeps _ n)
  | inr e ↦ rw e (Keeps-refl n)
]

append_entries-Keeps :
    (prev : ℕ) (ws : List SentEntry) (c : ℕ) (n : RaftNode) → Keeps n (append_entries prev ws c n)
unfolding append_entries
append_entries-Keeps prev ws c n =
    let r = merge_entries n.snapshot_last_included_index (prev + 1) ws (n.log, false) in
    let same =
      merge_entries-unchanged n.snapshot_last_included_index (prev + 1) ws (n.log, false) in
    Keeps-trans (store_log-Keeps r.0 r.1 n (λ h. (same h).0))
      (advance_commit-Keeps c (store_log r n))

pub handle_append_entries-Keeps :
    (t : ℕ) (l : String) (prev pt : ℕ) (ws : List SentEntry) (c d : ℕ) (n : RaftNode)
    → Keeps n (handle_append_entries t l prev pt ws c d n).0
unfolding handle_append_entries
handle_append_entries-Keeps t l prev pt ws c d n = elim (Bool-cases (ltb t n.current_term)) [
  | inl e ↦ rw e (Keeps-refl n)
  | inr e ↦ elim (Bool-cases (prev_matches prev pt (accept_leader t l d n))) [
    | inl f ↦
        rw (e, f)
          (Keeps-trans (accept_leader-Keeps t l d n)
            (append_entries-Keeps prev ws c (accept_leader t l d n)))
    | inr f ↦ rw (e, f) (accept_leader-Keeps t l d n)
  ]
]

compact_at-Keeps :
    (i : ℕ) (content : String) (o : Option LogEntry) (n : RaftNode)
    → Keeps n (compact_at i content o n).0
unfolding compact_at drop_prefix write_snapshot_file
compact_at-Keeps i content none n = Keeps-refl n
compact_at-Keeps i content (some e) n =
    let m = drop_prefix i e.term n in
    let w = write_snapshot_file content (to_payload m.membership) m in
    Keeps-persist n w (VoteKept-same n w refl refl)

pub compact_log-Keeps :
    (upto : Option ℕ) (content : String) (n : RaftNode) → Keeps n (compact_log upto content n).0
unfolding compact_log
compact_log-Keeps upto content n =
    elim (Bool-cases (leb (compaction_target upto n) n.snapshot_last_included_index)) [
      | inl e ↦ rw e (Keeps-refl n)
      | inr e ↦ rw e (compact_at-Keeps _ content _ n)
    ]

restore-Keeps : (content : String) (n : RaftNode) → Keeps n (restore content n).0
unfolding restore state_of
restore-Keeps content n = Keeps-same n _ refl refl

adopt-Keeps :
    (o : Option VoterConfiguration) (content : String) (n : RaftNode)
    → Keeps n (adopt o content n).0
unfolding adopt restore state_of
adopt-Keeps none content n = Keeps-refl n
adopt-Keeps (some c) content n = Keeps-same n _ refl refl

adopt_membership-Keeps :
    (p : Option MembershipPayload) (content : String) (n : RaftNode)
    → Keeps n (adopt_membership p content n).0
unfolding adopt_membership
adopt_membership-Keeps none content n = restore-Keeps content n
adopt_membership-Keeps (some p) content n = adopt-Keeps (from_payload p) content n

take_snapshot-Keeps :
    (i t : ℕ) (content : String) (p : Option MembershipPayload) (n : RaftNode)
    → Keeps n (take_snapshot i t content p n).0
unfolding take_snapshot
take_snapshot-Keeps i t content p n =
    let m = take_base i t n in
    let w = write_snapshot_file content (payload_to_save p m.membership) m in
    Keeps-trans
      (Keeps-persist n w (unfold take_base write_snapshot_file in VoteKept-same n w refl refl))
      (adopt_membership-Keeps p content (persist w))

follow_snapshot-Keeps :
    (t : ℕ) (l : String) (stepped d : ℕ) (n : RaftNode) → Keeps n (follow_snapshot t l stepped d n)
unfolding follow_snapshot state_of
follow_snapshot-Keeps t l stepped d n =
    Keeps-trans (follow_term-Keeps t stepped n) (Keeps-same _ _ refl refl)

pub handle_install_snapshot-Keeps :
    (t : ℕ) (l : String) (i lt : ℕ) (content : String) (p : Option MembershipPayload)
    (stepped d : ℕ) (n : RaftNode)
    → Keeps n (handle_install_snapshot t l i lt content p stepped d n).0
unfolding handle_install_snapshot
handle_install_snapshot-Keeps t l i lt content p stepped d n =
    let m = follow_snapshot t l stepped d n in
    elim (Bool-cases (ltb t n.current_term)) [
      | inl e ↦ rw e (Keeps-refl n)
      | inr e ↦ elim (Bool-cases (leb i m.snapshot_last_included_index)) [
        | inl f ↦ rw (e, f) (follow_snapshot-Keeps t l stepped d n)
        | inr f ↦
            rw (e, f)
              (Keeps-trans (follow_snapshot-Keeps t l stepped d n)
                (take_snapshot-Keeps i lt content p m))
      ]
    ]
