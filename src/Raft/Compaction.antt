-- ===== src/Raft/Compaction.antt =====
-- `compact_log` of raft.py changes nothing that the protocol can see from the new base on.
use reus.Prelude.{
  ℕ, max, ◌+◌, ◌-◌, ◌<◌, ◌≤◌, ◌≡◌, refl, sym, subst, ◌∙◌, false, String, Option, none, some, List,
  arith, ltb, leb, ◌==◌, drop, length-drop, Bool-cases, inl, inr,
}
use reus.Membership.{to_payload}
use reus.RaftStorage.{LogEntry}
use reus.Raft.Node.{RaftNode, last_log_index, log_entry_at, entry_at, term_at, persist}
use reus.Raft.Snapshot.{
  compact_log, compact_at, compaction_target, drop_prefix, write_snapshot_file,
}
use reus.Raft.Log.{IsContiguous, last_index-eq, IsContiguous-drop, get_elem?-exists}
use reus.Raft.WellFormed.{IsWellFormed, entry_at-eq, get_elem?-drop, IsWellFormed-same}

-- The same node for the protocol, seen from position `base` on.
pub record SameFrom (base : ℕ) (n m : RaftNode) : Type 0 where
  pub well_formed : IsWellFormed m
  pub commit_index : m.commit_index ≡ n.commit_index
  pub last : last_log_index m ≡ last_log_index n
  pub entries : (i : ℕ) → base < i → log_entry_at m i ≡ log_entry_at n i
  pub terms : (i : ℕ) → base ≤ i → term_at m i ≡ term_at n i

SameFrom-refl : (base : ℕ) (n : RaftNode) → IsWellFormed n → SameFrom base n n
SameFrom-refl base n wf = record {
  well_formed = wf;
  commit_index = refl;
  last = refl;
  entries = λ i h. refl;
  terms = λ i h. refl;
}

-- Behind the dropped entries the same ones are found.
entry_at-drop :
    (base target i : ℕ) (log : List LogEntry)
    → base ≤ target
    → target < i
    → entry_at target (drop (target - base) log) i ≡ entry_at base log i
entry_at-drop base target i log le lt =
    entry_at-eq target (drop (target - base) log) i (i - target - 1) (omega arith)
    ∙ get_elem?-drop (target - base) (i - target - 1) log
    ∙ sym (entry_at-eq base log i (target - base + (i - target - 1)) (omega arith))

drop_prefix-SameFrom :
    (target : ℕ) (e : LogEntry) (n : RaftNode)
    → IsWellFormed n
    → n.snapshot_last_included_index < target
    → target ≤ n.commit_index
    → log_entry_at n target ≡ some e
    → SameFrom target n (drop_prefix target e.term n)
unfolding drop_prefix log_entry_at term_at last_log_index
drop_prefix-SameFrom target e n wf lo hi found = record {
  well_formed = shape;
  commit_index = refl;
  last =
      last_index-eq target (drop (target - base) n.log) shape.contiguous
      ∙ omega (arith, length-drop (target - base) n.log, wf.committed_stored)
      ∙ sym (last_index-eq base n.log wf.contiguous);
  entries = λ i lt. entry_at-drop base target i n.log (omega arith) lt;
  terms = λ i le. elim (Bool-cases (i == target)) [
    | inl here ↦
        let at : i ≡ target = ground arith in
        let above : (i == base) ≡ false = ground arith in rw (here, above, at, found) refl
    | inr there ↦
        let above : (i == base) ≡ false = ground arith in
        let behind : target < i = ground arith in
        rw (there, above, entry_at-drop base target i n.log (omega arith) behind) refl
  ];
}
  where
    base : ℕ
    base = n.snapshot_last_included_index

    shape : IsWellFormed (drop_prefix target e.term n)
    shape = record {
      contiguous =
          subst (λ b. IsContiguous b (drop (target - base) n.log)) (omega arith)
            (IsContiguous-drop base (target - base) n.log (omega (arith, wf.committed_stored))
              wf.contiguous);
      base_committed = hi;
      committed_stored = omega (arith, length-drop (target - base) n.log, wf.committed_stored);
    }

-- Saving changes nothing else.
saved-SameFrom :
    (base : ℕ) (snapshot_data : String) (n m : RaftNode)
    → SameFrom base n m
    → SameFrom base n (persist (write_snapshot_file snapshot_data (to_payload m.membership) m))
unfolding persist write_snapshot_file last_log_index log_entry_at term_at
saved-SameFrom base snapshot_data n m h = record {
  well_formed = IsWellFormed-same m _ refl refl refl h.well_formed;
  commit_index = h.commit_index;
  last = h.last;
  entries = h.entries;
  terms = h.terms;
}

target-le : (upto : Option ℕ) (n : RaftNode) → compaction_target upto n ≤ n.commit_index
target-le none n = omega arith
target-le (some i) n = omega arith

compact_at-lem :
    (target : ℕ) (snapshot_data : String) (e : LogEntry) (n : RaftNode)
    → IsWellFormed n
    → n.snapshot_last_included_index < target
    → target ≤ n.commit_index
    → log_entry_at n target ≡ some e
    → SameFrom target n (compact_at target snapshot_data (some e) n).0
      × ((compact_at target snapshot_data (some e) n).0.snapshot_last_included_index ≡ target)
unfolding compact_at persist write_snapshot_file drop_prefix
compact_at-lem target snapshot_data e n wf lo hi found = (
  saved-SameFrom target snapshot_data n (drop_prefix target e.term n)
      (drop_prefix-SameFrom target e n wf lo hi found),
  refl,
)

-- Compacting a well-formed node answers true exactly when the position asked for, cut to the commit
-- position, is above the old base; the new base is the greater of the two. The node stays well
-- formed, with the same commit position and last position, the same entry at each position above the
-- new base, and the same term at each position from the new base on.
pub compact_log-SameFrom :
    (upto : Option ℕ) (snapshot_data : String) (n : RaftNode)
    → IsWellFormed n
    → SameFrom
        (compact_log upto snapshot_data n).0.snapshot_last_included_index
        n
        (compact_log upto snapshot_data n).0
      × ((compact_log upto snapshot_data n).0.snapshot_last_included_index
          ≡ max n.snapshot_last_included_index (compaction_target upto n))
      × ((compact_log upto snapshot_data n).1
          ≡ ltb n.snapshot_last_included_index (compaction_target upto n))
unfolding compact_log compact_at
compact_log-SameFrom upto snapshot_data n wf =
    elim (Bool-cases (leb target n.snapshot_last_included_index)) [
      | inl under ↦
          rw under (SameFrom-refl n.snapshot_last_included_index n wf, ground arith, ground arith)
      | inr above ↦
          let lo : n.snapshot_last_included_index < target = ground arith in
          let hi = target-le upto n in
          let (e, at) =
            get_elem?-exists (target - n.snapshot_last_included_index - 1) n.log
              (omega (arith, wf.committed_stored)) in
          let found : log_entry_at n target ≡ some e =
            unfold log_entry_at in
            entry_at-eq n.snapshot_last_included_index n.log target _ (omega arith) ∙ at in
          let (same, base) = compact_at-lem target snapshot_data e n wf lo hi found in
          rw (above, found)
            (
              subst (λ b. SameFrom b n (compact_at target snapshot_data (some e) n).0) (sym base)
                  same,
              base ∙ ground arith,
              ground arith,
            )
    ]
  where
    target : ℕ
    target = compaction_target upto n
