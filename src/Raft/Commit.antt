-- ===== src/Raft/Commit.antt =====
-- `_maybe_advance_commit_index` of raft.py: what a leader commits at the end of a heartbeat round.
use reus.Prelude.{
  ℕ, zero, suc, ◌+◌, ◌-◌, ◌<◌, ◌≤◌, ◌≡◌, sym, subst, ◌∙◌, true, false, String, none, some, List,
  arith, Option-cases, Bool-cases, ◌⊎◌, inl, inr, if◌then◌else◌,
}
use native.Mathlib.Decide.{ℕ_discrete, dec_le}
use reus.Membership.{has_quorum}
use reus.RaftStorage.{LogEntry}
use reus.Raft.Node.{RaftNode, log_entry_at, last_log_index}
use reus.Raft.Leader.{
  is_leader, Round, acknowledged, is_committable, find_committable, maybe_advance_commit_index,
  finish_heartbeats,
}
use reus.Raft.Frame.{apply_committed-Committed}

-- The position that is found can be committed, and none behind it can.
find_committable-some :
    (n : RaftNode) (ps : List String) (rounds i : ℕ)
    → find_committable n ps rounds ≡ some i
    → (n.commit_index < i)
      × (i ≤ n.commit_index + rounds)
      × (is_committable n ps i ≡ true)
      × ((j : ℕ) → i < j → j ≤ n.commit_index + rounds → is_committable n ps j ≡ false)
unfolding find_committable
find_committable-some n ps zero i h = cc
find_committable-some n ps (suc k) i h =
    elim (Bool-cases (is_committable n ps (n.commit_index + suc k))) [
      | inl found ↦
          let here : n.commit_index + suc k ≡ i = ground arith in
          (omega arith, omega arith, rw (← here) found, λ j lo hi. absurd (omega arith))
      | inr fails ↦
          let (lo, hi, can, later) = find_committable-some n ps k i (ground arith) in
          (
            lo,
            omega arith,
            can,
            λ j above below. elim (ℕ_discrete j (n.commit_index + suc k)) [
              | yes e ↦ rw e fails
              | no ne ↦ later j above (omega arith)
            ],
          )
    ]

find_committable-none :
    (n : RaftNode) (ps : List String) (rounds : ℕ)
    → find_committable n ps rounds ≡ none
    → (j : ℕ) → n.commit_index < j
    → j ≤ n.commit_index + rounds
    → is_committable n ps j ≡ false
unfolding find_committable
find_committable-none n ps zero h j lo hi = absurd (omega arith)
find_committable-none n ps (suc k) h j lo hi =
    elim (Bool-cases (is_committable n ps (n.commit_index + suc k))) [
      | inl found ↦ absurd (ground arith)
      | inr fails ↦ elim (ℕ_discrete j (n.commit_index + suc k)) [
        | yes e ↦ rw e fails
        | no ne ↦ find_committable-none n ps k (ground arith) j lo (omega arith)
      ]
    ]

-- A position that can be committed holds an entry of the current term that a quorum has.
is_committable-entry :
    (n : RaftNode) (ps : List String) (i : ℕ)
    → is_committable n ps i ≡ true
    → (e : LogEntry) × (log_entry_at n i ≡ some e)
      × (e.term ≡ n.current_term)
      × (has_quorum n.membership (acknowledged n ps i) ≡ true)
unfolding is_committable
is_committable-entry n ps i h = elim (Option-cases (log_entry_at n i)) [
  | inl missing ↦ absurd (ground arith)
  | inr (e, at) ↦ (e, at, ground arith, ground arith)
]

-- What `finish_heartbeats` does to the commit position.
pub record Advance (n : RaftNode) (ps : List String) (i : ℕ) : Type 0 where
  pub grows : n.commit_index < i
  pub entry : LogEntry
  pub stored : log_entry_at n i ≡ some entry
  pub own_term : entry.term ≡ n.current_term
  pub replicated : has_quorum n.membership (acknowledged n ps i) ≡ true

finish_heartbeats-eq :
    (r : Round) (n : RaftNode)
    → (finish_heartbeats r n).commit_index ≡ (
        if is_leader n.role
        then (maybe_advance_commit_index r.peers n).commit_index
        else n.commit_index)
unfolding finish_heartbeats
finish_heartbeats-eq r n = ground arith

maybe_advance-cases :
    (ps : List String) (n : RaftNode)
    → ((maybe_advance_commit_index ps n).commit_index ≡ n.commit_index)
        × (find_committable n ps (last_log_index n - n.commit_index) ≡ none)
      ⊎ ((i : ℕ) × ((maybe_advance_commit_index ps n).commit_index ≡ i)
          × (find_committable n ps (last_log_index n - n.commit_index) ≡ some i))
unfolding maybe_advance_commit_index
maybe_advance-cases ps n =
    elim (Option-cases (find_committable n ps (last_log_index n - n.commit_index))) [
      | inl e ↦ inl (rw (e, maybe_advance_commit_index), e)
      | inr (i, e) ↦
          inr
            (i, rw (e, maybe_advance_commit_index) (apply_committed-Committed i n).commit_index, e)
    ]

-- At the end of a round the commit position stays, or a leader moves it up to the position of an entry of
-- its own term that the peers' acknowledgements and itself form a quorum for.
pub finish_heartbeats-commit :
    (r : Round) (n : RaftNode)
    → ((finish_heartbeats r n).commit_index ≡ n.commit_index)
      ⊎ ((is_leader n.role ≡ true) × Advance n r.peers (finish_heartbeats r n).commit_index)
finish_heartbeats-commit r n = elim (Bool-cases (is_leader n.role)) [
  | inr other ↦ inl (finish_heartbeats-eq r n ∙ rw other)
  | inl leads ↦
      let now = finish_heartbeats-eq r n ∙ rw leads in
      elim (maybe_advance-cases r.peers n) [
        | inl (stays, _) ↦ inl (now ∙ stays)
        | inr (i, moves, found) ↦
            let (lo, hi, can, later) = find_committable-some n r.peers _ i found in
            let (e, at, own, quorum) = is_committable-entry n r.peers i can in
            inr (
              leads,
              subst (Advance n r.peers) (sym (now ∙ moves)) (record {
                grows = lo;
                entry = e;
                stored = at;
                own_term = own;
                replicated = quorum;
              }),
            )
      ]
]

-- A leader leaves nothing behind that it may commit: each position up to its last entry that holds an
-- entry of its term with a quorum is covered by the new commit position.
pub finish_heartbeats_complete :
    (r : Round) (n : RaftNode) (i : ℕ)
    → is_leader n.role ≡ true
    → i ≤ last_log_index n
    → is_committable n r.peers i ≡ true
    → i ≤ (finish_heartbeats r n).commit_index
finish_heartbeats_complete r n i leads le can =
    let now : (finish_heartbeats r n).commit_index
        ≡ (maybe_advance_commit_index r.peers n).commit_index =
      finish_heartbeats-eq r n ∙ rw leads in
    elim (maybe_advance-cases r.peers n) [
      | inl (stays, none_found) ↦ elim (dec_le i n.commit_index) [
        | yes old ↦ omega arith
        | no new ↦ absurd (
            ground
              (arith, find_committable-none n r.peers _ none_found i (omega arith) (omega arith)))
      ]
      | inr (j, moves, found) ↦
          let (lo, hi, _, later) = find_committable-some n r.peers _ j found in
          elim (dec_le i j) [
            | yes covered ↦ omega arith
            | no beyond ↦ absurd (ground (arith, later i (omega arith) (omega arith)))
          ]
    ]
