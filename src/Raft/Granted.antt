-- ===== src/Raft/Granted.antt =====
-- What a granted vote and a won election of raft.py mean.
use reus.Prelude.{
  ℕ, false, ◌<◌, ◌≤◌, ◌≡◌, refl, subst, ◌∙◌, Bool, true, String, some, arith, ltb, Bool-cases, ◌⊎◌,
  inl, inr,
}
use reus.Raft.Node.{RaftNode, last_log_index, last_log_term, step_down, persist}
use reus.Raft.Votes.{handle_request_vote, outside_cell, decide_vote, log_ok}

-- The log order of the election restriction: by last term, then by last position.
abbrev pub UpToDate : (last_term last_index term index : ℕ) → Type 0
UpToDate last_term last_index term index =
    (last_term < term) ⊎ ((term ≡ last_term) × (last_index ≤ index))

decide_vote-granted :
    (c : String) (i lt d : ℕ) (n : RaftNode)
    → (decide_vote c i lt d n).1.1 ≡ true
    → ((decide_vote c i lt d n).0.current_term ≡ n.current_term)
      × ((decide_vote c i lt d n).0.voted_for ≡ some c)
      × UpToDate (last_log_term n) (last_log_index n) lt i
unfolding decide_vote log_ok persist
decide_vote-granted c i lt d n h = (ground arith, ground arith, ground arith)

module _ (term i lt d d' : ℕ) (c : String) (n : RaftNode) where
  outcome_newer :
      outside_cell n c ≡ false
      → ltb term n.current_term ≡ false
      → ltb n.current_term term ≡ true
      → handle_request_vote term c i lt d d' n ≡ decide_vote c i lt d' (step_down term d n)
  unfolding handle_request_vote
  outcome_newer within current newer = rw (within, current, newer) refl

  outcome_same :
      outside_cell n c ≡ false
      → ltb term n.current_term ≡ false
      → ltb n.current_term term ≡ false
      → handle_request_vote term c i lt d d' n ≡ decide_vote c i lt d' n
  unfolding handle_request_vote
  outcome_same within current same = rw (within, current, same) refl

-- A vote is granted only in the term asked for, which is not older than the node's own; the node then
-- has voted for the candidate, whose log is at least as up to date as the node's.
pub handle_request_vote-granted :
    (term : ℕ) (c : String) (i lt d d' : ℕ) (n : RaftNode)
    → (handle_request_vote term c i lt d d' n).1.1 ≡ true
    → (n.current_term ≤ term)
      × ((handle_request_vote term c i lt d d' n).0.current_term ≡ term)
      × ((handle_request_vote term c i lt d d' n).0.voted_for ≡ some c)
      × UpToDate (last_log_term n) (last_log_index n) lt i
unfolding handle_request_vote step_down persist last_log_term last_log_index
handle_request_vote-granted term c i lt d d' n h = elim (Bool-cases (outside_cell n c)) [
  | inl out ↦ absurd (ground arith)
  | inr within ↦ elim (Bool-cases (ltb term n.current_term)) [
    | inl old ↦ absurd (ground arith)
    | inr current ↦ elim (Bool-cases (ltb n.current_term term)) [
      | inl newer ↦
          rw (within, current, newer)
            (let granted : (decide_vote c i lt d' (step_down term d n)).1.1 ≡ true =
                subst (λ (r : RaftNode × (ℕ × Bool)). r.1.1 ≡ true)
                  (outcome_newer term i lt d d' c n within current newer) h in
              let (t, v, u) = decide_vote-granted c i lt d' (step_down term d n) granted in
              (ground arith, t, v, u))
      | inr same ↦
          rw (within, current, same)
            (let granted : (decide_vote c i lt d' n).1.1 ≡ true =
                subst (λ (r : RaftNode × (ℕ × Bool)). r.1.1 ≡ true)
                  (outcome_same term i lt d d' c n within current same) h in
              let (t, v, u) = decide_vote-granted c i lt d' n granted in
              (ground arith, t ∙ ground arith, v, u))
    ]
  ]
]
