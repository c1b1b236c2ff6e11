-- ===== src/Raft/Replicate.antt =====
-- `handle_append_entries` of raft.py as a whole: the log it leaves, and what it keeps.
use reus.Prelude.{
  ℕ, suc, min, max, ◌+◌, ◌-◌, ◌<◌, ◌≤◌, ◌≡◌, refl, sym, ap, subst, ◌∙◌, Bool, true, false, ltb,
  String, some, List, [], ◌∷◌, ◌++◌, arith, Bool-cases, ◌⊎◌, inl, inr, length, take, drop,
  get_elem?, length-take,
}
use reus.RaftStorage.{LogEntry}
use reus.Raft.Node.{RaftNode, last_log_index, entry_at}
use reus.Raft.Append.{
  SentEntry, stamp, accept_leader, prev_matches, merge_entries, store_log, advance_commit,
  append_entries, handle_append_entries,
}
use reus.Raft.Frame.{apply_committed-Committed}
use reus.Raft.Merge.{overlay, merged, merged-IsContiguous, overlay-agrees}
use reus.Raft.WellFormed.{
  IsWellFormed, IsCompatible, apply_committed-IsWellFormed, accept_leader-IsWellFormed,
  accept_leader-same, prev_matches-le, store_log-merged, merged-keeps, length-of_take-eq,
  entry_at-eq, last_log_index-eq, get_elem?-drop,
}

-- What an accepted message makes of a node.
record Appended (n r : RaftNode) (prev : ℕ) (ws : List SentEntry) : Type 0 where
  base : r.snapshot_last_included_index ≡ n.snapshot_last_included_index
  log : r.log ≡ merged n.snapshot_last_included_index prev ws n.log
  reach : prev ≤ n.snapshot_last_included_index + length n.log

advance_commit-log :
    (c : ℕ) (n : RaftNode)
    → ((advance_commit c n).log ≡ n.log)
      × ((advance_commit c n).snapshot_last_included_index ≡ n.snapshot_last_included_index)
unfolding advance_commit
advance_commit-log c n =
    let k = apply_committed-Committed (min c (last_log_index n)) n in (ground arith, ground arith)

advance_commit-IsWellFormed :
    (c : ℕ) (n : RaftNode)
    → IsWellFormed n
    → IsWellFormed (advance_commit c n) × (n.commit_index ≤ (advance_commit c n).commit_index)
unfolding advance_commit
advance_commit-IsWellFormed c n wf =
    let i = min c (last_log_index n) in
    let k = apply_committed-Committed i n in
    elim (Bool-cases (ltb n.commit_index c)) [
      | inl e ↦ rw e (
        apply_committed-IsWellFormed i n wf (ground (arith, last_log_index-eq n wf))
            (ground (arith, last_log_index-eq n wf)),
        ground (arith, last_log_index-eq n wf),
      )
      | inr e ↦ rw e (wf, omega arith)
    ]

append_entries-Appended :
    (prev : ℕ) (ws : List SentEntry) (c : ℕ) (n : RaftNode)
    → prev ≤ n.snapshot_last_included_index + length n.log
    → Appended n (append_entries prev ws c n) prev ws
unfolding append_entries
append_entries-Appended prev ws c n reach =
    let s = merge_entries n.snapshot_last_included_index (prev + 1) ws (n.log, false) in
    let (log, base, commit) = store_log-merged prev ws n reach in
    let (log', base') = advance_commit-log c (store_log s n) in
    record { base = base' ∙ base; log = log' ∙ log; reach = reach }

-- The committed part of the log is left alone, and the shape is kept.
record Safe (n r : RaftNode) : Type 0 where
  wf : IsWellFormed r
  grows : n.commit_index ≤ r.commit_index
  kept :
      take (n.commit_index - n.snapshot_last_included_index) r.log
      ≡ take (n.commit_index - n.snapshot_last_included_index) n.log

append_entries-Safe :
    (prev : ℕ) (ws : List SentEntry) (c : ℕ) (n : RaftNode)
    → prev ≤ n.snapshot_last_included_index + length n.log
    → IsWellFormed n
    → IsCompatible n prev ws
    → Safe n (append_entries prev ws c n)
unfolding append_entries
append_entries-Safe prev ws c n reach wf agree =
    let s = merge_entries n.snapshot_last_included_index (prev + 1) ws (n.log, false) in
    let (log, base, commit) = store_log-merged prev ws n reach in
    let kept =
      merged-keeps n.commit_index n.snapshot_last_included_index prev n.log ws reach
        wf.committed_stored agree in
    let enough =
      length-of_take-eq (n.commit_index - n.snapshot_last_included_index)
        (merged n.snapshot_last_included_index prev ws n.log) n.log kept
        (ground (arith, wf.committed_stored)) in
    let stored : IsWellFormed (store_log s n) = record {
      contiguous =
          rw (log, base)
            (merged-IsContiguous n.snapshot_last_included_index prev ws n.log reach wf.contiguous);
      base_committed = rw (base, commit) wf.base_committed;
      committed_stored = rw (base, commit, log) (omega (arith, enough, wf.base_committed));
    } in
    let (result, grows) = advance_commit-IsWellFormed c (store_log s n) stored in
    record {
      wf = result;
      grows = subst (λ k. k ≤ (advance_commit c (store_log s n)).commit_index) commit grows;
      kept = rw ((advance_commit-log c (store_log s n)).0, log) kept;
    }

get_elem?-append_right :
    (xs ys : List LogEntry) (k : ℕ) → get_elem? (xs ++ ys) (length xs + k) ≡ get_elem? ys k
get_elem?-append_right [] ys k = ap (get_elem? ys) (omega arith)
get_elem?-append_right (x ∷ xs) ys k =
    let shift : length (x ∷ xs) + k ≡ suc (length xs + k) = omega arith in
    ap (get_elem? (x ∷ xs ++ ys)) shift ∙ get_elem?-append_right xs ys k

-- `overlay-agrees` at the positions of a whole log.
merged-agrees :
    (base prev k : ℕ) (log : List LogEntry) (ws : List SentEntry) (w : SentEntry)
    → prev ≤ base + length log
    → get_elem? ws k ≡ some w
    → base < prev + 1 + k
    → (e : LogEntry) × (entry_at base (merged base prev ws log) (prev + 1 + k) ≡ some e)
      × (e.term ≡ w.term)
      × ((entry_at base log (prev + 1 + k) ≡ some e) ⊎ (e ≡ stamp (prev + 1 + k) w))
unfolding merged
merged-agrees base prev k log ws w reach sent above =
    let skipped = base - prev in
    let kept = take (prev - base) log in
    let j = k - skipped in
    let idx = suc (max prev base) in
    let (e, got, same_term, how) =
      overlay-agrees idx j (drop (prev - base) log) (drop skipped ws) w
        (get_elem?-drop skipped j ws ∙ ap (get_elem? ws) (omega arith) ∙ sent) in
    let place : length kept + j ≡ prev + k - base = omega (arith, length-take (prev - base) log) in
    (
      e,
      entry_at-eq base _ (prev + 1 + k) (prev + k - base) (omega arith)
          ∙ ap (get_elem? (kept ++ overlay idx (drop (prev - base) log) (drop skipped ws)))
              (sym place)
          ∙ get_elem?-append_right kept _ j
          ∙ got,
      same_term,
      elim how [
        | inl stored ↦ inl (
            entry_at-eq base log (prev + 1 + k) (prev - base + j) (omega arith)
            ∙ sym (get_elem?-drop (prev - base) j log)
            ∙ stored)
        | inr new ↦ inr (new ∙ ap (λ i. stamp i w) (omega arith))
      ],
    )

-- An accepted message is one whose previous entry the node holds; its reply is true.
accepted-cases :
    (t : ℕ) (l : String) (prev pt : ℕ) (ws : List SentEntry) (c d : ℕ) (n : RaftNode)
    → ((handle_append_entries t l prev pt ws c d n).1.1 ≡ true)
        × (prev_matches prev pt (accept_leader t l d n) ≡ true)
        × ((handle_append_entries t l prev pt ws c d n).0
            ≡ append_entries prev ws c (accept_leader t l d n))
      ⊎ ((handle_append_entries t l prev pt ws c d n).1.1 ≡ false)
        × (((handle_append_entries t l prev pt ws c d n).0 ≡ n)
            ⊎ ((handle_append_entries t l prev pt ws c d n).0 ≡ accept_leader t l d n))
unfolding handle_append_entries
accepted-cases t l prev pt ws c d n = elim (Bool-cases (ltb t n.current_term)) [
  | inl e ↦ rw e (inr (refl, inl refl))
  | inr e ↦ elim (Bool-cases (prev_matches prev pt (accept_leader t l d n))) [
    | inl f ↦ rw (e, f) (inl (refl, refl, refl))
    | inr f ↦ rw (e, f) (inr (refl, inr refl))
  ]
]

-- The message's effects before the log is compared leave the log alone.
module _ (m n r : RaftNode) (log : m.log ≡ n.log)
    (base : m.snapshot_last_included_index ≡ n.snapshot_last_included_index)
    (commit : m.commit_index ≡ n.commit_index) where
  Safe-cast : Safe m r → Safe n r
  Safe-cast s = record {
    wf = s.wf;
    grows = subst (λ k. k ≤ r.commit_index) commit s.grows;
    kept = cc (s.kept);
  }

  IsCompatible-cast :
      (prev : ℕ) (ws : List SentEntry) → IsCompatible n prev ws → IsCompatible m prev ws
  IsCompatible-cast prev ws agree k w e sent le have =
      agree k w e sent (omega arith) (cc (have, base, log))

module _ (t : ℕ) (l : String) (prev pt : ℕ) (ws : List SentEntry) (c d : ℕ) (n : RaftNode)
    (wf : IsWellFormed n) where
  abbrev result : RaftNode
  result = (handle_append_entries t l prev pt ws c d n).0

  abbrev success : Bool
  success = (handle_append_entries t l prev pt ws c d n).1.1

  -- On a well-formed node: a message that is answered with success reaches back to the log, and leaves
  -- it, over the same base, as `merged` describes, which lays the sent entries over those behind the
  -- previous position; a refused one leaves the log, the base and the commit position.
  pub handle_append_entries-log :
      (success ≡ true
        → (result.log ≡ merged n.snapshot_last_included_index prev ws n.log)
          × (result.snapshot_last_included_index ≡ n.snapshot_last_included_index)
          × (prev ≤ n.snapshot_last_included_index + length n.log))
      × (success ≡ false
          → (result.log ≡ n.log)
            × (result.snapshot_last_included_index ≡ n.snapshot_last_included_index)
            × (result.commit_index ≡ n.commit_index))
  handle_append_entries-log =
      let m = accept_leader t l d n in
      let (log, base, commit) = accept_leader-same t l d n in
      elim (accepted-cases t l prev pt ws c d n) [
        | inl (ok, matches, e) ↦
            let reach = prev_matches-le prev pt m (accept_leader-IsWellFormed t l d n wf) matches in
            let a = append_entries-Appended prev ws c m reach in
            (
              λ _. (
                ap (λ (r : RaftNode). r.log) e ∙ a.log ∙ (λ i. merged (base i) prev ws (log i)),
                ap (λ (r : RaftNode). r.snapshot_last_included_index) e ∙ a.base ∙ base,
                subst (λ k. prev ≤ k) (λ i. base i + length (log i)) reach,
              ),
              λ failed. cc,
            )
        | inr (fails, inl e) ↦ (λ h. cc, λ _. (cc, cc, cc))
        | inr (fails, inr e) ↦ (λ h. cc, λ _. (cc, cc, cc))
      ]

  -- On a well-formed node: if the entries agree in term with what the node has committed, then whatever
  -- the answer is, the node stays well formed, the commit position does not fall, and the committed
  -- entries stay.
  pub handle_append_entries-safe :
      IsCompatible n prev ws
      → IsWellFormed result
        × (n.commit_index ≤ result.commit_index)
        × (take (n.commit_index - n.snapshot_last_included_index) result.log
            ≡ take (n.commit_index - n.snapshot_last_included_index) n.log)
  handle_append_entries-safe agree =
      let m = accept_leader t l d n in
      let (log, base, commit) = accept_leader-same t l d n in
      let wf' = accept_leader-IsWellFormed t l d n wf in
      elim (accepted-cases t l prev pt ws c d n) [
        | inl (ok, matches, e) ↦
            let s = Safe-cast m n (append_entries prev ws c m) log base commit (
              append_entries-Safe prev ws c m (prev_matches-le prev pt m wf' matches) wf'
                (IsCompatible-cast m n n log base commit prev ws agree)) in
            let s' = subst (Safe n) (sym e) s in (s'.wf, s'.grows, s'.kept)
        | inr (fails, inl e) ↦ (
          subst IsWellFormed (sym e) wf,
          omega (arith, ap (λ (r : RaftNode). r.commit_index) e),
          cc,
        )
        | inr (fails, inr e) ↦ (
          subst IsWellFormed (sym e) wf',
          omega (arith, ap (λ (r : RaftNode). r.commit_index) e, commit),
          cc,
        )
      ]

  -- On a well-formed node: after a success the node holds, at the position of each sent entry behind its base, an entry of the
  -- same term: its own former one, or exactly the sent one.
  pub handle_append_entries-agrees :
      (k : ℕ) (w : SentEntry)
      → success ≡ true
      → get_elem? ws k ≡ some w
      → n.snapshot_last_included_index < prev + 1 + k
      → (e : LogEntry) × (entry_at result.snapshot_last_included_index result.log (prev + 1 + k)
          ≡ some e)
        × (e.term ≡ w.term)
        × ((entry_at n.snapshot_last_included_index n.log (prev + 1 + k) ≡ some e)
            ⊎ (e ≡ stamp (prev + 1 + k) w))
  handle_append_entries-agrees k w h sent above =
      let (log, base, reach) = handle_append_entries-log.0 h in
      let (e, got, same_term, how) =
        merged-agrees n.snapshot_last_included_index prev k n.log ws w reach sent above in
      (e, cc, same_term, how)
