-- ===== src/Raft/Apply.antt =====
-- `_apply_committed` of raft.py: what the application is told.
use reus.Prelude.{
  ℕ, zero, suc, ◌+◌, ◌-◌, ◌<◌, ◌≤◌, ◌≡◌, refl, sym, ap, ◌∙◌, some, List, [], ◌∷◌, ◌++◌, arith,
  length, take, drop, get_elem?,
}
use mathlib.Core.List.{append_assoc, append-nil}
use reus.RaftStorage.{LogEntry}
use reus.Raft.Node.{RaftNode, log_entry_at, entry_at, persist}
use reus.Raft.Commands.{apply_entry, apply_range, apply_committed}
use reus.Raft.Frame.{apply_entry-SameCore, apply_membership_command-applied}
use reus.Raft.WellFormed.{IsWellFormed, entry_at-eq}

drop-get_elem? :
    (j : ℕ) (log : List LogEntry)
    → j < length log
    → (e : LogEntry) × (get_elem? log j ≡ some e) × (drop j log ≡ e ∷ drop (suc j) log)
drop-get_elem? j [] h = absurd (omega arith)
drop-get_elem? zero (x ∷ log) h = (x, refl, refl)
drop-get_elem? (suc j) (x ∷ log) h = drop-get_elem? j log (omega arith)

apply_entry-applied :
    (e : LogEntry) (n : RaftNode) → (apply_entry (some e) n).applied ≡ n.applied ++ e ∷ []
unfolding apply_entry
apply_entry-applied e n = ap (λ l. l ++ e ∷ []) (apply_membership_command-applied e.command n)

-- The loop tells the entries from place `j` on, one for each round.
apply_range-applied :
    (rounds idx j base : ℕ) (log : List LogEntry) (n : RaftNode)
    → n.log ≡ log
    → n.snapshot_last_included_index ≡ base
    → idx ≡ base + j + 1
    → j + rounds ≤ length log
    → (apply_range rounds idx n).applied ≡ n.applied ++ take rounds (drop j log)
unfolding apply_range
apply_range-applied zero idx j base log n hl hb hi le = sym (append-nil n.applied)
apply_range-applied (suc rounds) idx j base log n hl hb hi le =
    let (e, at, rest) = drop-get_elem? j log (omega arith) in
    let found : log_entry_at n idx ≡ some e =
      unfold log_entry_at in
      (λ i. entry_at (hb i) (hl i) idx) ∙ entry_at-eq base log idx j hi ∙ at in
    let same = apply_entry-SameCore (some e) n in
    ap (λ o. (apply_range rounds (idx + 1) (apply_entry o n)).applied) found
    ∙ apply_range-applied rounds (idx + 1) (suc j) base log (apply_entry (some e) n) (same.log ∙ hl)
        (same.base ∙ hb) (omega arith) (omega arith)
    ∙ ap (λ l. l ++ take rounds (drop (suc j) log)) (apply_entry-applied e n)
    ∙ append_assoc n.applied (e ∷ []) (take rounds (drop (suc j) log))
    ∙ sym (ap (λ l. n.applied ++ take (suc rounds) l) rest)

-- When a well-formed node commits up to a stored position, `on_commit` is called for exactly the
-- entries between the old and the new commit position, each once and in order.
pub apply_committed-applied :
    (i : ℕ) (n : RaftNode)
    → IsWellFormed n
    → n.commit_index ≤ i
    → i ≤ n.snapshot_last_included_index + length n.log
    → (apply_committed i n).applied
      ≡ n.applied
        ++ take (i - n.commit_index) (drop (n.commit_index - n.snapshot_last_included_index) n.log)
unfolding apply_committed persist
apply_committed-applied i n wf lo hi =
    apply_range-applied (i - n.commit_index) (n.commit_index + 1)
      (n.commit_index - n.snapshot_last_included_index) n.snapshot_last_included_index n.log n refl
      refl (omega (arith, wf.base_committed)) (omega (arith, wf.base_committed))
