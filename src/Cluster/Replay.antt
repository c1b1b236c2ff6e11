-- ===== src/Cluster/Replay.antt =====
-- A snapshot of the replicated states stands for the commands that it was taken after.
use reus.Prelude.{
  ℕ, ◌≡◌, refl, sym, ap, ◌∙◌, false, String, List, [], ◌∷◌, ◌++◌, arith, ◌==◌, Bool-cases, inl, inr,
}
use mathlib.Core.List.{append_assoc, append-nil}
use reus.Prelude.Dict.{Dict}
use reus.RaftStorage.{LogEntry, Command}
use reus.Cluster.States.{
  put_index, States, new_states, apply_commit, apply_commits, SnapshotData, as_items, as_values,
  snapshot, restore_commands, restore_values, restore,
}

-- The index is no key.
abbrev Absent : ℕ → List (ℕ × Command) → Type 0
Absent i [] = Unit
Absent i ((j, c) ∷ d) = ((j == i) ≡ false) × Absent i d

abbrev pub DistinctIndices : List (ℕ × Command) → Type 0
DistinctIndices [] = Unit
DistinctIndices ((i, c) ∷ d) = Absent i d × DistinctIndices d

put_index-Absent :
    (i j : ℕ) (c : Command) (d : List (ℕ × Command))
    → (i == j) ≡ false
    → Absent j d
    → Absent j (put_index i c d)
unfolding put_index
put_index-Absent i j c [] ne h = (ne, tt)
put_index-Absent i j c ((k, b) ∷ d) ne h = elim (Bool-cases (k == i)) [
  | inl here ↦ rw here h
  | inr there ↦ rw there (h.0, put_index-Absent i j c d ne h.1)
]

put_index-DistinctIndices :
    (i : ℕ) (c : Command) (d : List (ℕ × Command))
    → DistinctIndices d
    → DistinctIndices (put_index i c d)
unfolding put_index
put_index-DistinctIndices i c [] h = (tt, tt)
put_index-DistinctIndices i c ((k, b) ∷ d) h = elim (Bool-cases (k == i)) [
  | inl here ↦ rw here h
  | inr there ↦
      rw there (put_index-Absent i k c d (ground arith) h.0, put_index-DistinctIndices i c d h.1)
]

-- Behind other keys, a new one is put at the end.
put_index_last :
    (i : ℕ) (c : Command) (d : List (ℕ × Command)) → Absent i d → put_index i c d ≡ d ++ (i, c) ∷ []
unfolding put_index
put_index_last i c [] h = refl
put_index_last i c ((j, b) ∷ d) h = rw h.0 (ap (λ l. (j, b) ∷ l) (put_index_last i c d h.1))

-- Apart from those keys.
abbrev AllAbsent : List (ℕ × Command) → List (ℕ × Command) → Type 0
AllAbsent [] d = Unit
AllAbsent ((i, c) ∷ new) d = Absent i d × AllAbsent new d

Absent-snoc :
    (i j : ℕ) (c : Command) (d : List (ℕ × Command))
    → Absent i d
    → (j == i) ≡ false
    → Absent i (d ++ (j, c) ∷ [])
Absent-snoc i j c [] h ne = (ne, tt)
Absent-snoc i j c ((k, b) ∷ d) h ne = (h.0, Absent-snoc i j c d h.1 ne)

AllAbsent-snoc :
    (new d : List (ℕ × Command)) (i : ℕ) (c : Command)
    → AllAbsent new d
    → Absent i new
    → AllAbsent new (d ++ (i, c) ∷ [])
AllAbsent-snoc [] d i c h k = tt
AllAbsent-snoc ((j, b) ∷ new) d i c h k =
    (Absent-snoc j i c d h.0 (ground (arith, k.0)), AllAbsent-snoc new d i c h.1 k.1)

restore_commands-as_items :
    (cs d : List (ℕ × Command))
    → DistinctIndices cs
    → AllAbsent cs d
    → restore_commands (as_items cs) d ≡ d ++ cs
unfolding restore_commands as_items
restore_commands-as_items [] d h k = sym (append-nil d)
restore_commands-as_items ((i, c) ∷ cs) d h k =
    ap (restore_commands (as_items cs)) (put_index_last i c d k.0)
    ∙ restore_commands-as_items cs (d ++ (i, c) ∷ []) h.1 (AllAbsent-snoc cs d i c k.1 h.0)
    ∙ append_assoc d ((i, c) ∷ []) cs

AllAbsent-nil : (cs : List (ℕ × Command)) → AllAbsent cs []
AllAbsent-nil [] = tt
AllAbsent-nil ((i, c) ∷ cs) = (tt, AllAbsent-nil cs)

restore_values-as_values {ℓ} : {V : Type ℓ} (d : Dict V) → restore_values (as_values d) ≡ d
unfolding restore_values as_values
restore_values-as_values [] = refl
restore_values-as_values ((k, v) ∷ d) = ap (λ l. (k, v) ∷ l) (restore_values-as_values d)

-- States whose commands stand under distinct indices are restored from their snapshot as they were.
pub restore-snapshot : (s : States) → DistinctIndices s.commands → restore (snapshot s) ≡ s
unfolding restore snapshot
restore-snapshot s h = λ i. record {
  commands = restore_commands-as_items s.commands [] h (AllAbsent-nil s.commands) i;
  tasks = restore_values-as_values s.tasks i;
  evidence = restore_values-as_values s.evidence i;
  decisions = restore_values-as_values s.decisions i;
}

pub apply_commits-DistinctIndices :
    (es : List LogEntry) (s : States)
    → DistinctIndices s.commands
    → DistinctIndices (apply_commits es s).commands
unfolding apply_commits apply_commit
apply_commits-DistinctIndices [] s h = h
apply_commits-DistinctIndices (e ∷ es) s h =
    apply_commits-DistinctIndices es (apply_commit e s)
      (put_index-DistinctIndices e.index e.command s.commands h)

pub apply_commits-append :
    (xs ys : List LogEntry) (s : States)
    → apply_commits (xs ++ ys) s ≡ apply_commits ys (apply_commits xs s)
unfolding apply_commits
apply_commits-append [] ys s = refl
apply_commits-append (x ∷ xs) ys s = apply_commits-append xs ys (apply_commit x s)

-- A node that restores the snapshot that another one took after some committed entries, through a
-- text from which it reads what was written, and then applies the entries after it, has the states of
-- a node that applied them all.
pub apply_commits-restore :
    (dumps : SnapshotData → String) (loads : String → SnapshotData) (xs ys : List LogEntry)
    → loads (dumps (snapshot (apply_commits xs new_states)))
      ≡ snapshot (apply_commits xs new_states)
    → apply_commits ys (restore (loads (dumps (snapshot (apply_commits xs new_states)))))
      ≡ apply_commits (xs ++ ys) new_states
apply_commits-restore dumps loads xs ys reads =
    let s = apply_commits xs new_states in
    ap (λ d. apply_commits ys (restore d)) reads
    ∙ ap (apply_commits ys) (restore-snapshot s (apply_commits-DistinctIndices xs new_states tt))
    ∙ sym (apply_commits-append xs ys new_states)
