-- ===== src/RaftStorage/Atomic.antt =====
-- Crashes while the files of raft_storage.py are saved. A rename is taken to be on disk at once; what was
-- written and not synced may be lost.
use reus.Prelude.{
  ℕ, zero, suc, ◌+◌, ◌*◌, ◌≤◌, ◌<◌, ◌≡◌, refl, sym, ap, ◌∙◌, ◌⊎◌, inl, inr, Bool, if◌then◌else◌,
  String, Option, some, List, [], ◌∷◌, ◌++◌, take, length, arith,
}
use reus.Membership.{MembershipPayload}
use reus.RaftStorage.{
  LogEntry, File, no_file, torn, unsynced, whole, StateFile, SnapshotFile, RaftStorage, Loaded,
  loaded, load, load_snapshot, write_state, write_snapshot, Steps, do_steps, save_steps,
  save_snapshot_steps, save, save_snapshot,
}

-- A call of `save` or of `save_snapshot`.
pub data Save : Type 0 where
  of_state :
      (current_term : ℕ) (voted_for : Option String) (log : List LogEntry) (commit_index : ℕ) → Save
  of_snapshot :
      (index term : ℕ) (snapshot_data : String) (membership : Option MembershipPayload) → Save

abbrev pub state_file : ℕ → Option String → List LogEntry → ℕ → StateFile
state_file current_term voted_for log commit_index = record {
  current_term = current_term;
  voted_for = voted_for;
  log = log;
  commit_index = some commit_index;
}

abbrev pub snapshot_file : ℕ → ℕ → String → Option MembershipPayload → SnapshotFile
snapshot_file index term snapshot_data membership = record {
  last_included_index = index;
  last_included_term = term;
  snapshot_data = snapshot_data;
  membership = membership;
}

abbrev pub steps_of : Save → Steps
steps_of (of_state t v l c) = save_steps (state_file t v l c)
steps_of (of_snapshot i t d m) = save_snapshot_steps (snapshot_file i t d m)

abbrev pub call : Save → RaftStorage → RaftStorage
call (of_state t v l c) s = save t v l c s
call (of_snapshot i t d m) s = save_snapshot i t d m s

abbrev pub steps_of_all : List Save → Steps
steps_of_all [] = []
steps_of_all (j ∷ jobs) = steps_of j ++ steps_of_all jobs

-- What a crash leaves of a file, where `reached` tells whether unsynced text had reached the disk.
abbrev left {ℓ} : {A : Type ℓ} → Bool → File A → File A
left reached (unsynced a) = if reached then whole a else torn
left reached f = f

abbrev pub after_crash : Bool → RaftStorage → RaftStorage
after_crash reached s = record {
  state = left reached s.state;
  state_tmp = left reached s.state_tmp;
  snapshot = left reached s.snapshot;
  snapshot_tmp = left reached s.snapshot_tmp;
}

-- What a start reads.
pub record Disk : Type 0 where
  pub state : Loaded StateFile
  pub snapshot : Loaded SnapshotFile

abbrev pub disk_of : RaftStorage → Disk
disk_of s = record { state = load s; snapshot = load_snapshot s }

-- What completed saves amount to.
abbrev pub saved : List Save → Disk → Disk
saved [] d = d
saved (of_state t v l c ∷ jobs) d = saved jobs (record d { state = loaded (state_file t v l c) })
saved (of_snapshot i t s m ∷ jobs) d =
    saved jobs (record d { snapshot = loaded (snapshot_file i t s m) })

abbrev IsSynced {ℓ} : {A : Type ℓ} → File A → Type 0
IsSynced (unsynced a) = ⊥
IsSynced f = Unit

-- Neither file is one that is not on disk yet.
pub record Synced (s : RaftStorage) : Type 0 where
  pub state : IsSynced s.state
  pub snapshot : IsSynced s.snapshot

left-IsSynced {ℓ} : {A : Type ℓ} (reached : Bool) (f : File A) → IsSynced f → left reached f ≡ f
left-IsSynced reached no_file h = refl
left-IsSynced reached torn h = refl
left-IsSynced reached (whole a) h = refl
left-IsSynced reached (unsynced a) h = elim h [ ]

-- A storage with the same two files is read as before after a crash.
same_disk :
    (reached : Bool) (s t : RaftStorage)
    → Synced s
    → t.state ≡ s.state
    → t.snapshot ≡ s.snapshot
    → disk_of (after_crash reached t) ≡ disk_of s
unfolding load load_snapshot
same_disk reached s t h a b = λ i. record {
  state =
      ap (λ f. load (record t { state = f }))
        (ap (left reached) a ∙ left-IsSynced reached s.state h.state) i;
  snapshot =
      ap (λ f. load_snapshot (record t { snapshot = f }))
        (ap (left reached) b ∙ left-IsSynced reached s.snapshot h.snapshot) i;
}

-- Stopped in the midst of a save, nothing was changed.
partly :
    (j : Save) (rest : Steps) (n : ℕ) (reached : Bool) (s : RaftStorage)
    → n < 4
    → Synced s
    → disk_of (after_crash reached (do_steps (take n (steps_of j ++ rest)) s)) ≡ disk_of s
unfolding write_state write_snapshot
partly (of_state t v l c) rest zero reached s lt h =
    same_disk reached s (do_steps (take 0 (steps_of (of_state t v l c) ++ rest)) s) h refl refl
partly (of_state t v l c) rest (suc zero) reached s lt h =
    same_disk reached s (do_steps (take 1 (steps_of (of_state t v l c) ++ rest)) s) h refl refl
partly (of_state t v l c) rest (suc (suc zero)) reached s lt h =
    same_disk reached s (do_steps (take 2 (steps_of (of_state t v l c) ++ rest)) s) h refl refl
partly (of_state t v l c) rest (suc (suc (suc zero))) reached s lt h =
    same_disk reached s (do_steps (take 3 (steps_of (of_state t v l c) ++ rest)) s) h refl refl
partly (of_snapshot i t d m) rest zero reached s lt h =
    same_disk reached s (do_steps (take 0 (steps_of (of_snapshot i t d m) ++ rest)) s) h refl refl
partly (of_snapshot i t d m) rest (suc zero) reached s lt h =
    same_disk reached s (do_steps (take 1 (steps_of (of_snapshot i t d m) ++ rest)) s) h refl refl
partly (of_snapshot i t d m) rest (suc (suc zero)) reached s lt h =
    same_disk reached s (do_steps (take 2 (steps_of (of_snapshot i t d m) ++ rest)) s) h refl refl
partly (of_snapshot i t d m) rest (suc (suc (suc zero))) reached s lt h =
    same_disk reached s (do_steps (take 3 (steps_of (of_snapshot i t d m) ++ rest)) s) h refl refl
partly j rest (suc (suc (suc (suc n)))) reached s lt h = absurd (omega (arith, lt))

whole_save :
    (j : Save) (s : RaftStorage)
    → Synced s
    → Synced (do_steps (steps_of j) s)
      × (disk_of (do_steps (steps_of j) s) ≡ saved (j ∷ []) (disk_of s))
unfolding write_state write_snapshot load load_snapshot
whole_save (of_state t v l c) s h = (record { state = tt; snapshot = h.snapshot }, refl)
whole_save (of_snapshot i t d m) s h = (record { state = h.state; snapshot = tt }, refl)

saved-cons :
    (j : Save) (jobs : List Save) (d : Disk) → saved (j ∷ jobs) d ≡ saved jobs (saved (j ∷ []) d)
saved-cons (of_state t v l c) jobs d = refl
saved-cons (of_snapshot i t s m) jobs d = refl

past :
    (j : Save) (rest : Steps) (n : ℕ) (s : RaftStorage)
    → do_steps (take (suc (suc (suc (suc n)))) (steps_of j ++ rest)) s
      ≡ do_steps (take n rest) (do_steps (steps_of j) s)
past (of_state t v l c) rest n s = refl
past (of_snapshot i t d m) rest n s = refl

-- What a crash after `n` steps of some saves leaves: the effect of the saves that were completed.
abbrev pub Completed : List Save → (n : ℕ) → Disk → Disk → Type 0
Completed jobs n before after =
    (k : ℕ) × (after ≡ saved (take k jobs) before)
    × (4 * k ≤ n)
    × ((length jobs ≤ k) ⊎ (n < 4 * k + 4))

stopped :
    (jobs : List Save) (n : ℕ) (reached : Bool) (s : RaftStorage)
    → Synced s
    → Completed jobs n
        (disk_of s)
        (disk_of (after_crash reached (do_steps (take n (steps_of_all jobs)) s)))
stopped [] zero reached s h = (0, same_disk reached s s h refl refl, omega arith, inl (omega arith))
stopped [] (suc n) reached s h =
    (0, same_disk reached s s h refl refl, omega arith, inl (omega arith))
stopped (j ∷ jobs) (suc (suc (suc (suc n)))) reached s h =
    let (synced_after, once) = whole_save j s h in
    let (k, same, low, high) = stopped jobs n reached (do_steps (steps_of j) s) synced_after in
    (
      suc k,
      ap (λ t. disk_of (after_crash reached t)) (past j (steps_of_all jobs) n s)
          ∙ same
          ∙ ap (saved (take k jobs)) once
          ∙ sym (saved-cons j (take k jobs) (disk_of s)),
      omega (arith, low),
      elim high [
        | inl all ↦ inl (omega (arith, all))
        | inr some_left ↦ inr (omega (arith, some_left))
      ],
    )
stopped (j ∷ jobs) zero reached s h =
    (0, partly j (steps_of_all jobs) 0 reached s (omega arith) h, omega arith, inr (omega arith))
stopped (j ∷ jobs) (suc zero) reached s h =
    (0, partly j (steps_of_all jobs) 1 reached s (omega arith) h, omega arith, inr (omega arith))
stopped (j ∷ jobs) (suc (suc zero)) reached s h =
    (0, partly j (steps_of_all jobs) 2 reached s (omega arith) h, omega arith, inr (omega arith))
stopped (j ∷ jobs) (suc (suc (suc zero))) reached s h =
    (0, partly j (steps_of_all jobs) 3 reached s (omega arith) h, omega arith, inr (omega arith))

call-do_steps : (j : Save) (s : RaftStorage) → call j s ≡ do_steps (steps_of j) s
unfolding save save_snapshot
call-do_steps (of_state t v l c) s = refl
call-do_steps (of_snapshot i t d m) s = refl

-- `save` and `save_snapshot` do their four steps each. Wherever a crash stops a sequence of such calls
-- on files that are on disk, and whether or not unsynced text had reached the disk, a start reads both
-- files as the completed calls left them: no file is torn, no completed call is lost, and none takes
-- effect in part or out of turn.
pub saves-atomic :
    (jobs : List Save) (n : ℕ) (reached : Bool) (s : RaftStorage)
    → Synced s
    → ((j : Save) (t : RaftStorage) → call j t ≡ do_steps (steps_of j) t)
      × Completed jobs n
          (disk_of s)
          (disk_of (after_crash reached (do_steps (take n (steps_of_all jobs)) s)))
saves-atomic jobs n reached s h = (call-do_steps, stopped jobs n reached s h)
