-- ===== src/RaftStorage/Tests.antt =====
-- The storage of one node at concrete files.
use reus.Prelude.{◌≡◌, refl, false, some, none, List, [], ◌∷◌, take}
use reus.RaftStorage.{
  RaftStorage, new_storage, load, load_commit_index, load_snapshot, write_state, write_snapshot,
  do_steps, save,
}
use reus.RaftStorage.Atomic.{
  Save, of_state, of_snapshot, steps_of, call, steps_of_all, after_crash, disk_of, saved, Completed,
  saves-atomic,
}

abbrev disk : RaftStorage
disk = save 2 none [] 0 new_storage

disk_commit : load_commit_index (save 3 (some "b") [] 7 disk) ≡ 7
unfolding load_commit_index save write_state
disk_commit = refl

abbrev jobs : List Save
jobs = of_state 3 (some "b") [] 7 ∷ of_snapshot 1 3 "state" none ∷ of_state 4 none [] 7 ∷ []

-- Nine steps: two calls, and the temporary file of the third is open.
two_read :
    disk_of (after_crash false (do_steps (take 9 (steps_of_all jobs)) disk))
    ≡ saved (take 2 jobs) (disk_of disk)
unfolding load load_snapshot save write_state write_snapshot
two_read = refl

saves-atomic_example :
    ((j : Save) (t : RaftStorage) → call j t ≡ do_steps (steps_of j) t)
    × Completed jobs 9
        (disk_of disk)
        (disk_of (after_crash false (do_steps (take 9 (steps_of_all jobs)) disk)))
unfolding save write_state
saves-atomic_example = saves-atomic jobs 9 false disk (record { state = tt; snapshot = tt })
