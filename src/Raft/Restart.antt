-- ===== src/Raft/Restart.antt =====
-- The start of a node from its files: it reads back what `_persist` wrote.
use reus.Prelude.{
  ℕ, min, max, ◌≡◌, refl, sym, ap, subst, ◌∙◌, Bool, String, Option, none, some, List, [], ◌∷◌,
  arith, Bool-cases, inl, inr, some-inj, leb,
}
use reus.Prelude.Sets.{set_of}
use reus.Membership.{voter_configuration, MembershipPayload}
use reus.RaftStorage.{
  LogEntry, RaftStorage, StateFile, SnapshotFile, Loaded, read, nothing, corrupt, loaded, load,
  load_commit_index, load_snapshot, load_snapshot_membership,
}
use reus.Raft.Node.{RaftNode, last_log_index}
use reus.Raft.Commands.{apply_membership_command}
use reus.Raft.Load.{
  raft_node, load_persisted_state, load_files, load_base, restore_base, with_base, restore_state,
  replay_membership, fresh,
}
use reus.Raft.Frame.{SameCore, SameCore-refl, SameCore-trans, apply_membership_command-SameCore}
use reus.Raft.Durable.{state_of, Saved, IsSaved}

pub replay_membership-SameCore :
    (es : List LogEntry) (n : RaftNode) → SameCore n (replay_membership es n)
unfolding replay_membership
replay_membership-SameCore [] n = SameCore-refl n
replay_membership-SameCore (e ∷ es) n = elim (Bool-cases (leb e.index n.commit_index)) [
  | inl h ↦ rw h (
      SameCore-trans (apply_membership_command-SameCore e.command n)
        (replay_membership-SameCore es (apply_membership_command e.command n)))
  | inr h ↦ rw h (replay_membership-SameCore es n)
]

loaded-inj : {f g : StateFile} → loaded f ≡ loaded g → f ≡ g
loaded-inj e = cc

pub option_bind {ℓ κ} :
    {A : Type ℓ} {B : Type κ} (o : Option A) (f : A → Option B) {b : B}
    → (elim o [ none ↦ none | some a ↦ f a ]) ≡ some b
    → (a : A) × (o ≡ some a) × (f a ≡ some b)
option_bind none f h = cc
option_bind (some a) f h = (a, refl, h)

-- What a start reads from the state file.
record Restored (l : Loaded StateFile) (n m : RaftNode) : Type 0 where
  storage : m.storage ≡ n.storage
  absent : l ≡ nothing → state_of m ≡ state_of n
  present : (f : StateFile) → l ≡ loaded f → state_of m ≡ record f { commit_index = none }

restore_state-Restored :
    (l : Loaded StateFile) (c : ℕ) (n m : RaftNode) → restore_state l c n ≡ some m → Restored l n m
unfolding restore_state state_of
restore_state-Restored nothing c n m h = record {
  storage = ground arith;
  absent = λ _. ground arith;
  present = λ f e. cc;
}
restore_state-Restored corrupt c n m h = cc
restore_state-Restored (loaded f) c n m h = record {
  storage = sym (ap (λ (r : RaftNode). r.storage) (some-inj h)) ∙ same.storage;
  absent = λ e. cc;
  present = λ g e.
      subst (λ (r : RaftNode). state_of r ≡ record g { commit_index = none }) (some-inj h)
        ((λ i. record {
          current_term = same.current_term i;
          voted_for = same.voted_for i;
          log = same.log i;
          commit_index = none;
        })
          ∙ ap (λ (x : StateFile). record x { commit_index = none }) (loaded-inj e));
}
  where
    start : RaftNode
    start =
        let m = record n { current_term = f.current_term; voted_for = f.voted_for; log = f.log } in
        record m { commit_index = max m.snapshot_last_included_index (min c (last_log_index m)) }

    same : SameCore start (replay_membership f.log start)
    same = replay_membership-SameCore f.log start

restore_base-same :
    (l : Loaded SnapshotFile) (p : Option MembershipPayload) (n m : RaftNode)
    → restore_base l p n ≡ some m
    → (m.storage ≡ n.storage) × (state_of m ≡ state_of n)
unfolding restore_base load_base with_base state_of
restore_base-same l p n m h = ground arith

-- A start from a storage that holds the node's state has that state.
pub restart_lem :
    (s : RaftStorage) (n m : RaftNode) (id : String) (peers : List String) (strict : Bool) (d : ℕ)
    → IsSaved n
    → n.storage ≡ some s
    → raft_node id peers strict (some s) d ≡ some m
    → (state_of m ≡ state_of n) × (m.storage ≡ n.storage)
unfolding raft_node load_persisted_state load_files load fresh state_of
restart_lem s n m id peers strict d saved e h =
    let (c, _, started) =
      option_bind (voter_configuration (set_of (id ∷ peers)) none)
        (λ c. load_persisted_state (fresh id strict (some s) d c)) h in
    let start = fresh id strict (some s) d c in
    let (b, based, read_state) =
      option_bind (restore_base (load_snapshot s) (load_snapshot_membership s) start)
        (λ b. restore_state (load s) (load_commit_index s) b) started in
    let (stored, fields) =
      restore_base-same (load_snapshot s) (load_snapshot_membership s) start b based in
    let r = restore_state-Restored (load s) (load_commit_index s) b m read_state in
    let on_disk : Saved (state_of n) (some s) = subst (Saved (state_of n)) e saved in
    (
      elim on_disk [
        | inl (commit, w) ↦ r.present (record (state_of n) { commit_index = commit }) (ap read w)
        | inr (no_state, new) ↦ r.absent (ap read no_state) ∙ fields ∙ sym new
      ],
      r.storage ∙ stored ∙ sym e,
    )
