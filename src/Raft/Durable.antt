-- ===== src/Raft/Durable.antt =====
-- `_persist`: what is on disk is what the node holds, and a vote is never taken back in its term.
use reus.Prelude.{
  ℕ, ◌<◌, ◌≡◌, refl, sym, ap, subst, ◌∙◌, String, Option, none, some, [], arith, ◌⊎◌, inl, inr,
}
use reus.RaftStorage.{RaftStorage, StateFile, no_file, whole, save, write_state}
use reus.Raft.Node.{RaftNode, persist}

-- The three fields that must survive a crash, in the form of the state file.
unfoldable pub state_of : RaftNode → StateFile
state_of n = record {
  current_term = n.current_term;
  voted_for = n.voted_for;
  log = n.log;
  commit_index = none;
}

-- The state of a node that was never persisted.
abbrev pub new_state : StateFile
new_state = record { current_term = 0; voted_for = none; log = []; commit_index = none }

abbrev pub Saved : StateFile → Option RaftStorage → Type 0
Saved f none = Unit
Saved f (some s) =
    ((c : Option ℕ) × (s.state ≡ whole (record f { commit_index = c })))
    ⊎ ((s.state ≡ no_file) × (f ≡ new_state))

-- The state file holds the node's term, vote and log, if it has a storage; before the first write
-- they are those of a new node.
abbrev pub IsSaved : RaftNode → Type 0
IsSaved n = Saved (state_of n) n.storage

-- A vote that was cast stands.
abbrev pub VoteStays : Option String → Option String → Type 0
VoteStays none w = Unit
VoteStays (some v) w = w ≡ some v

-- The term grows, or it stays and so does the vote.
abbrev pub VoteKept : RaftNode → RaftNode → Type 0
VoteKept n m =
    (n.current_term < m.current_term)
    ⊎ ((m.current_term ≡ n.current_term) × VoteStays n.voted_for m.voted_for)

VoteStays-refl : (v : Option String) → VoteStays v v
VoteStays-refl none = tt
VoteStays-refl (some v) = refl

VoteStays-trans : (u v w : Option String) → VoteStays u v → VoteStays v w → VoteStays u w
VoteStays-trans none v w h k = tt
VoteStays-trans (some u) none w h k = cc
VoteStays-trans (some u) (some v) w h k = k ∙ h

pub record Keeps (n m : RaftNode) : Type 0 where
  pub saved : IsSaved n → IsSaved m
  pub vote : VoteKept n m

pub VoteKept-refl : (n : RaftNode) → VoteKept n n
VoteKept-refl n = inr (refl, VoteStays-refl n.voted_for)

pub VoteKept-trans : (a b c : RaftNode) → VoteKept a b → VoteKept b c → VoteKept a c
VoteKept-trans a b c (inl h) (inl k) = inl (omega arith)
VoteKept-trans a b c (inl h) (inr k) = inl (omega arith)
VoteKept-trans a b c (inr h) (inl k) = inl (omega arith)
VoteKept-trans a b c (inr h) (inr k) =
    inr (k.0 ∙ h.0, VoteStays-trans a.voted_for b.voted_for c.voted_for h.1 k.1)

pub Keeps-refl : (n : RaftNode) → Keeps n n
Keeps-refl n = record { saved = λ s. s; vote = VoteKept-refl n }

pub Keeps-trans : {a b c : RaftNode} → Keeps a b → Keeps b c → Keeps a c
Keeps-trans {a} {b} {c} h k = record {
  saved = λ s. k.saved (h.saved s);
  vote = VoteKept-trans a b c h.vote k.vote;
}

-- A change of other fields.
pub Keeps-same : (n m : RaftNode) → state_of m ≡ state_of n → m.storage ≡ n.storage → Keeps n m
unfolding state_of
Keeps-same n m e s = record {
  saved = λ h. subst (λ f. Saved f m.storage) (sym e) (subst (Saved (state_of n)) (sym s) h);
  vote = inr (
    ap (λ (f : StateFile). f.current_term) e,
    subst (VoteStays n.voted_for) (sym (ap (λ (f : StateFile). f.voted_for) e))
        (VoteStays-refl n.voted_for),
  );
}

pub persist-IsSaved : (n : RaftNode) → IsSaved (persist n)
unfolding persist state_of save write_state
persist-IsSaved n =
    elim n.storage
      as (λ o. Saved (state_of n) (elim o [
        | none ↦ none
        | some s ↦ some (save n.current_term n.voted_for n.log n.commit_index s)
      ])) [ none ↦ tt | some s ↦ inl (some n.commit_index, refl) ]

-- Whatever `_persist` follows is saved, so only the vote is left to show.
pub Keeps-persist : (n m : RaftNode) → VoteKept n m → Keeps n (persist m)
unfolding persist
Keeps-persist n m v = record { saved = λ _. persist-IsSaved m; vote = v }
