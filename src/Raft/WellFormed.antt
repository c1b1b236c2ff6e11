-- ===== src/Raft/WellFormed.antt =====
-- The shape of a node's log in raft.py: contiguous over the snapshot base, with the commit position
-- between the base and the last entry. Handlers of requests.
use reus.Prelude.{
  ℕ, zero, suc, ◌+◌, ◌-◌, ◌<◌, ◌≤◌, ◌≡◌, refl, sym, ap, subst, ◌∙◌, true, false, ltb, ◌==◌, String,
  some, List, [], ◌∷◌, ◌++◌, arith, length, take, drop, get_elem?, length-take, length-drop,
}
use reus.RaftStorage.{LogEntry}
use reus.Raft.Node.{RaftNode, persist, step_down, last_log_index, entry_at}
use reus.Raft.Commands.{apply_committed}
use reus.Raft.Votes.{handle_request_vote, decide_vote}
use reus.Raft.Append.{SentEntry, accept_leader, prev_matches, merge_entries, store_log}
use reus.Raft.Frame.{apply_committed-Committed}
use reus.Raft.Log.{IsContiguous, last_index-eq}
use reus.Raft.Merge.{overlay, merged, merge_entries-eq-merged}

pub record IsWellFormed (n : RaftNode) : Type 0 where
  pub contiguous : IsContiguous n.snapshot_last_included_index n.log
  pub base_committed : n.snapshot_last_included_index ≤ n.commit_index
  pub committed_stored : n.commit_index ≤ n.snapshot_last_included_index + length n.log

pub last_log_index-eq :
    (n : RaftNode)
    → IsWellFormed n
    → last_log_index n ≡ n.snapshot_last_included_index + length n.log
unfolding last_log_index
last_log_index-eq n wf = last_index-eq n.snapshot_last_included_index n.log wf.contiguous

-- A change of other fields.
pub IsWellFormed-same :
    (n m : RaftNode)
    → m.log ≡ n.log
    → m.snapshot_last_included_index ≡ n.snapshot_last_included_index
    → m.commit_index ≡ n.commit_index
    → IsWellFormed n
    → IsWellFormed m
IsWellFormed-same n m l b c wf = record {
  contiguous = rw (l, b) wf.contiguous;
  base_committed = rw (b, c) wf.base_committed;
  committed_stored = rw (l, b, c) wf.committed_stored;
}

pub apply_committed-IsWellFormed :
    (i : ℕ) (n : RaftNode)
    → IsWellFormed n
    → n.snapshot_last_included_index ≤ i
    → i ≤ n.snapshot_last_included_index + length n.log
    → IsWellFormed (apply_committed i n)
apply_committed-IsWellFormed i n wf lo hi =
    let c = apply_committed-Committed i n in
    record {
      contiguous = rw (c.log, c.base) wf.contiguous;
      base_committed = rw (c.base, c.commit_index) lo;
      committed_stored = rw (c.base, c.commit_index, c.log) hi;
    }

pub handle_request_vote-IsWellFormed :
    (t : ℕ) (c : String) (i lt d d' : ℕ) (n : RaftNode)
    → IsWellFormed n
    → IsWellFormed (handle_request_vote t c i lt d d' n).0
unfolding handle_request_vote decide_vote step_down persist
handle_request_vote-IsWellFormed t c i lt d d' n wf =
    IsWellFormed-same n _ (ground arith) (ground arith) (ground arith) wf

-- The message agrees in term with what this node has committed: `entries` begin behind `prev`.
abbrev pub Agrees :
    (commit base : ℕ) (log : List LogEntry) (prev : ℕ) (entries : List SentEntry) → Type 0
Agrees commit base log prev entries =
    (k : ℕ) (w : SentEntry) (e : LogEntry)
    → get_elem? entries k ≡ some w
    → prev + 1 + k ≤ commit
    → entry_at base log (prev + 1 + k) ≡ some e
    → e.term ≡ w.term

abbrev pub IsCompatible : (n : RaftNode) (prev : ℕ) (entries : List SentEntry) → Type 0
IsCompatible n prev entries =
    Agrees n.commit_index n.snapshot_last_included_index n.log prev entries

-- Laid over entries that agree in the first `c` terms, the sent ones change none of those.
overlay-keeps :
    (c idx : ℕ) (old : List LogEntry) (ws : List SentEntry)
    → c ≤ length old
    → ((k : ℕ) (w : SentEntry) (e : LogEntry)
        → k < c
        → get_elem? ws k ≡ some w
        → get_elem? old k ≡ some e
        → e.term ≡ w.term)
    → take c (overlay idx old ws) ≡ take c old
unfolding overlay
overlay-keeps zero idx old ws h agree = refl
overlay-keeps (suc c) idx old [] h agree = refl
overlay-keeps (suc c) idx [] (w ∷ ws) h agree = absurd (omega arith)
overlay-keeps (suc c) idx (e ∷ old) (w ∷ ws) h agree =
    let same : (e.term == w.term) ≡ true = ground (arith, agree 0 w e) in
    rw same (
      ap (λ l. e ∷ l)
        (overlay-keeps c (suc idx) old ws (omega arith)
          (λ k v x lt a b. agree (suc k) v x (omega arith) a b)))

take-split :
    (c p : ℕ) (xs ys : List LogEntry)
    → p ≤ length xs
    → take (c - p) ys ≡ take (c - p) (drop p xs)
    → take c (take p xs ++ ys) ≡ take c xs
take-split c zero xs ys h e = subst (λ k. take k ys ≡ take k xs) (omega arith) e
take-split c (suc p) [] ys h e = absurd (omega arith)
take-split zero (suc p) (x ∷ xs) ys h e = refl
take-split (suc c) (suc p) (x ∷ xs) ys h e =
    ap (λ l. x ∷ l)
      (take-split c p xs ys (omega arith)
        (subst (λ k. take k ys ≡ take k (drop p xs)) (omega arith) e))

pub get_elem?-drop {ℓ} :
    {A : Type ℓ} (n k : ℕ) (xs : List A) → get_elem? (drop n xs) k ≡ get_elem? xs (n + k)
get_elem?-drop zero k xs = ap (get_elem? xs) (omega arith)
get_elem?-drop (suc n) k [] = refl
get_elem?-drop (suc n) k (x ∷ xs) =
    let shift : suc (n + k) ≡ suc n + k = omega arith in
    get_elem?-drop n k xs ∙ ap (get_elem? (x ∷ xs)) shift

-- The entry at a position stands that far behind the base.
pub entry_at-eq :
    (base : ℕ) (log : List LogEntry) (i j : ℕ)
    → i ≡ base + j + 1
    → entry_at base log i ≡ get_elem? log j
unfolding entry_at
entry_at-eq base log i j h =
    let above : ltb base i ≡ true = ground arith in
    let pos : i - base - 1 ≡ j = omega arith in rw (above, pos)

-- The merge leaves the committed entries as they are.
pub merged-keeps :
    (commit base prev : ℕ) (log : List LogEntry) (ws : List SentEntry)
    → prev ≤ base + length log
    → commit ≤ base + length log
    → Agrees commit base log prev ws
    → take (commit - base) (merged base prev ws log) ≡ take (commit - base) log
unfolding merged
merged-keeps commit base prev log ws reach stored agree =
    take-split (commit - base) (prev - base) log _ (omega arith) (
      overlay-keeps (commit - base - (prev - base)) _ (drop (prev - base) log)
        (drop (base - prev) ws) (omega (arith, length-drop (prev - base) log))
        λ k w e lt sent have.
          agree (base - prev + k) w e (sym (get_elem?-drop (base - prev) k ws) ∙ sent) (omega arith)
            (entry_at-eq base log _ (prev - base + k) (omega arith)
              ∙ sym (get_elem?-drop (prev - base) k log)
              ∙ have))

pub accept_leader-IsWellFormed :
    (t : ℕ) (l : String) (d : ℕ) (n : RaftNode)
    → IsWellFormed n
    → IsWellFormed (accept_leader t l d n)
unfolding accept_leader persist
accept_leader-IsWellFormed t l d n wf =
    IsWellFormed-same n _ (ground arith) (ground arith) (ground arith) wf

pub accept_leader-same :
    (t : ℕ) (l : String) (d : ℕ) (n : RaftNode)
    → ((accept_leader t l d n).log ≡ n.log)
      × ((accept_leader t l d n).snapshot_last_included_index ≡ n.snapshot_last_included_index)
      × ((accept_leader t l d n).commit_index ≡ n.commit_index)
unfolding accept_leader persist
accept_leader-same t l d n = (ground arith, ground arith, ground arith)

pub prev_matches-le :
    (prev pt : ℕ) (n : RaftNode)
    → IsWellFormed n
    → prev_matches prev pt n ≡ true
    → prev ≤ n.snapshot_last_included_index + length n.log
unfolding prev_matches
prev_matches-le prev pt n wf h = ground (arith, last_log_index-eq n wf)

-- What the accepted entries make of the log.
pub store_log-merged :
    (prev : ℕ) (ws : List SentEntry) (n : RaftNode)
    → prev ≤ n.snapshot_last_included_index + length n.log
    → ((store_log (merge_entries n.snapshot_last_included_index (prev + 1) ws (n.log, false)) n).log
        ≡ merged n.snapshot_last_included_index prev ws n.log)
      × ((store_log
            (merge_entries n.snapshot_last_included_index (prev + 1) ws (n.log, false))
            n).snapshot_last_included_index
          ≡ n.snapshot_last_included_index)
      × ((store_log
            (merge_entries n.snapshot_last_included_index (prev + 1) ws (n.log, false))
            n).commit_index
          ≡ n.commit_index)
unfolding store_log persist
store_log-merged prev ws n reach =
    let same = merge_entries-eq-merged n.snapshot_last_included_index prev ws n.log false reach in
    (ground arith, ground arith, ground arith)

pub length-of_take-eq :
    (c : ℕ) (xs ys : List LogEntry) → take c xs ≡ take c ys → c ≤ length ys → c ≤ length xs
length-of_take-eq c xs ys e h =
    omega (arith, ap (length {A = LogEntry}) e, length-take c xs, length-take c ys)
