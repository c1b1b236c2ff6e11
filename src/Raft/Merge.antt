-- ===== src/Raft/Merge.antt =====
-- The merge loop of `handle_append_entries` against a plain description of its result.
use mathlib.Core.List.{append-nil, append_assoc}
use native.Mathlib.Nat.{add-zero}
use native.Mathlib.Numerals.{add-one}
use reus.Prelude.{
  ℕ, zero, suc, ◌+◌, ◌-◌, ◌≤◌, ◌≡◌, refl, sym, ap, subst, ◌∙◌, Bool, false, some, List, [], ◌∷◌,
  ◌++◌, arith, max, leb, ◌==◌, if◌then◌else◌, length, get_elem?, take, drop, take-append-drop,
  length-append, length-take, ◌⊎◌, inl, inr, some-inj, Bool-cases,
}
use reus.RaftStorage.{LogEntry}
use reus.Raft.Append.{SentEntry, stamp, write_entry, merge_entry, merge_entries}
use reus.Raft.Log.{IsContiguous, IsContiguous-append, IsContiguous-take, IsContiguous-drop}

-- Sent entries laid over stored ones, both from position `idx`: stored entries stay while their terms
-- agree; from the first difference on, or where nothing is stored, the sent ones stand.
unfoldable pub overlay : ℕ → List LogEntry → List SentEntry → List LogEntry
unfolding stamp
overlay idx old [] = old
overlay idx [] (w ∷ ws) = stamp idx w ∷ overlay (suc idx) [] ws
overlay idx (e ∷ old) (w ∷ ws) =
    let kept = overlay (suc idx) old ws in
    let replaced = overlay (suc idx) [] ws in
    if e.term == w.term then e ∷ kept else stamp idx w ∷ replaced

-- The log after a message whose entries begin behind position `prev`: entries that the base
-- covers are skipped, and stored entries up to `prev` stay.
unfoldable pub merged : ℕ → ℕ → List SentEntry → List LogEntry → List LogEntry
unfolding overlay
merged base prev ws log =
    take (prev - base) log
    ++ overlay (suc (max prev base)) (drop (prev - base) log) (drop (base - prev) ws)

get_elem?-append_length :
    (pre suf : List LogEntry) → get_elem? (pre ++ suf) (length pre) ≡ get_elem? suf 0
get_elem?-append_length [] suf = refl
get_elem?-append_length (x ∷ pre) suf = get_elem?-append_length pre suf

take-append_length : (pre suf : List LogEntry) → take (length pre) (pre ++ suf) ≡ pre
take-append_length [] suf = refl
take-append_length (x ∷ pre) suf = ap (λ l. x ∷ l) (take-append_length pre suf)

-- Entries at or below the base change nothing.
merge_entry-skip :
    (base idx : ℕ) (w : SentEntry) (s : List LogEntry × Bool)
    → idx ≤ base
    → merge_entry base idx w s ≡ s
unfolding merge_entry write_entry
merge_entry-skip base idx w (log, changed) h = ground arith

module _ (base idx : ℕ) (w : SentEntry) (pre log : List LogEntry) (changed : Bool)
    (h : idx ≡ suc (base + length pre)) where
  -- One round at the end of the kept part: nothing is stored there.
  merge_entry-end :
      log ≡ pre ++ [] → (merge_entry base idx w (log, changed)).0 ≡ (pre ++ stamp idx w ∷ []) ++ []
  unfolding merge_entry write_entry stamp
  merge_entry-end l =
      let past : leb idx base ≡ false = ground arith in
      let pos : idx - base - 1 ≡ length pre = omega arith in
      rw (l, past, pos, get_elem?-append_length pre []) (simp append-nil)

  -- One round where an entry is stored: it stays if the terms agree, and else ends the log.
  merge_entry-stored :
      (e : LogEntry) (suf : List LogEntry)
      → log ≡ pre ++ e ∷ suf
      → (merge_entry base idx w (log, changed)).0
        ≡ (if e.term == w.term then (pre ++ e ∷ []) ++ suf else (pre ++ stamp idx w ∷ []) ++ [])
  unfolding merge_entry write_entry stamp
  merge_entry-stored e suf l =
      let past : leb idx base ≡ false = ground arith in
      let pos : idx - base - 1 ≡ length pre = omega arith in
      rw (l, past, pos, get_elem?-append_length pre (e ∷ suf))
        (elim (Bool-cases (e.term == w.term)) [
          | inl same ↦ rw same (simp append_assoc)
          | inr differs ↦ rw (differs, take-append_length pre (e ∷ suf)) (simp append-nil)
        ])

snoc_length :
    (base idx : ℕ) (pre : List LogEntry) (e : LogEntry)
    → idx ≡ suc (base + length pre)
    → idx + 1 ≡ suc (base + length (pre ++ e ∷ []))
snoc_length base idx pre e h = omega (arith, length-append pre (e ∷ []))

-- The loop behind the part that is kept.
merge_entries-eq-overlay :
    (base idx : ℕ) (ws : List SentEntry) (pre suf : List LogEntry) (s : List LogEntry × Bool)
    → idx ≡ suc (base + length pre)
    → s.0 ≡ pre ++ suf
    → (merge_entries base idx ws s).0 ≡ pre ++ overlay idx suf ws
unfolding merge_entries overlay
merge_entries-eq-overlay base idx [] pre suf s h l = l
merge_entries-eq-overlay base idx (w ∷ ws) pre [] s h l =
    merge_entries-eq-overlay base (idx + 1) ws (pre ++ stamp idx w ∷ []) []
      (merge_entry base idx w s) (snoc_length base idx pre (stamp idx w) h)
      (merge_entry-end base idx w pre s.0 s.1 h l)
    ∙ simp (append_assoc, add-one)
merge_entries-eq-overlay base idx (w ∷ ws) pre (e ∷ suf) s h l =
    let round = merge_entry-stored base idx w pre s.0 s.1 h e suf l in
    elim (Bool-cases (e.term == w.term)) [
      | inl same ↦
          merge_entries-eq-overlay base (idx + 1) ws (pre ++ e ∷ []) suf (merge_entry base idx w s)
            (snoc_length base idx pre e h) (rw same at round)
          ∙ rw same (simp (append_assoc, add-one))
      | inr differs ↦
          merge_entries-eq-overlay base (idx + 1) ws (pre ++ stamp idx w ∷ []) []
            (merge_entry base idx w s) (snoc_length base idx pre (stamp idx w) h)
            (rw differs at round)
          ∙ rw differs (simp (append_assoc, add-one))
    ]

-- Entries that the base covers are skipped.
merge_entries-skip :
    (base skipped idx : ℕ) (ws : List SentEntry) (s : List LogEntry × Bool)
    → skipped ≤ base + 1 - idx
    → merge_entries base idx ws s ≡ merge_entries base (idx + skipped) (drop skipped ws) s
unfolding merge_entries
merge_entries-skip base zero idx ws s h = simp add-zero
merge_entries-skip base (suc k) idx [] s h = refl
merge_entries-skip base (suc k) idx (w ∷ ws) s h =
    rw (merge_entry-skip base idx w s (omega arith)) (
      merge_entries-skip base k (idx + 1) ws s (omega arith)
      ∙ ap (λ i. merge_entries base i (drop k ws) s) (omega arith))

-- The loop over a log that reaches `prev` computes `merged`.
pub merge_entries-eq-merged :
    (base prev : ℕ) (ws : List SentEntry) (log : List LogEntry) (changed : Bool)
    → prev ≤ base + length log
    → (merge_entries base (prev + 1) ws (log, changed)).0 ≡ merged base prev ws log
unfolding merged
merge_entries-eq-merged base prev ws log changed h =
    ap (λ (r : List LogEntry × Bool). r.0)
      (merge_entries-skip base (base - prev) (prev + 1) ws (log, changed) (omega arith))
    ∙ merge_entries-eq-overlay base (prev + 1 + (base - prev)) (drop (base - prev) ws)
        (take (prev - base) log) (drop (prev - base) log) (log, changed)
        (omega (arith, length-take (prev - base) log)) (sym (take-append-drop (prev - base) log))
    ∙ ap (λ i. take (prev - base) log ++ overlay i (drop (prev - base) log) (drop (base - prev) ws))
        (omega arith)

overlay-IsContiguous :
    (base : ℕ) (old : List LogEntry) (ws : List SentEntry)
    → IsContiguous base old
    → IsContiguous base (overlay (suc base) old ws)
unfolding overlay
overlay-IsContiguous base old [] h = h
overlay-IsContiguous base [] (w ∷ ws) h = (refl, overlay-IsContiguous (suc base) [] ws tt)
overlay-IsContiguous base (e ∷ old) (w ∷ ws) h = elim (Bool-cases (e.term == w.term)) [
  | inl same ↦ rw same (h.0, overlay-IsContiguous (suc base) old ws h.1)
  | inr differs ↦ rw differs (refl, overlay-IsContiguous (suc base) [] ws tt)
]

-- The merged log counts up from the base again.
pub merged-IsContiguous :
    (base prev : ℕ) (ws : List SentEntry) (log : List LogEntry)
    → prev ≤ base + length log
    → IsContiguous base log
    → IsContiguous base (merged base prev ws log)
unfolding merged
merged-IsContiguous base prev ws log le h =
    IsContiguous-append base (take (prev - base) log) _ (IsContiguous-take base (prev - base) log h)
      (subst
        (λ b.
          IsContiguous b
            (overlay (suc (max prev base)) (drop (prev - base) log) (drop (base - prev) ws)))
        (omega (arith, length-take (prev - base) log))
        (overlay-IsContiguous (max prev base) (drop (prev - base) log) (drop (base - prev) ws) (
          subst (λ b. IsContiguous b (drop (prev - base) log)) (omega arith)
            (IsContiguous-drop base (prev - base) log (omega arith) h))))

stamp-shift : (idx k : ℕ) (w : SentEntry) → stamp (suc idx + k) w ≡ stamp (idx + suc k) w
stamp-shift idx k w = ap (λ i. stamp i w) (omega arith)

-- Where an entry was sent, the merged log holds its term; where a sent entry replaced or extended the
-- log, it holds the sent entry itself.
pub overlay-agrees :
    (idx k : ℕ) (old : List LogEntry) (ws : List SentEntry) (w : SentEntry)
    → get_elem? ws k ≡ some w
    → (e : LogEntry) × (get_elem? (overlay idx old ws) k ≡ some e)
      × (e.term ≡ w.term)
      × ((get_elem? old k ≡ some e) ⊎ (e ≡ stamp (idx + k) w))
unfolding overlay
overlay-agrees idx k old [] w h = cc
overlay-agrees idx zero [] (v ∷ ws) w h = (
  stamp idx w,
  ap (λ u. some (stamp idx u)) (some-inj h),
  refl,
  inr (ap (λ i. stamp i w) (sym (add-zero idx))),
)
overlay-agrees idx (suc k) [] (v ∷ ws) w h =
    let (e, got, same_term, how) = overlay-agrees (suc idx) k [] ws w h in
    (e, got, same_term, elim how [ inl stored ↦ cc | inr sent ↦ inr (sent ∙ stamp-shift idx k w) ])
overlay-agrees idx zero (x ∷ old) (v ∷ ws) w h = elim (Bool-cases (x.term == v.term)) [
  | inl same ↦ rw same (x, refl, ground (arith, some-inj h), inl refl)
  | inr differs ↦ rw differs (
    stamp idx w,
    ap (λ u. some (stamp idx u)) (some-inj h),
    refl,
    inr (ap (λ i. stamp i w) (sym (add-zero idx))),
  )
]
overlay-agrees idx (suc k) (x ∷ old) (v ∷ ws) w h = elim (Bool-cases (x.term == v.term)) [
  | inl same ↦
      let (e, got, same_term, how) = overlay-agrees (suc idx) k old ws w h in
      rw same (
        e,
        got,
        same_term,
        elim how [ inl stored ↦ inl stored | inr sent ↦ inr (sent ∙ stamp-shift idx k w) ],
      )
  | inr differs ↦
      let (e, got, same_term, how) = overlay-agrees (suc idx) k [] ws w h in
      rw differs (
        e,
        got,
        same_term,
        elim how [ inl stored ↦ cc | inr sent ↦ inr (sent ∙ stamp-shift idx k w) ],
      )
]

merge_entry-unchanged :
    (base idx : ℕ) (w : SentEntry) (log : List LogEntry) (flag : Bool)
    → (merge_entry base idx w (log, flag)).1 ≡ false
    → ((merge_entry base idx w (log, flag)).0 ≡ log) × (flag ≡ false)
unfolding merge_entry write_entry
merge_entry-unchanged base idx w log flag h = ground arith

-- Where the loop reports no change, the log is the same.
pub merge_entries-unchanged :
    (base idx : ℕ) (ws : List SentEntry) (s : List LogEntry × Bool)
    → (merge_entries base idx ws s).1 ≡ false
    → ((merge_entries base idx ws s).0 ≡ s.0) × (s.1 ≡ false)
unfolding merge_entries
merge_entries-unchanged base idx [] s h = (refl, h)
merge_entries-unchanged base idx (w ∷ ws) s h =
    let (later, flag) = merge_entries-unchanged base (idx + 1) ws (merge_entry base idx w s) h in
    let (now, before) = merge_entry-unchanged base idx w s.0 s.1 flag in (later ∙ now, before)
