-- ===== src/AuditLog/Chain.antt =====
-- What a verified log of audit_log.py says.
use reus.Prelude.{
  ℕ, ◌+◌, ◌≡◌, refl, sym, ap, subst, ◌∙◌, Bool, true, String, some, List, [], ◌∷◌, ◌++◌, map, arith,
  eq_iff, length, get_last?,
}
use reus.AuditLog.{
  Body, AuditEntry, Actor, genesis_hash, next_body, append_entry, intact, check_entry, verify_from,
  verify_chain,
}

module _ (digest : Body → String) (is_valid : String → String → String → Bool) where
  -- What `verify_chain` checks of one entry.
  pub record Linked (seq : ℕ) (prev_hash : String) (e : AuditEntry) : Type 0 where
    pub seq_next : e.body.seq ≡ seq
    pub linked : e.body.prev_hash ≡ prev_hash
    pub hashed : digest e.body ≡ e.entry_hash
    pub signed : is_valid e.body.actor_public_key_hex e.entry_hash e.signature_hex ≡ true

  check_entry-Linked :
      (seq : ℕ) (prev_hash : String) (e : AuditEntry)
      → check_entry digest is_valid seq prev_hash e ≡ intact
      → Linked seq prev_hash e
  unfolding check_entry
  check_entry-Linked seq prev_hash e h =
      ground (arith, eq_iff e.body.prev_hash prev_hash, eq_iff (digest e.body) e.entry_hash)

  Linked-check_entry :
      (seq : ℕ) (prev_hash : String) (e : AuditEntry)
      → Linked seq prev_hash e
      → check_entry digest is_valid seq prev_hash e ≡ intact
  unfolding check_entry
  Linked-check_entry seq prev_hash e h =
      ground (arith, eq_iff e.body.prev_hash prev_hash, eq_iff (digest e.body) e.entry_hash)

  verify_from-cons :
      (seq : ℕ) (prev_hash : String) (e : AuditEntry) (es : List AuditEntry)
      → verify_from digest is_valid seq prev_hash (e ∷ es) ≡ intact
      → Linked seq prev_hash e × (verify_from digest is_valid (seq + 1) e.entry_hash es ≡ intact)
  unfolding verify_from
  verify_from-cons seq prev_hash e es h =
      (check_entry-Linked seq prev_hash e (ground arith), ground arith)

  cons-verify_from :
      (seq : ℕ) (prev_hash : String) (e : AuditEntry) (es : List AuditEntry)
      → Linked seq prev_hash e
      → verify_from digest is_valid (seq + 1) e.entry_hash es ≡ intact
      → verify_from digest is_valid seq prev_hash (e ∷ es) ≡ intact
  unfolding verify_from
  cons-verify_from seq prev_hash e es linked h =
      rw (Linked-check_entry seq prev_hash e linked, verify_from) h

  -- The hash that the next entry links to.
  abbrev pub last_hash : String → List AuditEntry → String
  last_hash prev_hash [] = prev_hash
  last_hash prev_hash (e ∷ es) = last_hash e.entry_hash es

  verify_from-snoc :
      (seq : ℕ) (prev_hash : String) (es : List AuditEntry) (e : AuditEntry)
      → verify_from digest is_valid seq prev_hash es ≡ intact
      → Linked (seq + length es) (last_hash prev_hash es) e
      → verify_from digest is_valid seq prev_hash (es ++ e ∷ []) ≡ intact
  verify_from-snoc seq prev_hash [] e h linked =
      cons-verify_from seq prev_hash e [] (subst (λ n. Linked n prev_hash e) (omega arith) linked)
        (unfold verify_from in refl)
  verify_from-snoc seq prev_hash (x ∷ es) e h linked =
      let (first, rest) = verify_from-cons seq prev_hash x es h in
      cons-verify_from seq prev_hash x (es ++ e ∷ []) first (
        verify_from-snoc (seq + 1) x.entry_hash es e rest
          (subst (λ n. Linked n (last_hash x.entry_hash es) e) (omega arith) linked))

  next_body-linked :
      (seq : ℕ) (prev_hash : String) (es : List AuditEntry) (x : AuditEntry)
      → verify_from digest is_valid seq prev_hash (x ∷ es) ≡ intact
      → (l : AuditEntry) × (get_last? (x ∷ es) ≡ some l)
        × (l.body.seq + 1 ≡ seq + length (x ∷ es))
        × (l.entry_hash ≡ last_hash prev_hash (x ∷ es))
  next_body-linked seq prev_hash [] x h =
      let (first, _) = verify_from-cons seq prev_hash x [] h in
      (x, refl, omega (arith, first.seq_next), refl)
  next_body-linked seq prev_hash (y ∷ es) x h =
      let (first, rest) = verify_from-cons seq prev_hash x (y ∷ es) h in
      let (l, at, count, hash) = next_body-linked (seq + 1) x.entry_hash es y rest in
      (l, at, omega (arith, count), hash)

  -- An intact log stays intact when an actor appends to it whose signatures verify under its own key.
  pub append_entry-verify_chain :
      (sign : String → String → String) (actor : Actor) (action payload timestamp : String)
      (log : List AuditEntry)
      → ((h : String) → is_valid actor.public_key_hex h (sign actor.private_key h) ≡ true)
      → verify_chain digest is_valid log ≡ intact
      → verify_chain digest is_valid (append_entry digest sign actor action payload timestamp log)
        ≡ intact
  unfolding verify_chain append_entry next_body
  append_entry-verify_chain sign actor action payload timestamp [] signs h =
      cons-verify_from 0 genesis_hash _ []
        (record { seq_next = refl; linked = refl; hashed = refl; signed = signs _ })
        (unfold verify_from in refl)
  append_entry-verify_chain sign actor action payload timestamp (x ∷ es) signs h =
      let (l, at, count, hash) = next_body-linked 0 genesis_hash es x h in
      rw at (
        verify_from-snoc 0 genesis_hash (x ∷ es) _ h (record {
          seq_next = omega (arith, count);
          linked = hash;
          hashed = refl;
          signed = signs _;
        }))

  -- No two bodies at one place of the two logs have the same digest and are different.
  abbrev pub NoCollision : List AuditEntry → List AuditEntry → Type 0
  NoCollision (x ∷ xs) (y ∷ ys) =
      (digest x.body ≡ digest y.body → x.body ≡ y.body) × NoCollision xs ys
  NoCollision _ _ = Unit

  -- Two chains of as many entries that end in the same hash.
  same_end :
      (seq : ℕ) (p q : String) (xs ys : List AuditEntry)
      → NoCollision xs ys
      → verify_from digest is_valid seq p xs ≡ intact
      → verify_from digest is_valid seq q ys ≡ intact
      → length xs ≡ length ys
      → last_hash p xs ≡ last_hash q ys
      → (p ≡ q) × (map (λ (e : AuditEntry). e.body) xs ≡ map (λ (e : AuditEntry). e.body) ys)
  same_end seq p q [] [] inj h k len e = (e, refl)
  same_end seq p q [] (y ∷ ys) inj h k len e = absurd (omega arith)
  same_end seq p q (x ∷ xs) [] inj h k len e = absurd (omega arith)
  same_end seq p q (x ∷ xs) (y ∷ ys) inj h k len e =
      let (lx, rx) = verify_from-cons seq p x xs h in
      let (ly, ry) = verify_from-cons seq q y ys k in
      let (hashes, rest) =
        same_end (seq + 1) x.entry_hash y.entry_hash xs ys inj.1 rx ry (omega arith) e in
      let bodies = inj.0 (lx.hashed ∙ hashes ∙ sym ly.hashed) in
      (sym lx.linked ∙ ap (λ (b : Body). b.prev_hash) bodies ∙ ly.linked, (λ i. bodies i ∷ rest i))

  -- If the digest has no collision at a place of the two logs, two intact logs with as many entries and
  -- the same last hash hold the same bodies throughout: no entry of the one was edited in the other.
  pub verify_chain-determined :
      (xs ys : List AuditEntry)
      → NoCollision xs ys
      → verify_chain digest is_valid xs ≡ intact
      → verify_chain digest is_valid ys ≡ intact
      → length xs ≡ length ys
      → last_hash genesis_hash xs ≡ last_hash genesis_hash ys
      → map (λ (e : AuditEntry). e.body) xs ≡ map (λ (e : AuditEntry). e.body) ys
  unfolding verify_chain
  verify_chain-determined xs ys inj h k len e =
      (same_end 0 genesis_hash genesis_hash xs ys inj h k len e).1
