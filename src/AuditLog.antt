-- ===== src/AuditLog.antt =====
-- infrastructure/cognitive_core/identity/audit_log.py: the hash-chained, signed log. The file is the
-- list of its entries. SHA-256 of the JSON of a body, and the signatures, are parameters.
pub mod Chain
mod Tests
use reus.Prelude.{
  ℕ, zero, suc, ◌+◌, Bool, true, false, not, String, Option, none, some, List, [], ◌∷◌, ◌++◌, ◌==◌,
  str_eq, if◌then◌else◌, get_last?,
}

-- What `_hashable_body` takes of an entry.
pub record Body : Type 0 where
  pub seq : ℕ
  pub timestamp : String
  pub actor_id : String
  pub actor_public_key_hex : String
  pub action : String
  pub payload : String
  pub prev_hash : String

-- `AuditEntry`
pub record AuditEntry : Type 0 where
  pub body : Body
  pub entry_hash : String
  pub signature_hex : String

-- The part of a `ComponentIdentity` that the log uses.
pub record Actor : Type 0 where
  pub component_id : String
  pub public_key_hex : String
  pub private_key : String

abbrev pub genesis_hash : String
genesis_hash = "0000000000000000000000000000000000000000000000000000000000000000"

-- The entry that an append hashes, without its hash and signature.
unfoldable pub next_body : Option AuditEntry → Actor → String → String → String → Body
next_body none actor action payload timestamp = record {
  seq = 0;
  timestamp = timestamp;
  actor_id = actor.component_id;
  actor_public_key_hex = actor.public_key_hex;
  action = action;
  payload = payload;
  prev_hash = genesis_hash;
}
next_body (some last) actor action payload timestamp = record {
  seq = last.body.seq + 1;
  timestamp = timestamp;
  actor_id = actor.component_id;
  actor_public_key_hex = actor.public_key_hex;
  action = action;
  payload = payload;
  prev_hash = last.entry_hash;
}

unfoldable pub append_entry :
    (digest : Body → String)
    → (sign : String → String → String) → Actor
    → (action payload timestamp : String) → List AuditEntry
    → List AuditEntry
append_entry digest sign actor action payload timestamp log =
    let b = next_body (get_last? log) actor action payload timestamp in
    log
    ++ record { body = b; entry_hash = digest b; signature_hex = sign actor.private_key (digest b) }
      ∷ []

-- What `verify_chain` finds: a chain that is right, or the reason of an AuditChainCorruptedError.
pub data Verdict : Type 0 where
  intact out_of_order broken_chain modified invalid_signature : Verdict

unfoldable pub check_entry :
    (digest : Body → String)
    → (is_valid : String → String → String → Bool) → ℕ
    → String
    → AuditEntry
    → Verdict
check_entry digest is_valid expected_seq prev_hash e =
    if not (e.body.seq == expected_seq)
    then out_of_order
    else if not (str_eq e.body.prev_hash prev_hash)
    then broken_chain
    else if not (str_eq (digest e.body) e.entry_hash)
    then modified
    else if not (is_valid e.body.actor_public_key_hex e.entry_hash e.signature_hex)
    then invalid_signature
    else intact

-- The loop of `verify_chain`.
unfoldable pub verify_from :
    (digest : Body → String)
    → (is_valid : String → String → String → Bool) → ℕ
    → String
    → List AuditEntry
    → Verdict
verify_from digest is_valid expected_seq prev_hash [] = intact
verify_from digest is_valid expected_seq prev_hash (e ∷ es) =
    elim (check_entry digest is_valid expected_seq prev_hash e) [
      | intact ↦ verify_from digest is_valid (expected_seq + 1) e.entry_hash es
      | out_of_order ↦ out_of_order
      | broken_chain ↦ broken_chain
      | modified ↦ modified
      | invalid_signature ↦ invalid_signature
    ]

unfoldable pub verify_chain :
    (digest : Body → String)
    → (is_valid : String → String → String → Bool) → List AuditEntry
    → Verdict
verify_chain digest is_valid log = verify_from digest is_valid 0 genesis_hash log
