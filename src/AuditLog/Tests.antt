-- ===== src/AuditLog/Tests.antt =====
-- A log of two entries, with a digest and a signature that are easy to follow.
use reus.Prelude.{◌≡◌, refl, Bool, String, List, [], ◌∷◌, map, str_eq, eq_refl}
use reus.AuditLog.{
  Body, AuditEntry, Actor, next_body, append_entry, intact, modified, check_entry, verify_from,
  verify_chain,
}
use reus.AuditLog.Chain.{append_entry-verify_chain, verify_chain-determined}

program : Unit {0}
unfolding next_body append_entry check_entry verify_from verify_chain
program = tt

-- The digest of a body is its payload, and a signature is the text that it signs.
abbrev digest : Body → String
digest b = b.payload

abbrev sign : String → String → String
sign key text = text

abbrev is_valid : String → String → String → Bool
is_valid key text signature = str_eq signature text

abbrev actor : Actor
actor = record { component_id = "c"; public_key_hex = "pk"; private_key = "sk" }

abbrev one : List AuditEntry
one = append_entry digest sign actor "start" "p" "t0" []

abbrev two : List AuditEntry
two = append_entry digest sign actor "stop" "q" "t1" one

two_intact : verify_chain digest is_valid two ≡ intact
unfolding program
two_intact = refl

abbrev edit : List AuditEntry → List AuditEntry
edit [] = []
edit (e ∷ es) = record e { body = record e.body { payload = "x" } } ∷ es

two_edited : verify_chain digest is_valid (edit two) ≡ modified
unfolding program
two_edited = refl

append_entry-verify_chain_example :
    verify_chain digest is_valid (append_entry digest sign actor "stop" "q" "t1" one) ≡ intact
unfolding program
append_entry-verify_chain_example =
    append_entry-verify_chain digest is_valid sign actor "stop" "q" "t1" one (λ h. eq_refl h) refl

verify_chain-determined_example :
    map (λ (e : AuditEntry). e.body) two ≡ map (λ (e : AuditEntry). e.body) two
unfolding program
verify_chain-determined_example =
    verify_chain-determined digest is_valid two two ((λ h. refl), ((λ h. refl), tt)) refl refl refl
      refl

-- Nothing shows that the log was cut off at its end.
one_intact : verify_chain digest is_valid one ≡ intact
unfolding program
one_intact = refl
