-- ===== src/Agent/Tests.antt =====
-- One agent that runs, fails once and is terminated.
use reus.Prelude.{◌≡◌, refl, true, false, none, [], ◌∷◌}
use reus.Prelude.Sets.{contains, difference}
use reus.Agent.{
  Agent, created, terminated, allowed, agent, checked, record_operation, value, transition_to,
  record_request,
}
use reus.Agent.Life.{here, next, transition, request, Sound, Life-Sound, Life-terminated}

program : Unit {0}
unfolding contains difference allowed agent checked record_operation value transition_to
    record_request
program = tt

abbrev new : Agent
new = record {
  agent_id = "1";
  name = "n";
  permissions = "read:memory" ∷ [];
  goals = [];
  state = created;
  operation_log = [];
  metrics = record { requests_count = 0; total_latency_ms = 0; errors_count = 0 };
}

abbrev failed_once : Agent
failed_once = record_request 20 false new

abbrev ended : Agent
ended = record failed_once {
  state = terminated;
  operation_log =
      record { timestamp = 9; action = "state_transition"; result = "created->terminated" } ∷ [];
}

refused : agent "1" "n" ("shell" ∷ []) [] ≡ none
unfolding program
refused = refl

Life-Sound_example : Sound ended
unfolding program
Life-Sound_example =
    Life-Sound "1" "n" ("read:memory" ∷ []) [] new ended refl
      (next (next {b = new} here (request 20 false refl)) (transition 9 terminated refl))

Life-terminated_example : (record_request 5 true ended).state ≡ terminated
unfolding program
Life-terminated_example =
    Life-terminated ended (record_request 5 true ended) (next here (request 5 true refl)) refl
