-- ===== src/Agent/Life.antt =====
-- The life of an agent of domain/entities.py: any sequence of its operations.
use reus.Prelude.{
  ℕ, ◌≤◌, ◌≡◌, refl, ap, subst, ◌∙◌, Bool, String, some, List, [], ◌∷◌, arith, some-inj,
}
use reus.Prelude.Sets.{difference}
use reus.Agent.{
  Agent, AgentState, terminated, allowed, allowed_permissions, agent, checked, record_operation,
  transition_to, record_request,
}

-- One operation that succeeds.
pub data Step (a b : Agent) : Type 0 where
  transition : (now : ℕ) (target : AgentState) → transition_to now target a ≡ some b → Step a b
  operation :
      (now : ℕ) (action result : String) → b ≡ record_operation now action result a → Step a b
  request : (latency_ms : ℕ) (success : Bool) → b ≡ record_request latency_ms success a → Step a b

pub data Life (a : Agent) : Agent → Type 0 where
  here : Life a a
  next : {b c : Agent} → Life a b → Step b c → Life a c

pub record Sound (a : Agent) : Type 0 where
  pub permitted : difference a.permissions allowed_permissions ≡ []
  pub errors : a.metrics.errors_count ≤ a.metrics.requests_count

pub record Follows (a b : Agent) : Type 0 where
  pub permissions : b.permissions ≡ a.permissions
  pub errors :
      a.metrics.errors_count ≤ a.metrics.requests_count
      → b.metrics.errors_count ≤ b.metrics.requests_count
  pub ended : a.state ≡ terminated → b.state ≡ terminated

Step-Follows : {a b : Agent} → Step a b → Follows a b
unfolding transition_to allowed record_operation record_request
Step-Follows {a} {b} (transition now target e) = record {
  permissions = ground arith;
  errors = λ h. ground arith;
  ended = λ h. ground arith;
}
Step-Follows {a} {b} (operation now action result e) = record {
  permissions = ground arith;
  errors = λ h. ground arith;
  ended = λ h. ground arith;
}
Step-Follows {a} {b} (request latency_ms success e) = record {
  permissions = ground arith;
  errors = λ h. ground arith;
  ended = λ h. ground arith;
}

checked-Sound :
    (ps : List String) (x a : Agent)
    → difference x.permissions allowed_permissions ≡ ps
    → x.metrics.errors_count ≤ x.metrics.requests_count
    → checked ps x ≡ some a
    → Sound a
unfolding checked
checked-Sound [] x a none_left fewer e =
    subst Sound (some-inj e) (record { permitted = none_left; errors = fewer })
checked-Sound (p ∷ ps) x a some_left fewer e = cc

-- From the construction of an agent on, through any sequence of operations, its permissions stay in
-- the allowed set and it counts no more errors than requests.
pub Life-Sound :
    (agent_id name : String) (permissions goals : List String) (a b : Agent)
    → agent agent_id name permissions goals ≡ some a
    → Life a b
    → Sound b
unfolding agent checked
Life-Sound agent_id name permissions goals a b made here =
    checked-Sound (difference permissions allowed_permissions) _ b refl (omega arith) made
Life-Sound agent_id name permissions goals a b made (next l s) =
    let before = Life-Sound agent_id name permissions goals a _ made l in
    let f = Step-Follows s in
    record {
      permitted = ap (λ p. difference p allowed_permissions) f.permissions ∙ before.permitted;
      errors = f.errors before.errors;
    }

-- A terminated agent stays terminated.
pub Life-terminated : (a b : Agent) → Life a b → a.state ≡ terminated → b.state ≡ terminated
Life-terminated a b here h = h
Life-terminated a b (next l s) h = (Step-Follows s).ended (Life-terminated a _ l h)
