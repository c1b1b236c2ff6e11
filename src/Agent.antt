-- ===== src/Agent.antt =====
-- domain/entities.py: the agent, its life cycle, permissions and counters. Latencies are numbers of a
-- unit, the clock is a parameter, and the metadata of an operation is left out.
pub mod Life
mod Tests
use reus.Prelude.{
  ℕ, ◌+◌, Bool, true, false, String, Option, none, some, List, [], ◌∷◌, ◌++◌, if◌then◌else◌,
}
use reus.Prelude.Sets.{difference}
use Prim.Native.String.{◌++◌ as str_append}

pub data AgentState : Type 0 where
  created idle running paused error terminated : AgentState

-- `ALLOWED_TRANSITIONS`
unfoldable pub allowed : AgentState → AgentState → Bool
allowed created idle = true
allowed created error = true
allowed created terminated = true
allowed idle running = true
allowed idle paused = true
allowed idle terminated = true
allowed idle error = true
allowed running idle = true
allowed running paused = true
allowed running error = true
allowed running terminated = true
allowed paused running = true
allowed paused idle = true
allowed paused terminated = true
allowed paused error = true
allowed error idle = true
allowed error terminated = true
allowed _ _ = false

-- `ALLOWED_PERMISSIONS`
abbrev pub allowed_permissions : List String
allowed_permissions =
    "read:memory" ∷ "write:memory" ∷ "invoke:model" ∷ "invoke:tool" ∷ "read:metrics"
    ∷ "network:outbound" ∷ "spawn:subagent" ∷ []

pub record OperationRecord : Type 0 where
  pub timestamp : ℕ
  pub action : String
  pub result : String

pub record PerformanceMetrics : Type 0 where
  pub requests_count : ℕ
  pub total_latency_ms : ℕ
  pub errors_count : ℕ

pub record Agent : Type 0 where
  pub agent_id : String
  pub name : String
  pub permissions : List String
  pub goals : List String
  pub state : AgentState
  pub operation_log : List OperationRecord
  pub metrics : PerformanceMetrics

unfoldable pub checked : List String → Agent → Option Agent
checked [] a = some a
checked (p ∷ ps) a = none

-- The constructor with its `__post_init__`; `none` is PermissionDenied.
unfoldable pub agent : String → String → List String → List String → Option Agent
agent agent_id name permissions goals =
    checked (difference permissions allowed_permissions) (record {
      agent_id = agent_id;
      name = name;
      permissions = permissions;
      goals = goals;
      state = created;
      operation_log = [];
      metrics = record { requests_count = 0; total_latency_ms = 0; errors_count = 0 };
    })

unfoldable pub record_operation : (now : ℕ) → String → String → Agent → Agent
record_operation now action result a = record a {
  operation_log =
      a.operation_log ++ record { timestamp = now; action = action; result = result } ∷ [];
}

unfoldable pub value : AgentState → String
value created = "created"
value idle = "idle"
value running = "running"
value paused = "paused"
value error = "error"
value terminated = "terminated"

-- `none` is InvalidStateTransition, raised before anything changes.
unfoldable pub transition_to : (now : ℕ) → AgentState → Agent → Option Agent
transition_to now target a =
    if allowed a.state target
    then (let text = str_append (value a.state) (str_append "->" (value target)) in
        some (record (record_operation now "state_transition" text a) { state = target }))
    else none

unfoldable pub record_request : (latency_ms : ℕ) → (success : Bool) → Agent → Agent
record_request latency_ms success a = record a {
  metrics = record {
    requests_count = a.metrics.requests_count + 1;
    total_latency_ms = a.metrics.total_latency_ms + latency_ms;
    errors_count = (if success then a.metrics.errors_count else a.metrics.errors_count + 1);
  };
}
