-- ===== src/Agent.antt =====
-- kinetic_sdk/agent/agent.py: the agent that runs tool calls for a model. The records here are the
-- data that its methods share; the methods are in the children. Everything outside the repository
-- (the model, the tools' own code, hooks, other threads, clocks) is a state `W` that the calls of
-- the record `Config` read and change, and `Config`'s other functions are the pluggable strategies.
pub mod Routing
pub mod Circuit
pub mod Gate
pub mod Batch
pub mod Loop
use kinetic_sdk_agents.Prelude.{
  ℕ, String, Bool, true, false, not, ◌&&◌, Option, none, some, List, [], ◌∷◌, str_eq,
}
use kinetic_sdk_agents.Prelude.Dict.{Dict}
use kinetic_sdk_agents.Prelude.Json.{Json}
use kinetic_sdk_agents.Conversation.{ConversationState}
use kinetic_sdk_agents.Stuck.{StuckDetector}

-- agent/modes.py
pub data AgentMode : Type 0 where
  flash max_mode : AgentMode

-- llm/client.py
pub record ToolCall : Type 0 where
  pub id : String
  pub name : String
  pub arguments : Json

-- tool/base.py
pub data ToolFailureCategory : Type 0 where
  recoverable_input transient permanent : ToolFailureCategory

-- The cooldown and the clock are in the clock's own ticks.
pub record ToolExecutionPolicy : Type 0 where
  pub max_transient_retries : Option ℕ
  pub circuit_breaker_threshold : Option ℕ
  pub circuit_breaker_cooldown : ℕ

-- The fields that control flow reads: `metadata`, `duration_seconds` and `artifacts` are left out.
pub record ToolResult : Type 0 where
  pub output : Json
  pub error : Option String
  pub failure_category : Option ToolFailureCategory

-- `self.error is not None and self.error != ""`
abbrev pub has_text : Option String → Bool
has_text none = false
has_text (some e) = not (str_eq e "")

unfoldable pub is_error : ToolResult → Bool
is_error r = has_text r.error

pub record Tool : Type 0 where
  pub name : String
  pub parameters : Json
  pub execution_policy : Option ToolExecutionPolicy

-- security/policy.py
pub record PermissionDecision : Type 0 where
  pub allowed : Bool
  pub reason : String
  pub requires_confirmation : Bool

-- hooks/base.py; `tool_input` is `modified_context["tool_input"]` where that is an object.
pub record HookResult : Type 0 where
  pub should_continue : Bool
  pub tool_input : Option Json

-- What the agent does that others see, newest first in a trace: the audit log's entries, the
-- confirmations that hooks gave, the calls of `tool.execute`, and lifecycle events.
pub data Action : Type 0 where
  logged_call : (name : String) (arguments : Json) (decision : PermissionDecision) → Action
  logged_denial : (name : String) (arguments : Json) (reason : String) → Action
  logged_result : (name : String) (result : ToolResult) → Action
  confirmed : (name : String) (arguments : Json) → Action
  invoked : (name : String) (arguments : Json) → Action
  retried : (id : String) (attempt : ℕ) → Action
  emitted : (type id : String) → Action

pub record Config (W : Type 0) : Type 0 where
  -- `permission_policy.check`, which must be pure
  pub check : String → Json → PermissionDecision
  -- the results of the BEFORE_TOOL_CALL hooks; `none` if no registry is configured
  pub before_tool_call : Option (String → Json → W → List HookResult × W)
  -- the results of the ON_PERMISSION_CHECK hooks; `none` if no hook is registered for it
  pub on_permission_check : Option (String → Json → PermissionDecision → W → List HookResult × W)
  pub after_tool_call : String → Json → ToolResult → W → W
  -- one call of `tool.execute` under the tool's timeout (`_run_tool`, `_invoke_tool`)
  pub run_tool : Tool → Json → W → ToolResult × W
  -- `_cancel_event.is_set()`, which other threads change
  pub cancelled : W → Bool × W
  -- `time.monotonic()`
  pub monotonic : W → ℕ × W
  pub validate_tool_input : Json → Json → List String
  pub validate_tool_inputs : Bool
  pub has_checkpoint_manager : Bool
  pub max_transient_retries : ℕ
  -- `_tool_output_for_state`, and the digests of the stuck detector
  pub tool_output_for_state : ToolCall → ToolResult → String
  pub digest : Json → String
  pub outcome : ToolResult → Json

-- An open circuit's deadline stands beside its count of consecutive failures.
abbrev pub Breakers : Type 0
Breakers = Dict (ℕ × Option ℕ)

pub record Agent (W : Type 0) : Type 0 where
  pub state : ConversationState
  pub tools : Dict Tool
  pub circuit_breakers : Breakers
  pub stuck_detector : Option StuckDetector
  pub stop_reason : Option String
  pub pending_confirmation : Option (ToolCall × Json × PermissionDecision)
  pub pending_remaining_calls : List ToolCall
  pub trace : List Action
  pub world : W

abbrev pub emit : {W : Type 0} → Action → Agent W → Agent W
emit a s = record s { trace = a ∷ s.trace }
