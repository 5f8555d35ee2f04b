-- ===== src/Tests/Agents.antt =====
-- Runs of kinetic_sdk/agent/agent.py.
use kinetic_sdk_agents.Prelude.{
  ℕ, ◌+◌, ◌≡◌, refl, sym, ap, Bool, true, false, eq_iff, ◌∙◌, none, some, [], ◌∷◌, str_eq,
  if◌then◌else◌, ok, arith,
}
use kinetic_sdk_agents.Prelude.Dict.{Dict, get}
use kinetic_sdk_agents.Prelude.Json.{null}
use kinetic_sdk_agents.Prelude.Sets.{has}
use kinetic_sdk_agents.Conversation.{
  Message, ConversationState, message, assistant, blocks, tool_use,
}
use kinetic_sdk_agents.Conversation.Replay.{
  IsReplayable, provided, message_tool_use_ids, message_tool_result_ids,
}
use kinetic_sdk_agents.Conversation.Replay.Round.{Apart}
use kinetic_sdk_agents.Agent.Batch.Replay.{execute_tool_calls-IsReplayable}
use kinetic_sdk_agents.Agent.{Agent, Config, Tool, ToolCall, ToolResult, transient, flash}
use kinetic_sdk_agents.Agent.Circuit.{breaker, record_results}
use kinetic_sdk_agents.Agent.Circuit.Laws.{Counts, failing_run, record_results-Counts}
use kinetic_sdk_agents.Agent.Gate.{execute_one, retry_transient_tool}
use kinetic_sdk_agents.Agent.Gate.Retries.{Ended, retry_transient_tool-Ended}
use kinetic_sdk_agents.Agent.Gate.Authority.{IsRegistry, Sound}
use kinetic_sdk_agents.Agent.Gate.Trace.{execute_one-Sound}
use kinetic_sdk_agents.Agent.Batch.{add_tool, execute_tool_calls}
use kinetic_sdk_agents.Agent.Routing.{Routing, new, classify_and_route}
use kinetic_sdk_agents.Agent.Routing.Laws.{IsValid, here, after, classified, reach-IsValid}

abbrev ls : Tool
ls = record {
  name = "ls";
  parameters = null;
  execution_policy = some (record {
    max_transient_retries = some 1;
    circuit_breaker_threshold = some 2;
    circuit_breaker_cooldown = 10;
  });
}

abbrev fails : ToolResult
fails = record { output = null; error = some "down"; failure_category = some transient }

-- The world counts what was done; "rm" wants a confirmation, and each call of a tool fails.
abbrev pub config : Config ℕ
config = record {
  check = λ name arguments. record {
    allowed = true;
    reason = "";
    requires_confirmation = str_eq name "rm";
  };
  before_tool_call = none;
  on_permission_check = none;
  after_tool_call = λ name arguments r w. w;
  run_tool = λ tool arguments w. (fails, w + 1);
  cancelled = λ w. (false, w);
  monotonic = λ w. (w, w + 1);
  validate_tool_input = λ schema arguments. [];
  validate_tool_inputs = true;
  has_checkpoint_manager = true;
  max_transient_retries = 0;
  tool_output_for_state = λ call r. "";
  digest = λ j. "";
  outcome = λ r. null;
}

abbrev pub registry : Dict Tool
registry = ("ls", ls) ∷ []

abbrev pub conversation : ConversationState
conversation = record { system_prompt = none; messages = []; max_messages = none; metadata = [] }

abbrev pub agent : Agent ℕ
agent = record {
  state = conversation;
  tools = registry;
  circuit_breakers = [];
  stuck_detector = none;
  stop_reason = none;
  pending_confirmation = none;
  pending_remaining_calls = [];
  trace = [];
  world = 0;
}

abbrev pub list_call : ToolCall
list_call = record { id = "1"; name = "ls"; arguments = null }

abbrev pub remove_call : ToolCall
remove_call = record { id = "2"; name = "rm"; arguments = null }

pub registry-IsRegistry : IsRegistry config registry
unfolding get
registry-IsRegistry name t found = go (str_eq "ls" name) refl found
  where
    go : (b : Bool) → str_eq "ls" name ≡ b → (if b then some ls else none) ≡ some t → t.name ≡ name
    go true same known =
        let unique : ls ≡ t = cc in sym (ap (λ x. x.name) unique) ∙ (eq_iff "ls" name).0 same
    go false other unknown = cc

pub agent-Sound : Sound config registry conversation agent
agent-Sound = record { same = refl; kept = refl; authority = tt }

-- The tool fails and is retried once; the removal then waits for a person.
execute_tool_calls_run :
    ((execute_tool_calls config (list_call ∷ remove_call ∷ []) agent).1 ≡ none)
    × ((execute_tool_calls config (list_call ∷ remove_call ∷ []) agent).0.world ≡ 2)
    × ((execute_tool_calls config (list_call ∷ remove_call ∷ []) agent).0.pending_remaining_calls
        ≡ remove_call ∷ [])
unfolding execute_tool_calls
execute_tool_calls_run = (refl, refl, refl)

execute_one-Sound_example :
    Sound config registry conversation (execute_one config list_call agent).0
execute_one-Sound_example =
    execute_one-Sound config registry conversation list_call agent registry-IsRegistry agent-Sound

-- A tool that stays down is called as often as there are retries.
retried_twice : (retry_transient_tool config 2 1 list_call ls null fails agent).0.world ≡ 2
unfolding retry_transient_tool
retried_twice = refl

retry_transient_tool-Ended_example :
    Ended config list_call ls null 2 1 agent fails
      (retry_transient_tool config 2 1 list_call ls null fails agent)
retry_transient_tool-Ended_example =
    retry_transient_tool-Ended config 2 1 list_call ls null fails agent

abbrev turn : Message
turn = message assistant (blocks (tool_use "1" "ls" null ∷ []))

abbrev asked : ConversationState
asked = record conversation { messages = turn ∷ [] }

abbrev asked_agent : Agent ℕ
asked_agent = record agent { state = asked }

turn_ids : (message_tool_result_ids turn ≡ []) × (message_tool_use_ids turn ≡ "1" ∷ [])
unfolding message_tool_result_ids message_tool_use_ids
turn_ids = (refl, refl)

new_ids : Apart (provided []) ("1" ∷ [])
unfolding provided has
new_ids a used asks = cc

list_call_ends : (execute_tool_calls config (list_call ∷ []) asked_agent).1 ≡ some true
unfolding execute_tool_calls
list_call_ends = refl

execute_tool_calls-IsReplayable_example :
    IsReplayable (execute_tool_calls config (list_call ∷ []) asked_agent).0.state.messages
execute_tool_calls-IsReplayable_example =
    execute_tool_calls-IsReplayable config registry (list_call ∷ []) [] turn asked asked_agent true
      registry-IsRegistry (record { same = refl; kept = refl; authority = tt }) refl refl
      (record { backed = tt; answered = tt; fresh = tt }) turn_ids.0 turn_ids.1 (refl, tt) new_ids
      list_call_ends

abbrev rm : Tool
rm = record { name = "rm"; parameters = null; execution_policy = none }

abbrev with_rm : Agent ℕ
with_rm = record agent { tools = ("ls", ls) ∷ ("rm", rm) ∷ [] }

add_rm : add_tool rm agent ≡ ok with_rm
unfolding add_tool
add_rm = refl

no_breaker : breaker "ls" [] ≡ (0, none)
unfolding breaker get
no_breaker = refl

record_results-Counts_example :
    Counts 2
      (failing_run (fails ∷ fails ∷ []))
      (breaker "ls" (record_results config "ls" ls (fails ∷ fails ∷ []) agent).circuit_breakers)
record_results-Counts_example =
    record_results-Counts config "ls" ls 2 (fails ∷ fails ∷ []) agent refl (omega arith) no_breaker

abbrev tripped : Agent ℕ
tripped = record agent { circuit_breakers = ("ls", (2, some 12)) ∷ [] }

tripped_breaker : (breaker "ls" tripped.circuit_breakers).1 ≡ some 12
unfolding breaker get
tripped_breaker = refl

abbrev quick : Routing
quick = classify_and_route (some flash) (new none)

reach-IsValid_example : IsValid quick
reach-IsValid_example =
    reach-IsValid none quick (after (new none) quick here (classified (some flash) (new none)))
