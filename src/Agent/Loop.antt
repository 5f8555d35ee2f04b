-- ===== src/Agent/Loop.antt =====
-- kinetic_sdk/agent/agent.py, `_run_loop` with `_maybe_compact_context`, `_call_llm` (the plain
-- call), `_record_usage`, `_budget_stop_message`, `_assistant_content`, `_check_structured`,
-- `_verify_final_answer` and `_drain_inbox`: the turns of a run.
-- The model, the hooks' bodies, the verifier and the stores are fields of `Loop`.
pub mod Turn
pub mod Bounds
pub mod Replay
pub mod Answers
pub mod Histories
pub mod Manager
use Prim.Native.String.{◌++◌ as str_append}
use kinetic_sdk_agents.Prelude.{
  ℕ, zero, suc, ◌+◌, String, Bool, true, false, Option, none, some, List, [], ◌∷◌, if◌then◌else◌,
  ltb, str_eq, Result, ok, err,
}
use kinetic_sdk_agents.Conversation.{
  Message, Block, Content, ConversationState, text, tool_use, plain, blocks, for_llm, add_assistant,
  add_user_message,
}
use kinetic_sdk_agents.Budget.Run.{RunBudget, Usage, check, record_usage}
use kinetic_sdk_agents.Agent.{Agent, Config, ToolCall, emitted, emit}
use kinetic_sdk_agents.Agent.Batch.Parallel.{Pool}
use kinetic_sdk_agents.Agent.Routing.{Routing, maybe_escalate}

-- llm/client.py: the fields of `LLMResponse` that the loop reads.
pub record LlmResponse : Type 0 where
  pub content : String
  pub tool_calls : List ToolCall
  pub usage : Option Usage

-- What a run's context manager offers (`ContextManager`, with the model's context limit).
pub record ContextManager : Type 0 where
  pub should_compact : ConversationState → Bool
  pub compact : ConversationState → ConversationState

-- What the schema of a structured answer says of a final text: it fits; it fits and its evidence
-- does not prove the task; it does not fit. The text is the correction that is asked for.
pub data Checked : Type 0 where
  fits : Checked
  unproven invalid : (correction : String) → Checked

-- What an answer verifier gives: an exception, no proper verdict, or a verdict with feedback.
pub data Verdict : Type 0 where
  raised malformed : Verdict
  judged : (accepted : Bool) (feedback : String) → Verdict

pub record Loop (W : Type 0) : Type 0 where
  pub config : Config W
  -- `parallel_tool_execution`, and the thread pool of such a run
  pub parallel : Bool
  pub pool : Pool W
  pub context_manager : Option ContextManager
  -- `_pause_event.wait()`
  pub wait : W → W
  -- the BEFORE_LLM_CALL hooks with `_system_prompt_append`, and the AFTER_LLM_CALL hooks
  pub before_llm_call : W → Option String × W
  pub after_llm_call : LlmResponse → W → W
  -- `llm.chat`; `none` is an exception
  pub chat : Option String → List Message → W → Option LlmResponse × W
  pub check_final_answer : Option (String → Checked)
  pub answer_verifier : Option (String → W → Verdict × W)
  -- the messages that `_inbox` holds up to when it is found empty
  pub inbox : W → List String × W
  -- `_persist_state`, which never fails
  pub persist : ConversationState → W → W

-- The agent and the loop's variables. `asked` keeps the histories that the model was asked with,
-- the newest first.
pub record Run (W : Type 0) : Type 0 where
  pub agent : Agent W
  pub routing : Routing
  pub run_budget : Option RunBudget
  pub final_text : String
  pub iteration : ℕ
  pub escalated : Bool
  pub retries_left : ℕ
  pub verification_retries_left : ℕ
  pub rejected_answer : Option (String × String)
  pub asked : List (List Message)

-- How the loop is left: a return, AnswerNotVerifiedError, an exception of the model's client, or
-- PendingConfirmationError.
pub data Outcome : Type 0 where
  returned : (final_text : String) → Outcome
  not_verified : (answer feedback : String) → Outcome
  llm_failed : Outcome
  waiting : Outcome

-- `_assistant_content`
abbrev pub use_blocks : List ToolCall → List Block
use_blocks [] = []
use_blocks (call ∷ calls) = tool_use call.id call.name call.arguments ∷ use_blocks calls

abbrev pub text_block : String → List Block → List Block
text_block content bs = if str_eq content "" then bs else text content ∷ bs

abbrev pub or_plain : String → List Block → Content
or_plain content [] = plain content
or_plain content (b ∷ bs) = blocks (b ∷ bs)

unfoldable pub assistant_content : LlmResponse → Content
assistant_content response =
    or_plain response.content (text_block response.content (use_blocks response.tool_calls))

-- `f"{system}\n\n{system_append}" if system else system_append`
abbrev pub join_prompts : Bool → Bool → Option String → String → String → Option String
join_prompts true none_yet system s extra = system
join_prompts false true system s extra = some extra
join_prompts false false system s extra = some (str_append s (str_append "\n\n" extra))

abbrev pub or_empty_text : Option String → String
or_empty_text none = ""
or_empty_text (some s) = s

abbrev pub with_append : Option String → Option String → Option String
with_append system extra =
    join_prompts (str_eq (or_empty_text extra) "") (str_eq (or_empty_text system) "") system
      (or_empty_text system) (or_empty_text extra)

abbrev pub charged : Option RunBudget → Option Usage → Option RunBudget
charged none usage = none
charged (some b) usage = some (record_usage usage b)

-- `_budget_stop_message`, but for the message
abbrev pub in_budget : Option RunBudget → Bool
in_budget none = true
in_budget (some b) = elim (check b) [ ok _ ↦ true | err e ↦ false ]

-- `_verify_final_answer`
abbrev pub verdict_of : Verdict → Bool × String
verdict_of raised = (true, "")
verdict_of malformed = (false, "Verifier returned an invalid verdict.")
verdict_of (judged accepted feedback) = (accepted, feedback)

abbrev pub verification_message : String → String
verification_message feedback =
    str_append
      "The proposed final answer was not verified. Correct it using the available evidence. Verifier feedback: "
      (if str_eq feedback "" then "No details provided." else feedback)

module _ {W : Type 0} where
  abbrev pub with_world : W → Run W → Run W
  with_world w r = record r { agent = record r.agent { world = w } }

  abbrev pub with_state : ConversationState → Run W → Run W
  with_state s r = record r { agent = record r.agent { state = s } }

  abbrev pub say : String → Run W → Run W
  say event r = record r { agent = emit (emitted event "") r.agent }

  abbrev pub user_says : String → Run W → Run W
  user_says body r = with_state (add_user_message body r.agent.state) r

  abbrev pub stop : Outcome → Run W → Run W × Option Outcome
  stop o r = (r, some o)

  -- `iteration += 1` and `continue`
  abbrev pub again : Run W → Run W × Option Outcome
  again r = (record r { iteration = r.iteration + 1 }, none)

  -- `escalated = self._maybe_escalate(...)`
  abbrev pub after_escalation : Bool → Run W → Run W
  after_escalation triggered r =
      let (routing, escalated) = maybe_escalate r.iteration triggered r.escalated r.routing in
      record r { routing = routing; escalated = escalated }
