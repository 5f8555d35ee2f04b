-- ===== src/Context/Compact.antt =====
-- `compact` and the message that stands in for the cut span.
pub mod Replay
pub mod Shape
use Prim.Native.String.{◌++◌ as str_append}
use kinetic_sdk_agents.Prelude.{
  ℕ, zero, suc, ◌+◌, ◌-◌, String, Bool, true, false, ◌&&◌, ◌||◌, not, Option, none, some, List, [],
  ◌∷◌, ◌++◌, ltb, leb, if◌then◌else◌, length, take, drop, ℕ_discrete, String-discrete,
}
use kinetic_sdk_agents.Prelude.Text.{decimal}
use kinetic_sdk_agents.Prelude.Json.{Json}
use kinetic_sdk_agents.Prelude.Dict.{get, put}
use kinetic_sdk_agents.Conversation.{
  Message, ConversationState, Compaction, truncated, summary, user, plain, Message-discrete,
}
use kinetic_sdk_agents.Conversation.Replay.{message_has_tool_content}
use kinetic_sdk_agents.Context.{Manager, Codec, ContextBudget}
use kinetic_sdk_agents.Context.Trim.{truncate_oversized_tool_results, compact_tool_output_to_budget}
use kinetic_sdk_agents.Context.Tail.{tail_start}

abbrev pub same_messages : Discrete (List Message)
same_messages = hlevel Message-discrete

-- `_elided_message` of `SimpleTruncateContextManager`
unfoldable pub placeholder : List Message → ℕ → Message
unfolding decimal
placeholder elided removed = record {
  role = user;
  content =
      plain (str_append "[" (str_append (decimal removed) " tin nhắn trước đó đã được rút gọn]"));
  compaction = some (truncated removed);
}

-- `_elided_message` of `SummarizingContextManager`, over what `_summarize` returned: the empty text
-- stands for no summarizer and for each of its failures.
unfoldable pub summary_message : (List Message → String) → List Message → ℕ → Message
unfolding decimal placeholder
summary_message summarize elided removed = elim (summarize elided) [
  | String.[] ↦ placeholder elided removed
  | String.◌∷◌ c s ↦ record {
    role = user;
    content = plain (
        str_append "[" (
          str_append (decimal removed)
            (str_append " tin nhắn trước đó đã được tóm tắt: " (str_append (String.◌∷◌ c s) "]"))));
    compaction = some (summary removed);
  }
]

abbrev pub first_has_tools : List Message → Bool
first_has_tools [] = false
first_has_tools (x ∷ xs) = message_has_tool_content x

-- The head is the first message, if the tail leaves it and it has no tool block.
abbrev pub head_end : List Message → ℕ → ℕ
head_end ms tail = if ltb 0 tail && not (first_has_tools ms) then 1 else 0

module _ (codec : Codec) (m : Manager) (elided_message : List Message → ℕ → Message) where
  -- The message-level cut, past the budget step.
  unfoldable pub cut_middle : List Message → List Message
  unfolding truncate_oversized_tool_results tail_start
  cut_middle ms =
      let tail : ℕ = tail_start codec m ms in
      let head : ℕ = head_end ms tail in
      let removed : ℕ = tail - head in
      if leb (length ms) 2 || leb removed 0
      then truncate_oversized_tool_results m ms
      else truncate_oversized_tool_results m
          (take head ms ++ (elided_message (drop head (take tail ms)) removed ∷ drop tail ms))

  -- The tool output is reduced to its budget first; a history that this changed is returned.
  abbrev pub within_budget : List Message → Option ContextBudget → Option ℕ → List Message
  within_budget ms (some b) (some limit) =
      let reduced : List Message = compact_tool_output_to_budget m limit b ms in
      elim (same_messages reduced ms) [ yes _ ↦ cut_middle ms | no _ ↦ reduced ]
  within_budget ms (some b) none = cut_middle ms
  within_budget ms none limit = cut_middle ms

  -- What `_elided_message` is asked to stand for, where it is.
  unfoldable pub cut_span : List Message → Option (List Message × ℕ)
  unfolding tail_start
  cut_span ms =
      let tail : ℕ = tail_start codec m ms in
      let head : ℕ = head_end ms tail in
      let removed : ℕ = tail - head in
      if leb (length ms) 2 || leb removed 0 then none else some (drop head (take tail ms), removed)

  abbrev pub span_within_budget :
      List Message → Option ContextBudget → Option ℕ → Option (List Message × ℕ)
  span_within_budget ms (some b) (some limit) =
      elim (same_messages (compact_tool_output_to_budget m limit b ms) ms) [
        | yes _ ↦ cut_span ms
        | no _ ↦ none
      ]
  span_within_budget ms (some b) none = cut_span ms
  span_within_budget ms none limit = cut_span ms

  unfoldable pub compact : ConversationState → ConversationState
  unfolding cut_middle compact_tool_output_to_budget
  compact s = record s { messages = within_budget s.messages m.budget m.budget_context_limit }

-- `_progressive_result`, which a summary of the cut span may leave, from the one in the metadata.
abbrev pub progressed :
    (Option Json → List Message → Option Json)
    → Option Json
    → Option (List Message × ℕ)
    → Option Json
progressed structured previous none = none
progressed structured previous (some (elided, removed)) = structured previous elided

abbrev pub with_summary : Option Json → ConversationState → ConversationState
with_summary none s = s
with_summary (some v) s = record s { metadata = put "structured_summary" v s.metadata }

-- `SummarizingContextManager.compact`. What the summarizer says, and the structured summary that it
-- leaves, depend on the earlier one in the metadata (`StructuredSummary.from_value` included).
unfoldable pub compact_summarizing :
    Codec
    → Manager
    → (Option Json → List Message → String)
    → (Option Json → List Message → Option Json)
    → ConversationState
    → ConversationState
unfolding compact cut_span compact_tool_output_to_budget summary_message get put
compact_summarizing codec m summarize structured s =
    let previous = get "structured_summary" s.metadata in
    with_summary
      (progressed structured previous (
        span_within_budget codec m (summary_message (summarize previous)) s.messages m.budget
          m.budget_context_limit))
      (compact codec m (summary_message (summarize previous)) s)
