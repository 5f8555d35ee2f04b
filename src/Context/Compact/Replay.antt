-- ===== src/Context/Compact/Replay.antt =====
-- Compaction keeps a history replayable.
use kinetic_sdk_agents.Prelude.{
  ℕ, ◌-◌, ◌≡◌, refl, inl, inr, false, ◌&&◌, ◌||◌, not, Bool-cases, Option, none, some, List, [],
  ◌∷◌, ◌++◌, ltb, leb, length, take, arith, String,
}
use kinetic_sdk_agents.Conversation.{Message, ConversationState}
use kinetic_sdk_agents.Conversation.Replay.{
  IsReplayable, message_has_tool_content, message_tool_use_ids, message_tool_result_ids,
}
use kinetic_sdk_agents.Conversation.Replay.Laws.{drop-IsReplayable, cons-IsReplayable}
use kinetic_sdk_agents.Conversation.Replay.SameIds.{IsReplayable-same}
use kinetic_sdk_agents.Context.{Manager, Codec, ContextBudget}
use kinetic_sdk_agents.Context.Trim.{compact_tool_output_to_budget}
use kinetic_sdk_agents.Context.Trim.Ids.{truncate_oversized_same, compact_tool_output_same}
use kinetic_sdk_agents.Context.Tail.{tail_start}
use kinetic_sdk_agents.Context.Tail.Boundary.{IsClosed, tail_start-IsClosed}
use kinetic_sdk_agents.Context.Compact.{
  placeholder, summary_message, head_end, cut_middle, within_budget, compact, same_messages,
}

-- The message that stands in for the cut span carries no tool block.
abbrev pub IsPlainElider : (List Message → ℕ → Message) → Type 0
IsPlainElider elide = (ms : List Message) (n : ℕ) → message_has_tool_content (elide ms n) ≡ false

pub placeholder-IsPlainElider : IsPlainElider placeholder
unfolding placeholder message_has_tool_content message_tool_use_ids message_tool_result_ids
placeholder-IsPlainElider ms n = refl

pub summary_message-IsPlainElider :
    (summarize : List Message → String) → IsPlainElider (summary_message summarize)
unfolding summary_message message_has_tool_content message_tool_use_ids message_tool_result_ids
summary_message-IsPlainElider summarize ms n = go (summarize ms) refl
  where
    go :
        (t : String)
        → summarize ms ≡ t
        → message_has_tool_content (summary_message summarize ms n) ≡ false
    go String.[] e = rw (e, summary_message) refl
    go (String.◌∷◌ c s) e = rw (e, summary_message) refl

-- The head is kept only without tool blocks.
head-IsReplayable :
    (ms rest : List Message) (tail : ℕ)
    → IsReplayable rest
    → IsReplayable (take (head_end ms tail) ms ++ rest)
head-IsReplayable [] rest tail r = elim (Bool-cases (ltb 0 tail)) [
  | inl e ↦ rw e r
  | inr e ↦ rw e r
]
head-IsReplayable (x ∷ xs) rest tail r =
    elim (Bool-cases (ltb 0 tail && not (message_has_tool_content x))) [
      | inl keep ↦ rw keep (cons-IsReplayable x rest (ground arith) r)
      | inr gone ↦ rw gone r
    ]

module _ (codec : Codec) (m : Manager) (elide : List Message → ℕ → Message)
    (elider : IsPlainElider elide) where
  cut_middle-IsReplayable :
      (ms : List Message) → IsReplayable ms → IsReplayable (cut_middle codec m elide ms)
  unfolding cut_middle
  cut_middle-IsReplayable ms r =
      elim (Bool-cases (
        leb (length ms) 2 || leb (tail_start codec m ms - head_end ms (tail_start codec m ms)) 0)) [
          | inl whole ↦ rw whole (IsReplayable-same ms _ (truncate_oversized_same m ms) r)
          | inr cut ↦ rw cut (
              IsReplayable-same _ _ (truncate_oversized_same m _) (
                head-IsReplayable ms _ (tail_start codec m ms) (
                  cons-IsReplayable _ _ (elider _ _)
                    (drop-IsReplayable (tail_start codec m ms) ms r (closed cut)))))
        ]
    where
      closed :
          (leb (length ms) 2 || leb (tail_start codec m ms - head_end ms (tail_start codec m ms)) 0)
            ≡ false
          → IsClosed ms (tail_start codec m ms)
      closed cut = elim (tail_start-IsClosed codec m ms) [ inl zero_ ↦ ground arith | inr c ↦ c ]

  within_budget-IsReplayable :
      (ms : List Message) (b : Option ContextBudget) (limit : Option ℕ)
      → IsReplayable ms
      → IsReplayable (within_budget codec m elide ms b limit)
  within_budget-IsReplayable ms none limit r = cut_middle-IsReplayable ms r
  within_budget-IsReplayable ms (some b) none r = cut_middle-IsReplayable ms r
  within_budget-IsReplayable ms (some b) (some limit) r =
      go (same_messages (compact_tool_output_to_budget m limit b ms) ms)
    where
      go :
          (d : Dec (compact_tool_output_to_budget m limit b ms ≡ ms))
          → IsReplayable (elim d [
            | yes _ ↦ cut_middle codec m elide ms
            | no _ ↦ compact_tool_output_to_budget m limit b ms
          ])
      go (yes _) = cut_middle-IsReplayable ms r
      go (no _) = IsReplayable-same ms _ (compact_tool_output_same m limit b ms) r

  -- If no message that stands in for a cut span carries a tool block, then compacting a state with
  -- a replayable history (each tool result behind its use, each use answered, no id used again)
  -- gives a state with a replayable history.
  pub compact-IsReplayable :
      (s : ConversationState)
      → IsReplayable s.messages
      → IsReplayable (compact codec m elide s).messages
  unfolding compact
  compact-IsReplayable s r = within_budget-IsReplayable s.messages m.budget m.budget_context_limit r
