-- ===== src/Tests/Contexts.antt =====
-- Runs of kinetic_sdk/context/manager.py and kinetic_sdk/conversation/state.py.
use kinetic_sdk_agents.Prelude.Dict.{get}
use kinetic_sdk_agents.Prelude.Json.{Json, str}
use kinetic_sdk_agents.Prelude.{
  str_eq, Option, String, ◌+◌, ◌<◌, ◌≤◌, ◌≡◌, refl, String, false, none, some, List, [], ◌∷◌,
  length, drop, arith, min,
}
use kinetic_sdk_agents.Prelude.Json.{null}
use kinetic_sdk_agents.Prelude.Int.{sub_ℕ}
use kinetic_sdk_agents.Prelude.Text.{text_length}
use kinetic_sdk_agents.Conversation.{
  Message, ConversationState, user, assistant, plain, blocks, tool_use, tool_result, message,
}
use kinetic_sdk_agents.Conversation.Replay.{
  IsReplayable, message_tool_use_ids, message_tool_result_ids, message_has_tool_content, needed,
  provided,
}
use kinetic_sdk_agents.Prelude.Sets.{has, subset}
use kinetic_sdk_agents.Context.{Manager, Codec}
use kinetic_sdk_agents.Context.Trim.{truncate_block}
use kinetic_sdk_agents.Context.Trim.Size.{Cut, truncate_block_size}
use kinetic_sdk_agents.Context.Tail.{expand_to_group_boundary, tail_start}
use kinetic_sdk_agents.Context.Tail.Boundary.{IsBoundary, expand-IsBoundary}
use kinetic_sdk_agents.Context.Tail.Newest.{result_count, tail_start-newest}
use kinetic_sdk_agents.Context.Compact.{placeholder, compact, compact_summarizing}
use kinetic_sdk_agents.Context.Compact.Replay.{placeholder-IsPlainElider, compact-IsReplayable}
use kinetic_sdk_agents.Context.Compact.Shape.{Compacted, compact-le}

abbrev pub codec : Codec
codec = record { dump_blocks = λ bs. ""; dump_value = λ j. "" }

abbrev pub manager : Manager
manager = record {
  keep_last_tool_results = 1;
  safety_threshold = record { numer = 7; denom = 10 };
  chars_per_token = 4;
  token_counter = none;
  max_tool_result_chars = some 100;
  budget = none;
  tool_output_compressor = none;
  tail_token_budget = none;
  budget_context_limit = none;
}

abbrev use_of : String → Message
use_of id = message assistant (blocks (tool_use id "ls" null ∷ []))

abbrev result_of : String → Message
result_of id = message user (blocks (tool_result id "done" false none ∷ []))

abbrev two_rounds : List Message
two_rounds =
    message user (plain "hello") ∷ use_of "a" ∷ result_of "a" ∷ use_of "b" ∷ result_of "b" ∷ []

abbrev conversation : ConversationState
conversation = record {
  system_prompt = none;
  messages = two_rounds;
  max_messages = some 5;
  metadata = [];
}

two_rounds-IsReplayable : IsReplayable two_rounds
unfolding message_tool_use_ids message_tool_result_ids needed provided has subset
two_rounds-IsReplayable = record {
  backed = (refl, (refl, (refl, (refl, (refl, tt)))));
  answered = (refl, (refl, (refl, (refl, (refl, tt)))));
  fresh = (tt, ((refl, tt), (tt, ((refl, tt), (tt, tt)))));
}

-- The first round is cut, and its place is taken by one message.
compact_two_rounds : length (compact codec manager placeholder conversation).messages ≡ 4
unfolding compact message_tool_result_ids has message_tool_use_ids message_has_tool_content
compact_two_rounds = refl

compact-IsReplayable_example :
    IsReplayable (compact codec manager placeholder conversation).messages
compact-IsReplayable_example =
    compact-IsReplayable codec manager placeholder placeholder-IsPlainElider conversation
      two_rounds-IsReplayable

abbrev structured : Option Json → List Message → Option Json
structured previous elided = some (str "s")

compact-le_example :
    Compacted conversation (compact codec manager placeholder conversation)
    × ((compact codec manager placeholder conversation).metadata ≡ [])
    × Compacted conversation
        (compact_summarizing codec manager (λ previous elided. "s") structured conversation)
    × ((key : String)
        → str_eq "structured_summary" key ≡ false
        → get key
            (compact_summarizing codec manager
              (λ previous elided. "s")
              structured
              conversation).metadata
          ≡ get key [])
compact-le_example =
    compact-le codec manager placeholder (λ previous elided. "s") structured conversation

expand-IsBoundary_example : IsBoundary two_rounds 4 (expand_to_group_boundary two_rounds 4)
expand-IsBoundary_example = expand-IsBoundary two_rounds 4

tail_start-newest_example :
    min 1 (result_count two_rounds)
    ≤ result_count (drop (tail_start codec manager two_rounds) two_rounds)
tail_start-newest_example = tail_start-newest codec manager two_rounds refl (omega arith)

abcdef_long : 3 < text_length "abcdef"
unfolding text_length
abcdef_long = omega arith

truncate_block_size_example :
    (new : String) × (truncate_block manager 3 (tool_result "a" "abcdef" false none)
      ≡ tool_result "a" new false (some (sub_ℕ (text_length "abcdef") (text_length new))))
    × Cut "abcdef" 3 new
    × (text_length "abcdef" ≤ 3 + 40 → text_length "abcdef" < text_length new)
truncate_block_size_example =
    truncate_block_size manager 3 "a" "abcdef" false none refl (omega arith) abcdef_long
