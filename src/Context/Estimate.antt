-- ===== src/Context/Estimate.antt =====
-- Token estimates, and `should_compact`.
use Prim.Native.String.{◌++◌ as str_append}
use kinetic_sdk_agents.Prelude.{
  ℕ, zero, suc, ◌+◌, ◌/◌, max, String, Bool, true, false, ◌||◌, Option, none, some, List, [], ◌∷◌,
  if◌then◌else◌, starts_with,
}
use kinetic_sdk_agents.Prelude.Dict.{get}
use kinetic_sdk_agents.Prelude.Json.{Json, str}
use kinetic_sdk_agents.Prelude.Text.{text_length}
use kinetic_sdk_agents.Conversation.{
  Block, Content, Message, ConversationState, text, image, tool_use, tool_result, plain, blocks,
}
use kinetic_sdk_agents.Context.{Manager, Codec, ContextBudget, share_le}

unfoldable pub estimate_tokens : String → ℕ → ℕ
unfolding text_length
estimate_tokens s chars_per_token = max 1 (text_length s / chars_per_token)

unfoldable pub count_tokens : Manager → String → ℕ
unfolding estimate_tokens
count_tokens m s = elim m.token_counter [
  | none ↦ estimate_tokens s m.chars_per_token
  | some count ↦ count s
]

-- `if state.system_prompt:` an empty prompt counts for nothing.
abbrev pub prompt_tokens : (String → ℕ) → Option String → ℕ
prompt_tokens count none = 0
prompt_tokens count (some String.[]) = 0
prompt_tokens count (some (String.◌∷◌ c s)) = count (String.◌∷◌ c s)

abbrev pub is_tool_result : Block → Bool
is_tool_result (tool_result _ _ _ _) = true
is_tool_result (text _) = false
is_tool_result (image _ _) = false
is_tool_result (tool_use _ _ _) = false

unfoldable pub tool_blocks : List Block → List Block
tool_blocks [] = []
tool_blocks (b ∷ bs) = if is_tool_result b then b ∷ tool_blocks bs else tool_blocks bs

-- `[b for b in content if b not in tool_blocks]`: no other block equals a tool result.
unfoldable pub other_blocks : List Block → List Block
other_blocks [] = []
other_blocks (b ∷ bs) = if is_tool_result b then other_blocks bs else b ∷ other_blocks bs

pub record Sections : Type 0 where
  pub system_prompt : String
  pub history : String
  pub tool_output : String
  pub memory : String
  pub plan : String

module _ (codec : Codec) where
  abbrev pub stringify_content : Content → String
  stringify_content (plain s) = s
  stringify_content (blocks bs) = codec.dump_blocks bs

  abbrev pub stringify_value : Option Json → String
  stringify_value none = ""
  stringify_value (some (str s)) = s
  stringify_value (some v) = codec.dump_value v

  unfoldable pub messages_tokens : (String → ℕ) → List Message → ℕ
  messages_tokens count [] = 0
  messages_tokens count (m ∷ ms) = count (stringify_content m.content) + messages_tokens count ms

  unfoldable pub estimate_state_tokens : Manager → ConversationState → ℕ
  unfolding messages_tokens count_tokens
  estimate_state_tokens m s =
      prompt_tokens (count_tokens m) s.system_prompt + messages_tokens (count_tokens m) s.messages

  abbrev pub or_empty : Option String → String
  or_empty none = ""
  or_empty (some s) = s

  abbrev pub add_section : Content → Sections → Sections
  add_section (plain s) acc =
      if starts_with s "[Recalled memories]"
      then record acc { memory = str_append acc.memory s }
      else record acc { history = str_append acc.history s }
  add_section (blocks bs) acc = record acc {
    tool_output = str_append acc.tool_output (codec.dump_blocks (tool_blocks bs));
    history = str_append acc.history (codec.dump_blocks (other_blocks bs));
  }

  unfoldable pub add_sections : List Message → Sections → Sections
  unfolding tool_blocks other_blocks
  add_sections [] acc = acc
  add_sections (m ∷ ms) acc = add_sections ms (add_section m.content acc)

  unfoldable pub budget_sections : ConversationState → Sections
  unfolding add_sections get
  budget_sections s = add_sections s.messages (record {
    system_prompt = or_empty s.system_prompt;
    history = "";
    tool_output = "";
    memory = "";
    plan = stringify_value (get "plan" s.metadata);
  })

  -- `any(counts[name] >= allocations[name] for name in counts)`
  unfoldable pub over_budget : Manager → ContextBudget → ConversationState → ℕ → Bool
  unfolding budget_sections count_tokens
  over_budget m b s limit =
      let sec = budget_sections s in
      let count = count_tokens m in
      share_le limit b.system_prompt (count sec.system_prompt)
      || share_le limit b.history (count sec.history)
      || share_le limit b.tool_output (count sec.tool_output)
      || share_le limit b.memory (count sec.memory)
      || share_le limit b.plan (count sec.plan)

  -- `should_compact` also records the limit; `none` is its ValueError for a limit of 0.
  unfoldable pub should_compact : Manager → ConversationState → ℕ → Option (Bool × Manager)
  unfolding over_budget estimate_state_tokens
  should_compact m s zero = none
  should_compact m s (suc l) = some (
    elim m.budget [
      | none ↦ share_le (suc l) m.safety_threshold (estimate_state_tokens m s)
      | some b ↦ over_budget m b s (suc l)
    ],
    record m { budget_context_limit = some (suc l) },
  )
