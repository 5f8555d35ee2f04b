-- ===== src/Conversation.antt =====
-- kinetic_sdk/conversation/state.py: the message history of the agent loop, in Anthropic's typed
-- block shape. A message is a record, and its optional `_compaction` note (written by
-- kinetic_sdk/context/manager.py) is a field. The cap's loop and the replay invariant are proved
-- in the children.
pub mod Cap
pub mod Replay
use kinetic_sdk_agents.Prelude.{
  ℕ, zero, suc, ◌+◌, ◌-◌, String, Bool, true, false, Option, none, some, List, [], ◌∷◌, ◌++◌, ltb,
  if◌then◌else◌, length, str_eq, String-discrete, ℕ_discrete, arith,
}
use kinetic_sdk_agents.Prelude.Dict.{Dict}
use kinetic_sdk_agents.Prelude.Int.{ℤ, ℤ-discrete}
use kinetic_sdk_agents.Prelude.Json.{Json, Json-discrete}

pub data Role : Type 0 where
  user assistant : Role

-- A typed content block. `omitted` is the block's own `_compaction` note: the characters that a
-- trimmed tool result lost.
pub data Block : Type 0 where
  text : (body : String) → Block
  image : (media_type base64 : String) → Block
  tool_use : (id name : String) (input : Json) → Block
  tool_result : (tool_use_id content : String) (is_error : Bool) (omitted : Option ℤ) → Block

pub data Content : Type 0 where
  plain : String → Content
  blocks : List Block → Content

-- The message-level `_compaction` note, with `source_message_count`.
pub data Compaction : Type 0 where
  truncated summary : ℕ → Compaction

pub record Message : Type 0 where
  pub role : Role
  pub content : Content
  pub compaction : Option Compaction

pub Block-discrete : Discrete Block
Block-discrete = hlevel (String-discrete, Json-discrete, ℤ-discrete)

pub Message-discrete : Discrete Message
Message-discrete = hlevel (String-discrete, Json-discrete, ℤ-discrete, ℕ_discrete)

pub record ConversationState : Type 0 where
  pub system_prompt : Option String
  pub messages : List Message
  pub max_messages : Option ℕ
  pub metadata : Dict Json

-- `while len(messages) > max_messages and len(messages) > 1: messages.pop(0)`
unfoldable pub drop_oldest : ℕ → List Message → List Message
drop_oldest cap [] = []
drop_oldest cap (x ∷ []) = x ∷ []
drop_oldest cap (x ∷ y ∷ ms) =
    let rest = drop_oldest cap (y ∷ ms) in
    if ltb cap (length (x ∷ y ∷ ms)) then rest else x ∷ y ∷ ms

-- `_enforce_cap` on the list: no cap returns at once.
unfoldable pub capped : Option ℕ → List Message → List Message
unfolding drop_oldest
capped none ms = ms
capped (some cap) ms = drop_oldest cap ms

unfoldable pub enforce_cap : ConversationState → ConversationState
unfolding capped
enforce_cap s = record s { messages = capped s.max_messages s.messages }

-- `self.messages.append(msg); self._enforce_cap()`
unfoldable pub append : Message → ConversationState → ConversationState
unfolding enforce_cap
append msg s = enforce_cap (record s { messages = s.messages ++ msg ∷ [] })

abbrev pub message : Role → Content → Message
message r c = record { role = r; content = c; compaction = none }

unfoldable pub add_user_message : String → ConversationState → ConversationState
unfolding append
add_user_message content s = append (message user (plain content)) s

unfoldable pub add_user_message_with_image :
    String → String → String → ConversationState → ConversationState
unfolding append
add_user_message_with_image body image_base64 media_type s =
    append (message user (blocks (text body ∷ image media_type image_base64 ∷ []))) s

unfoldable pub add_assistant : Content → ConversationState → ConversationState
unfolding append
add_assistant content s = append (message assistant content) s

unfoldable pub add_assistant_text : String → ConversationState → ConversationState
unfolding add_assistant
add_assistant_text body s = add_assistant (plain body) s

unfoldable pub add_tool_result : String → String → Bool → ConversationState → ConversationState
unfolding append
add_tool_result tool_call_id output is_error s =
    append (message user (blocks (tool_result tool_call_id output is_error none ∷ []))) s

unfoldable pub for_llm : ConversationState → Option String × List Message
for_llm s = (s.system_prompt, s.messages)

unfoldable pub reset : ConversationState → ConversationState
reset s = record s { messages = [] }
