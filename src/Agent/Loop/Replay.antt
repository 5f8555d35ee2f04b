-- ===== src/Agent/Loop/Replay.antt =====
-- Every history that a run sends to the model is one that providers accept.
use kinetic_sdk_agents.Prelude.{
  ◌≡◌, refl, sym, ap, subst, ◌∙◌, String, Bool, true, false, Option, none, some, List, [], ◌∷◌,
  ◌++◌, if◌then◌else◌, str_eq,
}
use kinetic_sdk_agents.Prelude.Sets.{has}
use kinetic_sdk_agents.Conversation.{
  Message, ConversationState, text, user, assistant, plain, message, append, add_user_message,
}
use kinetic_sdk_agents.Conversation.Cap.{newest, append-newest}
use kinetic_sdk_agents.Conversation.Replay.{
  IsReplayable, provided, blocks_use_ids, blocks_result_ids, message_tool_use_ids,
  message_tool_result_ids,
}
use kinetic_sdk_agents.Conversation.Replay.Round.{done, Apart, round-IsReplayable}
use kinetic_sdk_agents.Agent.{ToolCall}
use kinetic_sdk_agents.Agent.Batch.Replay.{ids_of, HaveIds}
use kinetic_sdk_agents.Agent.Loop.{
  Loop, LlmResponse, ContextManager, assistant_content, use_blocks, or_plain,
}

-- What a run asks of its context manager: it keeps a history replayable, and sets no cap.
pub record KeepsReplayable (m : ContextManager) : Type 0 where
  pub replayable :
      (s : ConversationState) → IsReplayable s.messages → IsReplayable (m.compact s).messages
  pub uncapped : (s : ConversationState) → s.max_messages ≡ none → (m.compact s).max_messages ≡ none

-- What providers promise of a response's tool calls: they have ids, and none that the history used.
abbrev pub NamesFreshly : {W : Type 0} → Loop W → Type 0
NamesFreshly {W} l =
    (system : Option String) (ms : List Message) (w : W) (response : LlmResponse)
    → (l.chat system ms w).0 ≡ some response
    → HaveIds response.tool_calls × Apart (provided ms) (ids_of response.tool_calls)

abbrev pub AllReplayable : List (List Message) → Type 0
AllReplayable [] = Unit
AllReplayable (ms ∷ mss) = IsReplayable ms × AllReplayable mss

pub no_ids : (xs : List String) → Apart xs []
unfolding has
no_ids xs a h k = cc

-- A message without tool blocks at the end of an uncapped conversation.
pub append-IsReplayable :
    (m : Message) (s : ConversationState)
    → s.max_messages ≡ none
    → message_tool_use_ids m ≡ []
    → message_tool_result_ids m ≡ []
    → IsReplayable s.messages
    → IsReplayable (append m s).messages
append-IsReplayable m s uncapped uses results h =
    subst IsReplayable
      (sym ((append-newest m s).0 ∙ ap (λ o. newest o (s.messages ++ m ∷ [])) uncapped))
      (round-IsReplayable s.messages m [] [] h results uses (no_ids (provided s.messages)) done)

pub user-IsReplayable :
    (body : String) (s : ConversationState)
    → s.max_messages ≡ none
    → IsReplayable s.messages
    → IsReplayable (add_user_message body s).messages
unfolding add_user_message message_tool_use_ids message_tool_result_ids
user-IsReplayable body s uncapped h =
    append-IsReplayable (message user (plain body)) s uncapped refl refl h

-- The ids of the assistant's message are those of the calls.
use_blocks-ids :
    (calls : List ToolCall)
    → HaveIds calls
    → (blocks_use_ids (use_blocks calls) ≡ ids_of calls)
      × (blocks_result_ids (use_blocks calls) ≡ [])
use_blocks-ids [] h = (refl, refl)
use_blocks-ids (call ∷ calls) (named, rest) =
    let (u, r) = use_blocks-ids calls rest in (rw named (ap (λ l. call.id ∷ l) u), r)

pub assistant_content-ids :
    (response : LlmResponse)
    → HaveIds response.tool_calls
    → (message_tool_use_ids (message assistant (assistant_content response))
        ≡ ids_of response.tool_calls)
      × (message_tool_result_ids (message assistant (assistant_content response)) ≡ [])
unfolding assistant_content message_tool_use_ids message_tool_result_ids
assistant_content-ids response h =
    go (str_eq response.content "") response.tool_calls (use_blocks-ids response.tool_calls h)
  where
    go :
        (b : Bool) (calls : List ToolCall)
        → (blocks_use_ids (use_blocks calls) ≡ ids_of calls)
          × (blocks_result_ids (use_blocks calls) ≡ [])
        → (message_tool_use_ids (
              message assistant (
                or_plain response.content
                  (if b then use_blocks calls else text response.content ∷ use_blocks calls)))
            ≡ ids_of calls)
          × (message_tool_result_ids (
                message assistant (
                  or_plain response.content
                    (if b then use_blocks calls else text response.content ∷ use_blocks calls)))
              ≡ [])
    go true [] e = (refl, refl)
    go true (call ∷ calls) e = e
    go false calls e = e
