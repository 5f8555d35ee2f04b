-- ===== src/Agent/Batch/Replay.antt =====
-- The history behind a finished batch of tool calls can be sent to a provider.
use kinetic_sdk_agents.Prelude.{
  ◌≡◌, refl, sym, ap, subst, ◌∙◌, String, Bool, false, Option, none, some, List, [], ◌∷◌, ◌++◌,
  str_eq,
}
use kinetic_sdk_agents.Prelude.Dict.{Dict}
use kinetic_sdk_agents.Conversation.{
  Message, ConversationState, user, blocks, tool_result, message, append, add_tool_result,
}
use kinetic_sdk_agents.Conversation.Cap.{newest, append-newest}
use kinetic_sdk_agents.Conversation.Replay.{
  IsReplayable, provided, message_tool_use_ids, message_tool_result_ids,
}
use kinetic_sdk_agents.Conversation.Replay.Round.{Results, done, one, Apart, round-IsReplayable}
use kinetic_sdk_agents.Agent.{Agent, Config, Tool, ToolCall, is_error}
use kinetic_sdk_agents.Agent.Gate.Authority.{IsRegistry, Sound}
use kinetic_sdk_agents.Agent.Batch.{execute_tool_calls}
use kinetic_sdk_agents.Agent.Batch.Results.{
  Progress, complete, paused, next, execute_tool_calls-Progress,
}

abbrev pub ids_of : List ToolCall → List String
ids_of [] = []
ids_of (call ∷ calls) = call.id ∷ ids_of calls

-- Every call has an id.
abbrev pub HaveIds : List ToolCall → Type 0
HaveIds [] = Unit
HaveIds (call ∷ calls) = (str_eq call.id "" ≡ false) × HaveIds calls

abbrev result_message : String → String → Bool → Message
result_message id output e = message user (blocks (tool_result id output e none ∷ []))

result_message-ids :
    (id output : String) (e : Bool)
    → str_eq id "" ≡ false
    → (message_tool_use_ids (result_message id output e) ≡ [])
      × (message_tool_result_ids (result_message id output e) ≡ id ∷ [])
unfolding message_tool_use_ids message_tool_result_ids
result_message-ids id output e h = (refl, rw h refl)

-- Without a cap, a result is appended and nothing is dropped.
add_tool_result-append :
    (id output : String) (e : Bool) (s : ConversationState)
    → s.max_messages ≡ none
    → (add_tool_result id output e s).messages ≡ s.messages ++ result_message id output e ∷ []
unfolding add_tool_result
add_tool_result-append id output e s h =
    (append-newest (result_message id output e) s).0
    ∙ ap (λ o. newest o (s.messages ++ result_message id output e ∷ [])) h

append-nil : (xs : List Message) → xs ++ [] ≡ xs
append-nil [] = refl
append-nil (x ∷ xs) = ap (λ l. x ∷ l) (append-nil xs)

append-one :
    (xs : List Message) (x : Message) (ys : List Message) → (xs ++ x ∷ []) ++ ys ≡ xs ++ x ∷ ys
append-one [] x ys = refl
append-one (z ∷ xs) x ys = ap (λ l. z ∷ l) (append-one xs x ys)

module _ {W : Type 0} (c : Config W) where
  -- What a finished batch has appended.
  record Appended (calls : List ToolCall) (before after : List Message) : Type 0 where
    results : List Message
    each : Results (ids_of calls) results
    at_end : after ≡ before ++ results

  Progress-Appended :
      (calls : List ToolCall) (conversation : ConversationState) (s : Agent W) (o : Option Bool)
      (any_error : Bool)
      → Progress c calls conversation s o
      → o ≡ some any_error
      → conversation.max_messages ≡ none
      → HaveIds calls
      → Appended calls conversation.messages s.state.messages
  unfolding add_tool_result append
  Progress-Appended _ conversation s _ any_error (complete _ _ kept) ended uncapped have = record {
    results = [];
    each = done;
    at_end = ap (λ x. x.messages) kept ∙ sym (append-nil conversation.messages);
  }
  Progress-Appended _ conversation s _ any_error (paused call calls _ _ kept left) ended uncapped
        have =
      cc
  Progress-Appended _ conversation s _ any_error (next call calls _ _ r none p) ended uncapped
        have =
      cc
  Progress-Appended _ conversation s _ any_error (next call calls _ _ r (some e) p) ended uncapped
        have =
      let output : String = c.tool_output_for_state call r in
      let rest =
        Progress-Appended calls (add_tool_result call.id output (is_error r) conversation) s
          (some e) e p refl uncapped have.1 in
      let ids = result_message-ids call.id output (is_error r) have.0 in
      record {
        results = result_message call.id output (is_error r) ∷ rest.results;
        each = one call.id _ _ rest.results ids.0 ids.1 rest.each;
        at_end =
            rest.at_end
            ∙ (ap (λ l. l ++ rest.results)
                  (add_tool_result-append call.id output (is_error r) conversation uncapped)
                ∙ append-one conversation.messages _ rest.results);
      }

  -- Let the agent's tools be registered under their own names, and each call of a tool in its
  -- trace be permitted by what came before it. If its uncapped conversation is a replayable history
  -- and then a model's turn without results that asks for these calls, by ids that are not empty
  -- and that the history has not used, then a batch of them that ends without waiting for a
  -- confirmation leaves a replayable history, also where the run was cancelled in it.
  pub execute_tool_calls-IsReplayable :
      (tools : Dict Tool) (calls : List ToolCall) (ms : List Message) (turn : Message)
      (conversation : ConversationState) (s : Agent W) (any_error : Bool)
      → IsRegistry c tools
      → Sound c tools conversation s
      → conversation.max_messages ≡ none
      → conversation.messages ≡ ms ++ turn ∷ []
      → IsReplayable ms
      → message_tool_result_ids turn ≡ []
      → message_tool_use_ids turn ≡ ids_of calls
      → HaveIds calls
      → Apart (provided ms) (ids_of calls)
      → (execute_tool_calls c calls s).1 ≡ some any_error
      → IsReplayable (execute_tool_calls c calls s).0.state.messages
  execute_tool_calls-IsReplayable tools calls ms turn conversation s any_error registry h uncapped
        history replayable no_results uses have apart ended =
      let p = (execute_tool_calls-Progress c tools calls conversation s registry h).0 in
      let a = Progress-Appended calls conversation _ _ any_error p ended uncapped have in
      let whole = a.at_end ∙ (ap (λ l. l ++ a.results) history ∙ append-one ms turn a.results) in
      subst IsReplayable (sym whole) (
        round-IsReplayable ms turn (ids_of calls) a.results replayable no_results uses apart a.each)

  Progress-uncapped :
      (calls : List ToolCall) (conversation : ConversationState) (s : Agent W) (o : Option Bool)
      → Progress c calls conversation s o
      → conversation.max_messages ≡ none
      → s.state.max_messages ≡ none
  unfolding add_tool_result append
  Progress-uncapped _ conversation s _ (complete _ _ kept) uncapped =
      ap (λ x. x.max_messages) kept ∙ uncapped
  Progress-uncapped _ conversation s _ (paused call calls _ _ kept left) uncapped =
      ap (λ x. x.max_messages) kept ∙ uncapped
  Progress-uncapped _ conversation s _ (next call calls _ _ r o p) uncapped =
      Progress-uncapped calls _ s o p uncapped

  pub execute_tool_calls-uncapped :
      (tools : Dict Tool) (calls : List ToolCall) (s : Agent W)
      → IsRegistry c tools
      → Sound c tools s.state s
      → s.state.max_messages ≡ none
      → (execute_tool_calls c calls s).0.state.max_messages ≡ none
  execute_tool_calls-uncapped tools calls s registry h uncapped =
      Progress-uncapped calls s.state _ _
        (execute_tool_calls-Progress c tools calls s.state s registry h).0 uncapped
