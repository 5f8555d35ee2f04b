-- ===== src/Agent/Batch/Parallel/Results.antt =====
-- A parallel batch answers its calls as a sequential one does.
use kinetic_sdk_agents.Prelude.{
  ◌≡◌, refl, ap, subst, ◌∙◌, Bool, ◌||◌, ◌&&◌, Bool-cases, inl, inr, List, [], ◌∷◌, ◌++◌, length,
  ltb,
}
use kinetic_sdk_agents.Prelude.Dict.{Dict}
use kinetic_sdk_agents.Conversation.{ConversationState}
use kinetic_sdk_agents.Agent.{Agent, Config, Tool, ToolCall, ToolResult, is_error}
use kinetic_sdk_agents.Agent.Gate.Authority.{IsRegistry, Sound}
use kinetic_sdk_agents.Agent.Batch.Results.{
  Progress, complete, paused, next, execute_tool_calls-Progress,
}
use kinetic_sdk_agents.Agent.Batch.Parallel.{
  Pool, Executed, gate_all, submit_all, await_all, record_one, record_each, dispatch_and_record,
  paused_at, execute_tool_calls_parallel, execute_batch,
}
use kinetic_sdk_agents.Agent.Batch.Parallel.Kept.{
  firsts, answered, gate_all-Split, submit_all-Kept, await_all-Kept, record_one-state,
}

module _ {W : Type 0} (c : Config W) (pool : Pool W) where
  -- Recording makes progress over the calls, up to what is left.
  record_each-Progress :
      (xs : List (ToolCall × Executed)) (left : List ToolCall) (conversation : ConversationState)
      (s : Agent W)
      → s.state ≡ conversation
      → Progress c
          (firsts xs ++ left)
          conversation
          (paused_at c pool left (record_each c pool xs s)).0
          (paused_at c pool left (record_each c pool xs s)).1
  unfolding record_each
  record_each-Progress [] [] conversation s e = complete conversation s e
  record_each-Progress [] (call ∷ calls) conversation s e = paused call calls conversation _ e refl
  record_each-Progress ((call, x) ∷ xs) left conversation s e = go left (
      record_each-Progress xs left (answered c call (record_one c pool call x s).1 conversation)
        (record_one c pool call x s).0
        (record_one-state c pool call x s ∙ ap (answered c call (record_one c pool call x s).1) e))
    where
      s' : Agent W
      s' = (record_one c pool call x s).0

      r : ToolResult
      r = (record_one c pool call x s).1

      go :
          (l : List ToolCall)
          → Progress c
              (firsts xs ++ l)
              (answered c call r conversation)
              (paused_at c pool l (record_each c pool xs s')).0
              (paused_at c pool l (record_each c pool xs s')).1
          → Progress c
              (call ∷ (firsts xs ++ l))
              conversation
              (paused_at c pool l
                ((record_each c pool xs s').0, is_error r || (record_each c pool xs s').1)).0
              (paused_at c pool l
                ((record_each c pool xs s').0, is_error r || (record_each c pool xs s').1)).1
      go [] p = next call (firsts xs ++ []) conversation _ r _ p
      go (c' ∷ cs) p = next call (firsts xs ++ c' ∷ cs) conversation _ r _ p

  -- A batch in parallel, whatever the slots and the futures of the pool give.
  execute_tool_calls_parallel-Progress :
      (tools : Dict Tool) (calls : List ToolCall) (conversation : ConversationState) (s : Agent W)
      → Sound c tools conversation s
      → Progress c calls conversation
          (execute_tool_calls_parallel c pool calls s).0
          (execute_tool_calls_parallel c pool calls s).1
  unfolding execute_tool_calls_parallel dispatch_and_record
  execute_tool_calls_parallel-Progress tools calls conversation s h =
      let (sound, split) = gate_all-Split c tools calls conversation s h in
      let gs = (gate_all c calls s).1 in
      let left = (gate_all c calls s).2 in
      let submitted = submit_all c pool 0 gs (gate_all c calls s).0 in
      let done = await_all c pool 0 submitted.1 submitted.0 in
      let (kept, same) = submit_all-Kept c pool 0 gs (gate_all c calls s).0 in
      let (kept', same') = await_all-Kept c pool 0 submitted.1 submitted.0 in
      subst
        (λ cs.
          Progress c cs conversation (paused_at c pool left (record_each c pool done.1 done.0)).0
            (paused_at c pool left (record_each c pool done.1 done.0)).1)
        (ap (λ l. l ++ left) (same' ∙ same) ∙ split)
        (record_each-Progress done.1 left conversation done.0 (kept' ∙ kept ∙ sound.kept))

  -- Let the tools be registered under their own names, and every call of a tool in the trace be
  -- permitted by what came before it. Then a batch ends the same way whether it runs in parallel
  -- or not, whatever the slots and the futures of the pool give: each call has its one result in
  -- the conversation, in the order of the calls, up to a call that waits for a confirmation, and
  -- that call and those after it are kept.
  execute_batch-Progress :
      (tools : Dict Tool) (parallel : Bool) (calls : List ToolCall)
      (conversation : ConversationState) (s : Agent W)
      → IsRegistry c tools
      → Sound c tools conversation s
      → Progress c calls conversation
          (execute_batch c pool parallel calls s).0
          (execute_batch c pool parallel calls s).1
  unfolding execute_batch
  execute_batch-Progress tools parallel calls conversation s registry h =
      elim (Bool-cases (parallel && ltb 1 (length calls))) [
        | inl several ↦
            rw several (execute_tool_calls_parallel-Progress tools calls conversation s h)
        | inr one_ ↦
            rw one_ ((execute_tool_calls-Progress c tools calls conversation s registry h).0)
      ]
