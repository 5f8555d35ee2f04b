-- ===== src/Agent/Batch.antt =====
-- kinetic_sdk/agent/agent.py, `_execute_tool_calls` (the sequential path), `_emit_tool_call_finished`,
-- `_resolve_pending_confirmation` and `add_tool`: the tool calls of one model turn.
-- Checkpoints and the persisted state are not part of it.
pub mod Results
pub mod Replay
pub mod Parallel
use kinetic_sdk_agents.Prelude.{
  String, Bool, true, false, ◌||◌, Option, none, some, List, [], ◌∷◌, if◌then◌else◌, str_eq, Result,
  ok, err,
}
use kinetic_sdk_agents.Prelude.Dict.{get, put}
use kinetic_sdk_agents.Prelude.Json.{Json}
use kinetic_sdk_agents.Conversation.{add_tool_result}
use kinetic_sdk_agents.Stuck.{StuckDetector, check}
use kinetic_sdk_agents.Agent.{
  Agent, Config, Tool, ToolCall, ToolResult, PermissionDecision, emitted, is_error, emit,
}
use kinetic_sdk_agents.Agent.Gate.{
  failure, deny_call, run_tool, retry_transient_tool, retry_limit, finalize_call, execute_one,
}

pub data AddError : Type 0 where
  duplicate_tool_name : AddError

-- `add_tool`
abbrev pub add_absent : {W : Type 0} → Option Tool → Tool → Agent W → Result AddError (Agent W)
add_absent (some old) tool s = err duplicate_tool_name
add_absent none tool s = ok (record s { tools = put tool.name tool s.tools })

unfoldable pub add_tool : {W : Type 0} → Tool → Agent W → Result AddError (Agent W)
unfolding get put
add_tool tool s = add_absent (get tool.name s.tools) tool s

module _ {W : Type 0} (c : Config W) where
  -- `self.state.add_tool_result(call.id, self._tool_output_for_state(call, result), is_error)`
  unfoldable pub record_result : ToolCall → ToolResult → Bool → Agent W → Agent W
  unfolding add_tool_result
  record_result call r e s = record s {
    state = add_tool_result call.id (c.tool_output_for_state call r) e s.state;
  }

  -- `_emit_tool_call_finished`: the detector sees every call that was not skipped.
  abbrev pub if_stuck : Bool → ToolCall → Agent W → Agent W
  if_stuck true call s = record (emit (emitted "agent.stuck_detected" call.name) s) {
    stop_reason = some "unproductive_loop";
  }
  if_stuck false call s = s

  abbrev pub observed : Option StuckDetector → ToolCall → ToolResult → Agent W → Agent W
  observed none call r s = s
  observed (some d) call r s =
      let (d', stuck) = check c.digest call.name call.arguments (c.outcome r) d in
      if_stuck stuck call (record s { stuck_detector = some d' })

  unfoldable pub emit_tool_call_finished : ToolCall → ToolResult → Agent W → Agent W
  unfolding check
  emit_tool_call_finished call r s =
      observed s.stuck_detector call r (emit (emitted "agent.tool_call_finished" call.id) s)

  -- One turn of the loop: whether the result was an error, or `none` where
  -- PendingConfirmationError was raised.
  abbrev pub executed : ToolCall → Option ToolResult → Agent W → Agent W × Option Bool
  executed call none s = (s, none)
  executed call (some r) s =
      (record_result call r (is_error r) (emit_tool_call_finished call r s), some (is_error r))

  abbrev pub if_cancelled : Bool → ToolCall → Agent W → Agent W × Option Bool
  if_cancelled true call s =
      (record_result call (failure "skipped: run cancelled") true s, some true)
  if_cancelled false call s =
      let (s', o) = execute_one c call (emit (emitted "agent.tool_call_started" call.id) s) in
      executed call o s'

  unfoldable pub execute_next : ToolCall → Agent W → Agent W × Option Bool
  unfolding record_result emit_tool_call_finished execute_one is_error
  execute_next call s =
      let (stop, w) = c.cancelled s.world in if_cancelled stop call (record s { world = w })

  abbrev pub or_error : Bool → Option Bool → Option Bool
  or_error e none = none
  or_error e (some b) = some (e || b)

  -- `rest` is what the remaining calls give; a pause keeps this call and those after it.
  abbrev pub then_rest :
      ToolCall
      → List ToolCall
      → Agent W
      → Option Bool
      → Agent W × Option Bool
      → Agent W × Option Bool
  then_rest call calls s none rest = (record s { pending_remaining_calls = call ∷ calls }, none)
  then_rest call calls s (some e) rest = (rest.0, or_error e rest.1)

  -- The sequential path: `any_error`, or `none` where PendingConfirmationError is raised again.
  unfoldable pub execute_tool_calls : List ToolCall → Agent W → Agent W × Option Bool
  unfolding execute_next
  execute_tool_calls [] s = (s, some false)
  execute_tool_calls (call ∷ calls) s =
      let (s', o) = execute_next call s in
      let rest = execute_tool_calls calls s' in then_rest call calls s' o rest

  -- `_resolve_pending_confirmation`: the verdict's result is recorded, and the calls after it run.
  abbrev pub resolved : Bool → Option Tool → ToolCall → Json → Agent W → Agent W × ToolResult
  resolved true (some tool) call arguments s =
      let (ran, first) = run_tool c tool arguments s in
      let (tried, r) =
        retry_transient_tool c (retry_limit c tool) 1 call tool arguments first ran in
      (finalize_call c call tool arguments r tried, r)
  resolved true none call arguments s = (s, failure "Unknown tool")
  resolved false o call arguments s = deny_call c call "confirmation declined by user" arguments s

  -- The resolved call itself is not run again.
  abbrev pub after_resolved : ToolCall → List ToolCall → List ToolCall
  after_resolved call [] = []
  after_resolved call (first ∷ calls) = if str_eq first.id call.id then calls else first ∷ calls

  abbrev pub resolve_with :
      Option (ToolCall × Json × PermissionDecision)
      → Bool
      → Agent W
      → Option (Agent W × Option Bool)
  resolve_with none approve s = none
  resolve_with (some (call, arguments, d)) approve s =
      let (s', r) =
        resolved approve (get call.name s.tools) call arguments
          (record s { pending_confirmation = none }) in
      let recorded = record_result call r (is_error r) (emit_tool_call_finished call r s') in
      some (
        execute_tool_calls (after_resolved call recorded.pending_remaining_calls)
          (record recorded { pending_remaining_calls = [] }))

  -- `none` is the ValueError for a checkpoint without a pending confirmation.
  unfoldable pub resolve_pending_confirmation : Bool → Agent W → Option (Agent W × Option Bool)
  unfolding execute_tool_calls run_tool retry_transient_tool finalize_call deny_call record_result
      emit_tool_call_finished is_error get
  resolve_pending_confirmation approve s = resolve_with s.pending_confirmation approve s
