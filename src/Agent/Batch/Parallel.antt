-- ===== src/Agent/Batch/Parallel.antt =====
-- kinetic_sdk/agent/agent.py, `_execute_tool_calls_parallel`, `_dispatch_and_record`,
-- `_submit_timed_tool` and the choice between the two ways to run a batch. The thread pool with its
-- slots is a parameter: what it says to a submission, and what a submission's future gives.
mod Kept
pub mod Results
use kinetic_sdk_agents.Prelude.{
  ℕ, suc, String, Bool, true, false, ◌&&◌, ◌||◌, Option, none, some, List, [], ◌∷◌, length, ltb,
  if◌then◌else◌,
}
use kinetic_sdk_agents.Prelude.Json.{Json}
use kinetic_sdk_agents.Agent.{
  Agent, Config, Tool, ToolCall, ToolResult, invoked, emitted, is_error, emit,
}
use kinetic_sdk_agents.Agent.Gate.{
  Prepared, run, early, pending, failure, prepare_call, retry_transient_tool, retry_limit,
  finalize_call,
}
use kinetic_sdk_agents.Agent.Batch.{record_result, emit_tool_call_finished, execute_tool_calls}

-- How a future ends: with a result, past the tool's timeout, or with an exception.
pub data Awaited : Type 0 where
  returned : ToolResult → Awaited
  timed_out : Awaited
  raised : String → Awaited

-- A submission is named by its call's place in the batch. `submit` says whether a slot was free.
pub record Pool (W : Type 0) : Type 0 where
  pub submit : ℕ → Tool → Json → W → Bool × W
  pub await : ℕ → W → Awaited × W

-- `early_or_skip`: a call that a cancellation skipped, or one that was answered at its gate.
pub data Early : Type 0 where
  skipped : Early
  settled : ToolResult → Early

pub data Gated : Type 0 where
  without_tool : Early → Gated
  admitted : Tool → Json → Gated

-- A call after the submissions: only `running` ones have a future.
pub data Submitted : Type 0 where
  left_alone : Early → Submitted
  refused : Tool → Json → Submitted
  running : Tool → Json → Submitted

pub data Executed : Type 0 where
  unexecuted : Early → Executed
  executed_with : Tool → Json → ToolResult → Executed

abbrev pub result_of : Awaited → ToolResult
result_of (returned r) = r
result_of timed_out = failure "timed out (the call may still be running in the background)"
result_of (raised e) = failure e

module _ {W : Type 0} (c : Config W) where
  abbrev pub gated : Prepared → Option Gated
  gated (run tool arguments) = some (admitted tool arguments)
  gated (early arguments r) = some (without_tool (settled r))
  gated (pending arguments d) = none

  abbrev pub if_skipped : Bool → ToolCall → Agent W → Agent W × Option Gated
  if_skipped true call s = (s, some (without_tool skipped))
  if_skipped false call s =
      let (s', p) = prepare_call c call (emit (emitted "agent.tool_call_started" call.id) s) in
      (s', gated p)

  -- `none` where PendingConfirmationError is raised
  unfoldable pub gate_next : ToolCall → Agent W → Agent W × Option Gated
  unfolding prepare_call
  gate_next call s =
      let (stop, w) = c.cancelled s.world in if_skipped stop call (record s { world = w })

  abbrev pub then_gate :
      ToolCall
      → List ToolCall
      → Agent W
      → Option Gated
      → Agent W × List (ToolCall × Gated) × List ToolCall
      → Agent W × List (ToolCall × Gated) × List ToolCall
  then_gate call calls s none rest = (s, [], call ∷ calls)
  then_gate call calls s (some g) (s', gs, left) = (s', (call, g) ∷ gs, left)

  -- The gates of all calls, in order, up to one that waits: with it begins what is left.
  unfoldable pub gate_all :
      List ToolCall → Agent W → Agent W × List (ToolCall × Gated) × List ToolCall
  unfolding gate_next
  gate_all [] s = (s, [], [])
  gate_all (call ∷ calls) s =
      let (s', g) = gate_next call s in then_gate call calls s' g (gate_all calls s')

module _ {W : Type 0} (c : Config W) (pool : Pool W) where
  abbrev pub accepted : Bool → Tool → Json → Agent W → Agent W × Submitted
  accepted true tool arguments s = (emit (invoked tool.name arguments) s, running tool arguments)
  accepted false tool arguments s = (s, refused tool arguments)

  abbrev pub submit_one : ℕ → Gated → Agent W → Agent W × Submitted
  submit_one i (without_tool e) s = (s, left_alone e)
  submit_one i (admitted tool arguments) s =
      let (free, w) = pool.submit i tool arguments s.world in
      accepted free tool arguments (record s { world = w })

  unfoldable pub submit_all :
      ℕ → List (ToolCall × Gated) → Agent W → Agent W × List (ToolCall × Submitted)
  submit_all i [] s = (s, [])
  submit_all i ((call, g) ∷ gs) s =
      let (s', x) = submit_one i g s in
      let (s'', xs) = submit_all (suc i) gs s' in (s'', (call, x) ∷ xs)

  -- The results of the futures, in the order of the submissions.
  abbrev pub await_one : ℕ → Submitted → Agent W → Agent W × Executed
  await_one i (left_alone e) s = (s, unexecuted e)
  await_one i (refused tool arguments) s =
      (s, executed_with tool arguments (failure "tool execution capacity exhausted"))
  await_one i (running tool arguments) s =
      let (a, w) = pool.await i s.world in
      (record s { world = w }, executed_with tool arguments (result_of a))

  unfoldable pub await_all :
      ℕ → List (ToolCall × Submitted) → Agent W → Agent W × List (ToolCall × Executed)
  await_all i [] s = (s, [])
  await_all i ((call, g) ∷ gs) s =
      let (s', x) = await_one i g s in
      let (s'', xs) = await_all (suc i) gs s' in (s'', (call, x) ∷ xs)

  -- One turn of the recording loop. The tool is looked up again by the call's name; it was there
  -- when the call was gated.
  abbrev pub record_one : ToolCall → Executed → Agent W → Agent W × ToolResult
  record_one call (unexecuted skipped) s =
      let r = failure "skipped: run cancelled" in (record_result c call r (is_error r) s, r)
  record_one call (unexecuted (settled r)) s =
      (record_result c call r (is_error r) (emit_tool_call_finished c call r s), r)
  record_one call (executed_with tool arguments first) s =
      let (s', r) = retry_transient_tool c (retry_limit c tool) 1 call tool arguments first s in
      (
        record_result c call r (is_error r)
            (emit_tool_call_finished c call r (finalize_call c call tool arguments r s')),
        r,
      )

  unfoldable pub record_each : List (ToolCall × Executed) → Agent W → Agent W × Bool
  unfolding record_result emit_tool_call_finished retry_transient_tool finalize_call is_error
  record_each [] s = (s, false)
  record_each ((call, x) ∷ xs) s =
      let (s', r) = record_one call x s in
      let (s'', any_error) = record_each xs s' in (s'', is_error r || any_error)

  unfoldable pub dispatch_and_record : List (ToolCall × Gated) → Agent W → Agent W × Bool
  unfolding submit_all await_all record_each
  dispatch_and_record gs s =
      let (s', submitted) = submit_all 0 gs s in
      let (s'', done) = await_all 0 submitted s' in record_each done s''

  -- Calls that passed their gates before one that waits are run and recorded first.
  abbrev pub paused_at : List ToolCall → Agent W × Bool → Agent W × Option Bool
  paused_at [] (s, any_error) = (s, some any_error)
  paused_at (call ∷ calls) (s, any_error) =
      (record s { pending_remaining_calls = call ∷ calls }, none)

  unfoldable pub execute_tool_calls_parallel : List ToolCall → Agent W → Agent W × Option Bool
  unfolding gate_all dispatch_and_record
  execute_tool_calls_parallel calls s =
      let (s', gs, left) = gate_all c calls s in paused_at left (dispatch_and_record gs s')

  -- `_execute_tool_calls`: in parallel if the agent is set so and there are several calls.
  unfoldable pub execute_batch : Bool → List ToolCall → Agent W → Agent W × Option Bool
  unfolding execute_tool_calls execute_tool_calls_parallel
  execute_batch parallel calls s =
      if parallel && ltb 1 (length calls)
      then execute_tool_calls_parallel calls s
      else execute_tool_calls c calls s
