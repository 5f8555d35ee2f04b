-- ===== src/Agent/Gate.antt =====
-- kinetic_sdk/agent/agent.py, `_prepare_call`, `_confirmation_status`, `_deny_call`,
-- `_retry_transient_tool`, `_finalize_call` and `_execute_one`: how one tool call is gated and run.
-- The saving of a checkpoint, the backoff before a retry and the error of a hook that fails are not
-- part of it.
pub mod Authority
pub mod Granting
pub mod Trace
pub mod Retries
use kinetic_sdk_agents.Prelude.{
  ℕ, zero, suc, ◌+◌, ◌-◌, String, Bool, true, false, ◌&&◌, ◌||◌, not, Option, none, some, List, [],
  ◌∷◌, if◌then◌else◌, any, str_eq,
}
use kinetic_sdk_agents.Prelude.Dict.{get}
use kinetic_sdk_agents.Prelude.Json.{Json, null}
use kinetic_sdk_agents.Agent.{
  Agent, Config, Tool, ToolCall, ToolResult, ToolFailureCategory, transient, recoverable_input,
  permanent, PermissionDecision, HookResult, Action, logged_call, logged_denial, logged_result,
  confirmed, invoked, retried, emitted, is_error, emit,
}
use kinetic_sdk_agents.Agent.Circuit.{circuit_is_open, record_circuit_result}

-- `ToolResult(error=...)`; the messages are shortened to their fixed part.
abbrev pub failure : String → ToolResult
failure e = record { output = null; error = some e; failure_category = none }

-- `_confirmation_status`
pub data Confirmation : Type 0 where
  approved declined no_hook : Confirmation

-- `(tool, arguments, None)`, `(None, arguments, early)`, or a PendingConfirmationError.
pub data Prepared : Type 0 where
  run : (tool : Tool) (arguments : Json) → Prepared
  early : (arguments : Json) (result : ToolResult) → Prepared
  pending : (arguments : Json) (decision : PermissionDecision) → Prepared

abbrev pub continues : HookResult → Bool
continues r = r.should_continue

abbrev pub stops : HookResult → Bool
stops r = not r.should_continue

-- `for r in results: if ...: arguments = r.modified_context["tool_input"]`: the last one stays.
unfoldable pub rewrite : Json → List HookResult → Json
rewrite arguments [] = arguments
rewrite arguments (r ∷ rs) = rewrite (elim r.tool_input [ none ↦ arguments | some a ↦ a ]) rs

unfoldable pub verdict : List HookResult → Confirmation
verdict rs = if any continues rs then approved else if any stops rs then declined else no_hook

module _ {W : Type 0} (c : Config W) where
  -- A hook's approval is an action of its own.
  unfoldable pub ask_hooks :
      Option (String → Json → PermissionDecision → W → List HookResult × W)
      → ToolCall
      → Json
      → PermissionDecision
      → Agent W
      → Agent W × Confirmation
  unfolding verdict
  ask_hooks none call arguments d s = (s, no_hook)
  ask_hooks (some hooks) call arguments d s =
      let (rs, w) = hooks call.name arguments d s.world in
      let s' = record s { world = w } in
      elim (verdict rs) [
        | approved ↦ (emit (confirmed call.name arguments) s', approved)
        | declined ↦ (s', declined)
        | no_hook ↦ (s', no_hook)
      ]

  unfoldable pub confirmation_status :
      ToolCall → Json → PermissionDecision → Agent W → Agent W × Confirmation
  unfolding ask_hooks
  confirmation_status = ask_hooks c.on_permission_check

  unfoldable pub deny_call : ToolCall → String → Json → Agent W → Agent W × ToolResult
  deny_call call reason arguments s = (
    emit (emitted "security.permission_denied" call.id)
        (emit (logged_denial call.name arguments reason) s),
    failure "Permission denied for tool",
  )

  abbrev pub denied : ToolCall → String → Json → Agent W → Agent W × Prepared
  denied call reason arguments s =
      let (s', r) = deny_call call reason arguments s in (s', early arguments r)

  -- Steps 5 to 7: the registered tool, its circuit, and its input's schema.
  abbrev pub validated : Tool → ToolCall → Json → List String → Agent W → Agent W × Prepared
  validated tool call arguments [] s = (s, run tool arguments)
  validated tool call arguments (p ∷ ps) s =
      let r = failure "invalid tool input" in
      (emit (logged_result call.name r) s, early arguments r)

  abbrev pub if_validating : Bool → Tool → ToolCall → Json → Agent W → Agent W × Prepared
  if_validating true tool call arguments s =
      validated tool call arguments (c.validate_tool_input tool.parameters arguments) s
  if_validating false tool call arguments s = (s, run tool arguments)

  abbrev pub closed_circuit : Tool → ToolCall → Json → Bool → Agent W → Agent W × Prepared
  closed_circuit tool call arguments true s = (
    s,
    early arguments (record {
      output = null;
      error = some "Circuit breaker open for tool";
      failure_category = some permanent;
    }),
  )
  closed_circuit tool call arguments false s =
      if_validating c.validate_tool_inputs tool call arguments s

  abbrev pub known_tool : Option Tool → ToolCall → Json → Agent W → Agent W × Prepared
  known_tool none call arguments s = (s, early arguments (failure "Unknown tool"))
  known_tool (some tool) call arguments s =
      let (s', open_) = circuit_is_open c tool s in closed_circuit tool call arguments open_ s'

  -- Step 4: a decision that wants a confirmation (`requires`), after the hooks were asked.
  abbrev pub by_hand : Bool → ToolCall → Json → PermissionDecision → Agent W → Agent W × Prepared
  by_hand true call arguments d s =
      (record s { pending_confirmation = some (call, arguments, d) }, pending arguments d)
  by_hand false call arguments d s = denied call "requires manual confirmation" arguments s

  abbrev pub after_confirmation :
      Confirmation → Bool → ToolCall → Json → PermissionDecision → Agent W → Agent W × Prepared
  after_confirmation no_hook true call arguments d s =
      by_hand c.has_checkpoint_manager call arguments d s
  after_confirmation declined true call arguments d s =
      denied call "requires manual confirmation" arguments s
  after_confirmation no_hook false call arguments d s =
      known_tool (get call.name s.tools) call arguments s
  after_confirmation declined false call arguments d s =
      known_tool (get call.name s.tools) call arguments s
  after_confirmation approved requires call arguments d s =
      known_tool (get call.name s.tools) call arguments s

  abbrev pub after_asking :
      Bool
      → ToolCall
      → Json
      → PermissionDecision
      → Agent W × Confirmation
      → Agent W
      → Agent W × Prepared
  after_asking true call arguments d asked logged =
      after_confirmation asked.1 d.requires_confirmation call arguments d asked.0
  after_asking false call arguments d asked logged = denied call d.reason arguments logged

  -- Steps 2 and 3: policy and audit log. The hooks are asked even if no confirmation is wanted.
  abbrev pub checked : ToolCall → Json → PermissionDecision → Agent W → Agent W × Prepared
  checked call arguments d s =
      let logged = emit (logged_call call.name arguments d) s in
      after_asking d.allowed call arguments d (confirmation_status call arguments d logged) logged

  -- Step 1: the BEFORE_TOOL_CALL hooks may cancel the call or replace its input.
  abbrev pub hooked : ToolCall → List HookResult → Agent W → Agent W × Prepared
  hooked call rs s =
      let arguments = rewrite call.arguments rs in
      if any stops rs
      then (s, early call.arguments (failure "cancelled by a before_tool_call hook"))
      else checked call arguments (c.check call.name arguments) s

  abbrev pub prepare_with :
      Option (String → Json → W → List HookResult × W) → ToolCall → Agent W → Agent W × Prepared
  prepare_with none call s = checked call call.arguments (c.check call.name call.arguments) s
  prepare_with (some hooks) call s =
      let (rs, w) = hooks call.name call.arguments s.world in
      hooked call rs (record s { world = w })

  unfoldable pub prepare_call : ToolCall → Agent W → Agent W × Prepared
  unfolding rewrite confirmation_status deny_call get circuit_is_open
  prepare_call call s = prepare_with c.before_tool_call call s

  -- One call of the tool, and then the retries of a transient failure. `left` is what remains of
  -- the tool's retry limit and `attempt` the number of the next retry; the cancellation flag is
  -- read only where the other conditions hold.
  unfoldable pub run_tool : Tool → Json → Agent W → Agent W × ToolResult
  run_tool tool arguments s =
      let (r, w) = c.run_tool tool arguments s.world in
      (emit (invoked tool.name arguments) (record s { world = w }), r)

  abbrev pub is_transient : Option ToolFailureCategory → Bool
  is_transient none = false
  is_transient (some transient) = true
  is_transient (some recoverable_input) = false
  is_transient (some permanent) = false

  unfoldable pub retry_transient_tool :
      ℕ → ℕ → ToolCall → Tool → Json → ToolResult → Agent W → Agent W × ToolResult
  unfolding run_tool is_error
  retry_transient_tool zero attempt call tool arguments result s = (s, result)
  retry_transient_tool (suc left) attempt call tool arguments result s =
      let (stop, w) = c.cancelled s.world in
      let polled = record s { world = w } in
      let (ran, next) = run_tool tool arguments (emit (retried call.id attempt) polled) in
      let again = retry_transient_tool left (attempt + 1) call tool arguments next ran in
      if is_error result && is_transient result.failure_category
      then (if stop then (polled, result) else again)
      else (s, result)

  -- `_max_transient_retries`
  abbrev pub retry_limit : Tool → ℕ
  retry_limit tool = elim tool.execution_policy [
    | none ↦ c.max_transient_retries
    | some p ↦ elim p.max_transient_retries [ none ↦ c.max_transient_retries | some n ↦ n ]
  ]

  -- The tool is looked up again by the call's name; it was there when the call was prepared.
  unfoldable pub finalize_call : ToolCall → Tool → Json → ToolResult → Agent W → Agent W
  unfolding record_circuit_result
  finalize_call call tool arguments result s =
      let s' =
        record_circuit_result c call.name tool result (emit (logged_result call.name result) s) in
      record s' { world = c.after_tool_call call.name arguments result s'.world }

  -- What `_execute_one` returns, or `none` where it raises PendingConfirmationError.
  abbrev pub finish : ToolCall → Prepared → Agent W → Agent W × Option ToolResult
  finish call (early arguments r) s = (s, some r)
  finish call (pending arguments d) s = (s, none)
  finish call (run tool arguments) s =
      let (ran, first) = run_tool tool arguments s in
      let (tried, r) = retry_transient_tool (retry_limit tool) 1 call tool arguments first ran in
      (finalize_call call tool arguments r tried, some r)

  unfoldable pub execute_one : ToolCall → Agent W → Agent W × Option ToolResult
  unfolding prepare_call retry_transient_tool finalize_call
  execute_one call s = let (s', p) = prepare_call call s in finish call p s'
