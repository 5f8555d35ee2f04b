-- ===== src/Agent/Loop/Turn.antt =====
-- kinetic_sdk/agent/agent.py, `_run_loop`: one pass of the loop, step by step, and the loop.
use kinetic_sdk_agents.Prelude.{
  ℕ, zero, suc, String, Bool, true, false, Option, none, some, List, [], ◌∷◌, if◌then◌else◌, ltb,
}
use kinetic_sdk_agents.Conversation.{for_llm, add_assistant, add_user_message}
use kinetic_sdk_agents.Budget.Run.{check, record_usage}
use kinetic_sdk_agents.Agent.{ToolCall}
use kinetic_sdk_agents.Agent.Batch.Parallel.{execute_batch}
use kinetic_sdk_agents.Agent.Routing.{maybe_escalate}
use kinetic_sdk_agents.Agent.Loop.{
  LlmResponse, ContextManager, Checked, Verdict, Loop, Run, Outcome, assistant_content, with_append,
  charged, in_budget, verdict_of, verification_message, with_world, with_state, say, user_says,
  stop, again, after_escalation, fits, unproven, invalid, returned, not_verified, llm_failed,
  waiting,
}

module _ {W : Type 0} (l : Loop W) where
  -- `_maybe_compact_context`
  abbrev pub compacted : Option ContextManager → Run W → Run W
  compacted none r = r
  compacted (some m) r =
      if m.should_compact r.agent.state
      then say "context.compacted" (with_state (m.compact r.agent.state) r)
      else r

  abbrev pub cancelled_or : (Run W → Run W × Option Outcome) → Run W → Run W × Option Outcome
  cancelled_or next r =
      let (stopped, w) = l.config.cancelled r.agent.world in
      let polled = with_world w r in
      if stopped then stop (returned r.final_text) (say "agent.cancelled" polled) else next polled

  abbrev pub persisted : Run W → Run W
  persisted r = with_world (l.persist r.agent.state r.agent.world) r

  abbrev pub sent_back : ℕ → String → String → Run W → Run W
  sent_back left answer feedback r = say "agent.verification_retry" (
      user_says (verification_message feedback)
        (record r { rejected_answer = some (answer, feedback); verification_retries_left = left }))

  abbrev pub rejected : ℕ → String → String → Run W → Run W × Option Outcome
  rejected zero answer feedback r =
      stop (not_verified answer feedback) (
        say "agent.verification_exhausted" (record r { rejected_answer = some (answer, feedback) }))
  rejected (suc left) answer feedback r =
      again (after_escalation true (sent_back left answer feedback r))

  abbrev pub accepted_or_not : Bool → String → String → Run W → Run W × Option Outcome
  accepted_or_not true answer feedback r =
      stop (returned answer) (persisted (record r { rejected_answer = none }))
  accepted_or_not false answer feedback r = rejected r.verification_retries_left answer feedback r

  abbrev pub verified : Option (String → W → Verdict × W) → String → Run W → Run W × Option Outcome
  verified none answer r = stop (returned answer) (persisted r)
  verified (some verify) answer r =
      let (v, w) = verify answer r.agent.world in
      let (accepted, feedback) = verdict_of v in
      accepted_or_not accepted answer feedback (with_world w r)

  -- `_check_structured`: with a retry left, a correction is asked for.
  abbrev pub corrected : ℕ → String → String → Run W → Run W × Option Outcome
  corrected zero correction answer r = verified l.answer_verifier answer r
  corrected (suc left) correction answer r =
      again (user_says correction (record r { retries_left = left }))

  abbrev pub checked_answer : Checked → String → Run W → Run W × Option Outcome
  checked_answer fits answer r = verified l.answer_verifier answer r
  checked_answer (unproven correction) answer r = corrected r.retries_left correction answer r
  checked_answer (invalid correction) answer r = corrected r.retries_left correction answer r

  -- A turn without tool calls.
  abbrev pub answered_with : Option (String → Checked) → String → Run W → Run W × Option Outcome
  answered_with none answer r = verified l.answer_verifier answer r
  answered_with (some check) answer r = checked_answer (check answer) answer r

  -- `_drain_inbox`
  unfoldable pub drain : List String → Run W → Run W
  drain [] r = r
  drain (m ∷ ms) r = drain ms (say "agent.message_injected" (user_says m r))

  abbrev pub listened : Run W → Run W
  listened r =
      let (messages, w) = l.inbox r.agent.world in
      let drained = drain messages (with_world w r) in
      with_world (l.wait drained.agent.world) drained

  -- After the tool calls of a turn.
  abbrev pub acted : Bool → Run W → Run W × Option Outcome
  acted any_error r =
      cancelled_or (λ polled. again (after_escalation any_error polled)) (listened r)

  abbrev pub unless_stuck : Option String → Bool → Run W → Run W × Option Outcome
  unless_stuck (some reason) any_error r = stop (returned r.final_text) (say "agent.error" r)
  unless_stuck none any_error r = acted any_error r

  abbrev pub after_batch : Option Bool → Run W → Run W × Option Outcome
  after_batch none r = stop waiting r
  after_batch (some any_error) r =
      let saved = persisted r in unless_stuck saved.agent.stop_reason any_error saved

  -- The response is in the history; now its tool calls, or its text as the final answer.
  unfoldable pub respond : List ToolCall → String → Run W → Run W × Option Outcome
  unfolding execute_batch drain maybe_escalate add_user_message
  respond [] content r =
      answered_with l.check_final_answer content (record r { final_text = content })
  respond (call ∷ calls) content r =
      let (agent, o) = execute_batch l.config l.pool l.parallel (call ∷ calls) r.agent in
      after_batch o (record r { agent = agent })

  abbrev pub answered_by : LlmResponse → Run W → Run W
  answered_by response r =
      let hooked =
        with_world (l.after_llm_call response r.agent.world)
          (record r { run_budget = charged r.run_budget response.usage }) in
      say "agent.llm_response"
        (with_state (add_assistant (assistant_content response) hooked.agent.state) hooked)

  abbrev pub received : Option LlmResponse → Run W → Run W × Option Outcome
  received none r = stop llm_failed r
  received (some response) r = respond response.tool_calls response.content (answered_by response r)

  -- What the model gives for the history, and the run that has asked it.
  abbrev pub reply : Option String → Run W → Option LlmResponse × W
  reply extra r =
      let (system, messages) = for_llm r.agent.state in
      l.chat (with_append system extra) messages r.agent.world

  abbrev pub has_asked : Option String → Run W → Run W
  has_asked extra r =
      with_world (reply extra r).1 (record r { asked = r.agent.state.messages ∷ r.asked })

  abbrev pub ask : Option String → Run W → Run W × Option Outcome
  ask extra r = received (reply extra r).0 (has_asked extra r)

  abbrev pub ask_in_budget : Bool → Option String → Run W → Run W × Option Outcome
  ask_in_budget false extra r =
      stop (returned "Run stopped: budget exceeded") (say "agent.budget_exceeded" r)
  ask_in_budget true extra r = ask extra r

  abbrev pub ready : Run W → Run W
  ready r = compacted l.context_manager (say "agent.turn_started" r)

  abbrev pub prepared : Run W → Run W × Option Outcome
  prepared r =
      let (extra, w) = l.before_llm_call (ready r).agent.world in
      cancelled_or (λ polled. ask_in_budget (in_budget polled.run_budget) extra polled)
        (with_world w (ready r))

  -- One pass of the loop: `none` is its next pass.
  unfoldable pub turn : Run W → Run W × Option Outcome
  unfolding respond assistant_content for_llm add_assistant check record_usage
  turn r = cancelled_or prepared (with_world (l.wait r.agent.world) r)

  -- The end of the `while` by its condition.
  abbrev pub exhausted : Option (String × String) → Run W → Run W × Outcome
  exhausted none r = (say "agent.error" r, returned r.final_text)
  exhausted (some (answer, feedback)) r =
      (say "agent.verification_exhausted" r, not_verified answer feedback)

  abbrev pub left_or :
      Run W × Option Outcome → (Run W → Option (Run W × Outcome)) → Option (Run W × Outcome)
  left_or (r, none) next = next r
  left_or (r, some o) next = some (r, o)

  -- `_run_loop`; `none` is a loop that has not ended within the fuel.
  unfoldable pub run_loop : ℕ → Run W → Option (Run W × Outcome)
  unfolding turn
  run_loop zero r = none
  run_loop (suc fuel) r =
      if ltb r.iteration r.routing.max_iterations
      then left_or (turn r) (run_loop fuel)
      else some (exhausted r.rejected_answer r)
