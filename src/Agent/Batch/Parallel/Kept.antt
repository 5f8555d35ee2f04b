-- ===== src/Agent/Batch/Parallel/Kept.antt =====
-- What the parts of a parallel batch leave alone.
use kinetic_sdk_agents.Prelude.{
  ℕ, zero, suc, ◌+◌, ◌≡◌, refl, ap, ◌∙◌, Bool, true, false, ◌&&◌, Option, none, some, List, [], ◌∷◌,
  ◌++◌, if◌then◌else◌,
}
use kinetic_sdk_agents.Prelude.Dict.{Dict}
use kinetic_sdk_agents.Prelude.Json.{Json}
use kinetic_sdk_agents.Conversation.{ConversationState, add_tool_result}
use kinetic_sdk_agents.Stuck.{StuckDetector, check}
use kinetic_sdk_agents.Agent.{
  Agent, Config, Tool, ToolCall, ToolResult, emitted, is_error, emit, retried, logged_result,
}
use kinetic_sdk_agents.Agent.Circuit.Laws.{record_circuit_result-SameBut}
use kinetic_sdk_agents.Agent.Gate.{
  run_tool, is_transient, retry_transient_tool, retry_limit, finalize_call,
}
use kinetic_sdk_agents.Agent.Gate.Authority.{Sound}
use kinetic_sdk_agents.Agent.Gate.Granting.{prepare_call-Post}
use kinetic_sdk_agents.Agent.Batch.{record_result, if_stuck, observed, emit_tool_call_finished}
use kinetic_sdk_agents.Agent.Batch.Parallel.{
  Pool, Gated, Submitted, Executed, skipped, settled, without_tool, admitted, left_alone, refused,
  running, unexecuted, executed_with, if_skipped, gate_next, then_gate, gate_all, accepted,
  submit_one, submit_all, await_one, await_all, record_one,
}

-- The calls of a list of calls with something beside each.
abbrev pub firsts : {A : Type 0} → List (ToolCall × A) → List ToolCall
firsts [] = []
firsts ((call, a) ∷ xs) = call ∷ firsts xs

abbrev picked : {W : Type 0} → Agent W × ToolResult → ConversationState
picked r = r.0.state

module _ {W : Type 0} (c : Config W) where
  finished-state :
      (call : ToolCall) (r : ToolResult) (s : Agent W)
      → (emit_tool_call_finished c call r s).state ≡ s.state
  unfolding emit_tool_call_finished
  finished-state call r s = go s.stuck_detector
    where
      stuck_or_not :
          (b : Bool) (d : StuckDetector)
          → (if_stuck c b call (record (emit (emitted "agent.tool_call_finished" call.id) s) {
            stuck_detector = some d;
          })).state
            ≡ s.state
      stuck_or_not true d = refl
      stuck_or_not false d = refl

      go :
          (o : Option StuckDetector)
          → (observed c o call r (emit (emitted "agent.tool_call_finished" call.id) s)).state
            ≡ s.state
      go none = refl
      go (some d) =
          let (d', stuck) = check c.digest call.name call.arguments (c.outcome r) d in
          stuck_or_not stuck d'

  retry-state :
      (left attempt : ℕ) (call : ToolCall) (tool : Tool) (arguments : Json) (r : ToolResult)
      (s : Agent W)
      → (retry_transient_tool c left attempt call tool arguments r s).0.state ≡ s.state
  unfolding retry_transient_tool run_tool
  retry-state zero attempt call tool arguments r s = refl
  retry-state (suc left) attempt call tool arguments r s =
      pick (is_error r && is_transient c r.failure_category) (c.cancelled s.world).0 (
        retry-state left (attempt + 1) call tool arguments (run_tool c tool arguments retrying).1
          (run_tool c tool arguments retrying).0)
    where
      polled : Agent W
      polled = record s { world = (c.cancelled s.world).1 }

      retrying : Agent W
      retrying = emit (retried call.id attempt) polled

      again : Agent W × ToolResult
      again =
          retry_transient_tool c left (attempt + 1) call tool arguments
            (run_tool c tool arguments retrying).1 (run_tool c tool arguments retrying).0

      pick :
          (b stop : Bool)
          → again.0.state ≡ (run_tool c tool arguments retrying).0.state
          → picked (if b then (if stop then (polled, r) else again) else (s, r)) ≡ s.state
      pick true true e = refl
      pick true false e = e
      pick false stop e = refl

  finalize-state :
      (call : ToolCall) (tool : Tool) (arguments : Json) (r : ToolResult) (s : Agent W)
      → (finalize_call c call tool arguments r s).state ≡ s.state
  unfolding finalize_call
  finalize-state call tool arguments r s =
      (record_circuit_result-SameBut c call.name tool r (emit (logged_result call.name r) s)).state

  -- The conversation with a call's result.
  abbrev pub answered : ToolCall → ToolResult → ConversationState → ConversationState
  answered call r conversation =
      add_tool_result call.id (c.tool_output_for_state call r) (is_error r) conversation

  module _ (tools : Dict Tool) where
    gate_next-Sound :
        (call : ToolCall) (conversation : ConversationState) (s : Agent W)
        → Sound c tools conversation s
        → Sound c tools conversation (gate_next c call s).0
    unfolding gate_next
    gate_next-Sound call conversation s h = go (c.cancelled s.world).0
      where
        polled : Agent W
        polled = record s { world = (c.cancelled s.world).1 }

        go : (b : Bool) → Sound c tools conversation (if_skipped c b call polled).0
        go true = record { same = h.same; kept = h.kept; authority = h.authority }
        go false =
            (prepare_call-Post c tools conversation call
              (emit (emitted "agent.tool_call_started" call.id) polled)
              (record { same = h.same; kept = h.kept; authority = h.authority })).0

    -- Gating leaves the conversation alone, and splits the calls at the one that waits.
    pub gate_all-Split :
        (calls : List ToolCall) (conversation : ConversationState) (s : Agent W)
        → Sound c tools conversation s
        → Sound c tools conversation (gate_all c calls s).0
          × (firsts (gate_all c calls s).1 ++ (gate_all c calls s).2 ≡ calls)
    unfolding gate_all
    gate_all-Split [] conversation s h = (h, refl)
    gate_all-Split (call ∷ calls) conversation s h = go (gate_next c call s).1 (
        gate_all-Split calls conversation (gate_next c call s).0
          (gate_next-Sound call conversation s h))
      where
        s' : Agent W
        s' = (gate_next c call s).0

        go :
            (g : Option Gated)
            → Sound c tools conversation (gate_all c calls s').0
              × (firsts (gate_all c calls s').1 ++ (gate_all c calls s').2 ≡ calls)
            → Sound c tools conversation (then_gate c call calls s' g (gate_all c calls s')).0
              × (firsts (then_gate c call calls s' g (gate_all c calls s')).1
                    ++ (then_gate c call calls s' g (gate_all c calls s')).2
                  ≡ call ∷ calls)
        go none rest = (gate_next-Sound call conversation s h, refl)
        go (some g) (sound, split) = (sound, ap (λ l. call ∷ l) split)

  module _ (pool : Pool W) where
    pub submit_all-Kept :
        (i : ℕ) (gs : List (ToolCall × Gated)) (s : Agent W)
        → ((submit_all c pool i gs s).0.state ≡ s.state)
          × (firsts (submit_all c pool i gs s).1 ≡ firsts gs)
    unfolding submit_all
    submit_all-Kept i [] s = (refl, refl)
    submit_all-Kept i ((call, g) ∷ gs) s =
        let (kept, same) = submit_all-Kept (suc i) gs (submit_one c pool i g s).0 in
        (kept ∙ one g, ap (λ l. call ∷ l) same)
      where
        free_or_not :
            (b : Bool) (tool : Tool) (arguments : Json) (w : W)
            → (accepted c pool b tool arguments (record s { world = w })).0.state ≡ s.state
        free_or_not true tool arguments w = refl
        free_or_not false tool arguments w = refl

        one : (g' : Gated) → (submit_one c pool i g' s).0.state ≡ s.state
        one (without_tool e) = refl
        one (admitted tool arguments) =
            free_or_not (pool.submit i tool arguments s.world).0 tool arguments
              (pool.submit i tool arguments s.world).1

    pub await_all-Kept :
        (i : ℕ) (gs : List (ToolCall × Submitted)) (s : Agent W)
        → ((await_all c pool i gs s).0.state ≡ s.state)
          × (firsts (await_all c pool i gs s).1 ≡ firsts gs)
    unfolding await_all
    await_all-Kept i [] s = (refl, refl)
    await_all-Kept i ((call, g) ∷ gs) s =
        let (kept, same) = await_all-Kept (suc i) gs (await_one c pool i g s).0 in
        (kept ∙ one g, ap (λ l. call ∷ l) same)
      where
        one : (g' : Submitted) → (await_one c pool i g' s).0.state ≡ s.state
        one (left_alone e) = refl
        one (refused tool arguments) = refl
        one (running tool arguments) = refl

    pub record_one-state :
        (call : ToolCall) (x : Executed) (s : Agent W)
        → (record_one c pool call x s).0.state
          ≡ answered call (record_one c pool call x s).1 s.state
    unfolding record_result
    record_one-state call (unexecuted skipped) s = refl
    record_one-state call (unexecuted (settled r)) s =
        ap (answered call r) (finished-state call r s)
    record_one-state call (executed_with tool arguments first) s =
        let (s', r) = retry_transient_tool c (retry_limit c tool) 1 call tool arguments first s in
        ap (answered call r) (
          finished-state call r (finalize_call c call tool arguments r s')
          ∙ finalize-state call tool arguments r s'
          ∙ retry-state (retry_limit c tool) 1 call tool arguments first s)
