-- ===== src/Agent/Gate/Trace.antt =====
-- What a whole call adds to an agent's trace, `_execute_one` with its retries.
use kinetic_sdk_agents.Prelude.{
  ℕ, zero, suc, ◌+◌, ◌≡◌, ◌∙◌, ◌⊎◌, inl, inr, String, Bool, true, false, ◌&&◌, Bool-cases,
  if◌then◌else◌,
}
use kinetic_sdk_agents.Prelude.Dict.{Dict}
use kinetic_sdk_agents.Prelude.Json.{Json}
use kinetic_sdk_agents.Conversation.{ConversationState}
use kinetic_sdk_agents.Agent.{
  Agent, Config, Tool, ToolCall, ToolResult, is_error, emit, retried, logged_result,
}
use kinetic_sdk_agents.Agent.Circuit.Laws.{record_circuit_result-SameBut}
use kinetic_sdk_agents.Agent.Gate.{
  Prepared, run, early, pending, prepare_call, run_tool, is_transient, retry_transient_tool,
  retry_limit, finalize_call, finish, execute_one,
}
use kinetic_sdk_agents.Agent.Gate.Granting.{prepare_call-Post}
use kinetic_sdk_agents.Agent.Gate.Authority.{
  Permitted, Permitted-later, IsRegistry, Sound, GrantedIf,
}

module _ {W : Type 0} (c : Config W) (tools : Dict Tool) (conversation : ConversationState) where
  -- A sound state in which the tool may be called with these arguments.
  record Ready (tool : Tool) (arguments : Json) (s : Agent W) : Type 0 where
    sound : Sound c tools conversation s
    permitted : Permitted c tool.name arguments s.trace

  Ready-run :
      (tool : Tool) (arguments : Json) (s : Agent W)
      → Ready tool arguments s
      → Ready tool arguments (run_tool c tool arguments s).0
  unfolding run_tool
  Ready-run tool arguments s h = record {
    sound = record {
      same = h.sound.same;
      kept = h.sound.kept;
      authority = (h.permitted, h.sound.authority);
    };
    permitted = Permitted-later c tool.name arguments _ s.trace h.permitted;
  }

  -- A later poll of the cancellation flag, and the event of a retry.
  Ready-retried :
      (tool : Tool) (arguments : Json) (id : String) (attempt : ℕ) (s : Agent W) (w : W)
      → Ready tool arguments s
      → Ready tool arguments (emit (retried id attempt) (record s { world = w }))
  Ready-retried tool arguments id attempt s w h = record {
    sound = record { same = h.sound.same; kept = h.sound.kept; authority = h.sound.authority };
    permitted = Permitted-later c tool.name arguments _ s.trace h.permitted;
  }

  Ready-retry :
      (left attempt : ℕ) (call : ToolCall) (tool : Tool) (arguments : Json) (r : ToolResult)
      (s : Agent W)
      → Ready tool arguments s
      → Ready tool arguments (retry_transient_tool c left attempt call tool arguments r s).0
  unfolding retry_transient_tool
  Ready-retry zero attempt call tool arguments r s h = h
  Ready-retry (suc left) attempt call tool arguments r s h =
      elim (Bool-cases (is_error r && is_transient c r.failure_category)) [
        | inr fine ↦ rw fine h
        | inl failed ↦ rw failed (
            stopping (Bool-cases stop) (
              Ready-retry left (attempt + 1) call tool arguments
                (run_tool c tool arguments retrying).1 (run_tool c tool arguments retrying).0
                (Ready-run tool arguments retrying
                  (Ready-retried tool arguments call.id attempt s (c.cancelled s.world).1 h))))
      ]
    where
      stop : Bool
      stop = (c.cancelled s.world).0

      retrying : Agent W
      retrying = emit (retried call.id attempt) (record s { world = (c.cancelled s.world).1 })

      again : Agent W × ToolResult
      again =
          retry_transient_tool c left (attempt + 1) call tool arguments
            (run_tool c tool arguments retrying).1 (run_tool c tool arguments retrying).0

      stopping :
          (stop ≡ true) ⊎ (stop ≡ false)
          → Ready tool arguments again.0
          → Ready tool arguments
              (if stop then (record s { world = (c.cancelled s.world).1 }, r) else again).0
      stopping (inl cancelled) next = rw cancelled (record {
        sound = record { same = h.sound.same; kept = h.sound.kept; authority = h.sound.authority };
        permitted = h.permitted;
      })
      stopping (inr on) next = rw on next

  finalize_call-Sound :
      (call : ToolCall) (tool : Tool) (arguments : Json) (r : ToolResult) (s : Agent W)
      → Sound c tools conversation s
      → Sound c tools conversation (finalize_call c call tool arguments r s)
  unfolding finalize_call
  finalize_call-Sound call tool arguments r s h =
      let same =
        record_circuit_result-SameBut c call.name tool r (emit (logged_result call.name r) s) in
      record {
        same = same.tools ∙ h.same;
        kept = same.state ∙ h.kept;
        authority = rw same.trace h.authority;
      }

  -- If every tool is registered under its own name and every call of a tool in the trace was
  -- permitted by what came before it (the policy allows its arguments, the decision was logged,
  -- and a hook confirmed these arguments where the decision wants it), then the same holds after a
  -- further tool call with its retries, and the registry and the conversation are the same.
  pub execute_one-Sound :
      (call : ToolCall) (s : Agent W)
      → IsRegistry c tools
      → Sound c tools conversation s
      → Sound c tools conversation (execute_one c call s).0
  unfolding execute_one
  execute_one-Sound call s registry h =
      go (prepare_call c call s).1 (prepare_call-Post c tools conversation call s h).1
    where
      prepared : Agent W
      prepared = (prepare_call c call s).0

      sound : Sound c tools conversation prepared
      sound = (prepare_call-Post c tools conversation call s h).0

      go :
          (p : Prepared)
          → GrantedIf c tools conversation call prepared p
          → Sound c tools conversation (finish c call p prepared).0
      go (early arguments r) g = sound
      go (pending arguments d) g = sound
      go (run tool arguments) g =
          let own : tool.name ≡ call.name = registry call.name tool g.registered in
          let ready : Ready tool arguments prepared = record {
            sound = sound;
            permitted = rw own g.permitted;
          } in
          let ran = run_tool c tool arguments prepared in
          let tried =
            Ready-retry (retry_limit c tool) 1 call tool arguments ran.1 ran.0
              (Ready-run tool arguments prepared ready) in
          finalize_call-Sound call tool arguments _ _ tried.sound
