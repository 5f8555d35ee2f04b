-- ===== src/Tests/Loops.antt =====
-- Runs of `_run_loop` of kinetic_sdk/agent/agent.py.
use kinetic_sdk_agents.Prelude.{
  ℕ, suc, ◌≤◌, ◌≡◌, refl, String, Bool, true, false, Option, none, some, [], ◌∷◌, max, length,
}
use kinetic_sdk_agents.Conversation.{message, user, plain}
use kinetic_sdk_agents.Conversation.Replay.{
  provided, needed, message_tool_use_ids, message_tool_result_ids,
}
use kinetic_sdk_agents.Conversation.Replay.Round.{Apart}
use kinetic_sdk_agents.Context.Estimate.{should_compact}
use kinetic_sdk_agents.Context.Compact.{placeholder}
use kinetic_sdk_agents.Context.Compact.Replay.{placeholder-IsPlainElider}
use kinetic_sdk_agents.Agent.{max_mode}
use kinetic_sdk_agents.Agent.Loop.{Run, Loop, Outcome, LlmResponse, ContextManager, returned}
use kinetic_sdk_agents.Agent.Loop.Turn.{run_loop}
use kinetic_sdk_agents.Agent.Loop.Bounds.{run_loop-ends}
use kinetic_sdk_agents.Agent.Loop.Replay.{KeepsReplayable, NamesFreshly}
use kinetic_sdk_agents.Agent.Batch.Parallel.{timed_out}
use kinetic_sdk_agents.Agent.Loop.Answers.{Good, Left}
use kinetic_sdk_agents.Agent.Loop.Histories.{run_loop-Left}
use kinetic_sdk_agents.Agent.Loop.Manager.{truncating, truncating-KeepsReplayable}
use kinetic_sdk_agents.Prelude.{
  Bool-cases, ◌⊎◌, inl, inr, str_eq, eq_iff, subst, ◌∙◌, sym, if◌then◌else◌,
}
use mathlib.Core.Bool.{false≢true}
use kinetic_sdk_agents.Prelude.Sets.{has, subset}
use kinetic_sdk_agents.Agent.Batch.Replay.{HaveIds, ids_of}
use kinetic_sdk_agents.Tests.Contexts.{codec, manager}
use kinetic_sdk_agents.Tests.Agents.{config, registry, registry-IsRegistry, agent, list_call}

-- The model lists the directory once, and then answers.
abbrev response : Bool → LlmResponse
response listed = record {
  content = "done";
  tool_calls = if listed then [] else list_call ∷ [];
  usage = none;
}

abbrev truncating_manager : ContextManager
truncating_manager = truncating codec manager placeholder 999

abbrev loop : Loop ℕ
loop = record {
  config = config;
  parallel = false;
  pool = record { submit = λ i tool arguments w. (true, w); await = λ i w. (timed_out, w) };
  context_manager = some truncating_manager;
  wait = λ w. w;
  before_llm_call = λ w. (none, w);
  after_llm_call = λ r w. w;
  chat = λ system ms w. (some (response (has "1" (provided ms))), w);
  check_final_answer = none;
  answer_verifier = none;
  inbox = λ w. ([], w);
  persist = λ s w. w;
}

abbrev start : Run ℕ
start = record {
  agent = record agent {
    state = record {
      system_prompt = none;
      messages = message user (plain "hello") ∷ [];
      max_messages = none;
      metadata = [];
    };
  };
  routing = record {
    mode = max_mode;
    enable_extended_reasoning = true;
    sticky_max = false;
    max_iterations = 3;
    max_iterations_override = some 3;
    escalations = 0;
  };
  run_budget = none;
  final_text = "";
  iteration = 0;
  escalated = false;
  retries_left = 0;
  verification_retries_left = 0;
  rejected_answer = none;
  asked = [];
}

abbrev outcome_of : Option (Run ℕ × Outcome) → Option (Outcome × ℕ)
outcome_of none = none
outcome_of (some (r, o)) = some (o, length r.asked)

-- Two passes, the second of which answers.
start_answers : outcome_of (run_loop loop 4 start) ≡ some (returned "done", 2)
unfolding run_loop has provided message_tool_use_ids should_compact
start_answers = refl

loop-NamesFreshly : NamesFreshly loop
unfolding has
loop-NamesFreshly system ms w r e = go (has "1" (provided ms)) refl e
  where
    go :
        (b : Bool)
        → has "1" (provided ms) ≡ b
        → some (response b) ≡ some r
        → HaveIds r.tool_calls × Apart (provided ms) (ids_of r.tool_calls)
    go true listed known =
        let same : response true ≡ r = cc in
        subst (λ x. HaveIds x.tool_calls × Apart (provided ms) (ids_of x.tool_calls)) same
          (tt, λ a h k. cc)
    go false new_ known =
        let same : response false ≡ r = cc in
        subst (λ x. HaveIds x.tool_calls × Apart (provided ms) (ids_of x.tool_calls)) same
          ((refl, tt), λ a h k. clash a h (Bool-cases (str_eq "1" a)) k)
      where
        clash :
            (a : String)
            → has a (provided ms) ≡ true
            → (str_eq "1" a ≡ true) ⊎ (str_eq "1" a ≡ false)
            → has a ("1" ∷ []) ≡ true
            → ⊥
        clash a h (inl same) k =
            false≢true
              (sym new_ ∙ subst (λ x. has x (provided ms) ≡ true) (sym ((eq_iff "1" a).0 same)) h)
        clash a h (inr other) k = false≢true ((sym (rw other refl)) ∙ k)

loop_keeps : (m : ContextManager) → loop.context_manager ≡ some m → KeepsReplayable m
loop_keeps m e =
    let same : truncating_manager ≡ m = cc in
    subst KeepsReplayable same
      (truncating-KeepsReplayable codec manager placeholder 999 placeholder-IsPlainElider)

start-Good : Good loop registry start
unfolding message_tool_use_ids message_tool_result_ids needed provided has subset
start-Good =
    (refl, tt, refl, record { backed = (refl, tt); answered = (refl, tt); fresh = (tt, tt) }, tt)

run_loop-ends_example :
    (r' : Run ℕ) × (o : Outcome) × (run_loop loop (suc (max 3 50)) start ≡ some (r', o))
    × (length r'.asked ≤ max 3 50)
run_loop-ends_example = run_loop-ends loop start refl refl

run_loop-Left_example :
    (r' : Run ℕ) × (o : Outcome) × (run_loop loop (suc (max 3 50)) start ≡ some (r', o))
    × Left loop registry o r'
run_loop-Left_example =
    run_loop-Left loop registry registry-IsRegistry refl loop-NamesFreshly loop_keeps start refl
      refl start-Good
