-- ===== src/Agent/Batch/Results.antt =====
-- Every tool call of a turn gets its result, in the order of the calls.
use kinetic_sdk_agents.Prelude.{
  ◌≡◌, refl, sym, ap, ◌∙◌, ◌⊎◌, inl, inr, Bool, true, false, Bool-cases, Option, none, some, List,
  [], ◌∷◌, if◌then◌else◌, str_eq, ok, str_eq_refl, eq_iff,
}
use kinetic_sdk_agents.Prelude.Dict.{Dict, get, put, get-put}
use kinetic_sdk_agents.Conversation.{ConversationState, add_tool_result}
use kinetic_sdk_agents.Stuck.{StuckDetector, check}
use kinetic_sdk_agents.Agent.{Agent, Config, Tool, ToolCall, ToolResult, emitted, is_error, emit}
use kinetic_sdk_agents.Agent.Gate.{failure}
use kinetic_sdk_agents.Agent.Gate.Authority.{Authorised, IsRegistry, Sound}
use kinetic_sdk_agents.Agent.Gate.Trace.{execute_one-Sound}
use kinetic_sdk_agents.Agent.Batch.{
  add_tool, add_absent, record_result, if_stuck, observed, emit_tool_call_finished, executed,
  if_cancelled, execute_next, or_error, then_rest, execute_tool_calls,
}

module _ {W : Type 0} (c : Config W) where
  -- The conversation with a call's result.
  abbrev answered : ToolCall → ToolResult → ConversationState → ConversationState
  answered call r conversation =
      add_tool_result call.id (c.tool_output_for_state call r) (is_error r) conversation

  -- How a batch that started on a conversation ended: each call of it has its one result there, in
  -- the order of the calls, up to the end or up to a call that waits for a confirmation, from which
  -- on the calls are kept.
  pub data Progress : List ToolCall → ConversationState → Agent W → Option Bool → Type 0 where
    complete :
        (conversation : ConversationState) (s : Agent W)
        → s.state ≡ conversation
        → Progress [] conversation s (some false)
    paused :
        (call : ToolCall) (calls : List ToolCall) (conversation : ConversationState) (s : Agent W)
        → s.state ≡ conversation
        → s.pending_remaining_calls ≡ call ∷ calls
        → Progress (call ∷ calls) conversation s none
    next :
        (call : ToolCall) (calls : List ToolCall) (conversation : ConversationState) (s : Agent W)
        (r : ToolResult) (o : Option Bool)
        → Progress calls (answered call r conversation) s o
        → Progress (call ∷ calls) conversation s (or_error c (is_error r) o)

  module _ (tools : Dict Tool) where
    -- One call of the batch: it is answered, or it waits and changed no conversation.
    data Stepped (call : ToolCall) (conversation : ConversationState)
        : Agent W × Option Bool → Type 0 where
      recorded :
          (r : ToolResult) (s : Agent W)
          → Sound c tools (answered call r conversation) s
          → Stepped call conversation (s, some (is_error r))
      raised : (s : Agent W) → Sound c tools conversation s → Stepped call conversation (s, none)

    record_result-Sound :
        (call : ToolCall) (r : ToolResult) (conversation : ConversationState) (s : Agent W)
        → Sound c tools conversation s
        → Sound c tools (answered call r conversation) (record_result c call r (is_error r) s)
    unfolding record_result
    record_result-Sound call r conversation s h = record {
      same = h.same;
      kept = ap (answered call r) h.kept;
      authority = h.authority;
    }

    finished-Sound :
        (call : ToolCall) (r : ToolResult) (conversation : ConversationState) (s : Agent W)
        → Sound c tools conversation s
        → Sound c tools conversation (emit_tool_call_finished c call r s)
    unfolding emit_tool_call_finished
    finished-Sound call r conversation s h = go s.stuck_detector
      where
        stuck_or_not :
            (b : Bool) (d : StuckDetector)
            → Sound c tools conversation (
                if_stuck c b call (record (emit (emitted "agent.tool_call_finished" call.id) s) {
                  stuck_detector = some d;
                }))
        stuck_or_not true d = record { same = h.same; kept = h.kept; authority = h.authority }
        stuck_or_not false d = record { same = h.same; kept = h.kept; authority = h.authority }

        go :
            (o : Option StuckDetector)
            → Sound c tools conversation
                (observed c o call r (emit (emitted "agent.tool_call_finished" call.id) s))
        go none = record { same = h.same; kept = h.kept; authority = h.authority }
        go (some d) =
            let (d', stuck) = check c.digest call.name call.arguments (c.outcome r) d in
            stuck_or_not stuck d'

    execute_next-Stepped :
        (call : ToolCall) (conversation : ConversationState) (s : Agent W)
        → IsRegistry c tools
        → Sound c tools conversation s
        → Stepped call conversation (execute_next c call s)
    unfolding execute_next
    execute_next-Stepped call conversation s registry h = go (c.cancelled s.world).0
      where
        polled : Agent W
        polled = record s { world = (c.cancelled s.world).1 }

        ended :
            (o : Option ToolResult) (s' : Agent W)
            → Sound c tools conversation s'
            → Stepped call conversation (executed c call o s')
        ended none s' h' = raised s' h'
        ended (some r) s' h' =
            recorded r _
              (record_result-Sound call r conversation _ (finished-Sound call r conversation s' h'))

        go : (b : Bool) → Stepped call conversation (if_cancelled c b call polled)
        go true = recorded (failure "skipped: run cancelled") _ (
            record_result-Sound call (failure "skipped: run cancelled") conversation polled
              (record { same = h.same; kept = h.kept; authority = h.authority }))
        go false = ended _ _ (
            execute_one-Sound c tools conversation call _ registry
              (record { same = h.same; kept = h.kept; authority = h.authority }))

    pub execute_tool_calls-Progress :
        (calls : List ToolCall) (conversation : ConversationState) (s : Agent W)
        → IsRegistry c tools
        → Sound c tools conversation s
        → Progress calls conversation
            (execute_tool_calls c calls s).0
            (execute_tool_calls c calls s).1
          × Authorised c (execute_tool_calls c calls s).0.trace
          × ((execute_tool_calls c calls s).0.tools ≡ tools)
    unfolding execute_tool_calls
    execute_tool_calls-Progress [] conversation s registry h =
        (complete conversation s h.kept, h.authority, h.same)
    execute_tool_calls-Progress (call ∷ calls) conversation s registry h =
        go (execute_next c call s) (execute_next-Stepped call conversation s registry h)
          (λ conv s'. execute_tool_calls-Progress calls conv s' registry)
      where
        Goal : Agent W × Option Bool → Type 0
        Goal a =
            Progress (call ∷ calls) conversation a.0 a.1
            × Authorised c a.0.trace
            × (a.0.tools ≡ tools)

        go :
            (r : Agent W × Option Bool)
            → Stepped call conversation r
            → ((conv : ConversationState) (s' : Agent W)
                → Sound c tools conv s'
                → Progress calls conv
                    (execute_tool_calls c calls s').0
                    (execute_tool_calls c calls s').1
                  × Authorised c (execute_tool_calls c calls s').0.trace
                  × ((execute_tool_calls c calls s').0.tools ≡ tools))
            → Goal (then_rest c call calls r.0 r.1 (execute_tool_calls c calls r.0))
        go _ (recorded r s' h') rest =
            let (p, a, t) = rest (answered call r conversation) s' h' in
            (next call calls conversation _ r _ p, a, t)
        go _ (raised s' h') rest =
            (paused call calls conversation _ h'.kept refl, h'.authority, h'.same)

-- `add_tool` refuses a name that is taken, and registers the tool under its own name otherwise:
-- the registry stays one of tools under their own names, and only that name is looked up anew.
add_tool-IsRegistry :
    {W : Type 0} (c : Config W) (t : Tool) (s s' : Agent W)
    → IsRegistry c s.tools
    → add_tool t s ≡ ok s'
    → (get t.name s.tools ≡ none) × (get t.name s'.tools ≡ some t) × IsRegistry c s'.tools
unfolding add_tool
add_tool-IsRegistry c t s s' h added = go (get t.name s.tools) refl added
  where
    registered : (tools : Dict Tool) → tools ≡ put t.name t s.tools → IsRegistry c tools
    registered tools e name u found = named (Bool-cases (str_eq t.name name))
      where
        looked_up : some u ≡ (if str_eq t.name name then some t else get name s.tools)
        looked_up = sym found ∙ (ap (get name) e ∙ get-put t.name name t s.tools)

        named : (str_eq t.name name ≡ true) ⊎ (str_eq t.name name ≡ false) → u.name ≡ name
        named (inl same) =
            let new : some u ≡ some t = looked_up ∙ rw same refl in
            let unique : u ≡ t = cc in ap (λ x. x.name) unique ∙ (eq_iff t.name name).0 same
        named (inr other) =
            let old : some u ≡ get name s.tools = looked_up ∙ rw other refl in h name u (sym old)

    go :
        (o : Option Tool)
        → get t.name s.tools ≡ o
        → add_absent o t s ≡ ok s'
        → (get t.name s.tools ≡ none) × (get t.name s'.tools ≡ some t) × IsRegistry c s'.tools
    go (some old) e done = cc
    go none e done =
        let agents : record s { tools = put t.name t s.tools } ≡ s' = cc in
        let tools : put t.name t s.tools ≡ s'.tools = ap (λ a. a.tools) agents in
        let own : (if str_eq t.name t.name then some t else get t.name s.tools) ≡ some t =
          rw (str_eq_refl t.name) refl in
        (
          e,
          sym (ap (get t.name) tools) ∙ (get-put t.name t.name t s.tools ∙ own),
          registered s'.tools (sym tools),
        )
