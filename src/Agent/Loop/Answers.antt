-- ===== src/Agent/Loop/Answers.antt =====
-- A turn of the run loop up to its end, from the answer of the model on.
use kinetic_sdk_agents.Prelude.{
  ℕ, zero, suc, ◌≡◌, refl, sym, ap, subst, ◌∙◌, String, Bool, true, false, Option, none, some, List,
  [], ◌∷◌, ◌++◌, if◌then◌else◌,
}
use kinetic_sdk_agents.Prelude.Dict.{Dict}
use kinetic_sdk_agents.Conversation.{
  Message, assistant, message, append, add_assistant, add_user_message, for_llm,
}
use kinetic_sdk_agents.Conversation.Cap.{newest, append-newest}
use kinetic_sdk_agents.Conversation.Replay.{
  IsReplayable, provided, message_tool_use_ids, message_tool_result_ids,
}
use kinetic_sdk_agents.Conversation.Replay.Round.{done, Apart, round-IsReplayable}
use kinetic_sdk_agents.Agent.{Tool, ToolCall}
use kinetic_sdk_agents.Agent.Gate.Authority.{Authorised, IsRegistry}
use kinetic_sdk_agents.Agent.Batch.{execute_tool_calls}
use kinetic_sdk_agents.Agent.Batch.Parallel.{execute_batch}
use kinetic_sdk_agents.Agent.Batch.Results.{execute_tool_calls-Progress}
use kinetic_sdk_agents.Agent.Batch.Replay.{
  ids_of, HaveIds, execute_tool_calls-IsReplayable, execute_tool_calls-uncapped,
}
use kinetic_sdk_agents.Agent.Loop.{
  Run, Loop, Outcome, LlmResponse, ContextManager, Checked, fits, unproven, invalid, Verdict,
  with_world, user_says, after_escalation, say, again, stop, returned, waiting, not_verified,
  llm_failed, verdict_of, assistant_content,
}
use kinetic_sdk_agents.Agent.Loop.Turn.{
  cancelled_or, persisted, rejected, accepted_or_not, verified, corrected, checked_answer,
  answered_with, drain, unless_stuck, after_batch, respond, received, ask, listened, answered_by,
  reply, has_asked,
}
use kinetic_sdk_agents.Agent.Gate.Authority.{Sound}
use kinetic_sdk_agents.Agent.Loop.Replay.{
  KeepsReplayable, NamesFreshly, AllReplayable, no_ids, user-IsReplayable, assistant_content-ids,
}

module _ {W : Type 0} (l : Loop W) (tools : Dict Tool) where
  -- What holds of a run between its turns.
  abbrev pub Good : Run W → Type 0
  Good r =
      (r.agent.tools ≡ tools)
      × Authorised l.config r.agent.trace
      × (r.agent.state.max_messages ≡ none)
      × IsReplayable r.agent.state.messages
      × AllReplayable r.asked

  -- Where a batch waits for a confirmation, the last turn has uses without results.
  abbrev pub Left : Outcome → Run W → Type 0
  Left waiting r = Authorised l.config r.agent.trace × AllReplayable r.asked
  Left llm_failed r = Good r
  Left (returned answer) r = Good r
  Left (not_verified answer feedback) r = Good r

  abbrev pub Passed : Run W → Option Outcome → Type 0
  Passed r none = Good r
  Passed r (some o) = Left o r

  abbrev pub After : Run W × Option Outcome → Type 0
  After (r, o) = Passed r o

module _ {W : Type 0} (l : Loop W) (tools : Dict Tool) (registry : IsRegistry l.config tools)
    (sequential : l.parallel ≡ false) (names : NamesFreshly l)
    (keeps : (m : ContextManager) → l.context_manager ≡ some m → KeepsReplayable m) where
  user_says-Good : (body : String) (r : Run W) → Good l tools r → Good l tools (user_says body r)
  unfolding add_user_message append
  user_says-Good body r (t, a, u, h, asked) =
      (t, a, u, user-IsReplayable body r.agent.state u h, asked)

  pub cancelled_or-After :
      (next : Run W → Run W × Option Outcome) (r : Run W)
      → ((r' : Run W) → Good l tools r' → After l tools (next r'))
      → Good l tools r
      → After l tools (cancelled_or l next r)
  cancelled_or-After next r rest h = go (l.config.cancelled r.agent.world).0
    where
      polled : Run W
      polled = with_world (l.config.cancelled r.agent.world).1 r

      go :
          (c : Bool)
          → After l tools (
              if c
              then stop (returned r.final_text) (say "agent.cancelled" polled)
              else next polled)
      go true = h
      go false = rest polled h

  verified-After :
      (v : Option (String → W → Verdict × W)) (answer : String) (r : Run W)
      → Good l tools r
      → After l tools (verified l v answer r)
  verified-After none answer r h = h
  verified-After (some verify) answer r h =
      by_verdict (verdict_of (verify answer r.agent.world).0).0
    where
      feedback : String
      feedback = (verdict_of (verify answer r.agent.world).0).1

      polled : Run W
      polled = with_world (verify answer r.agent.world).1 r

      retry : (left : ℕ) → After l tools (rejected l left answer feedback polled)
      retry zero = h
      retry (suc left) = user_says-Good _ polled h

      by_verdict :
          (accepted : Bool) → After l tools (accepted_or_not l accepted answer feedback polled)
      by_verdict true = h
      by_verdict false = retry r.verification_retries_left

  answered-After :
      (c : Option (String → Checked)) (answer : String) (r : Run W)
      → Good l tools r
      → After l tools (answered_with l c answer r)
  answered-After none answer r h = verified-After l.answer_verifier answer r h
  answered-After (some check) answer r h = go (check answer)
    where
      retry :
          (left : ℕ) (correction : String) → After l tools (corrected l left correction answer r)
      retry zero correction = verified-After l.answer_verifier answer r h
      retry (suc left) correction = user_says-Good correction r h

      go : (c : Checked) → After l tools (checked_answer l c answer r)
      go fits = verified-After l.answer_verifier answer r h
      go (unproven correction) = retry r.retries_left correction
      go (invalid correction) = retry r.retries_left correction

  drain-Good : (ms : List String) (r : Run W) → Good l tools r → Good l tools (drain l ms r)
  unfolding drain
  drain-Good [] r h = h
  drain-Good (m ∷ ms) r h =
      drain-Good ms (say "agent.message_injected" (user_says m r)) (user_says-Good m r h)

  batch-After :
      (o : Option Bool) (r : Run W)
      → Left l tools waiting r
      → ((any_error : Bool) → o ≡ some any_error → Good l tools r)
      → After l tools (after_batch l o r)
  batch-After none r h good = h
  batch-After (some any_error) r h good = go r.agent.stop_reason (good any_error refl)
    where
      saved : Run W
      saved = persisted l r

      go :
          (reason : Option String)
          → Good l tools r
          → After l tools (unless_stuck l reason any_error saved)
      go (some reason) k = k
      go none k =
          let (messages, w) = l.inbox saved.agent.world in
          cancelled_or-After (λ polled. again (after_escalation any_error polled))
            (listened l saved) (λ polled h'. h') (drain-Good messages (with_world w saved) k)

  -- The state between a response and the results of its calls.
  record Asking (calls : List ToolCall) (ms : List Message) (turn_ : Message) (r : Run W)
      : Type 0 where
    same : r.agent.tools ≡ tools
    authority : Authorised l.config r.agent.trace
    uncapped : r.agent.state.max_messages ≡ none
    history : r.agent.state.messages ≡ ms ++ turn_ ∷ []
    before : IsReplayable ms
    no_results : message_tool_result_ids turn_ ≡ []
    uses : message_tool_use_ids turn_ ≡ ids_of calls
    have : HaveIds calls
    apart : Apart (provided ms) (ids_of calls)
    asked : AllReplayable r.asked

  respond-After :
      (calls : List ToolCall) (content : String) (ms : List Message) (turn_ : Message) (r : Run W)
      → Asking calls ms turn_ r
      → After l tools (respond l calls content r)
  unfolding respond execute_batch
  respond-After [] content ms turn_ r h =
      answered-After l.check_final_answer content (record r { final_text = content })
        (
          h.same,
          h.authority,
          h.uncapped,
          subst IsReplayable (sym h.history) (
              round-IsReplayable ms turn_ [] [] h.before h.no_results h.uses (no_ids (provided ms))
                done),
          h.asked,
        )
  respond-After (call ∷ calls) content ms turn_ r h =
      subst
        (λ b.
          let (agent, o) = execute_batch l.config l.pool b (call ∷ calls) r.agent in
          After l tools (after_batch l o (record r { agent = agent })))
        (sym sequential) one_by_one
    where
      sound : Sound l.config tools r.agent.state r.agent
      sound = record { same = h.same; kept = refl; authority = h.authority }

      one_by_one : After l tools (
          after_batch l
            (execute_tool_calls l.config (call ∷ calls) r.agent).1
            (record r { agent = (execute_tool_calls l.config (call ∷ calls) r.agent).0 }))
      one_by_one =
          let (p, authority, same) =
            execute_tool_calls-Progress l.config tools (call ∷ calls) r.agent.state r.agent registry
              sound in
          batch-After (execute_tool_calls l.config (call ∷ calls) r.agent).1
            (record r { agent = (execute_tool_calls l.config (call ∷ calls) r.agent).0 })
            (authority, h.asked)
            (λ any_error ended. (
              same,
              authority,
              execute_tool_calls-uncapped l.config tools (call ∷ calls) r.agent registry sound
                  h.uncapped,
              execute_tool_calls-IsReplayable l.config tools (call ∷ calls) ms turn_ r.agent.state
                  r.agent any_error registry sound h.uncapped h.history h.before h.no_results h.uses
                  h.have h.apart ended,
              h.asked,
            ))

  answered_by-Asking :
      (response : LlmResponse) (r : Run W)
      → Good l tools r
      → HaveIds response.tool_calls
      → Apart (provided r.agent.state.messages) (ids_of response.tool_calls)
      → Asking response.tool_calls r.agent.state.messages
          (message assistant (assistant_content response))
          (answered_by l response r)
  unfolding add_assistant append
  answered_by-Asking response r (t, a, u, h, asked) have apart =
      let (uses, results) = assistant_content-ids response have in
      record {
        same = t;
        authority = a;
        uncapped = u;
        history =
            (append-newest (message assistant (assistant_content response)) r.agent.state).0
            ∙ ap
                (λ o.
                  newest o
                    (r.agent.state.messages ++ message assistant (assistant_content response) ∷ []))
                u;
        before = h;
        no_results = results;
        uses = uses;
        have = have;
        apart = apart;
        asked = asked;
      }

  pub ask-After :
      (extra : Option String) (r : Run W) → Good l tools r → After l tools (ask l extra r)
  unfolding for_llm
  ask-After extra r (t, a, u, h, asked) = go (reply l extra r).0 refl
    where
      go :
          (o : Option LlmResponse)
          → (reply l extra r).0 ≡ o
          → After l tools (received l o (has_asked l extra r))
      go none e = (t, a, u, h, (h, asked))
      go (some response) e =
          let (have, apart) = names _ r.agent.state.messages r.agent.world response e in
          respond-After response.tool_calls response.content r.agent.state.messages
            (message assistant (assistant_content response))
            (answered_by l response (has_asked l extra r))
            (answered_by-Asking response (has_asked l extra r) (t, a, u, h, (h, asked)) have apart)
