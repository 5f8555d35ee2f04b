-- ===== src/Agent/Loop/Histories.antt =====
-- The run loop keeps its histories replayable, from turn to turn.
use kinetic_sdk_agents.Prelude.{
  ℕ, zero, suc, ◌≡◌, refl, subst, String, Bool, true, false, Option, none, some, [], if◌then◌else◌,
  ltb, max,
}
use kinetic_sdk_agents.Prelude.Dict.{Dict}
use kinetic_sdk_agents.Agent.{Tool}
use kinetic_sdk_agents.Agent.Gate.Authority.{IsRegistry}
use kinetic_sdk_agents.Agent.Loop.{
  Run, Loop, Outcome, ContextManager, with_world, with_state, say, in_budget,
}
use kinetic_sdk_agents.Agent.Loop.Turn.{
  compacted, ready, ask_in_budget, prepared, turn, exhausted, left_or, run_loop,
}
use kinetic_sdk_agents.Agent.Loop.Bounds.{run_loop-ends}
use kinetic_sdk_agents.Agent.Loop.Replay.{KeepsReplayable, NamesFreshly}
use kinetic_sdk_agents.Agent.Loop.Answers.{Good, Left, Passed, After, cancelled_or-After, ask-After}

module _ {W : Type 0} (l : Loop W) (tools : Dict Tool) (registry : IsRegistry l.config tools)
    (sequential : l.parallel ≡ false) (names : NamesFreshly l)
    (keeps : (m : ContextManager) → l.context_manager ≡ some m → KeepsReplayable m) where
  compacted-Good : (r : Run W) → Good l tools r → Good l tools (compacted l l.context_manager r)
  compacted-Good r (t, a, u, h, asked) = go l.context_manager keeps
    where
      go :
          (m : Option ContextManager)
          → ((m' : ContextManager) → m ≡ some m' → KeepsReplayable m')
          → Good l tools (compacted l m r)
      go none k = (t, a, u, h, asked)
      go (some m) k = decide (m.should_compact r.agent.state)
        where
          decide :
              (d : Bool)
              → Good l tools (
                  if d then say "context.compacted" (with_state (m.compact r.agent.state) r) else r)
          decide true = (
            t,
            a,
            (k m refl).uncapped r.agent.state u,
            (k m refl).replayable r.agent.state h,
            asked,
          )
          decide false = (t, a, u, h, asked)

  turn-After : (r : Run W) → Good l tools r → After l tools (turn l r)
  unfolding turn
  turn-After r h =
      cancelled_or-After l tools registry sequential names keeps (prepared l)
        (with_world (l.wait r.agent.world) r) (λ r' h'. prepare r' h') h
    where
      budget :
          (b : Bool) (extra : Option String) (r : Run W)
          → Good l tools r
          → After l tools (ask_in_budget l b extra r)
      budget false extra r h = h
      budget true extra r h = ask-After l tools registry sequential names keeps extra r h

      prepare : (r : Run W) → Good l tools r → After l tools (prepared l r)
      prepare r h =
          let (extra, w) = l.before_llm_call (ready l r).agent.world in
          cancelled_or-After l tools registry sequential names keeps
            (λ polled. ask_in_budget l (in_budget polled.run_budget) extra polled)
            (with_world w (ready l r))
            (λ polled h'. budget (in_budget polled.run_budget) extra polled h')
            (compacted-Good (say "agent.turn_started" r) h)

  abbrev LeftIf : Option (Run W × Outcome) → Type 0
  LeftIf none = Unit
  LeftIf (some (r, o)) = Left l tools o r

  run_loop-LeftIf : (fuel : ℕ) (r : Run W) → Good l tools r → LeftIf (run_loop l fuel r)
  unfolding run_loop
  run_loop-LeftIf zero r h = tt
  run_loop-LeftIf (suc fuel) r h =
      go (ltb r.iteration r.routing.max_iterations) (run_loop-LeftIf fuel)
    where
      ended : (x : Option (String × String)) → LeftIf (some (exhausted l x r))
      ended none = h
      ended (some (answer, feedback)) = h

      next :
          (s : Run W) (o : Option Outcome)
          → Passed l tools s o
          → ((r' : Run W) → Good l tools r' → LeftIf (run_loop l fuel r'))
          → LeftIf (left_or l (s, o) (run_loop l fuel))
      next s none good rest = rest s good
      next s (some o) left_ rest = left_

      go :
          (c : Bool)
          → ((r' : Run W) → Good l tools r' → LeftIf (run_loop l fuel r'))
          → LeftIf (
              if c
              then left_or l (turn l r) (run_loop l fuel)
              else some (exhausted l r.rejected_answer r))
      go false rest = ended r.rejected_answer
      go true rest = next (turn l r).0 (turn l r).1 (turn-After r h) rest

  -- Let the agent run the tool calls of a response one after the other (`parallel_tool_execution` is
  -- off, as it is by default). Let the tools be registered under their own names, let each response of the model name its tool
  -- calls by ids that are not empty and that the history it was asked with has not used, and let the
  -- context manager, if there is one, keep histories replayable and set no cap. If a run begins with
  -- this registry, with every call of a tool in its trace permitted by what came before it, and with
  -- a replayable history without a cap, then its loop ends; every history that it sent to the model
  -- is replayable and every call of a tool permitted; and unless it waits for a confirmation, its
  -- last history is replayable too.
  pub run_loop-Left :
      (r : Run W)
      → r.iteration ≡ 0
      → r.asked ≡ []
      → Good l tools r
      → (r' : Run W) × (o : Outcome) × (run_loop l (suc (max r.routing.max_iterations 50)) r
          ≡ some (r', o))
        × Left l tools o r'
  run_loop-Left r first fresh h =
      let (r', o, e, asks) = run_loop-ends l r first fresh in
      (r', o, e, subst LeftIf e (run_loop-LeftIf (suc (max r.routing.max_iterations 50)) r h))
