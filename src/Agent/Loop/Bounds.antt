-- ===== src/Agent/Loop/Bounds.antt =====
-- The run loop ends.
use kinetic_sdk_agents.Prelude.{
  ℕ, zero, suc, ◌+◌, ◌-◌, ◌≤◌, ◌<◌, ◌≡◌, refl, ap, String, Bool, true, false, Option, none, some,
  List, [], ◌∷◌, if◌then◌else◌, ltb, leb, ◌==◌, ◌&&◌, ◌||◌, max, ltb→lt, length, arith,
}
use kinetic_sdk_agents.Agent.{ToolCall, AgentMode, flash, max_mode}
use kinetic_sdk_agents.Agent.Batch.Parallel.{execute_batch}
use kinetic_sdk_agents.Agent.Routing.{
  Routing, maybe_escalate, escalate_if, if_flash, escalate, escalate_to, raised_cap, escalates_to,
  flash_escalation_threshold,
}
use kinetic_sdk_agents.Agent.Loop.{
  Run, Loop, Outcome, LlmResponse, ContextManager, Checked, fits, unproven, invalid, Verdict,
  with_world, with_state, user_says, after_escalation, say, again, stop, returned, verdict_of,
  in_budget, not_verified,
}
use kinetic_sdk_agents.Agent.Loop.Turn.{
  compacted, cancelled_or, persisted, rejected, accepted_or_not, verified, corrected,
  checked_answer, answered_with, drain, unless_stuck, after_batch, respond, received, ask,
  sent_back, listened, answered_by, reply, has_asked, ready, ask_in_budget, prepared, turn,
  exhausted, left_or, run_loop,
}

-- Escalation raises the iteration cap at most to that of MAX.
escalate-cap :
    (b : ℕ) (s : Routing) → s.max_iterations ≤ b → 50 ≤ b → (escalate s).0.max_iterations ≤ b
unfolding escalate
escalate-cap b s h k = go s.mode
  where
    raised : (o : Option ℕ) → raised_cap o max_mode s.max_iterations ≤ b
    raised none = k
    raised (some n) = h

    go : (m : AgentMode) → (escalate_to (escalates_to m) s).0.max_iterations ≤ b
    go max_mode = h
    go flash = raised s.max_iterations_override

maybe_escalate-cap :
    (b iteration : ℕ) (triggered already : Bool) (s : Routing)
    → s.max_iterations ≤ b
    → 50 ≤ b
    → (maybe_escalate iteration triggered already s).0.max_iterations ≤ b
unfolding maybe_escalate
maybe_escalate-cap b iteration triggered true s h k = h
maybe_escalate-cap b iteration triggered false s h k = go s.mode
  where
    tested : (d : Bool) → (escalate_if d s).0.max_iterations ≤ b
    tested true = escalate-cap b s h k
    tested false = h

    go : (m : AgentMode) → (if_flash m iteration triggered s).0.max_iterations ≤ b
    go max_mode = h
    go flash =
        tested ((iteration == 0 && triggered) || leb flash_escalation_threshold (iteration + 1))

module _ {W : Type 0} (l : Loop W) (b : ℕ) (enough : 50 ≤ b) where
  -- A run in its `n`th pass, which has asked the model at most `k` times.
  abbrev Counts : ℕ → ℕ → Run W → Type 0
  Counts n k r = (r.routing.max_iterations ≤ b) × (r.iteration ≡ n) × (length r.asked ≤ k)

  abbrev Passed : ℕ → ℕ → Run W → Option Outcome → Type 0
  Passed n k r none = Counts (n + 1) k r
  Passed n k r (some o) = length r.asked ≤ k

  -- After a pass: the next one is one further, and the model was asked at most `k` times.
  abbrev After : ℕ → ℕ → Run W × Option Outcome → Type 0
  After n k (r, o) = Passed n k r o

  again-After : (n k : ℕ) (r : Run W) → Counts n k r → After n k (again r)
  again-After n k r (capped, pass, asks) = (capped, ap (λ i. i + 1) pass, asks)

  escalated-After :
      (n k : ℕ) (triggered : Bool) (r : Run W)
      → Counts n k r
      → After n k (again (after_escalation triggered r))
  escalated-After n k triggered r (capped, pass, asks) = (
    maybe_escalate-cap b r.iteration triggered r.escalated r.routing capped enough,
    ap (λ i. i + 1) pass,
    asks,
  )

  -- The poll of the cancellation flag, between a run that asked at most `k` times and a rest that
  -- may ask up to `j` times.
  cancelled_or-After :
      (n k j : ℕ) (next : Run W → Run W × Option Outcome) (r : Run W)
      → k ≤ j
      → ((r' : Run W) → Counts n k r' → After n j (next r'))
      → Counts n k r
      → After n j (cancelled_or l next r)
  cancelled_or-After n k j next r le rest h = go (l.config.cancelled r.agent.world).0
    where
      polled : Run W
      polled = with_world (l.config.cancelled r.agent.world).1 r

      go :
          (c : Bool)
          → After n j (
              if c
              then stop (returned r.final_text) (say "agent.cancelled" polled)
              else next polled)
      go true = omega (arith, h.2)
      go false = rest polled h

  verified-After :
      (n k : ℕ) (v : Option (String → W → Verdict × W)) (answer : String) (r : Run W)
      → Counts n k r
      → After n k (verified l v answer r)
  verified-After n k none answer r h = h.2
  verified-After n k (some verify) answer r h =
      judged_ (verdict_of (verify answer r.agent.world).0).0
    where
      feedback : String
      feedback = (verdict_of (verify answer r.agent.world).0).1

      polled : Run W
      polled = with_world (verify answer r.agent.world).1 r

      retry : (left : ℕ) → After n k (rejected l left answer feedback polled)
      retry zero = h.2
      retry (suc left) = escalated-After n k true (sent_back l left answer feedback polled) h

      judged_ : (accepted : Bool) → After n k (accepted_or_not l accepted answer feedback polled)
      judged_ true = h.2
      judged_ false = retry r.verification_retries_left

  answered-After :
      (n k : ℕ) (c : Option (String → Checked)) (answer : String) (r : Run W)
      → Counts n k r
      → After n k (answered_with l c answer r)
  answered-After n k none answer r h = verified-After n k l.answer_verifier answer r h
  answered-After n k (some check) answer r h = go (check answer)
    where
      retry : (left : ℕ) (correction : String) → After n k (corrected l left correction answer r)
      retry zero correction = verified-After n k l.answer_verifier answer r h
      retry (suc left) correction =
          again-After n k (user_says correction (record r { retries_left = left })) h

      go : (c : Checked) → After n k (checked_answer l c answer r)
      go fits = verified-After n k l.answer_verifier answer r h
      go (unproven correction) = retry r.retries_left correction
      go (invalid correction) = retry r.retries_left correction

  drain-Counts : (n k : ℕ) (ms : List String) (r : Run W) → Counts n k r → Counts n k (drain l ms r)
  unfolding drain
  drain-Counts n k [] r h = h
  drain-Counts n k (m ∷ ms) r h =
      drain-Counts n k ms (say "agent.message_injected" (user_says m r)) h

  batch-After :
      (n k : ℕ) (o : Option Bool) (r : Run W) → Counts n k r → After n k (after_batch l o r)
  batch-After n k none r h = h.2
  batch-After n k (some any_error) r h = go r.agent.stop_reason
    where
      saved : Run W
      saved = persisted l r

      go : (reason : Option String) → After n k (unless_stuck l reason any_error saved)
      go (some reason) = h.2
      go none =
          let (messages, w) = l.inbox saved.agent.world in
          cancelled_or-After n k k (λ polled. again (after_escalation any_error polled))
            (listened l saved) (omega arith) (λ polled. escalated-After n k any_error polled)
            (drain-Counts n k messages (with_world w saved) h)

  respond-After :
      (n k : ℕ) (calls : List ToolCall) (content : String) (r : Run W)
      → Counts n k r
      → After n k (respond l calls content r)
  unfolding respond
  respond-After n k [] content r h =
      answered-After n k l.check_final_answer content (record r { final_text = content }) h
  respond-After n k (call ∷ calls) content r h =
      batch-After n k (execute_batch l.config l.pool l.parallel (call ∷ calls) r.agent).1
        (record r { agent = (execute_batch l.config l.pool l.parallel (call ∷ calls) r.agent).0 }) h

  turn-After : (n k : ℕ) (r : Run W) → Counts n k r → After n (suc k) (turn l r)
  unfolding turn
  turn-After n k r h =
      cancelled_or-After n k (suc k) (prepared l) (with_world (l.wait r.agent.world) r)
        (omega arith) (λ r' h'. prepare r' h') h
    where
      ask_ : (extra : Option String) (r : Run W) → Counts n k r → After n (suc k) (ask l extra r)
      ask_ extra r (capped, pass, asks) = go (reply l extra r).0
        where
          go : (o : Option LlmResponse) → After n (suc k) (received l o (has_asked l extra r))
          go none = omega (arith, asks)
          go (some response) =
              respond-After n (suc k) response.tool_calls response.content
                (answered_by l response (has_asked l extra r)) (capped, pass, omega (arith, asks))

      budget :
          (b : Bool) (extra : Option String) (r : Run W)
          → Counts n k r
          → After n (suc k) (ask_in_budget l b extra r)
      budget false extra r h = omega (arith, h.2)
      budget true extra r h = ask_ extra r h

      compact_ :
          (m : Option ContextManager) (r : Run W) → Counts n k r → Counts n k (compacted l m r)
      compact_ none r h = h
      compact_ (some m) r h = go (m.should_compact r.agent.state)
        where
          go :
              (d : Bool)
              → Counts n k (
                  if d then say "context.compacted" (with_state (m.compact r.agent.state) r) else r)
          go true = h
          go false = h

      prepare : (r : Run W) → Counts n k r → After n (suc k) (prepared l r)
      prepare r h =
          let (extra, w) = l.before_llm_call (ready l r).agent.world in
          cancelled_or-After n k (suc k)
            (λ polled. ask_in_budget l (in_budget polled.run_budget) extra polled)
            (with_world w (ready l r)) (omega arith)
            (λ polled h'. budget (in_budget polled.run_budget) extra polled h')
            (compact_ l.context_manager (say "agent.turn_started" r) h)

  -- From its `n`th pass, a run with enough fuel for the passes up to the bound ends, and asks the
  -- model at most once in each.
  run_loop-Ends :
      (fuel n k : ℕ) (r : Run W)
      → b - n < fuel
      → Counts n k r
      → (r' : Run W) × (o : Outcome) × (run_loop l fuel r ≡ some (r', o))
        × (length r'.asked ≤ k + (b - n))
  unfolding run_loop
  run_loop-Ends zero n k r fuelled h = absurd (omega arith)
  run_loop-Ends (suc fuel) n k r fuelled h =
      go (ltb r.iteration r.routing.max_iterations) refl (run_loop-Ends fuel)
    where
      Goal : Option (Run W × Outcome) → Type 0
      Goal x = (r' : Run W) × (o : Outcome) × (x ≡ some (r', o)) × (length r'.asked ≤ k + (b - n))

      ended : (rejected : Option (String × String)) → Goal (some (exhausted l rejected r))
      ended none = (say "agent.error" r, returned r.final_text, refl, omega (arith, h.2))
      ended (some (answer, feedback)) = (
        say "agent.verification_exhausted" r,
        not_verified answer feedback,
        refl,
        omega (arith, h.2),
      )

      Rest : Type 0
      Rest =
          (m j : ℕ) (s : Run W)
          → b - m < fuel
          → Counts m j s
          → (r' : Run W) × (o : Outcome) × (run_loop l fuel s ≡ some (r', o))
            × (length r'.asked ≤ j + (b - m))

      next :
          (r' : Run W) (o : Option Outcome)
          → n < b
          → Passed n (suc k) r' o
          → Rest
          → Goal (left_or l (r', o) (run_loop l fuel))
      next r' (some o) lt p rest = (r', o, refl, omega (arith, p))
      next r' none lt p rest =
          let (last, o, e, asks) = rest (n + 1) (suc k) r' (omega arith) p in
          (last, o, e, omega (arith, asks))

      go :
          (c : Bool)
          → ltb r.iteration r.routing.max_iterations ≡ c
          → Rest
          → Goal (
              if c
              then left_or l (turn l r) (run_loop l fuel)
              else some (exhausted l r.rejected_answer r))
      go false e rest = ended r.rejected_answer
      go true e rest =
          next (turn l r).0 (turn l r).1 (omega (arith, ltb→lt _ _ e, h.0, h.1))
            (turn-After n k r h) rest

-- A run's loop ends, whatever the model, the hooks and the verifier do: a fuel of one more than the
-- larger of the iteration cap and that of MAX (50) is enough, and the model is asked at most as
-- often as that larger cap says.
pub run_loop-ends :
    {W : Type 0} (l : Loop W) (r : Run W)
    → r.iteration ≡ 0
    → r.asked ≡ []
    → (r' : Run W) × (o : Outcome) × (run_loop l (suc (max r.routing.max_iterations 50)) r
        ≡ some (r', o))
      × (length r'.asked ≤ max r.routing.max_iterations 50)
run_loop-ends l r first fresh =
    let (r', o, e, asks) =
      run_loop-Ends l (max r.routing.max_iterations 50) (omega arith)
        (suc (max r.routing.max_iterations 50)) 0 0 r (omega arith)
        (omega arith, first, omega (arith, ap length fresh)) in
    (r', o, e, omega (arith, asks))
