-- ===== src/Agent/Gate/Retries.antt =====
-- How often a tool is called again, `_retry_transient_tool`.
use kinetic_sdk_agents.Prelude.{
  ℕ, zero, suc, ◌+◌, ◌≤◌, ◌≡◌, refl, ap, ◌⊎◌, inl, inr, Bool, true, false, ◌&&◌, List, [], ◌∷◌,
  arith, if◌then◌else◌,
}
use kinetic_sdk_agents.Prelude.Json.{Json}
use kinetic_sdk_agents.Agent.{
  Agent, Config, Tool, ToolCall, ToolResult, Action, logged_call, logged_denial, logged_result,
  confirmed, invoked, retried, emitted, is_error, emit,
}
use kinetic_sdk_agents.Agent.Gate.{run_tool, is_transient, retry_transient_tool}

-- The calls of tools in a trace.
abbrev pub invocations : List Action → ℕ
invocations [] = 0
invocations (invoked name arguments ∷ older) = suc (invocations older)
invocations (logged_call name arguments d ∷ older) = invocations older
invocations (logged_denial name arguments reason ∷ older) = invocations older
invocations (logged_result name result ∷ older) = invocations older
invocations (confirmed name arguments ∷ older) = invocations older
invocations (retried id attempt ∷ older) = invocations older
invocations (emitted type id ∷ older) = invocations older

module _ {W : Type 0} (c : Config W) where
  -- An error that is marked as transient.
  abbrev pub retryable : ToolResult → Bool
  retryable r = is_error r && is_transient c r.failure_category

  -- One call of the tool again, past a poll.
  abbrev pub called_again : ToolCall → Tool → Json → ℕ → Agent W → Agent W × ToolResult
  called_again call tool arguments attempt s =
      run_tool c tool arguments
        (emit (retried call.id attempt) (record s { world = (c.cancelled s.world).1 }))

  -- The calls of the tool after a result: each of them comes behind a transient error, in a run that a
  -- poll did not find cancelled, and with the same arguments.
  pub data Tries (call : ToolCall) (tool : Tool) (arguments : Json)
      : ℕ → ℕ → Agent W → ToolResult → Agent W → ToolResult → Type 0 where
    none_made :
        (attempt : ℕ) (s : Agent W) (r : ToolResult) → Tries call tool arguments 0 attempt s r s r
    one_more :
        (n attempt : ℕ) (s : Agent W) (r : ToolResult) (s' : Agent W) (r' : ToolResult)
        → retryable r ≡ true
        → (c.cancelled s.world).0 ≡ false
        → Tries call tool arguments n
            (attempt + 1)
            (called_again call tool arguments attempt s).0
            (called_again call tool arguments attempt s).1
            s'
            r'
        → Tries call tool arguments (suc n) attempt s r s' r'

  -- Why there is no further call, and the state that is returned.
  abbrev pub Stops : ℕ → ℕ → Agent W → ToolResult → Agent W → Type 0
  Stops left made s r out =
      ((made ≡ left) × (out ≡ s))
      ⊎ (((retryable r ≡ false) × (out ≡ s))
          ⊎ ((retryable r ≡ true)
              × ((c.cancelled s.world).0 ≡ true)
              × (out ≡ record s { world = (c.cancelled s.world).1 })))

  -- Some further calls, at most those left, the last one's result, and why they ended.
  pub record Ended (call : ToolCall) (tool : Tool) (arguments : Json) (left attempt : ℕ)
      (s : Agent W) (r : ToolResult) (out : Agent W × ToolResult) : Type 0 where
    pub made : ℕ
    pub at_most : made ≤ left
    pub last : Agent W
    pub tries : Tries call tool arguments made attempt s r last out.1
    pub counted : invocations last.trace ≡ invocations s.trace + made
    pub stops : Stops left made last out.1 out.0

  -- Retrying calls the tool at most as often as retries are left, and each time only behind a
  -- transient error and where a poll has not found the run cancelled; it returns the last result; and
  -- it stops only where no retry is left, at a result that is no transient error, or when a poll finds
  -- the run cancelled.
  pub retry_transient_tool-Ended :
      (left attempt : ℕ) (call : ToolCall) (tool : Tool) (arguments : Json) (r : ToolResult)
      (s : Agent W)
      → Ended call tool arguments left attempt s r
          (retry_transient_tool c left attempt call tool arguments r s)
  unfolding retry_transient_tool run_tool
  retry_transient_tool-Ended zero attempt call tool arguments r s = record {
    made = 0;
    at_most = omega arith;
    last = s;
    tries = none_made attempt s r;
    counted = omega arith;
    stops = inl (refl, refl);
  }
  retry_transient_tool-Ended (suc left) attempt call tool arguments r s =
      go (retryable r) refl (c.cancelled s.world).0 refl (
        retry_transient_tool-Ended left (attempt + 1) call tool arguments
          (called_again call tool arguments attempt s).1
          (called_again call tool arguments attempt s).0)
    where
      polled : Agent W
      polled = record s { world = (c.cancelled s.world).1 }

      ran : Agent W × ToolResult
      ran = called_again call tool arguments attempt s

      again : Agent W × ToolResult
      again = retry_transient_tool c left (attempt + 1) call tool arguments ran.1 ran.0

      one_later :
          (n : ℕ) (last out : Agent W) (r' : ToolResult)
          → Stops left n last r' out
          → Stops (suc left) (suc n) last r' out
      one_later n last out r' (inl (e, same)) = inl (ap suc e, same)
      one_later n last out r' (inr other) = inr other

      go :
          (b : Bool)
          → retryable r ≡ b
          → (d : Bool) → (c.cancelled s.world).0 ≡ d
          → Ended call tool arguments left (attempt + 1) ran.0 ran.1 again
          → Ended call tool arguments
              (suc left)
              attempt
              s
              r
              (if b then (if d then (polled, r) else again) else (s, r))
      go false fine d e next = record {
        made = 0;
        at_most = omega arith;
        last = s;
        tries = none_made attempt s r;
        counted = omega arith;
        stops = inr (inl (fine, refl));
      }
      go true failed true e next = record {
        made = 0;
        at_most = omega arith;
        last = s;
        tries = none_made attempt s r;
        counted = omega arith;
        stops = inr (inr (failed, e, refl));
      }
      go true failed false e next = record {
        made = suc next.made;
        at_most = omega (arith, next.at_most);
        last = next.last;
        tries = one_more next.made attempt s r next.last again.1 failed e next.tries;
        counted = omega (arith, next.counted);
        stops = one_later next.made next.last again.0 again.1 next.stops;
      }
