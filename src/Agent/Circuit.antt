-- ===== src/Agent/Circuit.antt =====
-- kinetic_sdk/agent/agent.py, `_circuit_is_open` and `_record_circuit_result`: a breaker for each
-- tool, by consecutive failures.
pub mod Laws
use kinetic_sdk_agents.Prelude.{
  ℕ, zero, suc, ◌+◌, String, Bool, true, false, Option, none, some, List, [], ◌∷◌, ltb, leb,
  if◌then◌else◌,
}
use kinetic_sdk_agents.Prelude.Dict.{get, put}
use kinetic_sdk_agents.Agent.{
  Agent, Config, Breakers, Tool, ToolResult, ToolExecutionPolicy, is_error,
}

-- `self._circuit_breakers.get(name, (0, None))`
abbrev pub or_closed : Option (ℕ × Option ℕ) → ℕ × Option ℕ
or_closed none = (0, none)
or_closed (some b) = b

unfoldable pub breaker : String → Breakers → ℕ × Option ℕ
unfolding get
breaker name d = or_closed (get name d)

-- `policy.circuit_breaker_threshold if policy else None`
abbrev pub threshold_of : Tool → Option ℕ
threshold_of t = elim t.execution_policy [ none ↦ none | some p ↦ p.circuit_breaker_threshold ]

abbrev pub cooldown_of : Tool → ℕ
cooldown_of t = elim t.execution_policy [ none ↦ 0 | some p ↦ p.circuit_breaker_cooldown ]

module _ {W : Type 0} (c : Config W) where
  -- The clock is read only for a tool with a threshold whose circuit has a deadline; a deadline
  -- that has passed resets the breaker.
  abbrev pub is_open_until : Tool → Option ℕ → Agent W → Agent W × Bool
  is_open_until t none s = (s, false)
  is_open_until t (some deadline) s =
      let (now, w) = c.monotonic s.world in
      if ltb now deadline then (record s { world = w }, true) else (
        record s { circuit_breakers = put t.name (0, none) s.circuit_breakers; world = w },
        false,
      )

  abbrev pub is_open_with : Option ℕ → Tool → Agent W → Agent W × Bool
  is_open_with none t s = (s, false)
  is_open_with (some threshold) t s = is_open_until t (breaker t.name s.circuit_breakers).1 s

  unfoldable pub circuit_is_open : Tool → Agent W → Agent W × Bool
  unfolding breaker put
  circuit_is_open t s = is_open_with (threshold_of t) t s

  -- The entry after a failure: the deadline is set once the count reaches the threshold.
  abbrev pub fail_entry : String → ℕ → ℕ → ℕ → Agent W → Agent W
  fail_entry name failures threshold cooldown s =
      if leb threshold failures
      then (let (now, w) = c.monotonic s.world in
          record s {
            circuit_breakers = put name (failures, some (now + cooldown)) s.circuit_breakers;
            world = w;
          })
      else record s { circuit_breakers = put name (failures, none) s.circuit_breakers }

  abbrev pub record_with : Option ℕ → String → Tool → ToolResult → Agent W → Agent W
  record_with none name t result s = s
  record_with (some threshold) name t result s =
      if is_error result
      then fail_entry name ((breaker name s.circuit_breakers).0 + 1) threshold (cooldown_of t) s
      else record s { circuit_breakers = put name (0, none) s.circuit_breakers }

  unfoldable pub record_circuit_result : String → Tool → ToolResult → Agent W → Agent W
  unfolding breaker put is_error
  record_circuit_result name t result s = record_with (threshold_of t) name t result s

  -- The results of one tool, the newest first.
  unfoldable pub record_results : String → Tool → List ToolResult → Agent W → Agent W
  unfolding record_circuit_result
  record_results name t [] s = s
  record_results name t (r ∷ older) s =
      record_circuit_result name t r (record_results name t older s)
