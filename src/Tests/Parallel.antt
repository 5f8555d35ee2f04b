-- ===== src/Tests/Parallel.antt =====
-- Runs of the parallel batches of kinetic_sdk/agent/agent.py.
use kinetic_sdk_agents.Prelude.{ℕ, zero, suc, ◌≡◌, refl, Bool, true, false, none, List, [], ◌∷◌}
use kinetic_sdk_agents.Agent.{ToolCall}
use kinetic_sdk_agents.Agent.Batch.Parallel.{Pool, timed_out, execute_batch}
use kinetic_sdk_agents.Tests.Agents.{config, agent, list_call, remove_call}

-- Only the first submission finds a slot, and its tool does not return in time.
abbrev first_only : ℕ → Bool
first_only zero = true
first_only (suc i) = false

abbrev pool : Pool ℕ
pool = record { submit = λ i tool arguments w. (first_only i, w); await = λ i w. (timed_out, w) }

abbrev calls : List ToolCall
calls = list_call ∷ list_call ∷ remove_call ∷ list_call ∷ []

-- The third call waits for a confirmation: the two before it are recorded, it and the last are kept.
waits_at_third :
    ((execute_batch config pool true calls agent).1 ≡ none)
    × ((execute_batch config pool true calls agent).0.pending_remaining_calls
        ≡ remove_call ∷ list_call ∷ [])
unfolding execute_batch
waits_at_third = (refl, refl)
