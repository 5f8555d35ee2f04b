-- ===== src/Budget/Spawn.antt =====
-- kinetic_sdk/subagent/budget.py, `SpawnBudget`: one counter for a whole tree of agents.
pub mod Laws
use kinetic_sdk_agents.Prelude.{
  ℕ, zero, suc, ◌+◌, ◌-◌, String, Bool, true, false, Option, none, some, List, [], ◌∷◌, leb,
  if◌then◌else◌, Result, ok, err,
}
use kinetic_sdk_agents.Prelude.Dict.{Dict, get, put}

pub record SpawnBudget : Type 0 where
  pub max_calls : ℕ
  pub used : ℕ
  pub per_agent : Dict ℕ

-- The exceptions of the constructor and of `record_tool_call`.
pub data Error : Type 0 where
  value_error budget_exceeded : Error

unfoldable pub new : ℕ → Result Error SpawnBudget
new zero = err value_error
new (suc n) = ok (record { max_calls = suc n; used = 0; per_agent = [] })

-- `self._per_agent.get(agent_id, 0)`
abbrev pub calls_of : String → Dict ℕ → ℕ
calls_of a d = elim (get a d) [ none ↦ 0 | some n ↦ n ]

-- One guarded call: the new state, and what it raised.
unfoldable pub record_tool_call : String → SpawnBudget → SpawnBudget × Result Error Unit
unfolding get put
record_tool_call agent_id b = if leb b.max_calls b.used then (b, err budget_exceeded) else (
  record b {
    used = b.used + 1;
    per_agent = put agent_id (calls_of agent_id b.per_agent + 1) b.per_agent;
  },
  ok tt,
)

unfoldable pub remaining : SpawnBudget → ℕ
remaining b = b.max_calls - b.used

unfoldable pub exhausted : SpawnBudget → Bool
exhausted b = leb b.max_calls b.used

-- The calls of all threads, in the order in which they take the lock.
unfoldable pub record_all : List String → SpawnBudget → SpawnBudget × List (Result Error Unit)
unfolding record_tool_call
record_all [] b = (b, [])
record_all (a ∷ as') b =
    let (b', r) = record_tool_call a b in let (b'', rs) = record_all as' b' in (b'', r ∷ rs)
