-- ===== src/Delegation.antt =====
-- kinetic_sdk/subagent/delegation.py: the LLM clients of a tree of agents, which guard its budget
-- and each agent's breaker, and the client that kinetic_sdk/subagent/pool.py passes to its workers.
-- Providers, with what they read and change, are parameters.
pub mod Laws
pub mod Trees
use kinetic_sdk_agents.Prelude.{
  ℕ, String, Bool, true, false, ◌&&◌, not, Option, none, some, List, [], ◌∷◌, leb, str_eq,
  if◌then◌else◌, Result, ok, err,
}
use kinetic_sdk_agents.Prelude.Json.{Json}
use kinetic_sdk_agents.Agent.{ToolCall}
use kinetic_sdk_agents.Agent.Loop.{LlmResponse}
use kinetic_sdk_agents.Budget.Spawn.{SpawnBudget, record_tool_call}
use kinetic_sdk_agents.Budget.Spawn
use kinetic_sdk_agents.Budget.Repetition.{Breaker, record_call}
use kinetic_sdk_agents.Budget.Repetition

-- `_GuardedLLMClient` and `_SerializedLLMClient` around a provider's client. The breaker of a guard
-- is the one of its agent id.
pub data Client : Type 0 where
  provider : (name : String) → Client
  guarded : (inner : Client) (agent_id : String) → Client
  serialized : (inner : Client) → Client

-- What the guards of a tree share: the budget, and the breaker of each agent.
pub record Tree : Type 0 where
  pub budget : SpawnBudget
  pub breakers : String → Breaker

pub data Failure : Type 0 where
  llm_failed budget_exceeded repetition_limit : Failure

pub record Providers (W : Type 0) : Type 0 where
  -- `getattr(client, "model", None)`
  pub model : String → Option String
  -- a call of a provider; `none` is an exception
  pub answer : String → W → Option LlmResponse × W
  -- `_stable_serialise`
  pub serialise : Json → String

abbrev pub with_breaker : String → Breaker → (String → Breaker) → String → Breaker
with_breaker agent_id breaker breakers a = if str_eq agent_id a then breaker else breakers a

abbrev pub or_unknown : Option String → String
or_unknown none = "unknown"
or_unknown (some m) = m

module _ {W : Type 0} (p : Providers W) where
  abbrev pub counted :
      String → Tree → Breaker × Result Repetition.Error Unit → Tree × Result Failure Unit
  counted agent_id t (breaker, ok u) =
      (record t { breakers = with_breaker agent_id breaker t.breakers }, ok tt)
  counted agent_id t (breaker, err e) =
      (record t { breakers = with_breaker agent_id breaker t.breakers }, err repetition_limit)

  abbrev pub after_budget :
      String → ToolCall → Tree → SpawnBudget × Result Spawn.Error Unit → Tree × Result Failure Unit
  after_budget agent_id call t (budget, err e) = (record t { budget = budget }, err budget_exceeded)
  after_budget agent_id call t (budget, ok u) =
      counted agent_id (record t { budget = budget })
        (record_call p.serialise call.name call.arguments (t.breakers agent_id))

  unfoldable pub charge : String → ToolCall → Tree → Tree × Result Failure Unit
  unfolding record_tool_call record_call
  charge agent_id call t = after_budget agent_id call t (record_tool_call agent_id t.budget)

  -- The loop over the calls of a response stops at the first exception.
  abbrev pub then_charge :
      Tree × Result Failure Unit → (Tree → Tree × Result Failure Unit) → Tree × Result Failure Unit
  then_charge (t, err e) rest = (t, err e)
  then_charge (t, ok u) rest = rest t

  unfoldable pub charge_all : String → List ToolCall → Tree → Tree × Result Failure Unit
  unfolding charge
  charge_all agent_id [] t = (t, ok tt)
  charge_all agent_id (call ∷ calls) t =
      then_charge (charge agent_id call t) (charge_all agent_id calls)

  abbrev pub Answer : Type 0
  Answer = W × Tree × Result Failure LlmResponse

  abbrev pub from_provider : Option LlmResponse × W → Tree → Answer
  from_provider (none, w) t = (w, t, err llm_failed)
  from_provider (some response, w) t = (w, t, ok response)

  abbrev pub answered : W → LlmResponse → Tree × Result Failure Unit → Answer
  answered w response (t, ok u) = (w, t, ok response)
  answered w response (t, err e) = (w, t, err e)

  abbrev pub guard : String → Answer → Answer
  guard agent_id (w, t, err e) = (w, t, err e)
  guard agent_id (w, t, ok response) =
      answered w response (charge_all agent_id response.tool_calls t)

  unfoldable pub chat : Client → W → Tree → Answer
  unfolding charge_all
  chat (provider name) w t = from_provider (p.answer name w) t
  chat (serialized c) w t = chat c w t
  chat (guarded c agent_id) w t = guard agent_id (chat c w t)

  unfoldable pub model_of : Client → Option String
  model_of (provider name) = p.model name
  model_of (guarded c agent_id) = some (or_unknown (model_of c))
  model_of (serialized c) = some (or_unknown (model_of c))

  -- One guard around a client is taken off.
  abbrev pub unguarded : Client → Client
  unguarded (provider name) = provider name
  unguarded (guarded c agent_id) = c
  unguarded (serialized c) = serialized c

  -- The client that a spec asks for: `none` is an exception.
  abbrev pub by_factory : Option String → Option (String → Client) → Option Client → Option Client
  by_factory requested none other = other
  by_factory none (some factory) other = none
  by_factory (some m) (some factory) other = some (factory m)

  -- `spec.model or getattr(base_llm, "model", None)`
  abbrev pub requested_model : Option String → Client → Option String
  requested_model none base = model_of base
  requested_model (some m) base = if str_eq m "" then model_of base else some m

  abbrev pub is_model : String → Option String → Bool
  is_model m none = false
  is_model m (some m') = str_eq m m'

  abbrev pub inherited : Option String → Client → Option Client
  inherited none base = some base
  inherited (some m) base = if is_model m (model_of base) then some base else none

  abbrev pub base_llm : Option Client → Client → Client
  base_llm none parent = unguarded parent
  base_llm (some override) parent = unguarded override

  abbrev pub spawned_with :
      String → Result Repetition.Error Breaker → Option Client → Tree → Tree × Option Client
  spawned_with agent_id breaker none t = (t, none)
  spawned_with agent_id (err e) (some base) t = (t, none)
  spawned_with agent_id (ok breaker) (some base) t = (
    record t { breakers = with_breaker agent_id breaker t.breakers },
    some (guarded base agent_id),
  )

  -- `spawn_subagent`, as far as it makes the client: the new agent's id and its limit of repeats,
  -- and the override, the parent's client, the spec's model and the factory.
  unfoldable pub spawn_llm :
      String
      → ℕ
      → Option Client
      → Client
      → Option String
      → Option (String → Client)
      → Tree
      → Tree × Option Client
  unfolding model_of Repetition.new
  spawn_llm agent_id max_repeats override parent model factory t =
      let base = base_llm override parent in
      spawned_with agent_id (Repetition.new max_repeats)
        (by_factory (requested_model model base) factory (inherited model base)) t

  -- `SubagentPool.run_all` without a factory: its workers share the parent's client under a lock.
  unfoldable pub pool_override : ℕ → Client → Option (String → Client) → Option Client
  pool_override max_concurrency parent (some factory) = none
  pool_override max_concurrency parent none =
      if leb 2 max_concurrency then some (serialized parent) else none
