-- ===== src/Budget.antt =====
-- The guardrails on tool calls and LLM calls: kinetic_sdk/subagent/budget.py (`SpawnBudget`,
-- `RepetitionCircuitBreaker`) and kinetic_sdk/agent/budget.py (`RunBudget`). Each method runs under
-- the object's lock, so threads that share one see its calls in some order: a list of calls.
pub mod Spawn
pub mod Repetition
pub mod Run
