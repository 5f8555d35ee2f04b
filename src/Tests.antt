-- ===== src/Tests.antt =====
-- Runs on concrete inputs, and the theorems applied to them.
mod Contexts
mod Budgets
mod Agents
mod Loops
mod Locks
mod Parallel
mod Patches
mod Policies
mod Registries
mod Validations
mod Files
mod Todos
mod Delegations
