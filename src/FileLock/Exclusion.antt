-- ===== src/FileLock/Exclusion.antt =====
-- Leases of kinetic_sdk/subagent/filelock.py exclude each other, for the agents of one process.
use kinetic_sdk_agents.FileLock.{released}
use kinetic_sdk_agents.FileLock.Steps.{released as let_go, renewed as extended}
use kinetic_sdk_agents.FileLock.Backed.{Backed, Sound}
