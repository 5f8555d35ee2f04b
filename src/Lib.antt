-- ===== src/Lib.antt =====
-- kinetic-agent-sdk: an agent loop with tools. A model's turns ask for tool calls; each call is
-- gated by hooks, a permission policy, a circuit breaker and a schema check, run with retries, and
-- answered in a conversation, which a context manager compacts before it outgrows the model's
-- window. Budgets and detectors stop runs that loop or cost too much.
--
-- Files and sources (paths from the repository's root):
-- - Prelude and its children: natural numbers, texts and their lines, JSON values, dictionaries,
--   sets of ids.
-- - Conversation: kinetic_sdk/conversation/state.py, one function for each method of
--   `ConversationState`. Conversation/Replay defines a history that a provider accepts.
-- - Context: kinetic_sdk/context/manager.py. Context/Estimate has the token estimates and
--   `should_compact`, Context/Trim the trimming of tool results, Context/Tail the choice of the
--   tail that is kept, Context/Compact `compact` of both truncating managers.
-- - Budget: kinetic_sdk/subagent/budget.py (Budget/Spawn, Budget/Repetition) and
--   kinetic_sdk/agent/budget.py (Budget/Run).
-- - Delegation: kinetic_sdk/subagent/delegation.py, the guarded clients of a tree of agents and the
--   client that `spawn_subagent` makes, with the one that `SubagentPool.run_all` passes on.
-- - Stuck: kinetic_sdk/agent/stuck_detector.py.
-- - Agent: kinetic_sdk/agent/agent.py. Agent/Routing has the FLASH and MAX modes, Agent/Circuit
--   the circuit breakers, Agent/Gate `_prepare_call` and `_execute_one`, Agent/Batch
--   `_execute_tool_calls` and `_resolve_pending_confirmation`, and Agent/Loop `_run_loop`, with the
--   context manager as an interface that Agent/Loop/Manager fills.
--   Agent/Batch/Parallel has `_execute_tool_calls_parallel` over a thread pool that is a parameter.
-- - Validation: kinetic_sdk/tool/validation.py; the gate takes a schema check as a parameter.
-- - Policy: kinetic_sdk/security/policy.py; Policy/Paths has `_path_matches_prefix`.
-- - Registry: kinetic_sdk/event/bus.py (Registry/Bus) and kinetic_sdk/hooks/registry.py
--   (Registry/Hooks).
-- - Patch: kinetic_sdk/files/patch.py, the hunks of one file; Patch/Execute has `execute`.
-- - FileTool: kinetic_sdk/files/tool.py, the leases and the undo texts. FileTool/Match has the loose
--   matching (FileTool/Match/Indent its indentation), FileTool/Actions the actions that write, and
--   FileTool/View `_view` and `execute`. A workspace is a dictionary of texts.
-- - FileLock: kinetic_sdk/subagent/filelock.py; FileLock/Acquire has the loop of `acquire`,
--   FileLock/Listing `locked_paths`, `release_all` and the handles, and FileLock/Steps the calls
--   of agents that share a registry, as a step relation.
-- - Todo: kinetic_sdk/todo, models.py and store.py; Todo/Tool has the tools of tool.py.
-- - Tests: runs on concrete inputs.
--
-- State is passed explicitly: a method is a function from the record of its object to the new
-- record, with its result; an exception is a constructor of an error type, or `none`. What is not
-- in the repository (tools' own code, hooks' bodies, the policy, clocks, cancellation by other
-- threads, digests, serialisers) is a field of `Config` or an argument; those that have effects
-- read and change a world `W`. Methods that a lock protects are atomic, and threads are the order
-- in which their calls come.
--
-- Every loop is structural recursion on its list, or on the retries that are left, so no loop has
-- fuel, but for four: the printing of a decimal number has one round more than the number as its
-- fuel, since each step divides it by ten; the trigger of hooks is over a list that they may
-- change, so its fuel is an argument; and so are those of the run loop and of `acquire`, which are proved to end.
--
-- Numbers are natural numbers; fractions of a context window are quotients of two of them, and
-- times are in ticks. The texts of error messages are shortened to their fixed part.
-- Not modelled: streaming and asynchronous execution, checkpoint files, logging, memory, the parser
-- of patches, the git snapshots of edited files, the settings that a spawned agent inherits besides
-- its client, and the packages that are I/O.
pub mod Agent
pub mod Budget
pub mod Context
pub mod Conversation
pub mod Delegation
pub mod FileLock
pub mod FileTool
pub mod Patch
pub mod Policy
pub mod Prelude
pub mod Registry
pub mod Stuck
pub mod Tests
pub mod Todo
pub mod Validation
