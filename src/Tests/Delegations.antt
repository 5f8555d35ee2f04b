-- ===== src/Tests/Delegations.antt =====
-- Runs of kinetic_sdk/subagent/delegation.py.
use kinetic_sdk_agents.Prelude.{◌+◌, ◌≤◌, ◌≡◌, refl, none, some, List, [], ◌∷◌, arith}
use kinetic_sdk_agents.Prelude.Json.{null}
use kinetic_sdk_agents.Agent.{ToolCall}
use kinetic_sdk_agents.Delegation.{
  Client, provider, guarded, serialized, Tree, Providers, chat, spawn_llm, pool_override,
}
use kinetic_sdk_agents.Delegation.Trees.{Below, child, grandchild, chats, chats-Within}

abbrev read_call : ToolCall
read_call = record { id = "t"; name = "read"; arguments = null }

-- A provider whose answers ask for one tool call.
abbrev one_call : Providers Unit
one_call = record {
  model = λ name. some name;
  answer = λ name w. (some (record { content = ""; tool_calls = read_call ∷ []; usage = none }), w);
  serialise = λ v. "";
}

abbrev tree : Tree
tree = record {
  budget = record { max_calls = 5; used = 0; per_agent = [] };
  breakers = λ a. record { max_repeats = 3; last_key = none; count = 0 };
}

-- A child of a child has one guard, for its own id.
grandchild_run :
    (spawn_llm one_call "b" 3 none (guarded (provider "m") "a") none none tree).1
    ≡ some (guarded (provider "m") "b")
unfolding spawn_llm
grandchild_run = refl

-- A worker of a pool whose parent is itself a child is charged twice for one call.
pooled_run :
    (chat one_call (guarded (serialized (guarded (provider "m") "a")) "b") tt tree).1.budget.used
    ≡ 2
unfolding chat
pooled_run = refl

pooled_spawn :
    (spawn_llm one_call "b" 3
      (pool_override one_call 3 (guarded (provider "m") "a") none)
      (guarded (provider "m") "a")
      none
      none
      tree).1
    ≡ some (guarded (serialized (guarded (provider "m") "a")) "b")
unfolding spawn_llm pool_override
pooled_spawn = refl

abbrev team : List Client
team = guarded (provider "m") "a" ∷ guarded (provider "m") "b" ∷ []

first_child : Below one_call (provider "m") (guarded (provider "m") "a")
unfolding spawn_llm
first_child = child "a" 3 none none tree (guarded (provider "m") "a") tt refl

second_child : Below one_call (provider "m") (guarded (provider "m") "b")
unfolding spawn_llm
second_child = grandchild first_child "b" 3 none none tree (guarded (provider "m") "b") tt refl

chats-Within_example :
    ((chats one_call team tt tree).0.budget.max_calls ≡ 5)
    × (0 + (chats one_call team tt tree).1 ≤ (chats one_call team tt tree).0.budget.used)
    × ((chats one_call team tt tree).0.budget.used ≤ 5)
chats-Within_example =
    chats-Within one_call (provider "m") tt team tt tree (first_child, (second_child, tt))
      (omega arith)
