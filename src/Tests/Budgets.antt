-- ===== src/Tests/Budgets.antt =====
-- Runs of kinetic_sdk/subagent/budget.py, kinetic_sdk/agent/budget.py and
-- kinetic_sdk/agent/stuck_detector.py.
use kinetic_sdk_agents.Prelude.{
  ◌+◌, ◌<◌, ◌≡◌, ◌↔◌, refl, String, Option, none, some, List, [], ◌∷◌, arith, min, err,
}
use kinetic_sdk_agents.Budget.Spawn.{SpawnBudget, remaining, record_all}
use kinetic_sdk_agents.Budget.Spawn.Laws.{IsValid, charged, outcomes, record_all_exact}
use kinetic_sdk_agents.Budget.Run.{RunBudget, Usage, guarded_calls}
use kinetic_sdk_agents.Budget.Run.Laws.{Guarded, guarded_calls-Guarded}
use kinetic_sdk_agents.Budget.Repetition.{Key, Breaker, record_key, after, reset, repetition_limit}
use kinetic_sdk_agents.Budget.Repetition.Laws.{run_length, record_key-run}
use kinetic_sdk_agents.Stuck.{Call, StuckDetector}

abbrev shared : SpawnBudget
shared = record { max_calls = 2; used = 0; per_agent = [] }

shared-IsValid : IsValid shared
unfolding charged
shared-IsValid = record { within = omega arith; summed = refl }

abbrev callers : List String
callers = "root" ∷ "child" ∷ "root" ∷ []

record_all_exact_example :
    IsValid (record_all callers shared).0
    × ((record_all callers shared).0.max_calls ≡ 2)
    × ((record_all callers shared).0.used ≡ 0 + min 3 (remaining shared))
    × ((record_all callers shared).1 ≡ outcomes (remaining shared) 3)
record_all_exact_example = record_all_exact callers shared shared-IsValid

abbrev run_budget : RunBudget
run_budget = record { max_calls = some 2; max_tokens = some 100; used_calls = 0; used_tokens = 0 }

abbrev usage : Option Usage
usage = some (record { input_tokens = some 30; output_tokens = none })

abbrev usages : List (Option Usage)
usages = usage ∷ none ∷ usage ∷ []

run_budget_stops : (guarded_calls usages run_budget).1 ≡ 2
unfolding guarded_calls
run_budget_stops = refl

guarded_calls-Guarded_example : Guarded usages run_budget (guarded_calls usages run_budget)
guarded_calls-Guarded_example = guarded_calls-Guarded usages run_budget (omega arith)

abbrev ls : Key
ls = record { tool_name = "ls"; arguments = "{}" }

abbrev breaker : Breaker
breaker = record { max_repeats = 1; last_key = none; count = 0 }

record_key-run_example :
    let r = record_key ls (after (ls ∷ []) (reset breaker)) in
    (r.0.count ≡ run_length (ls ∷ ls ∷ []))
    × ((r.1 ≡ err repetition_limit) ↔ (breaker.max_repeats < run_length (ls ∷ ls ∷ [])))
record_key-run_example = record_key-run ls (ls ∷ []) breaker

abbrev call : Call
call = record { tool_name = "ls"; args_hash = "1"; result_hash = "2" }

abbrev detector : StuckDetector
detector = record { window_size = 2; repeat_threshold = 2; calls = [] }

abbrev deaf : StuckDetector
deaf = record { window_size = 2; repeat_threshold = 3; calls = [] }
